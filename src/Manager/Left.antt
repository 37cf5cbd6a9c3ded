-- ===== src/Manager/Left.antt =====
-- The files that `_handle_failure` of changes/manager.py has still to restore.
use incidentlens.Common.{
  true, false, Option, List, ◌∷◌, here, there, ok, ◌≡◌, ◌≢◌, sym, ◌∙◌, subst, inl, inr,
}
use incidentlens.Policy.Paths.{PurePosixPath, RemoteScope}
use incidentlens.Changes.Vault.{Bytes}
use incidentlens.Manager.Types.{Backend}
use incidentlens.Manager.Backups.{mem_path}
use incidentlens.Manager.Plan.{In, path_cases, IsFileSystem, Plan, IsApart, IsBacked}
use incidentlens.Manager.Plan.{IsBacked-same}

-- Where `todo` is left to restore, the others have their old contents.
pub record IsLeft {R : Type 0} (content : R → PurePosixPath → Option Bytes) (plan : Plan)
    (todo : List PurePosixPath) (r : R) : Type 0 where
  pub kept :
      (q : PurePosixPath)
      → In q plan.paths
      → ¬ In q todo
      → content r (plan.canonical q) ≡ plan.original q
  pub backed :
      (q : PurePosixPath)
      → In q plan.paths
      → In q todo
      → IsBacked content plan (mem_path q plan.new_files) q r

module _ {R : Type 0} (backend : Backend R) (scope : RemoteScope)
    (content : R → PurePosixPath → Option Bytes) (fs : IsFileSystem backend scope content)
    (plan : Plan) (apart : IsApart plan) where
  pub removed-IsLeft :
      (p : PurePosixPath) (todo : List PurePosixPath) (r : R)
      → In p plan.paths
      → IsBacked content plan true p r
      → IsLeft content plan (p ∷ todo) r
      → (backend.remove_file scope (plan.canonical p) r).0 ≡ ok tt
      → IsLeft content plan todo (backend.remove_file scope (plan.canonical p) r).1
  removed-IsLeft p todo r i absent left done = record {
    kept = λ q iq out. elim (path_cases p q) [
      | inl e ↦
          subst
            (λ k.
              content (backend.remove_file scope (plan.canonical p) r).1 (plan.canonical k)
              ≡ plan.original k)
            e (fs.remove_removes (plan.canonical p) r done ∙ sym absent)
      | inr ne ↦
          fs.remove_elsewhere (plan.canonical p) (plan.canonical q) r
            (λ e. apart.canonical-ne p q i iq ne (sym e))
          ∙ left.kept q iq (λ o. elim o [ here e ↦ ne e | there t ↦ out t ])
    ];
    backed = λ q iq t.
        IsBacked-same content plan (mem_path q plan.new_files) q r
          (backend.remove_file scope (plan.canonical p) r).1
          (fs.remove_elsewhere (plan.canonical p) (plan.backup q) r
            (λ e. apart.canonical-ne-backup p q i iq (sym e)))
          (left.backed q iq (there t));
  }

  pub renamed-IsLeft :
      (p : PurePosixPath) (todo : List PurePosixPath) (r : R)
      → In p plan.paths
      → ¬ In p todo
      → IsBacked content plan false p r
      → IsLeft content plan (p ∷ todo) r
      → (backend.rename scope (plan.backup p) (plan.canonical p) r).0 ≡ ok tt
      → IsLeft content plan todo (backend.rename scope (plan.backup p) (plan.canonical p) r).1
  renamed-IsLeft p todo r i once (x, was, saved) left done = record {
    kept = λ q iq out. elim (path_cases p q) [
      | inl e ↦
          subst
            (λ k.
              content (backend.rename scope (plan.backup p) (plan.canonical p) r).1
                (plan.canonical k)
              ≡ plan.original k)
            e (fs.rename_moves (plan.backup p) (plan.canonical p) r x saved done ∙ sym was)
      | inr ne ↦
          fs.rename_elsewhere (plan.backup p) (plan.canonical p) (plan.canonical q) r
            (apart.canonical-ne-backup q p iq i) (λ e. apart.canonical-ne p q i iq ne (sym e))
          ∙ left.kept q iq (λ o. elim o [ here e ↦ ne e | there t ↦ out t ])
    ];
    backed = λ q iq t.
        let ne : p ≢ q = λ e. once (subst (λ k. In k todo) (sym e) t) in
        IsBacked-same content plan (mem_path q plan.new_files) q r
          (backend.rename scope (plan.backup p) (plan.canonical p) r).1
          (fs.rename_elsewhere (plan.backup p) (plan.canonical p) (plan.backup q) r
            (λ e. apart.backup-ne p q i iq ne (sym e))
            (λ e. apart.canonical-ne-backup p q i iq (sym e)))
          (left.backed q iq (there t));
  }
