-- ===== src/Manager/Replacing.antt =====
-- The state while `_apply_locked` of changes/manager.py renames: what is applied, and what is kept.
use incidentlens.Common.{Option, [], ◌∷◌, ◌++◌, All, All-append, ◌≡◌, ◌≢◌, sym, ◌∙◌}
use incidentlens.Policy.Paths.{PurePosixPath, RemoteScope}
use incidentlens.Changes.Vault.{Bytes}
use incidentlens.Manager.Types.{Backend, Progress}
use incidentlens.Manager.Backups.{mem_path}
use incidentlens.Manager.Plan.{
  In, In-append_left, AreDistinct, IsFileSystem, Plan, IsApart, HasPlan, IsBacked,
}
use incidentlens.Manager.Members.{In-last, AreDistinct-snoc}
use incidentlens.Manager.Plan.{IsBacked-same}

-- The files that are not applied have their old contents, and all can be restored.
pub record IsReplacing {R : Type 0} (content : R → PurePosixPath → Option Bytes) (plan : Plan)
    (r : R) (l : Progress) : Type 0 where
  pub has : HasPlan plan l
  pub ins : All (λ p. In p plan.paths) l.applied_files
  pub once : AreDistinct l.applied_files
  pub backed :
      (q : PurePosixPath) → In q plan.paths → IsBacked content plan (mem_path q plan.new_files) q r
  pub kept :
      (q : PurePosixPath)
      → In q plan.paths
      → ¬ In q l.applied_files
      → content r (plan.canonical q) ≡ plan.original q

-- The locals after the file at `p` is applied.
abbrev pub applied_at : PurePosixPath → Progress → Progress
applied_at p l = record l { applied_files = l.applied_files ++ p ∷ [] }

module _ {R : Type 0} (backend : Backend R) (scope : RemoteScope)
    (content : R → PurePosixPath → Option Bytes) (fs : IsFileSystem backend scope content)
    (plan : Plan) (apart : IsApart plan) where
  pub refused-IsReplacing :
      (r s : R) (l : Progress)
      → ((q : PurePosixPath) → content s q ≡ content r q)
      → IsReplacing content plan r l
      → IsReplacing content plan s l
  refused-IsReplacing r s l same h = record {
    has = h.has;
    ins = h.ins;
    once = h.once;
    backed = λ q i.
        IsBacked-same content plan (mem_path q plan.new_files) q r s (same (plan.backup q))
          (h.backed q i);
    kept = λ q i out. same (plan.canonical q) ∙ h.kept q i out;
  }

  pub applied-IsReplacing :
      (p : PurePosixPath) (r : R) (l : Progress)
      → In p plan.paths
      → ¬ In p l.applied_files
      → IsReplacing content plan r l
      → IsReplacing content plan
          (backend.rename scope (plan.temp p) (plan.canonical p) r).1
          (applied_at p l)
  applied-IsReplacing p r l i out h = record {
    has = record {
      canonicals = h.has.canonicals;
      temps = h.has.temps;
      backups = h.has.backups;
      added = h.has.added;
      entries = h.has.entries;
    };
    ins = All-append (λ p. In p plan.paths) l.applied_files (p ∷ []) h.ins (i, tt);
    once = AreDistinct-snoc l.applied_files p h.once out;
    backed = λ q iq.
        IsBacked-same content plan (mem_path q plan.new_files) q r
          (backend.rename scope (plan.temp p) (plan.canonical p) r).1
          (fs.rename_elsewhere (plan.temp p) (plan.canonical p) (plan.backup q) r
            (apart.backup-ne-temp q p iq i) (λ e. apart.canonical-ne-backup p q i iq (sym e)))
          (h.backed q iq);
    kept = λ q iq outside.
        let ne : p ≢ q = λ e. outside (In-last l.applied_files e) in
        fs.rename_elsewhere (plan.temp p) (plan.canonical p) (plan.canonical q) r
          (apart.canonical-ne-temp q p iq i) (λ e. apart.canonical-ne p q i iq ne (sym e))
        ∙ h.kept q iq (λ inside. outside (In-append_left l.applied_files (p ∷ []) inside));
  }
