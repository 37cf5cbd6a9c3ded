-- ===== src/Manager/Restored.antt =====
-- The restore loop of `_handle_failure` in changes/manager.py gives the files their old contents.
use incidentlens.Common.{
  ℕ, String, Bool, true, false, Option, some, List, [], ◌∷◌, All, here, Result, ok, pure, ◌>>=◌,
  >>=-ok, ◌≡◌, refl, sym, ap, ◌∙◌, subst, Bool-cases, Option-cases, inl, inr,
}
use incidentlens.Policy.Paths.{PurePosixPath, RemoteScope}
use incidentlens.Changes.Vault.{Bytes}
use incidentlens.Manager.Types.{
  Runtime, Backend, Config, FileMutation, ChangeSetRequest, files_of, World, Progress, Failure,
}
use incidentlens.Manager.Backups.{mem_path}
use incidentlens.Manager.Replace.{file_req_by_path, request_at}
use incidentlens.Manager.Restore.{
  restore_files, restore_at, remove_new, rename_back, note_restored, add_failure,
}
use incidentlens.Manager.Monad.{Step, on_files, item, attempt, no_updates}
use incidentlens.Manager.Frames.{bind_ok, ok_err, Keeps, update_file-Keeps}
use incidentlens.Manager.Plan.{In, AreDistinct, IsFileSystem, Plan, IsApart, HasPlan, IsBacked}
use incidentlens.Manager.Left.{IsLeft, removed-IsLeft, renamed-IsLeft}
use incidentlens.Manager.Ends.{item_ok, on_files_ok, attempt_ok}

ok_inj : {A : Type 0} {a b : A} → ◌≡◌ {A = Result Failure A} (ok a) (ok b) → a ≡ b
ok_inj e = cc e

paths_inj :
    {a b : List PurePosixPath} → ◌≡◌ {A = Result Failure (List PurePosixPath)} (ok a) (ok b) → a ≡ b
paths_inj e = cc e

no_failure :
    (done : Bool) (p : PurePosixPath) (failures : List PurePosixPath)
    → add_failure done p failures ≡ []
    → (done ≡ true) × (failures ≡ [])
no_failure true p failures h = (refl, h)
no_failure false p failures h = absurd (cc h)

module _ {R : Type 0} (backend : Backend R) (scope : RemoteScope)
    (content : R → PurePosixPath → Option Bytes) (fs : IsFileSystem backend scope content)
    (plan : Plan) (apart : IsApart plan) where
  module _ {A : Type 0} (py : Runtime) (config : Config) (now : ℕ)
      (request : ChangeSetRequest) where
    note : FileMutation → String → Step R A (Unit {0})
    note f result = note_restored py backend config now request f result

    note-Keeps : (f : FileMutation) (result : String) → Keeps (note f result)
    unfolding note
    note-Keeps f result =
        update_file-Keeps request.changeset_id f.operation_id
          (record no_updates { rollback_result = some result; applied = some false })

    removed :
        (f : FileMutation) (p : PurePosixPath) (todo : List PurePosixPath) (w u : World R A)
        → f.scope ≡ scope
        → In p plan.paths
        → IsBacked content plan true p w.files
        → IsLeft content plan (p ∷ todo) w.files
        → remove_new py backend config now request f (plan.canonical p) w ≡ (ok tt, u)
        → IsLeft content plan todo u.files
    unfolding note
    removed f p todo w u at_scope i absent left h =
        let (x, v, first, second) =
          bind_ok (on_files (backend.remove_file f.scope (plan.canonical p)))
            (λ _. note f "removed") w h in
        let (done, files_are, _) =
          on_files_ok (backend.remove_file f.scope (plan.canonical p)) w first in
        let kept = (note-Keeps f "removed" v).0 in
        let files : u.files ≡ (backend.remove_file f.scope (plan.canonical p) w.files).1 =
          sym (ap (λ (o : Result Failure (Unit {0}) × World R A). o.1.files) second)
          ∙ kept
          ∙ files_are in
        subst (IsLeft content plan todo)
          (sym (files ∙ ap (λ k. (backend.remove_file k (plan.canonical p) w.files).1) at_scope))
          (removed-IsLeft backend scope content fs plan apart p todo w.files i absent left
            (ap (λ k. (backend.remove_file k (plan.canonical p) w.files).0) (sym at_scope) ∙ done))

    renamed :
        (f : FileMutation) (p : PurePosixPath) (todo : List PurePosixPath) (w u : World R A)
        → f.scope ≡ scope
        → In p plan.paths
        → ¬ In p todo
        → IsBacked content plan false p w.files
        → IsLeft content plan (p ∷ todo) w.files
        → rename_back py backend config now request f (plan.canonical p) (plan.backup p) w
          ≡ (ok tt, u)
        → IsLeft content plan todo u.files
    unfolding note
    renamed f p todo w u at_scope i once saved left h =
        let (x, v, first, second) =
          bind_ok (on_files (backend.rename f.scope (plan.backup p) (plan.canonical p)))
            (λ _. note f "restored") w h in
        let (done, files_are, _) =
          on_files_ok (backend.rename f.scope (plan.backup p) (plan.canonical p)) w first in
        let kept = (note-Keeps f "restored" v).0 in
        let files : u.files
            ≡ (backend.rename f.scope (plan.backup p) (plan.canonical p) w.files).1 =
          sym (ap (λ (o : Result Failure (Unit {0}) × World R A). o.1.files) second)
          ∙ kept
          ∙ files_are in
        subst (IsLeft content plan todo)
          (sym (
            files
            ∙ ap (λ k. (backend.rename k (plan.backup p) (plan.canonical p) w.files).1) at_scope))
          (renamed-IsLeft backend scope content fs plan apart p todo w.files i once saved left (
            ap (λ k. (backend.rename k (plan.backup p) (plan.canonical p) w.files).0) (sym at_scope)
            ∙ done))

    restored :
        (l : Progress) (f : FileMutation) (p : PurePosixPath) (todo : List PurePosixPath)
        (w u : World R A)
        → HasPlan plan l
        → f.scope ≡ scope
        → In p plan.paths
        → ¬ In p todo
        → IsLeft content plan (p ∷ todo) w.files
        → restore_at py backend config now request l f p (plan.canonical p) w ≡ (ok tt, u)
        → IsLeft content plan todo u.files
    restored l f p todo w u has at_scope i once left at =
        let backed = left.backed p i (here refl) in
        elim (Bool-cases (mem_path p plan.new_files)) [
          | inl e ↦
              let is_new : mem_path p l.new_files ≡ true = ap (mem_path p) has.added ∙ e in
              removed f p todo w u at_scope i (rw e at backed) left (rw (is_new, restore_at) at at)
          | inr e ↦
              let is_old : mem_path p l.new_files ≡ false = ap (mem_path p) has.added ∙ e in
              renamed f p todo w u at_scope i once (rw e at backed) left (
                sym (
                  >>=-ok (item p l.backup_paths)
                    (rename_back py backend config now request f (plan.canonical p)) w
                    (item_ok p l.backup_paths w (has.backups p i e)))
                ∙ (rw (is_old, restore_at) at at))
        ]

    pub request_at_ok :
        (p : PurePosixPath) (w : World R A) {f : FileMutation} {u : World R A}
        → request_at py backend config now request p w ≡ (ok f, u)
        → (file_req_by_path p (files_of request) ≡ some f) × (u ≡ w)
    request_at_ok p w {f} {u} h = elim (Option-cases (file_req_by_path p (files_of request))) [
      | inl e ↦ absurd (ok_err (rw (e, request_at) at h))
      | inr (g, e) ↦
          let same = rw (e, request_at) at h in
          let found : g ≡ f =
            ok_inj (ap (λ (o : Result Failure FileMutation × World R A). o.0) same) in
          (e ∙ ap some found, sym (ap (λ (o : Result Failure FileMutation × World R A). o.1) same))
    ]

    rest_of : Progress → PurePosixPath → List PurePosixPath → Bool → Step R A (List PurePosixPath)
    rest_of l p todo done = restore_files py backend config now request l todo >>= λ failures.
        pure (add_failure done p failures)

    tried_at :
        Progress
        → PurePosixPath
        → List PurePosixPath
        → FileMutation
        → PurePosixPath
        → Step R A (List PurePosixPath)
    tried_at l p todo f canonical =
        attempt (restore_at py backend config now request l f p canonical) >>= rest_of l p todo

    tried_of :
        Progress → PurePosixPath → List PurePosixPath → FileMutation → Step R A (List PurePosixPath)
    tried_of l p todo f = item p l.canonical_paths >>= tried_at l p todo f

    pub restored_all :
        (l : Progress) (todo : List PurePosixPath) (w : World R A) {u : World R A}
        → HasPlan plan l
        → ((p : PurePosixPath) (f : FileMutation)
            → file_req_by_path p (files_of request) ≡ some f
            → f.scope ≡ scope)
        → All (λ p. In p plan.paths) todo
        → AreDistinct todo
        → IsLeft content plan todo w.files
        → restore_files py backend config now request l todo w ≡ (ok [], u)
        → IsLeft content plan [] u.files
    unfolding restore_files rest_of tried_of tried_at
    restored_all l [] w {u} has scopes ins once left h =
        subst (λ (o : World R A). IsLeft content plan [] o.files)
          (ap (λ (o : Result Failure (List PurePosixPath) × World R A). o.1) h) left
    restored_all l (p ∷ todo) w {u} has scopes ins once left h =
        let (f, w1, asked, h1) =
          bind_ok (request_at py backend config now request p) (tried_of l p todo) w h in
        let (found, same) = request_at_ok p w asked in
        let at =
          sym (
            >>=-ok (item p l.canonical_paths) (tried_at l p todo f) w1
              (item_ok p l.canonical_paths w1 (has.canonicals p ins.0)))
          ∙ h1 in
        let (done, w2, tried, h2) =
          bind_ok (attempt (restore_at py backend config now request l f p (plan.canonical p)))
            (rest_of l p todo) w1 at in
        let (failures, w3, rest, h3) =
          bind_ok (restore_files py backend config now request l todo)
            (λ failures. pure (add_failure done p failures)) w2 h2 in
        let none_failed : add_failure done p failures ≡ [] =
          paths_inj (ap (λ (o : Result Failure (List PurePosixPath) × World R A). o.0) h3) in
        let last = ap (λ (o : Result Failure (List PurePosixPath) × World R A). o.1) h3 in
        let (all_done, empty) = no_failure done p failures none_failed in
        let step =
          restored l f p todo w1 w2 has (scopes p f found) ins.0 once.0
            (subst (λ (o : World R A). IsLeft content plan (p ∷ todo) o.files) (sym same) left)
            (attempt_ok (restore_at py backend config now request l f p (plan.canonical p)) w1
              (tried ∙ ap (λ b. (ok b, w2)) all_done)) in
        subst (λ (o : World R A). IsLeft content plan [] o.files) last
          (restored_all l todo w2 has scopes ins.1 once.1 step
            (rest ∙ ap (λ xs. (ok xs, w3)) empty))
