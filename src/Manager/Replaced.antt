-- ===== src/Manager/Replaced.antt =====
-- The renames of changes/manager.py: what they leave, wherever they stop.
use incidentlens.Common.{
  ℕ, false, Option, some, List, [], ◌∷◌, All, here, there, Result, ok, err, ◌>>=◌, >>=-ok, >>=-err,
  ◌≡◌, refl, sym, ap, ◌∙◌, subst, Option-cases, inl, inr, ◌⊎◌,
}
use incidentlens.Policy.Paths.{PurePosixPath, RemoteScope}
use incidentlens.Changes.Vault.{Bytes}
use incidentlens.Manager.Types.{
  Runtime, Backend, Config, FileMutation, ChangeSetRequest, files_of, World, Progress, Failure,
  remote, is_uncertain_failure, problem, no_file_request,
}
use incidentlens.Manager.Replace.{
  file_req_by_path, request_at, note_applied, rename_to, rename_at, rename_file,
}
use incidentlens.Manager.Monad.{on_files, item, for_each, locals}
use incidentlens.Manager.Frames.{Result-cases}
use incidentlens.Manager.Plan.{In, AreDistinct, IsFileSystem, Plan, IsApart, HasPlan}
use incidentlens.Manager.Members.{In-snoc}
use incidentlens.Manager.Ends.{item_ok}
use incidentlens.Manager.Replacing.{
  IsReplacing, refused-IsReplacing, applied-IsReplacing, applied_at,
}
use incidentlens.Manager.Noted.{note_applied_state}

-- The files of the request are in one scope.
abbrev pub Scopes : RemoteScope → ChangeSetRequest → Type 0
Scopes scope request =
    (p : PurePosixPath) (f : FileMutation)
    → file_req_by_path p (files_of request) ≡ some f
    → f.scope ≡ scope

-- No call of the step was lost on the way, so that its effect is known.
abbrev pub IsCalm : Result Failure (Unit {0}) → Type 0
IsCalm result = (e : Failure) → result ≡ err e → is_uncertain_failure e ≡ false

module _ {R : Type 0} (backend : Backend R) (scope : RemoteScope)
    (content : R → PurePosixPath → Option Bytes) (fs : IsFileSystem backend scope content)
    (plan : Plan) (apart : IsApart plan) where
  module _ {A : Type 0} (py : Runtime) (config : Config) (now : ℕ)
      (request : ChangeSetRequest) where
    -- What a rename of `p` leaves.
    abbrev Leaves : PurePosixPath → World R A → World R A → Type 0
    Leaves p w u =
        IsReplacing content plan u.files u.progress
        × ((q : PurePosixPath)
            → In q u.progress.applied_files
            → In q w.progress.applied_files ⊎ (p ≡ q))

    rename_to-Leaves :
        (p : PurePosixPath) (f : FileMutation) (w : World R A)
        → f.scope ≡ scope
        → In p plan.paths
        → ¬ In p w.progress.applied_files
        → IsReplacing content plan w.files w.progress
        → IsCalm
            (rename_to py backend config now request p f w.progress
              (plan.temp p)
              (plan.canonical p)
              w).0
        → Leaves p w
            (rename_to py backend config now request p f w.progress
              (plan.temp p)
              (plan.canonical p)
              w).1
    rename_to-Leaves p f w at_scope i out h calm =
        elim (Result-cases (backend.rename f.scope (plan.temp p) (plan.canonical p) w.files).0) [
          | inr (e, failed) ↦
              let files = (backend.rename f.scope (plan.temp p) (plan.canonical p) w.files).1 in
              let call : on_files (backend.rename f.scope (plan.temp p) (plan.canonical p)) w
                  ≡ (err (remote e), record w { files = files }) =
                rw (failed, on_files) refl in
              let run =
                >>=-err (on_files (backend.rename f.scope (plan.temp p) (plan.canonical p)))
                  (λ _. note_applied py backend config now request p f w.progress) w call in
              let quiet =
                calm (remote e) (ap (λ (o : Result Failure (Unit {0}) × World R A). o.0) run) in
              subst (λ (o : Result Failure (Unit {0}) × World R A). Leaves p w o.1) (sym run)
                (
                  refused-IsReplacing backend scope content fs plan apart w.files files w.progress
                      (λ q.
                        ap
                          (λ k.
                            content (backend.rename k (plan.temp p) (plan.canonical p) w.files).1 q)
                          at_scope
                        ∙ fs.rename_refused (plan.temp p) (plan.canonical p) q w.files e
                            (ap (λ k. (backend.rename k (plan.temp p) (plan.canonical p) w.files).0)
                                (sym at_scope)
                              ∙ failed)
                            quiet)
                      h,
                  λ q iq. inl iq,
                )
          | inl (x, done) ↦
              let files = (backend.rename f.scope (plan.temp p) (plan.canonical p) w.files).1 in
              let moved : World R A = record w { files = files } in
              let call : on_files (backend.rename f.scope (plan.temp p) (plan.canonical p)) w
                  ≡ (ok x, moved) =
                rw (done, on_files) refl in
              let run =
                >>=-ok (on_files (backend.rename f.scope (plan.temp p) (plan.canonical p)))
                  (λ _. note_applied py backend config now request p f w.progress) w call in
              let (files_are, progress_is) =
                note_applied_state py backend config now request p f w.progress moved in
              let after =
                applied-IsReplacing backend scope content fs plan apart p w.files w.progress i out
                  h in
              let here_files : (note_applied py backend config now request p f w.progress
                    moved).1.files
                  ≡ (backend.rename scope (plan.temp p) (plan.canonical p) w.files).1 =
                files_are
                ∙ ap (λ k. (backend.rename k (plan.temp p) (plan.canonical p) w.files).1)
                    at_scope in
              subst (λ (o : Result Failure (Unit {0}) × World R A). Leaves p w o.1) (sym run)
                (
                  subst
                      (λ l.
                        IsReplacing content plan
                          (note_applied py backend config now request p f w.progress moved).1.files
                          l)
                      (sym progress_is)
                      (subst (λ r. IsReplacing content plan r (applied_at p w.progress))
                        (sym here_files) after),
                  λ q iq.
                      In-snoc w.progress.applied_files p
                        (subst (λ (l : Progress). In q l.applied_files) progress_is iq),
                )
        ]

    pub rename_file_run :
        (p : PurePosixPath) (f : FileMutation) (w : World R A)
        → In p plan.paths
        → HasPlan plan w.progress
        → file_req_by_path p (files_of request) ≡ some f
        → rename_file py backend config now request p w
          ≡ rename_to py backend config now request p f w.progress
              (plan.temp p)
              (plan.canonical p)
              w
    unfolding rename_file
    rename_file_run p f w i has found =
        let asked : request_at py backend config now request p w ≡ (ok f, w) =
          rw (found, request_at) refl in
        >>=-ok (request_at py backend config now request p)
          (λ f. locals >>= rename_at py backend config now request p f) w asked
        ∙ >>=-ok (item p w.progress.temp_paths)
            (λ temp_path.
              item p w.progress.canonical_paths
              >>= rename_to py backend config now request p f w.progress temp_path)
            w (item_ok p w.progress.temp_paths w (has.temps p i))
        ∙ >>=-ok (item p w.progress.canonical_paths)
            (rename_to py backend config now request p f w.progress (plan.temp p)) w
            (item_ok p w.progress.canonical_paths w (has.canonicals p i))

    rename_file-Leaves :
        (p : PurePosixPath) (w : World R A)
        → Scopes scope request
        → In p plan.paths
        → ¬ In p w.progress.applied_files
        → IsReplacing content plan w.files w.progress
        → IsCalm (rename_file py backend config now request p w).0
        → Leaves p w (rename_file py backend config now request p w).1
    unfolding rename_file
    rename_file-Leaves p w scopes i out h calm =
        elim (Option-cases (file_req_by_path p (files_of request))) [
          | inl e ↦
              let asked : request_at py backend config now request p w
                  ≡ (err (problem no_file_request), w) =
                rw (e, request_at) refl in
              let run =
                >>=-err (request_at py backend config now request p)
                  (λ f. locals >>= rename_at py backend config now request p f) w asked in
              subst (λ (o : Result Failure (Unit {0}) × World R A). Leaves p w o.1) (sym run)
                (h, λ q iq. inl iq)
          | inr (f, e) ↦
              let run = rename_file_run p f w i h.has e in
              subst (λ (o : Result Failure (Unit {0}) × World R A). Leaves p w o.1) (sym run)
                (rename_to-Leaves p f w (scopes p f e) i out h
                  (subst (λ (o : Result Failure (Unit {0}) × World R A). IsCalm o.0) run calm))
        ]

    -- What the loop leaves, wherever it stops.
    pub rename_each :
        (ps : List PurePosixPath) (w : World R A)
        → Scopes scope request
        → All (λ p. In p plan.paths) ps
        → AreDistinct ps
        → ((p : PurePosixPath) → In p ps → ¬ In p w.progress.applied_files)
        → IsReplacing content plan w.files w.progress
        → IsCalm (for_each (rename_file py backend config now request) ps w).0
        → IsReplacing content plan
            (for_each (rename_file py backend config now request) ps w).1.files
            (for_each (rename_file py backend config now request) ps w).1.progress
    rename_each [] w scopes ins once out h calm = h
    rename_each (p ∷ ps) w scopes ins once out h calm =
        elim (Result-cases (rename_file py backend config now request p w).0) [
          | inr (e, failed) ↦
              let run : rename_file py backend config now request p w
                  ≡ (err e, (rename_file py backend config now request p w).1) =
                ap (λ r. (r, (rename_file py backend config now request p w).1)) failed in
              let whole =
                >>=-err (rename_file py backend config now request p)
                  (λ _. for_each (rename_file py backend config now request) ps) w run in
              let quiet = calm e (ap (λ (o : Result Failure (Unit {0}) × World R A). o.0) whole) in
              let left =
                rename_file-Leaves p w scopes ins.0 (out p (here refl)) h
                  (λ e' q. subst (λ k. is_uncertain_failure k ≡ false) (cc (failed, q)) quiet) in
              subst
                (λ (o : Result Failure (Unit {0}) × World R A).
                  IsReplacing content plan o.1.files o.1.progress)
                (sym whole) left.0
          | inl (x, done) ↦
              let w1 = (rename_file py backend config now request p w).1 in
              let run : rename_file py backend config now request p w ≡ (ok x, w1) =
                ap (λ r. (r, (rename_file py backend config now request p w).1)) done in
              let whole =
                >>=-ok (rename_file py backend config now request p)
                  (λ _. for_each (rename_file py backend config now request) ps) w run in
              let left =
                rename_file-Leaves p w scopes ins.0 (out p (here refl)) h
                  (λ e' q. absurd (cc (done, q))) in
              subst
                (λ (o : Result Failure (Unit {0}) × World R A).
                  IsReplacing content plan o.1.files o.1.progress)
                (sym whole)
                (rename_each ps w1 scopes ins.1 once.1
                  (λ q iq was. elim (left.1 q was) [
                    | inl before ↦ out q (there iq) before
                    | inr e ↦ once.0 (subst (λ k. In k ps) (sym e) iq)
                  ])
                  left.0
                  (subst (λ (o : Result Failure (Unit {0}) × World R A). IsCalm o.0) whole calm))
        ]
