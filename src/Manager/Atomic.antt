-- ===== src/Manager/Atomic.antt =====
-- A failed replacement of changes/manager.py, with its handler: all files or none.
use incidentlens.Common.{
  ℕ, String, Bool, true, false, Option, List, [], ◌∷◌, All, here, there, Result, ok, err, pure,
  ◌>>=◌, ◌≡◌, refl, sym, ap, ◌∙◌, subst,
}
use mathlib.Core.List.{reverse}
use incidentlens.Policy.Paths.{PurePosixPath, RemoteScope}
use incidentlens.Changes.Types.{rolled_back, failed}
use incidentlens.Changes.Vault.{Bytes}
use incidentlens.Manager.Types.{
  Runtime, Backend, Config, ChangeSetRequest, World, Progress, Failure, is_uncertain_failure,
  ChangeResult,
}
use incidentlens.Manager.Paths.{sort_paths}
use incidentlens.Manager.Replace.{rename_files, keys}
use incidentlens.Manager.Restore.{
  restore_files, remove_temps, record_end, handle_failure, is_restored, failure_result,
}
use incidentlens.Manager.Monad.{Step, move_to, emit}
use incidentlens.Manager.Frames.{bind_ok, Keeps, bind-Keeps, emit-Keeps, move_to-Keeps}
use incidentlens.Manager.Plan.{In, AreDistinct, IsFileSystem, Plan, IsApart, IsReady}
use incidentlens.Manager.Members.{reverse-In, AreDistinct-reverse, All-reverse}
use incidentlens.Manager.Left.{IsLeft}
use incidentlens.Manager.Restored.{restored_all}
use incidentlens.Manager.Replacing.{IsReplacing}
use incidentlens.Manager.Replaced.{Scopes, rename_each}
use incidentlens.Manager.Temps.{Same, remove_temps_kept}

all_In :
    (xs ys : List PurePosixPath) → ((p : PurePosixPath) → In p xs → In p ys) → All (λ p. In p ys) xs
all_In [] ys h = tt
all_In (x ∷ xs) ys h = (h x (here refl), all_In xs ys (λ p i. h p (there i)))

restored_nil :
    (applied failures : List PurePosixPath) → is_restored applied failures ≡ true → failures ≡ []
restored_nil [] failures h = absurd (cc h)
restored_nil (p ∷ applied) [] h = refl
restored_nil (p ∷ applied) (q ∷ failures) h = absurd (cc h)

status_restored :
    (changeset_id : String) (e : Failure) (applied : List PurePosixPath) (restored : Bool)
    → (failure_result changeset_id e applied restored).status ≡ rolled_back
    → restored ≡ true
status_restored changeset_id e applied true h = refl
status_restored changeset_id e applied false h = absurd (cc h)

module _ {R : Type 0} (backend : Backend R) (scope : RemoteScope)
    (content : R → PurePosixPath → Option Bytes) (fs : IsFileSystem backend scope content)
    (plan : Plan) (apart : IsApart plan) where
  -- The state where the renames stopped is one that the restore loop can start from.
  IsReplacing-IsLeft :
      (r : R) (l : Progress)
      → IsReplacing content plan r l
      → IsLeft content plan (reverse l.applied_files) r
  IsReplacing-IsLeft r l h = record {
    kept = λ q iq out. h.kept q iq (λ i. out (reverse-In l.applied_files i));
    backed = λ q iq i. h.backed q iq;
  }

  IsReady-IsReplacing :
      (r : R) (l : Progress) → IsReady content plan r l → IsReplacing content plan r l
  IsReady-IsReplacing r l h = record {
    has = h.has;
    ins = subst (All (λ p. In p plan.paths)) (sym h.untouched) tt;
    once = subst AreDistinct (sym h.untouched) tt;
    backed = h.backed;
    kept = λ q iq out. h.originals q iq;
  }

  module _ {A : Type 0} (py : Runtime) (config : Config) (now : ℕ) (request : ChangeSetRequest)
      (scopes : Scopes scope request) where
    record_end-Keeps :
        (created restored : Bool)
        → Keeps (record_end {R = R} {A = A} py backend config now request created restored)
    record_end-Keeps false restored w = (refl, refl)
    record_end-Keeps true false w = move_to-Keeps config now request.changeset_id failed w
    record_end-Keeps true true w =
        bind-Keeps (move_to config now request.changeset_id rolled_back)
          (λ _. emit config request.changeset_id rolled_back false)
          (move_to-Keeps config now request.changeset_id rolled_back)
          (λ _. emit-Keeps config request.changeset_id rolled_back false) w

    abbrev closed : Failure → Progress → List PurePosixPath → Step R A ChangeResult
    closed e l failures = pure (
        failure_result request.changeset_id e l.applied_files
          (is_restored l.applied_files failures))

    abbrev recorded : Failure → Progress → List PurePosixPath → Step R A ChangeResult
    recorded e l failures =
        record_end py backend config now request l.changeset_created
          (is_restored l.applied_files failures)
        >>= λ _. closed e l failures

    abbrev cleaned : Failure → Progress → List PurePosixPath → Step R A ChangeResult
    cleaned e l failures =
        remove_temps py backend config now request l l.temp_paths >>= λ _. recorded e l failures

    -- A handler that ends with every file restored leaves the canonical paths as they were.
    handled :
        (e : Failure) (w : World R A) {result : ChangeResult} {u : World R A}
        → IsReplacing content plan w.files w.progress
        → handle_failure py backend config now request e w ≡ (ok result, u)
        → result.status ≡ rolled_back
        → (q : PurePosixPath) → In q plan.paths
        → content u.files (plan.canonical q) ≡ plan.original q
    unfolding handle_failure
    handled e w {result} {u} h run says q iq =
        let l = w.progress in
        let (failures, w1, restores, run1) =
          bind_ok (restore_files py backend config now request l (reverse l.applied_files))
            (cleaned e l) w run in
        let (_, w2, cleans, run2) =
          bind_ok (remove_temps py backend config now request l l.temp_paths)
            (λ _. recorded e l failures) w1 run1 in
        let (_, w3, records, run3) =
          bind_ok
            (record_end py backend config now request l.changeset_created
              (is_restored l.applied_files failures))
            (λ _. closed e l failures) w2 run2 in
        let given : failure_result request.changeset_id e l.applied_files
              (is_restored l.applied_files failures)
            ≡ result =
          cc (ap (λ (o : Result Failure ChangeResult × World R A). o.0) run3) in
        let restored =
          status_restored request.changeset_id e l.applied_files
            (is_restored l.applied_files failures)
            (ap (λ (r : ChangeResult). r.status) given ∙ says) in
        let empty = restored_nil l.applied_files failures restored in
        let left =
          restored_all backend scope content fs plan apart py config now request l
            (reverse l.applied_files) w h.has scopes
            (All-reverse (λ p. In p plan.paths) l.applied_files h.ins)
            (AreDistinct-reverse l.applied_files h.once) (IsReplacing-IsLeft w.files l h)
            (restores ∙ ap (λ xs. (ok xs, w1)) empty) in
        let dropped =
          subst
            (λ (o : Result Failure (Unit {0}) × World R A).
              Same backend scope content fs plan apart py config now request scopes q w1 o.1)
            cleans
            (remove_temps_kept backend scope content fs plan apart py config now request scopes l
              l.temp_paths q w1 h.has.entries iq) in
        let kept =
          subst (λ (o : Result Failure (Unit {0}) × World R A). o.1.files ≡ w2.files) records
            (record_end-Keeps l.changeset_created (is_restored l.applied_files failures) w2).0 in
        ap (λ (o : Result Failure ChangeResult × World R A). content o.1.files (plan.canonical q))
          (sym run3)
        ∙ ap (λ r. content r (plan.canonical q)) kept
        ∙ dropped
        ∙ left.kept q iq (λ i. elim i [ ])

    -- Renames of a change's files, all in one scope, that stop at a failure which is not a lost
    -- call, followed by a handler that reports `rolled_back`, leave at every canonical path of the
    -- change what stood there: of the files that the renames were to replace, none is replaced. The
    -- remote file system moves and removes as `IsFileSystem` says, the paths are apart, and at the
    -- start each file stands as it was and has its backup, as `IsReady` says.
    pub rename_files-handle_failure :
        (e : Failure) (w v : World R A) (result : ChangeResult) (u : World R A)
        → IsReady content plan w.files w.progress
        → rename_files py backend config now request w ≡ (err e, v)
        → is_uncertain_failure e ≡ false
        → handle_failure py backend config now request e v ≡ (ok result, u)
        → result.status ≡ rolled_back
        → (q : PurePosixPath) → In q plan.paths
        → content u.files (plan.canonical q) ≡ plan.original q
    unfolding rename_files
    rename_files-handle_failure e w v result u ready fails quiet run says q iq =
        let order = ready.in_order in
        let paths = sort_paths (keys w.progress.temp_paths) in
        let replacing =
          rename_each backend scope content fs plan apart py config now request paths w scopes
            (subst (All (λ p. In p plan.paths)) (sym order)
              (all_In plan.paths plan.paths (λ p i. i)))
            (subst AreDistinct (sym order) ready.once)
            (λ p i was. elim (subst (In p) ready.untouched was) [ ])
            (IsReady-IsReplacing w.files w.progress ready)
            (λ e' h.
              subst (λ k. is_uncertain_failure k ≡ false)
                (cc (ap (λ (o : Result Failure (Unit {0}) × World R A). o.0) fails, h)) quiet) in
        handled e v
          (subst
            (λ (o : Result Failure (Unit {0}) × World R A).
              IsReplacing content plan o.1.files o.1.progress)
            fails replacing)
          run says q iq
