-- ===== src/Manager/Moved.antt =====
-- The renames of changes/manager.py that all succeed: what stands at the canonical paths then.
use incidentlens.Common.{
  ℕ, Option, some, List, [], ◌∷◌, here, there, Result, ok, ◌>>=◌, ◌≡◌, ◌≢◌, refl, sym, ap, ◌∙◌,
  subst, inl, inr,
}
use incidentlens.Policy.Paths.{PurePosixPath, RemoteScope}
use incidentlens.Changes.Vault.{Bytes}
use incidentlens.Manager.Types.{
  Runtime, Backend, Config, FileMutation, ChangeSetRequest, World, Progress, Failure,
}
use incidentlens.Manager.Replace.{
  request_at, note_applied, rename_to, rename_at, rename_file, rename_files,
}
use incidentlens.Manager.Monad.{on_files, for_each, locals}
use incidentlens.Manager.Frames.{bind_ok}
use incidentlens.Manager.Ends.{on_files_ok}
use incidentlens.Manager.Plan.{
  In, AreDistinct, path_cases, IsFileSystem, Plan, IsApart, HasPlan, IsReady,
}
use incidentlens.Manager.Restored.{request_at_ok}
use incidentlens.Manager.Replacing.{applied_at}
use incidentlens.Manager.Noted.{note_applied_state}
use incidentlens.Manager.Replaced.{Scopes, rename_file_run}

-- The files of `todo` wait in their temporary files, and the other files have the new contents.
record IsMoving {R : Type 0} (content : R → PurePosixPath → Option Bytes) (plan : Plan)
    (new : PurePosixPath → Bytes) (todo : List PurePosixPath) (r : R) : Type 0 where
  waiting :
      (q : PurePosixPath) → In q plan.paths → In q todo → content r (plan.temp q) ≡ some (new q)
  placed :
      (q : PurePosixPath)
      → In q plan.paths
      → ¬ In q todo
      → content r (plan.canonical q) ≡ some (new q)

applied_at-HasPlan :
    (plan : Plan) (p : PurePosixPath) (l : Progress)
    → HasPlan plan l
    → HasPlan plan (applied_at p l)
applied_at-HasPlan plan p l h = record {
  canonicals = h.canonicals;
  temps = h.temps;
  backups = h.backups;
  added = h.added;
  entries = h.entries;
}

module _ {R : Type 0} (backend : Backend R) (scope : RemoteScope)
    (content : R → PurePosixPath → Option Bytes) (fs : IsFileSystem backend scope content)
    (plan : Plan) (apart : IsApart plan)
    (temp-ne : (p q : PurePosixPath)
      → In p plan.paths
      → In q plan.paths
      → p ≢ q
      → plan.temp p ≢ plan.temp q)
    (new : PurePosixPath → Bytes) where
  renamed-IsMoving :
      (p : PurePosixPath) (todo : List PurePosixPath) (r : R)
      → In p plan.paths
      → ¬ In p todo
      → IsMoving content plan new (p ∷ todo) r
      → (backend.rename scope (plan.temp p) (plan.canonical p) r).0 ≡ ok tt
      → IsMoving content plan new todo (backend.rename scope (plan.temp p) (plan.canonical p) r).1
  renamed-IsMoving p todo r i once h done = record {
    waiting = λ q iq t.
        let ne : p ≢ q = λ e. once (subst (λ k. In k todo) (sym e) t) in
        fs.rename_elsewhere (plan.temp p) (plan.canonical p) (plan.temp q) r
          (λ e. temp-ne p q i iq ne (sym e)) (λ e. apart.canonical-ne-temp p q i iq (sym e))
        ∙ h.waiting q iq (there t);
    placed = λ q iq out. elim (path_cases p q) [
      | inl e ↦
          subst
            (λ k.
              content (backend.rename scope (plan.temp p) (plan.canonical p) r).1 (plan.canonical k)
              ≡ some (new k))
            e
            (fs.rename_moves (plan.temp p) (plan.canonical p) r (new p) (h.waiting p i (here refl))
              done)
      | inr ne ↦
          fs.rename_elsewhere (plan.temp p) (plan.canonical p) (plan.canonical q) r
            (apart.canonical-ne-temp q p iq i) (λ e. apart.canonical-ne p q i iq ne (sym e))
          ∙ h.placed q iq (λ o. elim o [ here e ↦ ne e | there t ↦ out t ])
    ];
  }

  module _ {A : Type 0} (py : Runtime) (config : Config) (now : ℕ) (request : ChangeSetRequest)
      (scopes : Scopes scope request) where
    -- The state while the files of `todo` wait.
    abbrev Waits : List PurePosixPath → World R A → Type 0
    Waits todo w = IsMoving content plan new todo w.files × HasPlan plan w.progress

    rename_to-Waits :
        (p : PurePosixPath) (f : FileMutation) (todo : List PurePosixPath) (w u : World R A)
        → f.scope ≡ scope
        → In p plan.paths
        → ¬ In p todo
        → Waits (p ∷ todo) w
        → rename_to py backend config now request p f w.progress (plan.temp p) (plan.canonical p) w
          ≡ (ok tt, u)
        → Waits todo u
    rename_to-Waits p f todo w u at_scope i once h run =
        let (x, v, first, second) =
          bind_ok (on_files (backend.rename f.scope (plan.temp p) (plan.canonical p)))
            (λ _. note_applied py backend config now request p f w.progress) w run in
        let (done, files_are, progress_is) =
          on_files_ok (backend.rename f.scope (plan.temp p) (plan.canonical p)) w first in
        let (noted_files, noted_progress) =
          note_applied_state py backend config now request p f w.progress v in
        let last = ap (λ (o : Result Failure (Unit {0}) × World R A). o.1) (sym second) in
        let files : u.files ≡ (backend.rename scope (plan.temp p) (plan.canonical p) w.files).1 =
          ap (λ (o : World R A). o.files) last
          ∙ noted_files
          ∙ files_are
          ∙ ap (λ k. (backend.rename k (plan.temp p) (plan.canonical p) w.files).1) at_scope in
        let progress : u.progress ≡ applied_at p w.progress =
          ap (λ (o : World R A). o.progress) last
          ∙ noted_progress
          ∙ ap (applied_at p) progress_is in
        (
          subst (IsMoving content plan new todo) (sym files) (
              renamed-IsMoving p todo w.files i once h.0 (
                ap (λ k. (backend.rename k (plan.temp p) (plan.canonical p) w.files).0)
                  (sym at_scope)
                ∙ done)),
          subst (HasPlan plan) (sym progress) (applied_at-HasPlan plan p w.progress h.1),
        )

    rename_file-Waits :
        (p : PurePosixPath) (todo : List PurePosixPath) (w u : World R A)
        → In p plan.paths
        → ¬ In p todo
        → Waits (p ∷ todo) w
        → rename_file py backend config now request p w ≡ (ok tt, u)
        → Waits todo u
    unfolding rename_file
    rename_file-Waits p todo w u i once h run =
        let (f, _, asked, _) =
          bind_ok (request_at py backend config now request p)
            (λ f. locals >>= rename_at py backend config now request p f) w run in
        let (found, _) =
          request_at_ok backend scope content fs plan apart py config now request p w asked in
        rename_to-Waits p f todo w u (scopes p f found) i once h (
          sym (
            rename_file_run backend scope content fs plan apart py config now request p f w i h.1
              found)
          ∙ run)

    rename_each-Waits :
        (ps : List PurePosixPath) (w u : World R A)
        → ((p : PurePosixPath) → In p ps → In p plan.paths)
        → AreDistinct ps
        → Waits ps w
        → for_each (rename_file py backend config now request) ps w ≡ (ok tt, u)
        → Waits [] u
    rename_each-Waits [] w u ins once h run =
        subst (Waits []) (ap (λ (o : Result Failure (Unit {0}) × World R A). o.1) run) h
    rename_each-Waits (p ∷ ps) w u ins once h run =
        let (_, v, first, rest) =
          bind_ok (rename_file py backend config now request p)
            (λ _. for_each (rename_file py backend config now request) ps) w run in
        rename_each-Waits ps v u (λ q i. ins q (there i)) once.1
          (rename_file-Waits p ps w v (ins p (here refl)) once.0 h first) rest

    -- Renames of a change's files, all in one scope, that all succeed leave at every canonical path
    -- of the change the content that its temporary file had before them. The remote file system
    -- moves as `IsFileSystem` says, no path of the change is another's, and the state before is
    -- `IsReady`.
    pub rename_files_replaces :
        (w u : World R A)
        → IsReady content plan w.files w.progress
        → ((q : PurePosixPath) → In q plan.paths → content w.files (plan.temp q) ≡ some (new q))
        → rename_files py backend config now request w ≡ (ok tt, u)
        → (q : PurePosixPath) → In q plan.paths
        → content u.files (plan.canonical q) ≡ some (new q)
    unfolding rename_files
    rename_files_replaces w u ready waiting run q iq =
        let moving : IsMoving content plan new plan.paths w.files = record {
          waiting = λ p ip _. waiting p ip;
          placed = λ p ip out. absurd (out ip);
        } in
        let each =
          rename_each-Waits plan.paths w u (λ p i. i) ready.once (moving, ready.has)
            (subst (λ ps. for_each (rename_file py backend config now request) ps w ≡ (ok tt, u))
              ready.in_order run) in
        each.0.placed q iq (λ i. elim i [ ])
