-- ===== src/Manager/Temps.antt =====
-- `_handle_failure` of changes/manager.py removes temporary files and no other.
use incidentlens.Common.{
  ℕ, Bool, true, ◌||◌, not, Option, [], ◌∷◌, All, if◌then◌else◌, pure, ◌≡◌, ◌≢◌, refl, sym, ap, ◌∙◌,
  subst, Bool-cases, Option-cases, inl, inr,
}
use incidentlens.Policy.Paths.{PurePosixPath, RemoteScope}
use incidentlens.Changes.Vault.{Bytes}
use incidentlens.Manager.Types.{
  Runtime, Backend, Config, ChangeSetRequest, files_of, World, Progress, PathDict,
}
use incidentlens.Manager.Backups.{mem_path}
use incidentlens.Manager.Replace.{file_req_by_path, request_at}
use incidentlens.Manager.Restore.{remove_temp, remove_temps}
use incidentlens.Manager.Monad.{Step, on_files, attempt}
use incidentlens.Manager.Frames.{bind_state}
use incidentlens.Manager.Plan.{In, IsFileSystem, Plan, IsApart}
use incidentlens.Manager.Restored.{request_at_ok}
use incidentlens.Manager.Replaced.{Scopes}
use incidentlens.Manager.Ends.{on_files_state, attempt_state}

module _ {R : Type 0} (backend : Backend R) (scope : RemoteScope)
    (content : R → PurePosixPath → Option Bytes) (fs : IsFileSystem backend scope content)
    (plan : Plan) (apart : IsApart plan) where
  module _ {A : Type 0} (py : Runtime) (config : Config) (now : ℕ) (request : ChangeSetRequest)
      (scopes : Scopes scope request) where
    request_at_state :
        (p : PurePosixPath) (w : World R A) → (request_at py backend config now request p w).1 ≡ w
    request_at_state p w = elim (Option-cases (file_req_by_path p (files_of request))) [
      | inl e ↦ rw (e, request_at) refl
      | inr (f, e) ↦ rw (e, request_at) refl
    ]

    -- The content at a canonical path of the plan is as before.
    abbrev pub Same : PurePosixPath → World R A → World R A → Type 0
    Same q w u = content u.files (plan.canonical q) ≡ content w.files (plan.canonical q)

    remove_temp_kept :
        (path temp_path q : PurePosixPath) (w : World R A)
        → plan.canonical q ≢ temp_path
        → Same q w (remove_temp py backend config now request path temp_path w).1
    remove_temp_kept path temp_path q w ne =
        bind_state (Same q w) (request_at py backend config now request path)
          (λ f. on_files (backend.remove_file f.scope temp_path)) w
          (λ e h.
            ap (λ (u : World R A). content u.files (plan.canonical q)) (request_at_state path w))
          (λ f h.
            let same = request_at_state path w in
            let asked =
              request_at_ok backend scope content fs plan apart py config now request path w
                (ap (λ r. (r, (request_at py backend config now request path w).1)) h) in
            subst
              (λ (v : World R A). Same q w (on_files (backend.remove_file f.scope temp_path) v).1)
              (sym same)
              (ap (λ r. content r (plan.canonical q))
                  (on_files_state (backend.remove_file f.scope temp_path) w
                    ∙ ap (λ k. (backend.remove_file k temp_path w.files).1) (scopes path f asked.0))
                ∙ fs.remove_elsewhere temp_path (plan.canonical q) w.files ne))

    abbrev drop_temp : Progress → PurePosixPath → PurePosixPath → Step R A Bool
    drop_temp l path temp_path =
        if mem_path path l.applied_files || not (mem_path path l.written_temps)
        then pure true
        else attempt (remove_temp py backend config now request path temp_path)

    drop_temp_kept :
        (l : Progress) (path temp_path q : PurePosixPath) (w : World R A)
        → plan.canonical q ≢ temp_path
        → Same q w (drop_temp l path temp_path w).1
    drop_temp_kept l path temp_path q w ne =
        elim (Bool-cases (mem_path path l.applied_files || not (mem_path path l.written_temps))) [
          | inl e ↦ rw (e, drop_temp) refl
          | inr e ↦
              rw (e, drop_temp)
                (ap (λ (u : World R A). content u.files (plan.canonical q))
                    (attempt_state (remove_temp py backend config now request path temp_path) w)
                  ∙ remove_temp_kept path temp_path q w ne)
        ]

    -- The removal of the temporary files leaves the canonical paths alone.
    pub remove_temps_kept :
        (l : Progress) (temps : PathDict PurePosixPath) (q : PurePosixPath) (w : World R A)
        → All
            (λ (entry : PurePosixPath × PurePosixPath).
              (p : PurePosixPath) × In p plan.paths × (entry.1 ≡ plan.temp p))
            temps
        → In q plan.paths
        → Same q w (remove_temps py backend config now request l temps w).1
    unfolding remove_temps
    remove_temps_kept l [] q w h iq = refl
    remove_temps_kept l ((path, temp_path) ∷ temps) q w ((p, ip, e), rest) iq =
        let one =
          drop_temp_kept l path temp_path q w (λ k. apart.canonical-ne-temp q p iq ip (k ∙ e)) in
        bind_state (Same q w) (drop_temp l path temp_path)
          (λ _. remove_temps py backend config now request l temps) w (λ e h. one)
          (λ b h. remove_temps_kept l temps q (drop_temp l path temp_path w).1 rest iq ∙ one)
