-- ===== src/Manager/Spares.antt =====
-- The calls of changes/manager.py that leave the approvals alone.
use incidentlens.Common.{
  ℕ, String, Bool, true, false, Option, none, List, [], ◌∷◌, pure, ◌>>=◌, ◌>>◌, if◌then◌else◌, ◌≡◌,
  refl, ◌∙◌, arith, not, All, Text,
}
use incidentlens.Changes.Types.{
  ChangeSetStatus, locally_backed_up, remotely_backed_up, applied, FileChange,
}
use incidentlens.Changes.Files.{FileUpdates}
use incidentlens.Changes.Vault.{Bytes}
use incidentlens.Policy.Paths.{PurePosixPath, ServiceRegistration}
use incidentlens.Manager.Types.{
  Runtime, Backend, Config, World, Progress, FileMutation, ChangeSetRequest, files_of, Intent,
  ChangeResult,
}
use incidentlens.Manager.Paths.{sort_paths, is_compose_yaml}
use incidentlens.Manager.Apply.{prepare, replace_files}
use incidentlens.Manager.Rollback.{rollback_file}
use incidentlens.Manager.Monad.{Step, item, for_each, emit, move_to, update_file, locals}
use incidentlens.Manager.Frames.{bind_state}
use incidentlens.Manager.Preflight.{preflight_file, compute_file, validate_file}
use incidentlens.Manager.Backups.{build_all, write_draft, local_backup, remote_backup}
use incidentlens.Manager.Replace.{
  run_config, keys, recheck_file, rename_files, write_temp, check_compose, recheck_originals,
  rename_file,
}

-- The approvals are as before, however the call ends.
abbrev pub Spares : {R A X : Type 0} → Step R A X → Type 0
Spares {R} {A} m = (w : World R A) → (m w).1.approvals ≡ w.approvals

module _ {R A : Type 0} where
  pub bind-Spares :
      {X Y : Type 0} (m : Step R A X) (f : X → Step R A Y)
      → Spares m
      → ((x : X) → Spares (f x))
      → Spares (m >>= f)
  bind-Spares m f first later w =
      bind_state (λ u. u.approvals ≡ w.approvals) m f w (λ e q. first w)
        (λ x q. later x (m w).1 ∙ first w)

  pub update_file-Spares :
      (changeset_id file_id : String) (u : FileUpdates)
      → Spares (update_file {R = R} {A = A} changeset_id file_id u)
  unfolding update_file
  update_file-Spares changeset_id file_id u w = ground arith

  emit-Spares :
      (config : Config) (changeset_id : String) (status : ChangeSetStatus) (created : Bool)
      → Spares (emit {R = R} {A = A} config changeset_id status created)
  unfolding emit
  emit-Spares config changeset_id status created w = ground arith

  pub move_to-Spares :
      (config : Config) (now : ℕ) (changeset_id : String) (status : ChangeSetStatus)
      → Spares (move_to {R = R} {A = A} config now changeset_id status)
  unfolding move_to
  move_to-Spares config now changeset_id status w = ground arith

  pub for_each-Spares :
      {X : Type 0} (body : X → Step R A (Unit {0})) (xs : List X)
      → ((x : X) → Spares (body x))
      → Spares (for_each body xs)
  for_each-Spares body [] h w = refl
  for_each-Spares body (x ∷ xs) h w =
      bind-Spares (body x) (λ _. for_each body xs) (h x) (λ _. for_each-Spares body xs h) w

  -- Steps one after the other.
  abbrev in_order : List (Step R A (Unit {0})) → Step R A (Unit {0})
  in_order [] = pure tt
  in_order (step ∷ []) = step
  in_order (step ∷ next ∷ steps) = step >> in_order (next ∷ steps)

  in_order-Spares :
      (steps : List (Step R A (Unit {0}))) → All Spares steps → Spares (in_order steps)
  in_order-Spares [] h w = refl
  in_order-Spares (step ∷ []) h w = h.0 w
  in_order-Spares (step ∷ next ∷ steps) h w =
      bind-Spares step (λ _. in_order (next ∷ steps)) h.0 (λ _. in_order-Spares (next ∷ steps) h.1)
        w

module _ {R A : Type 0} (py : Runtime) (backend : Backend R) (service : ServiceRegistration) where
  preflight_file-Spares :
      (f : FileMutation) → Spares (preflight_file {R = R} {A = A} py backend service f)
  unfolding preflight_file
  preflight_file-Spares f w = ground arith

  compute_file-Spares :
      (f : FileMutation) → Spares (compute_file {R = R} {A = A} py backend service f)
  unfolding compute_file
  compute_file-Spares f w = ground arith

  validate_file-Spares :
      (f : FileMutation) → Spares (validate_file {R = R} {A = A} py backend service f)
  unfolding validate_file
  validate_file-Spares f w = ground arith

module _ {R A : Type 0} (py : Runtime) (backend : Backend R) (config : Config) (now : ℕ)
    (request : ChangeSetRequest) where
  write_temp-Spares :
      (f : FileMutation) → Spares (write_temp {R = R} {A = A} py backend config now request f)
  unfolding write_temp
  write_temp-Spares f w = ground arith

  remote_backup-Spares :
      (ts : Text) (f : FileMutation)
      → Spares (remote_backup {R = R} {A = A} py backend config now request ts f)
  unfolding remote_backup
  remote_backup-Spares ts f w = ground arith

  local_backup-Spares :
      (key : Bytes) (nonce : FileMutation → Bytes) (f : FileMutation)
      → Spares (local_backup {R = R} {A = A} py backend config now request key nonce f)
  unfolding local_backup
  local_backup-Spares key nonce f w = ground arith

  compose_step :
      (f : FileMutation) (b : Bool)
      → Spares (
          if b
          then pure tt
          else (locals >>= λ (l : Progress). item f.path l.temp_paths >>= λ temp_path.
              run_config {R = R} {A = A} py backend config now request f temp_path))
  compose_step f true w = refl
  compose_step f false w = ground arith

  check_compose-Spares :
      (f : FileMutation) → Spares (check_compose {R = R} {A = A} py backend config now request f)
  unfolding check_compose
  check_compose-Spares f = compose_step f (not (is_compose_yaml py f.path))

  rename_file-Spares :
      (p : PurePosixPath) → Spares (rename_file {R = R} {A = A} py backend config now request p)
  unfolding rename_file
  rename_file-Spares p w = ground arith

  build_all-Spares :
      (files : List FileMutation)
      → Spares (build_all {R = R} {A = A} py backend config now request files)
  build_all-Spares [] w = refl
  build_all-Spares (f ∷ files) w = ground (arith, build_all-Spares files w)

  write_draft-Spares :
      (approval_id : Option String)
      → Spares (write_draft {R = R} {A = A} py backend config now request approval_id)
  unfolding write_draft
  write_draft-Spares approval_id w = ground (arith, build_all-Spares (files_of request) w)

  recheck_file-Spares :
      (p : PurePosixPath) → Spares (recheck_file {R = R} {A = A} py backend config now request p)
  recheck_file-Spares p w = ground arith

  recheck_originals-Spares :
      Spares (recheck_originals {R = R} {A = A} py backend config now request)
  unfolding recheck_originals
  recheck_originals-Spares w =
      for_each-Spares (recheck_file py backend config now request)
        (sort_paths (keys w.progress.canonical_paths)) recheck_file-Spares w

  rename_files-Spares : Spares (rename_files {R = R} {A = A} py backend config now request)
  unfolding rename_files
  rename_files-Spares w =
      for_each-Spares (rename_file py backend config now request)
        (sort_paths (keys w.progress.temp_paths)) rename_file-Spares w

module _ {R A : Type 0} (py : Runtime) (backend : Backend R) (config : Config) (now : ℕ) (ts : Text)
    (key : Bytes) (nonce : FileMutation → Bytes) (consume : String → Intent → A → Bool × A)
    (request : ChangeSetRequest) where
  abbrev prepare_steps : ServiceRegistration → Option String → List (Step R A (Unit {0}))
  prepare_steps service approval_id =
      for_each (preflight_file py backend service) (files_of request)
      ∷ for_each (compute_file py backend service) (files_of request)
      ∷ for_each (validate_file py backend service) (files_of request)
      ∷ write_draft py backend config now request approval_id
      ∷ for_each (local_backup py backend config now request key nonce) (files_of request)
      ∷ move_to config now request.changeset_id locally_backed_up
      ∷ for_each (remote_backup py backend config now request ts) (files_of request)
      ∷ move_to config now request.changeset_id remotely_backed_up
      ∷ for_each (write_temp py backend config now request) (files_of request)
      ∷ for_each (check_compose py backend config now request) (files_of request)
      ∷ []

  pub prepare-Spares :
      (service : ServiceRegistration) (approval_id : Option String)
      → Spares (prepare py backend config now ts key nonce consume request service approval_id)
  unfolding prepare
  prepare-Spares service approval_id = in_order-Spares (prepare_steps service approval_id) (
    for_each-Spares (preflight_file py backend service) (files_of request)
        (preflight_file-Spares py backend service),
    (
      for_each-Spares (compute_file py backend service) (files_of request)
          (compute_file-Spares py backend service),
      (
        for_each-Spares (validate_file py backend service) (files_of request)
            (validate_file-Spares py backend service),
        (
          write_draft-Spares py backend config now request approval_id,
          (
            for_each-Spares (local_backup py backend config now request key nonce)
                (files_of request) (local_backup-Spares py backend config now request key nonce),
            (
              move_to-Spares config now request.changeset_id locally_backed_up,
              (
                for_each-Spares (remote_backup py backend config now request ts) (files_of request)
                    (remote_backup-Spares py backend config now request ts),
                (
                  move_to-Spares config now request.changeset_id remotely_backed_up,
                  (
                    for_each-Spares (write_temp py backend config now request) (files_of request)
                        (write_temp-Spares py backend config now request),
                    (
                      for_each-Spares (check_compose py backend config now request)
                          (files_of request) (check_compose-Spares py backend config now request),
                      tt,
                    ),
                  ),
                ),
              ),
            ),
          ),
        ),
      ),
    ),
  )

  pub replace_files-Spares :
      Spares (replace_files py backend config now ts key nonce consume request)
  unfolding replace_files
  replace_files-Spares =
      bind-Spares (recheck_originals py backend config now request)
        (λ _. rename_files py backend config now request >>= λ _. replaced)
        (recheck_originals-Spares py backend config now request)
        (λ _.
          bind-Spares (rename_files py backend config now request) (λ _. replaced)
            (rename_files-Spares py backend config now request)
            (λ _.
              bind-Spares (emit config request.changeset_id applied false) (λ _. result_of)
                (emit-Spares config request.changeset_id applied false) (λ _ w. refl)))
    where
      result_of : Step R A ChangeResult
      result_of = locals >>= λ (l : Progress). pure (record {
        changeset_id = request.changeset_id;
        status = applied;
        applied_files = l.applied_files;
        error = none;
        uncertain = false;
      })

      replaced : Step R A ChangeResult
      replaced = emit config request.changeset_id applied false >>= λ _. result_of

-- One restored file of a rollback.
pub rollback_file-Spares :
    {R A : Type 0} (py : Runtime) (backend : Backend R) (config : Config) (now : ℕ)
    (consume : String → Intent → A → Bool × A) (changeset_id : String) (file : FileChange)
    → Spares (rollback_file py backend config now consume changeset_id file)
unfolding rollback_file
rollback_file-Spares py backend config now consume changeset_id file w = ground arith
