-- ===== src/Manager/Apply.antt =====
-- `apply` of changes/manager.py. The locks of the paths are not modelled: an apply is one step.
use incidentlens.Common.{
  ℕ, String, Bool, false, not, Option, none, some, List, [], ◌∷◌, ◌++◌, any, if◌then◌else◌, Text,
  codes, same_text, str_eq, Result, ok, err, pure, ◌>>=◌,
}
use incidentlens.Policy.Paths.{PurePosixPath, ServiceRegistration}
use incidentlens.Changes.Types.{applied, locally_backed_up, remotely_backed_up}
use incidentlens.Changes.Vault.{Bytes}
use incidentlens.Manager.Types.{
  Runtime, Backend, Config, ProjectRecord, FileMutation, ChangeSetRequest, files_of, Intent,
  Failure, remote, lookup_failed, problem, target_not_registered, no_transport, service_not_found,
  no_policy, ChangeResult, no_progress, RemoteError,
}
use incidentlens.Manager.Backups.{mem_path, write_draft, local_backup, remote_backup}
use incidentlens.Manager.Preflight.{preflight_file, compute_file, validate_file}
use incidentlens.Manager.Replace.{
  write_temp, check_compose, approve_protected, recheck_originals, rename_files,
}
use incidentlens.Manager.Restore.{handle_failure}
use incidentlens.Manager.Monad.{Step, of_result, locals, for_each, emit, move_to}

abbrev connected : Result RemoteError (Unit {0}) → Result Failure (Unit {0})
connected (ok _) = ok tt
connected (err e) = err (remote e)

abbrev connect_in :
    (String → Result RemoteError (Unit {0}))
    → String
    → Option ProjectRecord
    → Result Failure (Unit {0})
connect_in connect target_id none = err lookup_failed
connect_in connect target_id (some project) =
    if not (any (str_eq target_id) project.targets)
    then err (problem target_not_registered)
    else connected (connect target_id)

abbrev given_transport : Bool → Result Failure (Unit {0})
given_transport has_transport = if has_transport then ok tt else err (problem no_transport)

-- `_resolve_transport_for`.
unfoldable pub resolve_transport_for : Config → String → String → Result Failure (Unit {0})
resolve_transport_for config project_id target_id = elim config.sessions [
  | none ↦ given_transport config.has_transport
  | some connect ↦ elim config.projects [
    | none ↦ given_transport config.has_transport
    | some projects ↦ connect_in connect target_id (projects project_id)
  ]
]

abbrev pub find_service : Text → List ServiceRegistration → Option ServiceRegistration
find_service name [] = none
find_service name (service ∷ services) =
    let rest = find_service name services in
    if same_text service.compose_service name then some service else rest

abbrev add_new : PurePosixPath → List PurePosixPath → List PurePosixPath
add_new path paths = if mem_path path paths then paths else paths ++ path ∷ []

abbrev add_all : List PurePosixPath → List PurePosixPath → List PurePosixPath
add_all [] paths = paths
add_all (p ∷ ps) paths = add_all ps (add_new p paths)

-- The protected paths of all services, each once.
abbrev pub project_protected : List ServiceRegistration → List PurePosixPath → List PurePosixPath
project_protected [] paths = paths
project_protected (service ∷ services) paths =
    project_protected services (add_all service.protected_remote_paths paths)

abbrev Policy : Type 0
Policy = ServiceRegistration × List PurePosixPath

abbrev with_service : Option ServiceRegistration → List PurePosixPath → Result Failure Policy
with_service none paths = err (problem service_not_found)
with_service (some service) paths = ok (service, paths)

abbrev policy_in : Text → Option ProjectRecord → Result Failure Policy
policy_in name none = err lookup_failed
policy_in name (some project) =
    with_service (find_service name project.services) (project_protected project.services [])

abbrev own_policy : Option ServiceRegistration → List PurePosixPath → Result Failure Policy
own_policy none paths = err (problem no_policy)
own_policy (some service) paths = ok (service, paths)

-- `_resolve_policy`.
unfoldable pub resolve_policy : Config → ChangeSetRequest → Result Failure Policy
unfolding same_text
resolve_policy config request = elim config.projects [
  | none ↦ own_policy config.policy config.protected_paths
  | some projects ↦ policy_in (codes request.first.service) (projects request.first.project_id)
]

module _ {R A : Type 0} (py : Runtime) (backend : Backend R) (config : Config) (now : ℕ) (ts : Text)
    (key : Bytes) (nonce : FileMutation → Bytes) (consume : String → Intent → A → Bool × A)
    (request : ChangeSetRequest) where
  -- Steps 1 to 8: both backups and the temporary files.
  unfoldable pub prepare : ServiceRegistration → Option String → Step R A (Unit {0})
  unfolding preflight_file compute_file validate_file write_draft local_backup remote_backup
      write_temp check_compose move_to
  prepare service approval_id = do
    _ ← for_each (preflight_file py backend service) (files_of request)
    _ ← for_each (compute_file py backend service) (files_of request)
    _ ← for_each (validate_file py backend service) (files_of request)
    _ ← write_draft py backend config now request approval_id
    _ ← for_each (local_backup py backend config now request key nonce) (files_of request)
    _ ← move_to config now request.changeset_id locally_backed_up
    _ ← for_each (remote_backup py backend config now request ts) (files_of request)
    _ ← move_to config now request.changeset_id remotely_backed_up
    _ ← for_each (write_temp py backend config now request) (files_of request)
    for_each (check_compose py backend config now request) (files_of request)

  -- Steps 9 and 10: the second check, the renames and the result.
  unfoldable pub replace_files : Step R A ChangeResult
  unfolding recheck_originals rename_files emit
  replace_files = do
    _ ← recheck_originals py backend config now request
    _ ← rename_files py backend config now request
    _ ← emit config request.changeset_id applied false
    l ← locals
    pure (record {
      changeset_id = request.changeset_id;
      status = applied;
      applied_files = l.applied_files;
      error = none;
      uncertain = false;
    })

  -- The body of the `try`.
  unfoldable pub apply_body :
      ServiceRegistration → List PurePosixPath → Option String → Step R A ChangeResult
  unfolding prepare approve_protected replace_files
  apply_body service protected_paths approval_id = do
    _ ← prepare service approval_id
    _ ← approve_protected py backend config now request consume approval_id protected_paths
    replace_files

  -- `except Exception`.
  abbrev caught : Result Failure ChangeResult → Step R A ChangeResult
  caught (ok result) w = (ok result, w)
  caught (err e) w = handle_failure py backend config now request e w

  -- `_apply_locked`.
  unfoldable pub apply_locked :
      ServiceRegistration → List PurePosixPath → Option String → Step R A ChangeResult
  unfolding apply_body handle_failure
  apply_locked service protected_paths approval_id w =
      let start = record w { progress = no_progress } in
      let (result, after) = apply_body service protected_paths approval_id start in
      caught result after

  -- `apply`; a transport may be handed in.
  unfoldable pub apply : Option String → Bool → Step R A ChangeResult
  unfolding apply_locked resolve_transport_for resolve_policy
  apply approval_id handed = do
    _ ←
        if handed
        then pure tt
        else of_result
            (resolve_transport_for config request.first.project_id request.first.target_id)
    policy ← of_result (resolve_policy config request)
    apply_locked policy.0 policy.1 approval_id
