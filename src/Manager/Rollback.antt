-- ===== src/Manager/Rollback.antt =====
-- `verify`, `rollback` and `interrupts_service` of changes/manager.py.
use incidentlens.Common.{
  ℕ, String, Bool, true, false, ◌||◌, ◌&&◌, not, Option, none, some, is_some, List, [], ◌∷◌, any,
  leb, if◌then◌else◌, Text, codes, same_text, is_in, str_eq, Result, ok, err, pure, ◌>>=◌, ◌>>◌,
}
use mathlib.Core.List.{reverse}
use incidentlens.Policy.Paths.{
  PurePosixPath, RemoteScope, host, container, ServiceRegistration, parse_path,
}
use incidentlens.Changes.Types.{
  ChangeSetStatus, ChangeSet, FileChange, MetaValue, flag, words, other, applied, validated,
  verified, failed, rolled_back,
}
use incidentlens.Changes.Store.{get}
use incidentlens.Manager.Types.{
  Runtime, Backend, Config, ProjectRecord, Intent, rollback_intent, Failure, problem,
  changeset_missing, wrong_status, approval_required, container_missing, restore_failed,
}
use incidentlens.Manager.Paths.{is_protected_path, lower}
use incidentlens.Manager.Apply.{resolve_transport_for, find_service}
use incidentlens.Manager.Monad.{
  Step, of_result, fails, on_files, attempt, for_each, move_to, consume_with, update_file,
  no_updates,
}

-- `status in (APPLIED, VALIDATED)`.
abbrev pub is_applied : ChangeSetStatus → Bool
is_applied applied = true
is_applied validated = true
is_applied _ = false

abbrev pub is_just_applied : ChangeSetStatus → Bool
is_just_applied applied = true
is_just_applied _ = false

-- `str.isspace` for one character.
abbrev pub is_space : Runtime → ℕ → Bool
is_space py c =
    (leb 9 c && leb c 13) || (leb 28 c && leb c 32) || (leb 128 c && py.is_space_above c)

abbrev strip_left : Runtime → Text → Text
strip_left py [] = []
strip_left py (c ∷ text) = let rest = strip_left py text in if is_space py c then rest else c ∷ text

-- `text.strip()`.
unfoldable pub strip : Runtime → Text → Text
strip py text = reverse (strip_left py (reverse (strip_left py text)))

unfoldable pub says_failed : Runtime → Text → Bool
unfolding strip lower same_text
says_failed py result =
    is_in (lower py (strip py result))
      ([] ∷ codes "failed" ∷ codes "false" ∷ codes "0" ∷ codes "error" ∷ [])

-- `original_metadata.get(key)`.
abbrev pub meta_value : String → List (String × MetaValue) → Option MetaValue
meta_value key [] = none
meta_value key ((name, value) ∷ entries) =
    let rest = meta_value key entries in if str_eq name key then some value else rest

abbrev pub is_true : Option MetaValue → Bool
is_true none = false
is_true (some (flag b)) = b
is_true (some (words [])) = false
is_true (some (words (c ∷ text))) = true
is_true (some (other b)) = b

abbrev container_of : Option MetaValue → Result Failure RemoteScope
container_of (some (words name)) = ok (container name)
container_of _ = err (problem container_missing)

-- `_backend_for_change`.
abbrev pub backend_for_change : FileChange → Result Failure RemoteScope
backend_for_change file_change =
    if str_eq file_change.scope "container"
    then container_of (meta_value "container" file_change.original_metadata)
    else ok host

abbrev protected_in : String → Option ServiceRegistration → List PurePosixPath
protected_in name none = []
protected_in name (some service) = service.protected_remote_paths

abbrev any_protected : Runtime → ChangeSet → List PurePosixPath → Bool
any_protected py changeset paths =
    any (λ (file : FileChange). is_protected_path py (parse_path file.remote_path) paths)
      changeset.files

abbrev interrupts_in : Runtime → ChangeSet → Option ProjectRecord → Bool
interrupts_in py changeset none = true
interrupts_in py changeset (some project) = any_protected py changeset (
    protected_in changeset.service_name
      (find_service (codes changeset.service_name) project.services))

unfoldable pub interrupts_service : Runtime → Config → ChangeSet → Bool
unfolding is_protected_path parse_path same_text
interrupts_service py config changeset = elim config.projects [
  | none ↦ any_protected py changeset []
  | some projects ↦ interrupts_in py changeset (projects changeset.project_id)
]

module _ {R A : Type 0} (py : Runtime) (backend : Backend R) (config : Config) (now : ℕ)
    (consume : String → Intent → A → Bool × A) where
  abbrev pub with_changeset : String → (ChangeSet → Step R A (Unit {0})) → Step R A (Unit {0})
  with_changeset changeset_id body w = elim (get changeset_id w.journal_db) [
    | none ↦ fails changeset_missing w
    | some changeset ↦
        (if not (is_applied changeset.status) then fails wrong_status else body changeset) w
  ]

  abbrev pub verify_found : Text → ChangeSet → Step R A (Unit {0})
  verify_found result changeset =
      if says_failed py result
      then move_to config now changeset.changeset_id failed
      else ((if is_just_applied changeset.status
            then move_to config now changeset.changeset_id validated
            else pure tt)
          >> move_to config now changeset.changeset_id verified)

  unfoldable pub verify : String → Text → Step R A (Unit {0})
  unfolding get says_failed move_to
  verify changeset_id result = with_changeset changeset_id (verify_found result)

  -- The body of the `try` for one file.
  abbrev restore_change : String → FileChange → RemoteScope → Step R A (Unit {0})
  restore_change changeset_id file scope =
      let path = parse_path file.remote_path in
      if is_true (meta_value "originally_absent" file.original_metadata)
      then (on_files (backend.remove_file scope path)
          >> update_file changeset_id file.file_change_id
              (record no_updates { rollback_result = some "removed"; applied = some false }))
      else (on_files (backend.rename scope (parse_path file.remote_backup_path) path)
          >> update_file changeset_id file.file_change_id
              (record no_updates { rollback_result = some "restored"; applied = some false }))

  -- One round of the loop over the files.
  unfoldable pub rollback_file : String → FileChange → Step R A (Unit {0})
  unfolding update_file parse_path
  rollback_file changeset_id file =
      if not file.applied
      then pure tt
      else (of_result (backend_for_change file) >>= λ scope.
          attempt (restore_change changeset_id file scope) >>= λ done.
          if done then pure tt else fails restore_failed)

  abbrev pub consume_given : Option String → ChangeSet → Step R A (Unit {0})
  consume_given none changeset = pure tt
  consume_given (some approval_id) changeset =
      if config.has_approvals
      then (consume_with consume approval_id
          (rollback_intent changeset.changeset_id changeset.target_id changeset.service_name))
      else pure tt

  abbrev pub rollback_found : Option String → ChangeSet → Step R A (Unit {0})
  rollback_found approval_id changeset =
      (if interrupts_service py config changeset && not (is_some approval_id)
        then fails approval_required
        else pure tt)
      >> of_result (resolve_transport_for config changeset.project_id changeset.target_id)
      >> consume_given approval_id changeset
      >> for_each (rollback_file changeset.changeset_id) (reverse changeset.files)
      >> move_to config now changeset.changeset_id rolled_back

  unfoldable pub rollback : String → Option String → Step R A (Unit {0})
  unfolding get interrupts_service resolve_transport_for rollback_file move_to
  rollback changeset_id approval_id = with_changeset changeset_id (rollback_found approval_id)
