-- ===== src/Manager/Monad.antt =====
-- The calls that changes/manager.py makes, over the state of one `apply`. A call that raises keeps
-- what it did before.
use incidentlens.Common.{
  ℕ, String, Bool, true, false, Option, none, some, List, [], ◌∷◌, ◌++◌, if◌then◌else◌, Result, ok,
  err, Action, pure, raise, ◌>>=◌, ◌>>◌,
}
use incidentlens.Policy.Paths.{PurePosixPath, RemoteScope, FileMetadata}
use incidentlens.Changes.Types.{ChangeSetStatus, ChangeDb, ChangeError, rolled_back}
use incidentlens.Changes.Store.{transition}
use incidentlens.Changes.Files.{FileUpdates, update_file_change}
use incidentlens.Changes.Vault.{Disk, BackupError}
use incidentlens.Manager.Types.{
  Backend, RemoteError, Failure, remote, journal, vault, approval, lookup_failed, problem, Problem,
  Config, World, Progress, PathDict, get_item, ChangeEventType, changeset_created,
  changeset_status_changed, changeset_rolled_back, Intent,
}

abbrev pub Step : Type 0 → Type 0 → Type 0 → Type 0
Step R A X = Action (World R A) Failure X

abbrev pub event_type : Bool → ChangeSetStatus → ChangeEventType
event_type created status =
    if created
    then changeset_created
    else elim status [ rolled_back ↦ changeset_rolled_back | _ ↦ changeset_status_changed ]

module _ {R A : Type 0} where
  abbrev pub of_result : {X : Type 0} → Result Failure X → Step R A X
  of_result result w = (result, w)

  abbrev pub fails : {X : Type 0} → Problem → Step R A X
  fails p = raise (problem p)

  abbrev pub on_files : {X : Type 0} → Action R RemoteError X → Step R A X
  on_files call w =
      let (result, files) = call w.files in
      elim result [
        | ok x ↦ (ok x, record w { files = files })
        | err e ↦ (err (remote e), record w { files = files })
      ]

  abbrev pub on_journal : {X : Type 0} → Action ChangeDb ChangeError X → Step R A X
  on_journal call w =
      let (result, db) = call w.journal_db in
      elim result [
        | ok x ↦ (ok x, record w { journal_db = db })
        | err e ↦ (err (journal e), record w { journal_db = db })
      ]

  abbrev pub on_disk : {X : Type 0} → Action Disk BackupError X → Step R A X
  on_disk call w =
      let (result, disk) = call w.disk in
      elim result [
        | ok x ↦ (ok x, record w { disk = disk })
        | err e ↦ (err (vault e), record w { disk = disk })
      ]

  -- `try: lstat(path) except RemotePathError`.
  abbrev pub lstat_or_absent :
      Backend R → RemoteScope → PurePosixPath → Step R A (Option FileMetadata)
  lstat_or_absent backend scope path w =
      let (result, files) = backend.lstat scope path w.files in
      elim result [
        | ok meta ↦ (ok (some meta), record w { files = files })
        | err RemoteError.path_error ↦ (ok none, record w { files = files })
        | err e ↦ (err (remote e), record w { files = files })
      ]

  abbrev pub locals : Step R A Progress
  locals w = (ok w.progress, w)

  abbrev pub set_locals : (Progress → Progress) → Step R A (Unit {0})
  set_locals f w = (ok tt, record w { progress = f w.progress })

  -- `self._approvals.consume(approval_id, intent)`; `false` is a raise.
  abbrev pub consume_with : (String → Intent → A → Bool × A) → String → Intent → Step R A (Unit {0})
  consume_with consume approval_id intent w =
      let (done, approvals) = consume approval_id intent w.approvals in
      if done
      then (ok tt, record w { approvals = approvals })
      else (err approval, record w { approvals = approvals })

  -- `dictionary[str(path)]`.
  abbrev pub item : {V : Type 0} → PurePosixPath → PathDict V → Step R A V
  item path dict = elim (get_item path dict) [ none ↦ raise lookup_failed | some v ↦ pure v ]

  abbrev pub for_each : {X : Type 0} → (X → Step R A (Unit {0})) → List X → Step R A (Unit {0})
  for_each body [] = pure tt
  for_each body (x ∷ xs) = body x >> for_each body xs

  -- `try: … except Exception`: whether the body ended well.
  abbrev pub attempt : Step R A (Unit {0}) → Step R A Bool
  attempt body w =
      let (result, w') = body w in elim result [ ok _ ↦ (ok true, w') | err e ↦ (ok false, w') ]

  -- `_emit_changeset_event`.
  unfoldable pub emit : Config → String → ChangeSetStatus → Bool → Step R A (Unit {0})
  emit config changeset_id status created w =
      if config.has_events
      then (
        ok tt,
        record w {
          events =
              w.events
              ++ record {
                event_type = event_type created status;
                changeset_id = changeset_id;
                status = status;
              }
                ∷ [];
        },
      )
      else (ok tt, w)

  -- `_transition`; the times of all calls are one.
  unfoldable pub move_to : Config → ℕ → String → ChangeSetStatus → Step R A (Unit {0})
  unfolding emit transition
  move_to config now changeset_id status = do
    _ ← on_journal (transition changeset_id status now)
    emit config changeset_id status false

  unfoldable pub update_file : String → String → FileUpdates → Step R A (Unit {0})
  unfolding update_file_change
  update_file changeset_id file_change_id u =
      on_journal (update_file_change changeset_id file_change_id u) >>= λ _. pure tt

abbrev pub no_updates : FileUpdates
no_updates = record {
  local_backup_ref = none;
  remote_backup_path = none;
  temp_path = none;
  applied = none;
  validation_result = none;
  rollback_result = none;
}
