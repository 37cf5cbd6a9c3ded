-- ===== src/Manager/Restore.antt =====
-- `_handle_failure` of changes/manager.py (step 11), and what it shares with `rollback`.
use incidentlens.Common.{
  ℕ, String, Bool, true, false, ◌||◌, ◌&&◌, not, some, List, [], ◌∷◌, if◌then◌else◌, pure, ◌>>=◌,
  ◌>>◌,
}
use mathlib.Core.List.{reverse}
use incidentlens.Policy.Paths.{PurePosixPath}
use incidentlens.Changes.Types.{failed, rolled_back}
use incidentlens.Manager.Types.{
  Runtime, Backend, Config, FileMutation, ChangeSetRequest, Failure, is_uncertain_failure,
  ChangeResult, PathDict, Progress,
}
use incidentlens.Manager.Backups.{mem_path}
use incidentlens.Manager.Replace.{request_at}
use incidentlens.Manager.Monad.{
  Step, on_files, locals, item, attempt, emit, move_to, update_file, no_updates,
}

abbrev is_nil : List PurePosixPath → Bool
is_nil [] = true
is_nil (path ∷ paths) = false

-- The file was applied, and everything that was applied is restored.
abbrev pub is_restored : List PurePosixPath → List PurePosixPath → Bool
is_restored applied_files failures = not (is_nil applied_files) && is_nil failures

abbrev pub failure_result : String → Failure → List PurePosixPath → Bool → ChangeResult
failure_result changeset_id e applied_files restored = record {
  changeset_id = changeset_id;
  status = if restored then rolled_back else failed;
  applied_files = if restored then applied_files else [];
  error = some e;
  uncertain = is_uncertain_failure e;
}

abbrev pub add_failure : Bool → PurePosixPath → List PurePosixPath → List PurePosixPath
add_failure true path failures = failures
add_failure false path failures = path ∷ failures

module _ {R A : Type 0} (py : Runtime) (backend : Backend R) (config : Config) (now : ℕ)
    (request : ChangeSetRequest) where
  abbrev pub note_restored : FileMutation → String → Step R A (Unit {0})
  note_restored file_req result =
      update_file request.changeset_id file_req.operation_id
        (record no_updates { rollback_result = some result; applied = some false })

  abbrev pub remove_new : FileMutation → PurePosixPath → Step R A (Unit {0})
  remove_new file_req canonical = on_files (backend.remove_file file_req.scope canonical) >>= λ _.
      note_restored file_req "removed"

  abbrev pub rename_back : FileMutation → PurePosixPath → PurePosixPath → Step R A (Unit {0})
  rename_back file_req canonical backup_path =
      on_files (backend.rename file_req.scope backup_path canonical) >>= λ _.
      note_restored file_req "restored"

  -- The body of the `try` for one applied file.
  abbrev pub restore_at :
      Progress → FileMutation → PurePosixPath → PurePosixPath → Step R A (Unit {0})
  restore_at l file_req path canonical =
      if mem_path path l.new_files
      then remove_new file_req canonical
      else item path l.backup_paths >>= rename_back file_req canonical

  -- The loop over the applied files, last first; it gives the ones that were not restored.
  unfoldable pub restore_files : Progress → List PurePosixPath → Step R A (List PurePosixPath)
  unfolding update_file
  restore_files l [] = pure []
  restore_files l (path ∷ paths) = request_at py backend config now request path >>= λ file_req.
      item path l.canonical_paths >>= λ canonical.
      attempt (restore_at l file_req path canonical) >>= λ done.
      restore_files l paths >>= λ failures. pure (add_failure done path failures)

  abbrev pub remove_temp : PurePosixPath → PurePosixPath → Step R A (Unit {0})
  remove_temp path temp_path = request_at py backend config now request path >>= λ file_req.
      on_files (backend.remove_file file_req.scope temp_path)

  -- The removal of the temporary files that were written and not applied.
  unfoldable pub remove_temps : Progress → PathDict PurePosixPath → Step R A (Unit {0})
  remove_temps l [] = pure tt
  remove_temps l ((path, temp_path) ∷ temps) =
      (if mem_path path l.applied_files || not (mem_path path l.written_temps)
        then pure true
        else attempt (remove_temp path temp_path))
      >> remove_temps l temps

  abbrev pub record_end : Bool → Bool → Step R A (Unit {0})
  record_end created restored =
      if not created
      then pure tt
      else if restored
      then (move_to config now request.changeset_id rolled_back
          >> emit config request.changeset_id rolled_back false)
      else move_to config now request.changeset_id failed

  unfoldable pub handle_failure : Failure → Step R A ChangeResult
  unfolding restore_files remove_temps move_to emit
  handle_failure e = do
    l ← locals
    failures ← restore_files l (reverse l.applied_files)
    _ ← remove_temps l l.temp_paths
    _ ← record_end l.changeset_created (is_restored l.applied_files failures)
    pure (
        failure_result request.changeset_id e l.applied_files
          (is_restored l.applied_files failures))
