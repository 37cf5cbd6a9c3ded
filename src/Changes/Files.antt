-- ===== src/Changes/Files.antt =====
-- update_file_change of changes/store.py.
use incidentlens.Common.{
  String, Text, Bool, ◌&&◌, ◌||◌, not, Option, none, some, is_some, List, [], ◌∷◌, if◌then◌else◌,
  ◌==◌, str_eq, Result, ok, err, Action,
}
use incidentlens.Common.Sql.{update_where, rowcount}
use incidentlens.Changes.Types.{
  FileChange, ChangeSet, FileRow, ChangeDb, ChangeError, changeset_not_found, value_error,
}
use incidentlens.Changes.Store.{get}

-- The fields to update; `none` leaves a field alone.
pub record FileUpdates : Type 0 where
  pub local_backup_ref : Option Text
  pub remote_backup_path : Option Text
  pub temp_path : Option Text
  pub applied : Option Bool
  pub validation_result : Option String
  pub rollback_result : Option String

-- `if updates`.
abbrev pub has_updates : FileUpdates → Bool
has_updates u =
    is_some u.local_backup_ref
    || is_some u.remote_backup_path
    || is_some u.temp_path
    || is_some u.applied
    || is_some u.validation_result
    || is_some u.rollback_result

-- A column that may be NULL, and one that may not.
abbrev or_kept {ℓ} : {A : Type ℓ} → Option A → Option A → Option A
or_kept none kept = kept
or_kept (some value) kept = some value

abbrev or_value {ℓ} : {A : Type ℓ} → Option A → A → A
or_value none kept = kept
or_value (some value) kept = value

abbrev pub updated_file : FileUpdates → FileChange → FileChange
updated_file u file = record file {
  local_backup_ref = or_kept u.local_backup_ref file.local_backup_ref;
  remote_backup_path = or_value u.remote_backup_path file.remote_backup_path;
  temp_path = or_kept u.temp_path file.temp_path;
  applied = or_value u.applied file.applied;
  validation_result = or_kept u.validation_result file.validation_result;
  rollback_result = or_kept u.rollback_result file.rollback_result;
}

abbrev pub is_file : String → String → FileRow → Bool
is_file changeset_id file_change_id r =
    str_eq r.changeset_id changeset_id && str_eq r.file.file_change_id file_change_id

abbrev pub set_file : FileUpdates → FileRow → FileRow
set_file u r = record r { file = updated_file u r.file }

-- The loop over `changeset.files`.
abbrev file_with_id : String → List FileChange → Result ChangeError FileChange
file_with_id file_change_id [] = err changeset_not_found
file_with_id file_change_id (file ∷ files) =
    let rest = file_with_id file_change_id files in
    if str_eq file.file_change_id file_change_id then ok file else rest

abbrev file_in : String → Option ChangeSet → Result ChangeError FileChange
file_in file_change_id none = err changeset_not_found
file_in file_change_id (some changeset) = file_with_id file_change_id changeset.files

abbrev write_file : String → String → FileUpdates → ChangeDb → ChangeDb
write_file changeset_id file_change_id u db = record db {
  file_changes = update_where (is_file changeset_id file_change_id) (set_file u) db.file_changes;
}

-- The update is committed before the file is read again, so that a miss there does not undo it.
unfoldable pub update_file_change :
    String → String → FileUpdates → Action ChangeDb ChangeError FileChange
unfolding get
update_file_change changeset_id file_change_id u db =
    if not (has_updates u)
    then (err value_error, db)
    else (if rowcount (is_file changeset_id file_change_id) db.file_changes == 0
        then (err changeset_not_found, db)
        else (
          file_in file_change_id (get changeset_id (write_file changeset_id file_change_id u db)),
          write_file changeset_id file_change_id u db,
        ))
