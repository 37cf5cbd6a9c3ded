-- ===== src/Changes/Store.antt =====
-- class ChangeSetStore of changes/store.py. `now` and `stamp` are the clock's time and its text.
use Prim.Native.String.{◌++◌ as concat}
use incidentlens.Common.{
  ℕ, String, Bool, false, not, Option, none, some, is_some, List, [], ◌∷◌, map, filter, any, take,
  if◌then◌else◌, leb, str_eq, Result, ok, err, Action,
}
use incidentlens.Common.Sql.{insert_row, update_where}
use incidentlens.Common.Keyed.{string_key, find, has_key}
use incidentlens.Changes.Types.{
  ChangeSetStatus, draft, same_status, valid_predecessors, is_terminal, FileChange, ChangeSet,
  ChangeSetRow, FileRow, ChangeDb, ChangeError, changeset_not_found, invalid_change_transition,
  integrity_error,
}

abbrev pub changeset_key : ChangeSetRow → String
changeset_key r = r.changeset_id

abbrev pub file_key : FileRow → String
file_key r = r.file.file_change_id

-- `FROM file_changes WHERE changeset_id = ?`.
abbrev pub files_of : String → List FileRow → List FileChange
files_of changeset_id rows =
    map (λ (r : FileRow). r.file) (filter (λ r. str_eq r.changeset_id changeset_id) rows)

abbrev pub from_row : List FileRow → ChangeSetRow → ChangeSet
from_row file_rows row = record {
  changeset_id = row.changeset_id;
  incident_id = row.incident_id;
  project_id = row.project_id;
  target_id = row.target_id;
  service_name = row.service_name;
  files = files_of row.changeset_id file_rows;
  status = row.status;
  created_at = row.created_at;
  updated_at = row.updated_at;
  verification_plan = row.verification_plan;
  rollback_plan = row.rollback_plan;
  approval_id = row.approval_id;
}

abbrev found_changeset : List FileRow → Option ChangeSetRow → Option ChangeSet
found_changeset file_rows none = none
found_changeset file_rows (some row) = some (from_row file_rows row)

unfoldable pub get : String → ChangeDb → Option ChangeSet
get changeset_id db =
    found_changeset db.file_changes (find changeset_key changeset_id db.changesets)

abbrev pub row_of : ChangeSet → ChangeSetRow
row_of changeset = record {
  changeset_id = changeset.changeset_id;
  incident_id = changeset.incident_id;
  project_id = changeset.project_id;
  target_id = changeset.target_id;
  service_name = changeset.service_name;
  status = changeset.status;
  verification_plan = changeset.verification_plan;
  rollback_plan = changeset.rollback_plan;
  approval_id = changeset.approval_id;
  created_at = changeset.created_at;
  updated_at = changeset.updated_at;
}

-- `for file_change in files: INSERT INTO file_changes`; a `file_change_id` that is taken raises.
abbrev pub insert_files : String → List FileChange → List FileRow → Option (List FileRow)
insert_files changeset_id [] rows = some rows
insert_files changeset_id (file ∷ files) rows =
    let rest =
      insert_files changeset_id files
        (insert_row (record { changeset_id = changeset_id; file = file }) rows) in
    if is_some (find file_key file.file_change_id rows) then none else rest

abbrev with_files :
    ChangeSet → ChangeDb → Option (List FileRow) → Result ChangeError ChangeSet × ChangeDb
with_files changeset db none = (err integrity_error, db)
with_files changeset db (some file_rows) = (
  ok changeset,
  record { changesets = insert_row (row_of changeset) db.changesets; file_changes = file_rows },
)

-- The transaction of `create` and `create_changeset`, which a conflict rolls back.
unfoldable pub insert_changeset : ChangeSet → Action ChangeDb ChangeError ChangeSet
insert_changeset changeset db =
    if is_some (find changeset_key changeset.changeset_id db.changesets)
    then (err integrity_error, db)
    else (with_files changeset db
        (insert_files changeset.changeset_id changeset.files db.file_changes))

unfoldable pub create : FileChange → ℕ → String → Action ChangeDb ChangeError ChangeSet
unfolding insert_changeset
create file_change now stamp = insert_changeset (record {
  changeset_id = concat "chs-" (concat stamp (concat "-" file_change.file_change_id));
  incident_id = "pending";
  project_id = "pending";
  target_id = "pending";
  service_name = "pending";
  files = file_change ∷ [];
  status = draft;
  created_at = now;
  updated_at = now;
  verification_plan = "";
  rollback_plan = "";
  approval_id = none;
})

-- The arguments of `create_changeset`.
pub record NewChangeSet : Type 0 where
  pub changeset_id : String
  pub incident_id : String
  pub project_id : String
  pub target_id : String
  pub service_name : String
  pub files : List FileChange
  pub verification_plan : String
  pub rollback_plan : String
  pub approval_id : Option String

abbrev pub new_changeset : NewChangeSet → ℕ → ChangeSet
new_changeset new now = record {
  changeset_id = new.changeset_id;
  incident_id = new.incident_id;
  project_id = new.project_id;
  target_id = new.target_id;
  service_name = new.service_name;
  files = new.files;
  status = draft;
  created_at = now;
  updated_at = now;
  verification_plan = new.verification_plan;
  rollback_plan = new.rollback_plan;
  approval_id = new.approval_id;
}

unfoldable pub create_changeset : NewChangeSet → ℕ → Action ChangeDb ChangeError ChangeSet
unfolding insert_changeset
create_changeset new now = insert_changeset (new_changeset new now)

abbrev pub is_allowed : ChangeSetStatus → Option (List ChangeSetStatus) → Bool
is_allowed current none = false
is_allowed current (some predecessors) = any (same_status current) predecessors

-- What `transition` checks of the change set that it read.
abbrev pub check_transition : ChangeSetStatus → Option ChangeSet → Result ChangeError (Unit {0})
check_transition target none = err changeset_not_found
check_transition target (some changeset) =
    if is_terminal changeset.status
    then err invalid_change_transition
    else (if not (is_allowed changeset.status (valid_predecessors target))
        then err invalid_change_transition
        else ok tt)

abbrev pub set_status : ChangeSetStatus → ℕ → ChangeSetRow → ChangeSetRow
set_status target now r = record r { status = target; updated_at = now }

-- Its `UPDATE`, in a transaction of its own.
abbrev pub write_status : String → ChangeSetStatus → ℕ → ChangeDb → ChangeDb
write_status changeset_id target now db = record db {
  changesets =
      update_where (has_key changeset_key changeset_id) (set_status target now) db.changesets;
}

abbrev moved :
    String
    → ChangeSetStatus
    → ℕ
    → ChangeDb
    → Result ChangeError (Unit {0})
    → Result ChangeError (Option ChangeSet) × ChangeDb
moved changeset_id target now db (err e) = (err e, db)
moved changeset_id target now db (ok _) = (
  ok (get changeset_id (write_status changeset_id target now db)),
  write_status changeset_id target now db,
)

unfoldable pub transition :
    String → ChangeSetStatus → ℕ → Action ChangeDb ChangeError (Option ChangeSet)
unfolding get
transition changeset_id target now db =
    moved changeset_id target now db (check_transition target (get changeset_id db))

-- `ORDER BY created_at DESC`; rows of one time stay in rowid order.
abbrev insert_newest : ChangeSetRow → List ChangeSetRow → List ChangeSetRow
insert_newest r [] = r ∷ []
insert_newest r (s ∷ rows) =
    let rest = insert_newest r rows in
    if leb s.created_at r.created_at then r ∷ s ∷ rows else s ∷ rest

abbrev newest_first : List ChangeSetRow → List ChangeSetRow
newest_first [] = []
newest_first (r ∷ rows) = insert_newest r (newest_first rows)

abbrev get_each : ChangeDb → List ChangeSetRow → List ChangeSet
get_each db [] = []
get_each db (r ∷ rows) =
    let rest = get_each db rows in
    elim (get r.changeset_id db) [ none ↦ rest | some changeset ↦ changeset ∷ rest ]

unfoldable pub list_for_incident : String → ℕ → ChangeDb → List ChangeSet
unfolding get
list_for_incident incident_id limit db =
    get_each db
      (take limit (newest_first (filter (λ r. str_eq r.incident_id incident_id) db.changesets)))
