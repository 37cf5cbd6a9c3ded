-- ===== src/Changes/Types.antt =====
-- changes/types.py, and the tables of changes/store.py. A time is a number of microseconds.
use incidentlens.Common.{ℕ, String, Text, Bool, true, false, Option, none, some, List, [], ◌∷◌, any}

pub data ChangeSetStatus : Type 0 where
  draft preflighted locally_backed_up remotely_backed_up applied validated verified failed
        rolled_back :
      ChangeSetStatus

-- Membership in a set of statuses compares members of one enum.
abbrev pub same_status : ChangeSetStatus → ChangeSetStatus → Bool
same_status draft draft = true
same_status preflighted preflighted = true
same_status locally_backed_up locally_backed_up = true
same_status remotely_backed_up remotely_backed_up = true
same_status applied applied = true
same_status validated validated = true
same_status verified verified = true
same_status failed failed = true
same_status rolled_back rolled_back = true
same_status _ _ = false

-- `_VALID_PREDECESSORS.get(…)`.
abbrev pub valid_predecessors : ChangeSetStatus → Option (List ChangeSetStatus)
valid_predecessors draft = none
valid_predecessors preflighted = some (draft ∷ [])
valid_predecessors locally_backed_up = some (preflighted ∷ [])
valid_predecessors remotely_backed_up = some (locally_backed_up ∷ [])
valid_predecessors applied = some (remotely_backed_up ∷ [])
valid_predecessors validated = some (applied ∷ [])
valid_predecessors verified = some (validated ∷ [])
valid_predecessors failed =
    some (draft ∷ preflighted ∷ locally_backed_up ∷ remotely_backed_up ∷ applied ∷ validated ∷ [])
valid_predecessors rolled_back = some (applied ∷ validated ∷ [])

-- `_TERMINAL_STATES`.
abbrev pub terminal_states : List ChangeSetStatus
terminal_states = verified ∷ failed ∷ rolled_back ∷ []

abbrev pub is_terminal : ChangeSetStatus → Bool
is_terminal s = any (same_status s) terminal_states

-- A value of `original_metadata`; of one that is neither a Boolean nor a text, whether it is true.
pub data MetaValue : Type 0 where
  flag : Bool → MetaValue
  words : Text → MetaValue
  other : Bool → MetaValue

pub record FileChange : Type 0 where
  pub file_change_id : String
  pub scope : String
  pub remote_path : Text
  pub expected_sha256 : Option Text
  pub replacement_sha256 : Text
  pub diff_text : String
  pub original_metadata : List (String × MetaValue)
  pub local_backup_ref : Option Text
  pub remote_backup_path : Text
  pub temp_path : Option Text
  pub applied : Bool
  pub validation_result : Option String
  pub rollback_result : Option String

pub record ChangeSet : Type 0 where
  pub changeset_id : String
  pub incident_id : String
  pub project_id : String
  pub target_id : String
  pub service_name : String
  pub files : List FileChange
  pub status : ChangeSetStatus
  pub created_at : ℕ
  pub updated_at : ℕ
  pub verification_plan : String
  pub rollback_plan : String
  pub approval_id : Option String

-- A row of `changesets`: a change set without its files.
pub record ChangeSetRow : Type 0 where
  pub changeset_id : String
  pub incident_id : String
  pub project_id : String
  pub target_id : String
  pub service_name : String
  pub status : ChangeSetStatus
  pub verification_plan : String
  pub rollback_plan : String
  pub approval_id : Option String
  pub created_at : ℕ
  pub updated_at : ℕ

-- A row of `file_changes`.
pub record FileRow : Type 0 where
  pub changeset_id : String
  pub file : FileChange

pub record ChangeDb : Type 0 where
  pub changesets : List ChangeSetRow
  pub file_changes : List FileRow

pub data ChangeError : Type 0 where
  changeset_not_found invalid_change_transition integrity_error value_error : ChangeError
