-- ===== src/Manager/Types.antt =====
-- What class ChangeManager of changes/manager.py works on. The dictionaries of one `apply` are part
-- of the state, since its failure handler reads them.
use incidentlens.Common.{
  ℕ, String, Bool, true, false, Option, none, some, List, [], ◌∷◌, if◌then◌else◌, Text, Result,
  Action,
}
use incidentlens.Policy.Paths.{
  PurePosixPath, RemoteScope, FileMetadata, ServiceRegistration, AuthorizeError, same_path,
}
use incidentlens.Changes.Types.{ChangeSetStatus, ChangeDb, ChangeError}
use incidentlens.Changes.Vault.{Bytes, Disk, Crypto, BackupError}

pub record TextReplacement : Type 0 where
  pub old_text : Text
  pub new_text : Text
  pub expected_count : ℕ

-- What sets `FileEditRequest` and `FileWriteRequest` apart.
pub data Mutation : Type 0 where
  edit : Text → List TextReplacement → Mutation
  write : Option Text → Bytes → Option ℕ → Mutation

pub record FileMutation : Type 0 where
  pub operation_id : String
  pub incident_id : String
  pub project_id : String
  pub target_id : String
  pub service : String
  pub scope : RemoteScope
  pub path : PurePosixPath
  pub mutation : Mutation

-- A request has a first file; the others share its context.
pub record ChangeSetRequest : Type 0 where
  pub changeset_id : String
  pub first : FileMutation
  pub others : List FileMutation
  pub verification_plan : String
  pub rollback_plan : String

abbrev pub files_of : ChangeSetRequest → List FileMutation
files_of request = request.first ∷ request.others

abbrev pub expected_sha256 : FileMutation → Option Text
expected_sha256 file_req = elim file_req.mutation [
  | edit sha256 _ ↦ some sha256
  | write sha256 _ _ ↦ sha256
]

pub data RemoteError : Type 0 where
  path_error timeout_error connection_error other_error : RemoteError

-- The messages of `ChangeApplyError`, `ChangeVerifyError` and `ChangeRollbackError`, by their raise.
pub data Problem : Type 0 where
  symbolic_link already_exists no_such_path escapes_roots occurrences_differ text_not_found
        overlapping validation_failed sha_mismatch local_backup_differs remote_backup_differs
        compose_config_failed approval_required no_file_request target_not_registered no_transport
        service_not_found no_policy changeset_missing wrong_status container_missing
        restore_failed :
      Problem

pub data Failure : Type 0 where
  problem : Problem → Failure
  remote : RemoteError → Failure
  denied : AuthorizeError → Failure
  journal : ChangeError → Failure
  vault : BackupError → Failure
  approval : Failure
  not_utf8 : Failure
  lookup_failed : Failure

-- `_is_uncertain_failure`.
abbrev pub is_uncertain_failure : Failure → Bool
is_uncertain_failure (remote RemoteError.timeout_error) = true
is_uncertain_failure (remote RemoteError.connection_error) = true
is_uncertain_failure _ = false

-- `error` is the exception whose text the result carries.
pub record ChangeResult : Type 0 where
  pub changeset_id : String
  pub status : ChangeSetStatus
  pub applied_files : List PurePosixPath
  pub error : Option Failure
  pub uncertain : Bool

-- The calls of a transport, or of a container's backend, over the remote state `R`.
pub record Backend (R : Type 0) : Type 0 where
  pub realpath : PurePosixPath → Action R RemoteError PurePosixPath
  pub lstat : RemoteScope → PurePosixPath → Action R RemoteError FileMetadata
  pub read_bytes : RemoteScope → PurePosixPath → ℕ → Action R RemoteError Bytes
  pub copy_file : RemoteScope → PurePosixPath → PurePosixPath → Action R RemoteError (Unit {0})
  pub write_exclusive : RemoteScope → PurePosixPath → Bytes → ℕ → Action R RemoteError (Unit {0})
  pub rename : RemoteScope → PurePosixPath → PurePosixPath → Action R RemoteError (Unit {0})
  pub remove_file : RemoteScope → PurePosixPath → Action R RemoteError (Unit {0})
  -- `docker compose -f path config -q`: whether it exits with 0.
  pub compose_config : PurePosixPath → Action R RemoteError Bool

-- The intents that an approval is asked for.
pub data Intent : Type 0 where
  change_intent : String → String → String → List Text → Text → Intent
  rollback_intent : String → String → String → Intent

-- The libraries that the manager calls: `str.lower` and `str.isspace` above ASCII, the UTF-8 codec,
-- the parsers of Python, JSON and TOML, and the vault's.
pub record Runtime : Type 0 where
  pub lower_above : ℕ → Text
  pub is_space_above : ℕ → Bool
  pub decode : Bytes → Option Text
  pub encode : Text → Bytes
  pub parses_python : Text → Bool
  pub parses_json : Text → Bool
  pub parses_toml : Text → Bool
  pub crypto : Crypto

pub record ProjectRecord : Type 0 where
  pub services : List ServiceRegistration
  pub targets : List String

-- What the constructor is given; `connect` of a session manager is whether a target connects.
pub record Config : Type 0 where
  pub projects : Option (String → Option ProjectRecord)
  pub sessions : Option (String → Result RemoteError (Unit {0}))
  pub has_transport : Bool
  pub policy : Option ServiceRegistration
  pub protected_paths : List PurePosixPath
  pub has_approvals : Bool
  pub has_events : Bool

-- A dictionary that is keyed by a path, in the order of its insertions.
abbrev pub PathDict : Type 0 → Type 0
PathDict V = List (PurePosixPath × V)

abbrev pub get_item : {V : Type 0} → PurePosixPath → PathDict V → Option V
get_item path [] = none
get_item path ((other, value) ∷ dict) =
    let rest = get_item path dict in if same_path other path then some value else rest

abbrev pub set_item : {V : Type 0} → PurePosixPath → V → PathDict V → PathDict V
set_item path value [] = (path, value) ∷ []
set_item path value ((other, old) ∷ dict) =
    let rest = set_item path value dict in
    if same_path other path then (other, value) ∷ dict else (other, old) ∷ rest

-- The local variables of `_apply_locked`.
pub record Progress : Type 0 where
  pub applied_files : List PurePosixPath
  pub changeset_created : Bool
  pub written_temps : List PurePosixPath
  pub canonical_paths : PathDict PurePosixPath
  pub original_contents : PathDict Bytes
  pub original_modes : PathDict ℕ
  pub new_contents : PathDict Bytes
  pub new_files : List PurePosixPath
  pub backup_paths : PathDict PurePosixPath
  pub temp_paths : PathDict PurePosixPath
  pub validation_results : PathDict String

abbrev pub no_progress : Progress
no_progress = record {
  applied_files = [];
  changeset_created = false;
  written_temps = [];
  canonical_paths = [];
  original_contents = [];
  original_modes = [];
  new_contents = [];
  new_files = [];
  backup_paths = [];
  temp_paths = [];
  validation_results = [];
}

pub data ChangeEventType : Type 0 where
  changeset_created changeset_status_changed changeset_rolled_back : ChangeEventType

pub record ChangeEvent : Type 0 where
  pub event_type : ChangeEventType
  pub changeset_id : String
  pub status : ChangeSetStatus

-- The journal, the vault's disk, the remote files, the approvals, the events, one `apply`'s locals.
pub record World (R A : Type 0) : Type 0 where
  pub journal_db : ChangeDb
  pub disk : Disk
  pub files : R
  pub approvals : A
  pub events : List ChangeEvent
  pub progress : Progress
