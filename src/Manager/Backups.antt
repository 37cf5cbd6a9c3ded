-- ===== src/Manager/Backups.antt =====
-- The journal's draft and steps 5 and 6 of `_apply_locked` in changes/manager.py: both backups.
use incidentlens.Common.{
  ℕ, String, Bool, true, false, not, Option, none, some, List, [], ◌∷◌, ◌++◌, any, if◌then◌else◌,
  Text, codes, same_text, ok, err, pure, ◌>>=◌, ◌>>◌,
}
use incidentlens.Policy.Paths.{PurePosixPath, RemoteScope, host, container, same_path}
use incidentlens.Changes.Types.{FileChange, MetaValue, flag, words, draft, preflighted}
use incidentlens.Changes.Store.{create_changeset}
use incidentlens.Changes.Vault.{Bytes, BackupReference, store, load}
use incidentlens.Manager.Types.{
  Progress, Runtime, Backend, Config, FileMutation, ChangeSetRequest, files_of, expected_sha256,
  vault, local_backup_differs, remote_backup_differs, set_item,
}
use incidentlens.Manager.Paths.{name_of, parent_of, join_name, path_str, last_part}
use incidentlens.Manager.Preflight.{max_change_file_bytes}
use incidentlens.Manager.Monad.{
  Step, fails, on_files, on_journal, on_disk, locals, set_locals, item, emit, move_to, update_file,
  no_updates,
}

abbrev pub scope_kind : RemoteScope → String
scope_kind host = "host"
scope_kind (container name) = "container"

abbrev pub container_entry : RemoteScope → List (String × MetaValue)
container_entry host = []
container_entry (container name) = ("container", words name) ∷ []

abbrev pub absent_entry : Bool → List (String × MetaValue)
absent_entry true = ("originally_absent", flag true) ∷ []
absent_entry false = []

-- `path in paths`, for the sets of paths.
abbrev pub mem_path : PurePosixPath → List PurePosixPath → Bool
mem_path path = any (same_path path)

-- `_build_file_change`.
abbrev pub build_file_change : Runtime → FileMutation → Bytes → Bool → FileChange
build_file_change py file_req content is_absent = record {
  file_change_id = file_req.operation_id;
  scope = scope_kind file_req.scope;
  remote_path = path_str file_req.path;
  expected_sha256 = expected_sha256 file_req;
  replacement_sha256 = py.crypto.hexdigest content;
  diff_text = "";
  original_metadata = absent_entry is_absent ++ container_entry file_req.scope;
  local_backup_ref = none;
  remote_backup_path = [];
  temp_path = none;
  applied = false;
  validation_result = none;
  rollback_result = none;
}

abbrev pub backup_name : Text → PurePosixPath → PurePosixPath
backup_name ts canonical =
    join_name (parent_of canonical) (name_of canonical ++ (codes ".incidentlens-backup." ++ ts))

module _ {R A : Type 0} (py : Runtime) (backend : Backend R) (config : Config) (now : ℕ)
    (request : ChangeSetRequest) where
  abbrev pub build_all : List FileMutation → Step R A (List FileChange)
  build_all [] = pure []
  build_all (file_req ∷ files) = locals >>= λ l. item file_req.path l.new_contents >>= λ content.
      build_all files >>= λ rest.
      pure (build_file_change py file_req content (mem_path file_req.path l.new_files) ∷ rest)

  -- The draft in the journal.
  unfoldable pub write_draft : Option String → Step R A (Unit {0})
  unfolding create_changeset emit move_to path_str
  write_draft approval_id = do
    files ← build_all (files_of request)
    _ ← on_journal (
        create_changeset
          (record {
            changeset_id = request.changeset_id;
            incident_id = request.first.incident_id;
            project_id = request.first.project_id;
            target_id = request.first.target_id;
            service_name = request.first.service;
            files = files;
            verification_plan = request.verification_plan;
            rollback_plan = request.rollback_plan;
            approval_id = approval_id;
          })
          now)
    _ ← set_locals (λ l. record l { changeset_created = true })
    _ ← emit config request.changeset_id draft true
    move_to config now request.changeset_id preflighted

  abbrev store_backup : Bytes → Bytes → FileMutation → Bytes → Step R A BackupReference
  store_backup key nonce file_req content = on_disk (
      store py.crypto key nonce (codes file_req.target_id) (codes file_req.incident_id)
        (codes request.changeset_id) (path_str file_req.path) content)

  -- `self._vault.load(ref)`, and the comparison.
  abbrev load_same : Bytes → BackupReference → Bytes → Step R A (Unit {0})
  load_same key reference content w = elim (load py.crypto key reference w.disk) [
    | err e ↦ (err (vault e), w)
    | ok loaded ↦
        if not (same_text loaded content) then fails local_backup_differs w else (ok tt, w)
  ]

  abbrev stored_backup : Bytes → Bytes → FileMutation → Bool → Step R A BackupReference
  stored_backup key nonce file_req is_absent =
      if is_absent
      then store_backup key nonce file_req []
      else (locals >>= λ l. item file_req.path l.original_contents >>= λ content.
          store_backup key nonce file_req content >>= λ reference.
          load_same key reference content >> pure reference)

  -- Step 5 for one file; `nonce` is what `os.urandom` draws for it.
  unfoldable pub local_backup : Bytes → (FileMutation → Bytes) → FileMutation → Step R A (Unit {0})
  unfolding store load update_file path_str same_text
  local_backup key nonce file_req = do
    l ← locals
    reference ← stored_backup key (nonce file_req) file_req (mem_path file_req.path l.new_files)
    update_file request.changeset_id file_req.operation_id
        (record no_updates { local_backup_ref = some (last_part reference.local_path) })

  abbrev pub record_backup : FileMutation → PurePosixPath → Step R A (Unit {0})
  record_backup file_req backup_path =
      set_locals
        (λ m. record m { backup_paths = set_item file_req.path backup_path m.backup_paths })
      >>= λ _.
          update_file request.changeset_id file_req.operation_id
            (record no_updates { remote_backup_path = some (path_str backup_path) })

  -- What was copied is compared with what was read at first.
  abbrev pub compare_backup : FileMutation → PurePosixPath → Bytes → Bytes → Step R A (Unit {0})
  compare_backup file_req backup_path backup_content content =
      if not (same_text backup_content content)
      then fails remote_backup_differs
      else record_backup file_req backup_path

  abbrev pub check_backup : FileMutation → Progress → PurePosixPath → Bytes → Step R A (Unit {0})
  check_backup file_req l backup_path backup_content =
      item file_req.path l.original_contents >>= compare_backup file_req backup_path backup_content

  abbrev pub copy_to : FileMutation → Progress → PurePosixPath → PurePosixPath → Step R A (Unit {0})
  copy_to file_req l backup_path canonical =
      on_files (backend.copy_file file_req.scope canonical backup_path) >>= λ _.
      on_files (backend.read_bytes file_req.scope backup_path max_change_file_bytes)
      >>= check_backup file_req l backup_path

  abbrev pub copy_original : Text → FileMutation → Progress → Step R A (Unit {0})
  copy_original ts file_req l = item file_req.path l.canonical_paths >>= λ canonical.
      copy_to file_req l (backup_name ts canonical) canonical

  -- Step 6 for one file; `ts` is the text of the time at which the apply began.
  unfoldable pub remote_backup : Text → FileMutation → Step R A (Unit {0})
  unfolding update_file path_str same_text
  remote_backup ts file_req = locals >>= λ l.
      if mem_path file_req.path l.new_files then pure tt else copy_original ts file_req l
