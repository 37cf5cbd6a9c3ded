-- ===== src/Changes/Tests.antt =====
-- Calls of changes/store.py on a journal that starts empty, and of the vault of changes/backup.py.
use incidentlens.Common.{
  none, some, true, false, [], ◌∷◌, List, ok, ◌≡◌, refl, ◌++◌, drop, take, All, codes, same_text,
  arith,
}
use incidentlens.Common.Keyed.{string_key}
use incidentlens.Changes.Types.{
  preflighted, applied, failed, rolled_back, FileChange, ChangeSetRow, ChangeDb,
}
use incidentlens.Changes.Store.{get, row_of, NewChangeSet, new_changeset, transition}
use incidentlens.Changes.Files.{FileUpdates}
use incidentlens.Changes.Moves.{TransitionCall, Lives, moves_of, perform_all-Lives}
use incidentlens.Changes.Vault.{Bytes, Disk, BackupReference, Crypto, pack, store, load, read_file}
use incidentlens.Changes.Segments.{IsSegment}
use incidentlens.Changes.Backups.{IsAead, store-load}

abbrev conf : FileChange
conf = record {
  file_change_id = "fch-1";
  scope = "container";
  remote_path = codes "/srv/app/app.conf";
  expected_sha256 = none;
  replacement_sha256 = codes "aa";
  diff_text = "";
  original_metadata = [];
  local_backup_ref = none;
  remote_backup_path = codes "";
  temp_path = none;
  applied = false;
  validation_result = none;
  rollback_result = none;
}

abbrev new : NewChangeSet
new = record {
  changeset_id = "chs-1";
  incident_id = "inc-1";
  project_id = "prj-1";
  target_id = "web-1";
  service_name = "app";
  files =
      conf ∷ record conf { file_change_id = "fch-2"; remote_path = codes "/srv/app/b.conf" } ∷ [];
  verification_plan = "curl";
  rollback_plan = "restore";
  approval_id = some "apr-1";
}

abbrev empty : ChangeDb
empty = record { changesets = []; file_changes = [] }

abbrev row : ChangeSetRow
row = row_of (new_changeset new 5)

abbrev stored : ChangeDb
stored = record {
  changesets = row ∷ [];
  file_changes = record { changeset_id = "chs-1"; file = conf } ∷ [];
}

-- A change set that is applied too early, fails, and is asked to be rolled back.
abbrev calls : List TransitionCall
calls =
    record { changeset_id = "chs-1"; target_status = applied; now = 6 }
    ∷ record { changeset_id = "chs-1"; target_status = preflighted; now = 7 }
    ∷ record { changeset_id = "chs-1"; target_status = failed; now = 8 }
    ∷ record { changeset_id = "chs-1"; target_status = rolled_back; now = 9 }
    ∷ []

moves_of_test : moves_of "chs-1" calls stored ≡ preflighted ∷ failed ∷ []
unfolding get transition
moves_of_test = refl

perform_all-Lives_example : Lives "chs-1" calls stored row
perform_all-Lives_example = perform_all-Lives "chs-1" calls stored row refl

abbrev updates : FileUpdates
updates = record {
  local_backup_ref = some (codes "vault/1");
  remote_backup_path = none;
  temp_path = none;
  applied = some true;
  validation_result = none;
  rollback_result = none;
}

-- A cipher that only puts a tag before the content.
abbrev tag : Bytes
tag = 0 ∷ 0 ∷ 0 ∷ 0 ∷ 0 ∷ 0 ∷ 0 ∷ 0 ∷ 0 ∷ 0 ∷ 0 ∷ 0 ∷ 0 ∷ 0 ∷ 0 ∷ 0 ∷ []

abbrev tagging : Crypto
tagging = record {
  encrypt = λ key nonce content aad. tag ++ content;
  decrypt = λ key nonce sealed aad. some (drop 16 sealed);
  hexdigest = λ content. content;
  metadata_bytes = λ metadata. metadata.target_id;
  utf8 = λ text. text;
}

tagging-IsAead : IsAead tagging
tagging-IsAead = record {
  decrypts = λ key nonce content aad. refl;
  tagged = λ key nonce content aad. omega arith;
}

abbrev nonce : Bytes
nonce = 1 ∷ 2 ∷ 3 ∷ 4 ∷ 5 ∷ 6 ∷ 7 ∷ 8 ∷ 9 ∷ 10 ∷ 11 ∷ 12 ∷ []

abbrev no_backups : Disk
no_backups = record { key_file = none; backups = [] }

store-load_example :
    (reference : BackupReference) × (let stored =
        store tagging [] nonce
          (codes "../web")
          (codes "inc-1")
          (codes "chs-1")
          (codes "/srv/a")
          (codes "x=1")
          no_backups in
      (stored.0 ≡ ok reference)
      × All IsSegment (take 3 reference.local_path)
      × (load tagging [] reference stored.1 ≡ ok (codes "x=1")))
store-load_example =
    store-load tagging [] nonce (codes "../web") (codes "inc-1") (codes "chs-1") (codes "/srv/a")
      (codes "x=1") no_backups tagging-IsAead (omega arith) refl

abbrev reference : BackupReference
reference = record { local_path = codes "b" ∷ []; sha256 = codes "x=1" }

abbrev kept : Disk
kept = record no_backups {
  backups = (codes "b" ∷ [], pack 0 ++ (nonce ++ (tag ++ codes "x=1"))) ∷ [];
}

load_test : load tagging [] reference kept ≡ ok (codes "x=1")
unfolding load read_file same_text
load_test = refl
