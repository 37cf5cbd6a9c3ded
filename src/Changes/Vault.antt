-- ===== src/Changes/Vault.antt =====
-- class EncryptedBackupVault of changes/backup.py. A byte is a number, a path the list of its parts;
-- `os.write` writes all that it is given.
use Prim.Native.Nat.{◌/◌, ◌%◌}
use incidentlens.Common.{
  ℕ, ◌+◌, ◌*◌, Bool, not, Option, none, some, List, [], ◌∷◌, ◌++◌, take, drop, length,
  if◌then◌else◌, ltb, ◌==◌, ◌&&◌, Text, codes, same_text, Result, ok, err, true, false, Action,
}

abbrev pub Bytes : Type 0
Bytes = List ℕ

abbrev pub FilePath : Type 0
FilePath = List Text

-- The files below the vault's root, and the key's.
pub record Disk : Type 0 where
  pub key_file : Option Bytes
  pub backups : List (FilePath × Bytes)

pub record BackupReference : Type 0 where
  pub local_path : FilePath
  pub sha256 : Text

pub record BackupMetadata : Type 0 where
  pub target_id : Text
  pub incident_id : Text
  pub changeset_id : Text
  pub remote_path : Text
  pub plaintext_sha256 : Text

pub data BackupError : Type 0 where
  backup_integrity_error file_not_found struct_error : BackupError

-- What the vault calls: AESGCM of cryptography, hashlib's hexdigest, the JSON bytes of the
-- metadata and the UTF-8 bytes of a text.
pub record Crypto : Type 0 where
  pub encrypt : Bytes → Bytes → Bytes → Bytes → Bytes
  pub decrypt : Bytes → Bytes → Bytes → Bytes → Option Bytes
  pub hexdigest : Bytes → Text
  pub metadata_bytes : BackupMetadata → Bytes
  pub utf8 : Text → Bytes

-- `segment.replace(c, "_")`.
abbrev pub replace_char : ℕ → Text → Text
replace_char c [] = []
replace_char c (d ∷ text) = (if d == c then 95 else d) ∷ replace_char c text

-- `segment.replace("..", "__")`, from left to right; `dot` says that a dot was just passed.
abbrev pub replace_after : Bool → Text → Text
replace_after false [] = []
replace_after true [] = codes "."
replace_after false (d ∷ text) =
    let dotted = replace_after true text in
    let rest = replace_after false text in if d == 46 then dotted else d ∷ rest
replace_after true (d ∷ text) =
    let rest = replace_after false text in if d == 46 then 95 ∷ 95 ∷ rest else 46 ∷ d ∷ rest

abbrev pub replace_dots : Text → Text
replace_dots = replace_after false

abbrev pub sanitize_segment : Text → Text
sanitize_segment segment = replace_char 92 (replace_dots (replace_char 47 segment))

-- `struct.pack("!I", n)` and `struct.unpack`.
abbrev pub pack : ℕ → Bytes
pack n = n / 16777216 % 256 ∷ n / 65536 % 256 ∷ n / 256 % 256 ∷ n % 256 ∷ []

abbrev pub unpack : Bytes → ℕ
unpack (a ∷ b ∷ c ∷ d ∷ []) = a * 16777216 + b * 65536 + c * 256 + d
unpack _ = 0

-- `_load_or_create_key`; `new_key` is what the library generates.
unfoldable pub load_or_create_key : Bytes → Disk → Bytes × Disk
load_or_create_key new_key disk = elim disk.key_file [
  | some key ↦ (key, disk)
  | none ↦ (new_key, record disk { key_file = some new_key })
]

abbrev pub same_path : FilePath → FilePath → Bool
same_path [] [] = true
same_path [] (q ∷ b) = false
same_path (p ∷ a) [] = false
same_path (p ∷ a) (q ∷ b) = same_text p q && same_path a b

-- `O_CREAT | O_TRUNC`, then `write`.
unfoldable pub write_file : FilePath → Bytes → List (FilePath × Bytes) → List (FilePath × Bytes)
unfolding same_text
write_file path blob [] = (path, blob) ∷ []
write_file path blob ((other, old) ∷ files) =
    let rest = write_file path blob files in
    if same_path other path then (path, blob) ∷ files else (other, old) ∷ rest

unfoldable pub read_file : FilePath → List (FilePath × Bytes) → Option Bytes
unfolding same_text
read_file path [] = none
read_file path ((other, blob) ∷ files) =
    let rest = read_file path files in if same_path other path then some blob else rest

module _ (crypto : Crypto) where
  abbrev pub backup_path : Text → Text → Text → Text → FilePath
  backup_path target_id incident_id changeset_id remote_path =
      sanitize_segment target_id
      ∷ sanitize_segment incident_id
      ∷ sanitize_segment changeset_id
      ∷ (take 16 (crypto.hexdigest (crypto.utf8 remote_path)) ++ codes ".enc")
      ∷ []

  abbrev pub metadata_of : Text → Text → Text → Text → Bytes → BackupMetadata
  metadata_of target_id incident_id changeset_id remote_path content = record {
    target_id = target_id;
    incident_id = incident_id;
    changeset_id = changeset_id;
    remote_path = remote_path;
    plaintext_sha256 = crypto.hexdigest content;
  }

  -- `aad_len + aad + nonce + ciphertext`.
  abbrev pub blob_of : Bytes → Bytes → Bytes → Bytes → Bytes
  blob_of key nonce content aad =
      pack (length aad) ++ (aad ++ (nonce ++ crypto.encrypt key nonce content aad))

  unfoldable pub store :
      Bytes → Bytes → Text → Text → Text → Text → Bytes → Action Disk BackupError BackupReference
  unfolding write_file
  store key nonce target_id incident_id changeset_id remote_path content disk =
      let aad =
        crypto.metadata_bytes
          (metadata_of target_id incident_id changeset_id remote_path content) in
      let path = backup_path target_id incident_id changeset_id remote_path in
      if not (ltb (length aad) 4294967296) then (err struct_error, disk) else (
        ok (record { local_path = path; sha256 = crypto.hexdigest content }),
        record disk { backups = write_file path (blob_of key nonce content aad) disk.backups },
      )

  abbrev pub verified : Text → Option Bytes → Result BackupError Bytes
  verified sha256 none = err backup_integrity_error
  verified sha256 (some plaintext) =
      if not (same_text (crypto.hexdigest plaintext) sha256)
      then err backup_integrity_error
      else ok plaintext

  abbrev pub opened : Bytes → Text → ℕ → Bytes → Result BackupError Bytes
  opened key sha256 aad_len blob =
      if ltb (length blob) (4 + aad_len + 12)
      then err backup_integrity_error
      else (verified sha256 (
          crypto.decrypt key (take 12 (drop (4 + aad_len) blob)) (drop (4 + aad_len + 12) blob)
            (take aad_len (drop 4 blob))))

  abbrev pub load_blob : Bytes → Text → Option Bytes → Result BackupError Bytes
  load_blob key sha256 none = err file_not_found
  load_blob key sha256 (some blob) =
      if ltb (length blob) 32
      then err backup_integrity_error
      else opened key sha256 (unpack (take 4 blob)) blob

  unfoldable pub load : Bytes → BackupReference → Disk → Result BackupError Bytes
  unfolding read_file same_text
  load key reference disk =
      load_blob key reference.sha256 (read_file reference.local_path disk.backups)
