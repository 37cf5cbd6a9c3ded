-- ===== src/Changes/Backups.antt =====
-- Storing a backup in the vault of changes/backup.py and loading it.
use incidentlens.Common.{
  ℕ, zero, suc, ◌+◌, ◌<◌, ◌≤◌, true, false, Option, none, some, List, [], ◌∷◌, ◌++◌, take, drop,
  length, length-append, All, ltb, Text, same_text, same_text_iff, ok, ◌≡◌, refl, sym, ap, ◌∙◌,
  arith, Bool-cases, inl, inr,
}
use incidentlens.Changes.Vault.{
  Bytes, FilePath, Disk, BackupReference, Crypto, pack, unpack, write_file, read_file, same_path,
  backup_path, metadata_of, blob_of, store, load, load_blob, opened, verified,
}
use incidentlens.Changes.Segments.{IsSegment, sanitize_segment-IsSegment}

unpack-pack : (n : ℕ) → n < 4294967296 → unpack (pack n) ≡ n
unpack-pack n h = omega (arith, h)

same_path_refl : (p : FilePath) → same_path p p ≡ true
same_path_refl [] = refl
same_path_refl (t ∷ p) = rw ((same_text_iff t t).1 refl) (same_path_refl p)

read_file-write_file :
    (path : FilePath) (blob : Bytes) (files : List (FilePath × Bytes))
    → read_file path (write_file path blob files) ≡ some blob
unfolding read_file write_file
read_file-write_file path blob [] = rw (same_path_refl path) refl
read_file-write_file path blob ((other, old) ∷ files) = elim (Bool-cases (same_path other path)) [
  | inl e ↦ rw (e, same_path_refl path) refl
  | inr e ↦ rw (e, e) (read_file-write_file path blob files)
]

take-append : (xs ys : Bytes) → take (length xs) (xs ++ ys) ≡ xs
take-append [] ys = refl
take-append (x ∷ xs) ys = ap (◌∷◌ x) (take-append xs ys)

drop-append : (xs ys : Bytes) → drop (length xs) (xs ++ ys) ≡ ys
drop-append [] ys = refl
drop-append (x ∷ xs) ys = drop-append xs ys

drop_nil : (n : ℕ) → drop {A = ℕ} n [] ≡ []
drop_nil zero = refl
drop_nil (suc n) = refl

drop-drop : (m n : ℕ) (xs : Bytes) → drop (m + n) xs ≡ drop n (drop m xs)
drop-drop zero n xs = ap (λ k. drop k xs) (omega arith)
drop-drop (suc m) n [] = drop_nil (suc m + n) ∙ sym (drop_nil n)
drop-drop (suc m) n (x ∷ xs) =
    let shift : suc m + n ≡ suc (m + n) = omega arith in
    ap (λ k. drop k (x ∷ xs)) shift ∙ drop-drop m n xs

module _ (aad nonce sealed : Bytes) (short : length aad < 4294967296)
    (twelve : length nonce ≡ 12) where
  abbrev blob : Bytes
  blob = pack (length aad) ++ (aad ++ (nonce ++ sealed))

  blob-length : length blob ≡ 16 + length aad + length sealed
  blob-length =
      let rest = length-append aad (nonce ++ sealed) in
      let last = length-append nonce sealed in omega (arith, rest, last, twelve)

  blob-aad_len : unpack (take 4 blob) ≡ length aad
  blob-aad_len = unpack-pack (length aad) short

  blob-aad : take (length aad) (drop 4 blob) ≡ aad
  blob-aad = take-append aad (nonce ++ sealed)

  blob-after_aad : drop (4 + length aad) blob ≡ nonce ++ sealed
  blob-after_aad = drop-drop 4 (length aad) blob ∙ drop-append aad (nonce ++ sealed)

  blob-nonce : take 12 (drop (4 + length aad) blob) ≡ nonce
  blob-nonce =
      ap (take 12) blob-after_aad
      ∙ ap (λ n. take n (nonce ++ sealed)) (sym twelve)
      ∙ take-append nonce sealed

  blob-sealed : drop (4 + length aad + 12) blob ≡ sealed
  blob-sealed =
      drop-drop (4 + length aad) 12 blob
      ∙ ap (drop 12) blob-after_aad
      ∙ ap (λ n. drop n (nonce ++ sealed)) (sym twelve)
      ∙ drop-append nonce sealed

-- What the vault relies on of AES-GCM: it decrypts what it encrypted, whose tag has 16 bytes.
pub record IsAead (crypto : Crypto) : Type 0 where
  pub decrypts :
      (key nonce content aad : Bytes)
      → crypto.decrypt key nonce (crypto.encrypt key nonce content aad) aad ≡ some content
  pub tagged : (key nonce content aad : Bytes) → 16 ≤ length (crypto.encrypt key nonce content aad)

module _ (crypto : Crypto) (key : Bytes) (sha256 : Text) where
  read_blob :
      (blob : Bytes)
      → ltb (length blob) 32 ≡ false
      → load_blob crypto key sha256 (some blob)
        ≡ opened crypto key sha256 (unpack (take 4 blob)) blob
  read_blob blob e = rw e refl

  opened_blob :
      (aad_len : ℕ) (blob : Bytes) {nonce sealed aad : Bytes}
      → ltb (length blob) (4 + aad_len + 12) ≡ false
      → take 12 (drop (4 + aad_len) blob) ≡ nonce
      → drop (4 + aad_len + 12) blob ≡ sealed
      → take aad_len (drop 4 blob) ≡ aad
      → opened crypto key sha256 aad_len blob
        ≡ verified crypto sha256 (crypto.decrypt key nonce sealed aad)
  opened_blob aad_len blob e n s a = rw (e, n, s, a) refl

load_blob-blob_of :
    (crypto : Crypto) (key nonce content aad : Bytes)
    → IsAead crypto
    → length aad < 4294967296
    → length nonce ≡ 12
    → load_blob crypto key (crypto.hexdigest content) (some (blob_of crypto key nonce content aad))
      ≡ ok content
load_blob-blob_of crypto key nonce content aad aead short twelve =
    let sealed = crypto.encrypt key nonce content aad in
    let sha256 = crypto.hexdigest content in
    let whole = blob_of crypto key nonce content aad in
    let size = blob-length aad nonce sealed short twelve in
    let tag = aead.tagged key nonce content aad in
    read_blob crypto key sha256 whole (ground (arith, size, tag))
    ∙ ap (λ n. opened crypto key sha256 n whole) (blob-aad_len aad nonce sealed short twelve)
    ∙ opened_blob crypto key sha256 (length aad) whole (ground (arith, size, tag))
        (blob-nonce aad nonce sealed short twelve) (blob-sealed aad nonce sealed short twelve)
        (blob-aad aad nonce sealed short twelve)
    ∙ ap (verified crypto sha256) (aead.decrypts key nonce content aad)
    ∙ rw ((same_text_iff sha256 sha256).1 refl) refl

-- A backup is stored where the metadata has fewer than 2^32 bytes, in parts of a path that have no
-- separator and no two dots in a row, whatever the identities are; and loading what the store
-- returned gives the content, where the cipher decrypts what it encrypted and its tag has 16 bytes,
-- and the nonce has 12.
pub store-load :
    (crypto : Crypto) (key nonce : Bytes) (target_id incident_id changeset_id remote_path : Text)
    (content : Bytes) (disk : Disk)
    → IsAead crypto
    → length (
        crypto.metadata_bytes
          (metadata_of crypto target_id incident_id changeset_id remote_path content))
      < 4294967296
    → length nonce ≡ 12
    → (reference : BackupReference) × (let stored =
          store crypto key nonce target_id incident_id changeset_id remote_path content disk in
        (stored.0 ≡ ok reference)
        × All IsSegment (take 3 reference.local_path)
        × (load crypto key reference stored.1 ≡ ok content))
unfolding store load
store-load crypto key nonce target_id incident_id changeset_id remote_path content disk aead short
      twelve =
    let aad =
      crypto.metadata_bytes
        (metadata_of crypto target_id incident_id changeset_id remote_path content) in
    let path = backup_path crypto target_id incident_id changeset_id remote_path in
    let small : ltb (length aad) 4294967296 ≡ true = ground (arith, short) in
    (
      record { local_path = path; sha256 = crypto.hexdigest content },
      (
        rw small refl,
        (
          sanitize_segment-IsSegment target_id,
          (sanitize_segment-IsSegment incident_id, (sanitize_segment-IsSegment changeset_id, tt)),
        ),
        rw (small, read_file-write_file path (blob_of crypto key nonce content aad) disk.backups)
            (load_blob-blob_of crypto key nonce content aad aead short twelve),
      ),
    )

verified-hexdigest :
    (crypto : Crypto) (sha256 : Text) (plaintext : Option Bytes) {content : Bytes}
    → verified crypto sha256 plaintext ≡ ok content
    → crypto.hexdigest content ≡ sha256
verified-hexdigest crypto sha256 none h = absurd (cc h)
verified-hexdigest crypto sha256 (some plaintext) {content} h =
    elim (Bool-cases (same_text (crypto.hexdigest plaintext) sha256)) [
      | inr e ↦ absurd (cc (rw e at h))
      | inl e ↦
          let same : plaintext ≡ content = cc (rw e at h) in
          ap crypto.hexdigest (sym same) ∙ (same_text_iff (crypto.hexdigest plaintext) sha256).0 e
    ]

opened-hexdigest :
    (crypto : Crypto) (key : Bytes) (sha256 : Text) (aad_len : ℕ) (blob : Bytes) {content : Bytes}
    → opened crypto key sha256 aad_len blob ≡ ok content
    → crypto.hexdigest content ≡ sha256
opened-hexdigest crypto key sha256 aad_len blob {content} h =
    elim (Bool-cases (ltb (length blob) (4 + aad_len + 12))) [
      | inl e ↦ absurd (cc (rw e at h))
      | inr e ↦
          verified-hexdigest crypto sha256
            (crypto.decrypt key (take 12 (drop (4 + aad_len) blob)) (drop (4 + aad_len + 12) blob)
              (take aad_len (drop 4 blob)))
            (rw e at h)
    ]

load_blob-hexdigest :
    (crypto : Crypto) (key : Bytes) (sha256 : Text) (blob : Option Bytes) {content : Bytes}
    → load_blob crypto key sha256 blob ≡ ok content
    → crypto.hexdigest content ≡ sha256
load_blob-hexdigest crypto key sha256 none h = absurd (cc h)
load_blob-hexdigest crypto key sha256 (some blob) {content} h =
    elim (Bool-cases (ltb (length blob) 32)) [
      | inl e ↦ absurd (cc (rw e at h))
      | inr e ↦ opened-hexdigest crypto key sha256 (unpack (take 4 blob)) blob (rw e at h)
    ]

-- Whatever stands on the disk, with whatever key and cipher, what a load returns has the hash that
-- the reference recorded when the backup was made.
load-hexdigest :
    (crypto : Crypto) (key : Bytes) (reference : BackupReference) (disk : Disk) {content : Bytes}
    → load crypto key reference disk ≡ ok content
    → crypto.hexdigest content ≡ reference.sha256
unfolding load
load-hexdigest crypto key reference disk h =
    load_blob-hexdigest crypto key reference.sha256 (read_file reference.local_path disk.backups) h
