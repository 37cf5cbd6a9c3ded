-- ===== src/Changes/Reads.antt =====
-- What ChangeSetStore.get reads after the calls that write.
use incidentlens.Common.{
  ℕ, String, true, ◌&&◌, Option, none, some, List, [], ◌∷◌, ◌++◌, map, if◌then◌else◌, str_eq, ◌==◌,
  ok, ◌≡◌, ◌≢◌, refl, sym, ap, ◌∙◌, arith, Bool-cases, Option-cases, inl, inr, All, All-mono2,
  append_assoc, append-nil,
}
use incidentlens.Common.Sql.{insert_row, update_where, rowcount}
use incidentlens.Common.Keyed.{string_key, find, find-insert_other, find-insert_self, find-key}
use incidentlens.Changes.Types.{FileChange, ChangeSet, ChangeSetRow, FileRow, ChangeDb}
use incidentlens.Changes.Store.{
  changeset_key, file_key, files_of, get, from_row, row_of, insert_files, insert_changeset,
  NewChangeSet, new_changeset, create_changeset,
}
use incidentlens.Changes.Files.{
  FileUpdates, has_updates, updated_file, is_file, set_file, update_file_change,
}

-- Every file row has its change set.
abbrev pub IsReferential : ChangeDb → Type 0
IsReferential db =
    All (λ (r : FileRow). find changeset_key r.changeset_id db.changesets ≢ none) db.file_changes

abbrev pub AreDistinct : List FileChange → Type 0
AreDistinct [] = Unit
AreDistinct (file ∷ files) =
    All (λ (other : FileChange). file.file_change_id ≢ other.file_change_id) files
    × AreDistinct files

abbrev pub AreFresh : List FileChange → List FileRow → Type 0
AreFresh files rows =
    All (λ (file : FileChange). find file_key file.file_change_id rows ≡ none) files

abbrev file_row : String → FileChange → FileRow
file_row changeset_id file = record { changeset_id = changeset_id; file = file }

insert_files-append :
    (id : String) (files : List FileChange) (rows : List FileRow)
    → AreFresh files rows
    → AreDistinct files
    → insert_files id files rows ≡ some (rows ++ map (file_row id) files)
insert_files-append id [] rows fresh distinct = ap some (sym (append-nil rows))
insert_files-append id (file ∷ files) rows fresh distinct =
    let later =
      insert_files-append id files (insert_row (file_row id file) rows)
        (All-mono2 (λ (f : FileChange). find file_key f.file_change_id rows ≡ none)
          (λ (f : FileChange). file.file_change_id ≢ f.file_change_id)
          (λ (f : FileChange).
            find file_key f.file_change_id (insert_row (file_row id file) rows) ≡ none)
          files
          (λ f absent ne.
            find-insert_other file_key f.file_change_id (file_row id file) rows ne ∙ absent)
          fresh.1 distinct.0)
        distinct.1 in
    rw fresh.0
      (later ∙ ap some (append_assoc rows (file_row id file ∷ []) (map (file_row id) files)))

files_of-append :
    (id : String) (xs ys : List FileRow) → files_of id (xs ++ ys) ≡ files_of id xs ++ files_of id ys
files_of-append id [] ys = refl
files_of-append id (r ∷ xs) ys = elim (Bool-cases (str_eq r.changeset_id id)) [
  | inl e ↦ rw e (ap (◌∷◌ r.file) (files_of-append id xs ys))
  | inr e ↦ rw e (files_of-append id xs ys)
]

files_of-own :
    (id : String) (files : List FileChange) → files_of id (map (file_row id) files) ≡ files
files_of-own id [] = refl
files_of-own id (file ∷ files) =
    rw ((string_key.same_iff id id).1 refl) (ap (◌∷◌ file) (files_of-own id files))

files_of-none :
    (id : String) (changesets : List ChangeSetRow) (rows : List FileRow)
    → find changeset_key id changesets ≡ none
    → All (λ (r : FileRow). find changeset_key r.changeset_id changesets ≢ none) rows
    → files_of id rows ≡ []
files_of-none id changesets [] absent h = refl
files_of-none id changesets (r ∷ rows) absent h = elim (Bool-cases (str_eq r.changeset_id id)) [
  | inl e ↦ absurd (
      h.0 (
        ap (λ k. find changeset_key k changesets) ((string_key.same_iff r.changeset_id id).0 e)
        ∙ absent))
  | inr e ↦ rw e (files_of-none id changesets rows absent h.1)
]

-- A new change set whose identity and file identities are not taken, the files' own being distinct,
-- is stored, and reading it back gives what create_changeset returned, with its files in their
-- order.
create_changeset-get :
    (new : NewChangeSet) (now : ℕ) (db : ChangeDb)
    → IsReferential db
    → find changeset_key new.changeset_id db.changesets ≡ none
    → AreFresh new.files db.file_changes
    → AreDistinct new.files
    → ((create_changeset new now db).0 ≡ ok (new_changeset new now))
      × (get new.changeset_id (create_changeset new now db).1 ≡ some (new_changeset new now))
unfolding create_changeset insert_changeset get
create_changeset-get new now db whole absent fresh distinct =
    let inserted = insert_files-append new.changeset_id new.files db.file_changes fresh distinct in
    let here =
      find-insert_self changeset_key new.changeset_id (row_of (new_changeset new now)) db.changesets
        refl absent in
    let read =
      files_of-append new.changeset_id db.file_changes (map (file_row new.changeset_id) new.files)
      ∙ ap (λ xs. xs ++ files_of new.changeset_id (map (file_row new.changeset_id) new.files))
          (files_of-none new.changeset_id db.changesets db.file_changes absent whole)
      ∙ files_of-own new.changeset_id new.files in
    (rw (absent, inserted) refl, rw (absent, inserted, here, read) refl)

-- What an update of one file does to the files of the change set `id`.
abbrev pub with_file : String → String → FileUpdates → String → FileChange → FileChange
with_file changeset_id file_change_id u id file =
    if str_eq id changeset_id && str_eq file.file_change_id file_change_id
    then updated_file u file
    else file

abbrev pub with_files : (FileChange → FileChange) → Option ChangeSet → Option ChangeSet
with_files f none = none
with_files f (some changeset) = some (record changeset { files = map f changeset.files })

module _ (cid fid : String) (u : FileUpdates) where
  abbrev updated_row : FileRow → FileRow
  updated_row r = if is_file cid fid r then set_file u r else r

  updated_row-id : (r : FileRow) → (updated_row r).changeset_id ≡ r.changeset_id
  updated_row-id r = elim (Bool-cases (is_file cid fid r)) [ inl e ↦ rw e refl | inr e ↦ rw e refl ]

  updated_row-file :
      (r : FileRow) → (updated_row r).file ≡ with_file cid fid u r.changeset_id r.file
  updated_row-file r = elim (Bool-cases (is_file cid fid r)) [
    | inl e ↦ rw e refl
    | inr e ↦ rw e refl
  ]

  files_of-update :
      (id : String) (rows : List FileRow)
      → files_of id (update_where (is_file cid fid) (set_file u) rows)
        ≡ map (with_file cid fid u id) (files_of id rows)
  files_of-update id [] = refl
  files_of-update id (r ∷ rows) = elim (Bool-cases (str_eq r.changeset_id id)) [
    | inl e ↦
        let file =
          updated_row-file r
          ∙ ap (λ k. with_file cid fid u k r.file) ((string_key.same_iff r.changeset_id id).0 e) in
        rw (updated_row-id r, e, file)
          (ap (◌∷◌ (with_file cid fid u id r.file)) (files_of-update id rows))
    | inr e ↦ rw (updated_row-id r, e) (files_of-update id rows)
  ]

  no_rows :
      (rows : List FileRow)
      → rowcount (is_file cid fid) rows ≡ 0
      → update_where (is_file cid fid) (set_file u) rows ≡ rows
  no_rows [] h = refl
  no_rows (r ∷ rows) h = elim (Bool-cases (is_file cid fid r)) [
    | inl e ↦ absurd (omega (arith, (rw e at h)))
    | inr e ↦ rw e (ap (◌∷◌ r) (no_rows rows (rw e at h)))
  ]

  from_row-update :
      (rows : List FileRow) (row : ChangeSetRow)
      → from_row (update_where (is_file cid fid) (set_file u) rows) row
        ≡ record (from_row rows row) {
          files = map (with_file cid fid u row.changeset_id) (files_of row.changeset_id rows);
        }
  from_row-update rows row =
      ap (λ fs. record (from_row rows row) { files = fs }) (files_of-update row.changeset_id rows)

  written_rows :
      (db : ChangeDb)
      → has_updates u ≡ true
      → (update_file_change cid fid u db).1
        ≡ record db { file_changes = update_where (is_file cid fid) (set_file u) db.file_changes }
  unfolding update_file_change
  written_rows db has = elim (Bool-cases (rowcount (is_file cid fid) db.file_changes == 0)) [
    | inl e ↦
        rw (has, e)
          (ap (λ rows. record db { file_changes = rows })
            (sym (no_rows db.file_changes (ground (arith, e)))))
    | inr e ↦ rw (has, e) refl
  ]

-- After an update of some fields of a file, reading any change set gives what it was, with those
-- fields of the file that has both identities replaced and every other file and field as they were;
-- where there is no such file, nothing changes.
update_file_change-get :
    (cid fid : String) (u : FileUpdates) (id : String) (db : ChangeDb)
    → has_updates u ≡ true
    → get id (update_file_change cid fid u db).1 ≡ with_files (with_file cid fid u id) (get id db)
unfolding get
update_file_change-get cid fid u id db has =
    elim (Option-cases (find changeset_key id db.changesets)) [
      | inl e ↦ rw (written_rows cid fid u db has, e) refl
      | inr (row, e) ↦
          let key = find-key changeset_key id db.changesets e in
          rw (written_rows cid fid u db has, e)
            (ap some (
              from_row-update cid fid u db.file_changes row
              ∙ ap
                  (λ k. record (from_row db.file_changes row) {
                    files = map (with_file cid fid u k) (files_of row.changeset_id db.file_changes);
                  })
                  key))
    ]
