-- ===== src/Manager/Backed.antt =====
-- Step 6 of `_apply_locked` in changes/manager.py: every file that was there has a remote backup.
use incidentlens.Common.{
  ℕ, Option, some, Text, same_text, same_text_iff, Result, ok, ◌>>=◌, ◌≡◌, ◌≢◌, sym, ap, ◌∙◌,
  Bool-cases, Option-cases, inl, inr,
}
use incidentlens.Policy.Paths.{PurePosixPath, RemoteScope}
use incidentlens.Changes.Vault.{Bytes}
use incidentlens.Manager.Types.{
  Runtime, Backend, Config, FileMutation, ChangeSetRequest, World, Progress, PathDict, get_item,
  set_item, Failure,
}
use incidentlens.Manager.Paths.{path_str}
use incidentlens.Manager.Preflight.{max_change_file_bytes}
use incidentlens.Manager.Backups.{backup_name, copy_to, check_backup, compare_backup, record_backup}
use incidentlens.Manager.Monad.{on_files, item, no_updates}
use incidentlens.Manager.Frames.{bind_ok, ok_err, update_file-Keeps}
use incidentlens.Manager.Ends.{on_files_ok}

-- The copies and the reads of a remote file system, seen as the contents of the paths of one scope:
-- a copy touches no path but its target, and a read gives what is there and touches nothing.
pub record IsReadable {R : Type 0} (backend : Backend R) (scope : RemoteScope)
    (content : R → PurePosixPath → Option Bytes) : Type 0 where
  pub copy_elsewhere :
      (a b q : PurePosixPath) (r : R)
      → q ≢ b
      → content (backend.copy_file scope a b r).1 q ≡ content r q
  pub read_gives :
      (a : PurePosixPath) (n : ℕ) (r : R) (x : Bytes)
      → (backend.read_bytes scope a n r).0 ≡ ok x
      → content r a ≡ some x
  pub read_keeps :
      (a q : PurePosixPath) (n : ℕ) (r : R)
      → content (backend.read_bytes scope a n r).1 q ≡ content r q

item_inv :
    {R A V : Type 0} (p : PurePosixPath) (dict : PathDict V) (w : World R A) {v : V} {u : World R A}
    → item p dict w ≡ (ok v, u)
    → (get_item p dict ≡ some v) × (u ≡ w)
item_inv {R} {A} {V} p dict w {v} {u} h = elim (Option-cases (get_item p dict)) [
  | inl e ↦ absurd (ok_err (rw (e, item) at h))
  | inr (x, e) ↦
      let same = rw (e, item) at h in
      let found : x ≡ v = cc (ap (λ (o : Result Failure V × World R A). o.0) same) in
      (e ∙ ap some found, sym (ap (λ (o : Result Failure V × World R A). o.1) same))
]

abbrev pub backup_of : Text → (PurePosixPath → PurePosixPath) → PurePosixPath → PurePosixPath
backup_of ts canonical p = backup_name ts (canonical p)

-- What one backup leaves: its own entry and file, and everything else as it was.
pub record IsBackedUp {R A : Type 0} (content : R → PurePosixPath → Option Bytes)
    (backup : PurePosixPath → PurePosixPath) (p : PurePosixPath) (w u : World R A) : Type 0 where
  pub progress_is :
      u.progress
      ≡ record w.progress { backup_paths = set_item p (backup p) w.progress.backup_paths }
  pub elsewhere : (q : PurePosixPath) → q ≢ backup p → content u.files q ≡ content w.files q
  pub original : Bytes
  pub was : get_item p w.progress.original_contents ≡ some original
  pub copied : content u.files (backup p) ≡ some original

module _ {R A : Type 0} (py : Runtime) (backend : Backend R) (config : Config) (now : ℕ)
    (request : ChangeSetRequest) (ts : Text) (scope : RemoteScope)
    (content : R → PurePosixPath → Option Bytes) (fs : IsReadable backend scope content)
    (canonical : PurePosixPath → PurePosixPath) where
  pub copy_to-IsBackedUp :
      (f : FileMutation) (w u : World R A)
      → f.scope ≡ scope
      → copy_to py backend config now request f w.progress
          (backup_of ts canonical f.path)
          (canonical f.path)
          w
        ≡ (ok tt, u)
      → IsBackedUp content (backup_of ts canonical) f.path w u
  copy_to-IsBackedUp f w u at_scope run =
      let b = backup_of ts canonical f.path in
      let (_, w1, copies, run1) =
        bind_ok (on_files (backend.copy_file f.scope (canonical f.path) b))
          (λ _.
            on_files (backend.read_bytes f.scope b max_change_file_bytes)
            >>= check_backup py backend config now request f w.progress b)
          w run in
      let (x, w2, reads, run2) =
        bind_ok (on_files (backend.read_bytes f.scope b max_change_file_bytes))
          (check_backup py backend config now request f w.progress b) w1 run1 in
      let (y, w3, looks, run3) =
        bind_ok (item f.path w.progress.original_contents)
          (compare_backup py backend config now request f b x) w2 run2 in
      let (was, still) = item_inv f.path w.progress.original_contents w2 looks in
      let (_, copy_files, copy_progress) =
        on_files_ok (backend.copy_file f.scope (canonical f.path) b) w copies in
      let (read_done, read_files, read_progress) =
        on_files_ok (backend.read_bytes f.scope b max_change_file_bytes) w1 reads in
      elim (Bool-cases (same_text x y)) [
        | inr e ↦ absurd (ok_err (rw (e, compare_backup) at run3))
        | inl e ↦
            let recorded : record_backup py backend config now request f b w3 ≡ (ok tt, u) =
              rw (e, compare_backup) at run3 in
            let noted : World R A = record w3 {
              progress = record w3.progress {
                backup_paths = set_item f.path b w3.progress.backup_paths;
              };
            } in
            let kept =
              update_file-Keeps request.changeset_id f.operation_id
                (record no_updates { remote_backup_path = some (path_str b) }) noted in
            let last = ap (λ (o : Result Failure (Unit {0}) × World R A). o.1) (sym recorded) in
            let files : u.files ≡ (backend.read_bytes f.scope b max_change_file_bytes w1.files).1 =
              ap (λ (o : World R A). o.files) last
              ∙ kept.0
              ∙ ap (λ (o : World R A). o.files) still
              ∙ read_files in
            let same_progress : w3.progress ≡ w.progress =
              ap (λ (o : World R A). o.progress) still ∙ read_progress ∙ copy_progress in
            let unread : (q : PurePosixPath) → content u.files q ≡ content w1.files q = λ q.
              ap (λ r. content r q) files
              ∙ ap (λ k. content (backend.read_bytes k b max_change_file_bytes w1.files).1 q)
                  at_scope
              ∙ fs.read_keeps b q max_change_file_bytes w1.files in
            record {
              progress_is =
                  ap (λ (o : World R A). o.progress) last
                  ∙ kept.1
                  ∙ ap
                      (λ (l : Progress). record l {
                        backup_paths = set_item f.path b l.backup_paths;
                      })
                      same_progress;
              elsewhere = λ q ne.
                  unread q
                  ∙ ap (λ r. content r q) copy_files
                  ∙ ap (λ k. content (backend.copy_file k (canonical f.path) b w.files).1 q)
                      at_scope
                  ∙ fs.copy_elsewhere (canonical f.path) b q w.files ne;
              original = y;
              was = was;
              copied =
                  unread b
                  ∙ fs.read_gives b max_change_file_bytes w1.files x (
                      ap (λ k. (backend.read_bytes k b max_change_file_bytes w1.files).0)
                        (sym at_scope)
                      ∙ read_done)
                  ∙ ap some ((same_text_iff x y).0 e);
            }
      ]
