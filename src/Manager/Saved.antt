-- ===== src/Manager/Saved.antt =====
-- Step 6 of `_apply_locked` in changes/manager.py over all files: what it saves.
use incidentlens.Common.{
  ℕ, false, Option, some, List, [], ◌∷◌, map, All, here, there, Text, Result, ok, >>=-ok, ◌≡◌, ◌≢◌,
  refl, sym, ap, ◌∙◌, subst, Bool-cases, inl, inr,
}
use incidentlens.Policy.Paths.{PurePosixPath, RemoteScope}
use incidentlens.Changes.Vault.{Bytes}
use incidentlens.Manager.Types.{
  Runtime, Backend, Config, FileMutation, ChangeSetRequest, World, Progress, get_item, Failure,
}
use incidentlens.Manager.Backups.{mem_path, backup_name, remote_backup, copy_original, copy_to}
use incidentlens.Manager.Monad.{item, for_each}
use incidentlens.Manager.Frames.{bind_ok}
use incidentlens.Manager.Ends.{item_ok}
use incidentlens.Manager.Plan.{In, AreDistinct, path_cases}
use incidentlens.Manager.Dicts.{get_item-set_item, get_item-set_item_other}
use incidentlens.Manager.Backed.{IsReadable, IsBackedUp, backup_of, copy_to-IsBackedUp}

abbrev pub paths_of : List FileMutation → List PurePosixPath
paths_of = map (λ (f : FileMutation). f.path)

-- The file at `p` has a backup with the content that was read of it.
pub record IsSaved {R A : Type 0} (content : R → PurePosixPath → Option Bytes)
    (backup : PurePosixPath → PurePosixPath) (p : PurePosixPath) (w : World R A) : Type 0 where
  pub named : get_item p w.progress.backup_paths ≡ some (backup p)
  pub original : Bytes
  pub was : get_item p w.progress.original_contents ≡ some original
  pub copied : content w.files (backup p) ≡ some original

-- The files that are not in `todo` and were there are saved.
record IsBacking {R A : Type 0} (content : R → PurePosixPath → Option Bytes)
    (backup canonical : PurePosixPath → PurePosixPath) (paths new_files todo : List PurePosixPath)
    (w : World R A) : Type 0 where
  canonicals :
      (p : PurePosixPath) → In p paths → get_item p w.progress.canonical_paths ≡ some (canonical p)
  added : w.progress.new_files ≡ new_files
  saved :
      (p : PurePosixPath)
      → In p paths
      → ¬ In p todo
      → mem_path p new_files ≡ false
      → IsSaved content backup p w

module _ {R A : Type 0} (py : Runtime) (backend : Backend R) (config : Config) (now : ℕ)
    (request : ChangeSetRequest) (ts : Text) (scope : RemoteScope)
    (content : R → PurePosixPath → Option Bytes) (fs : IsReadable backend scope content)
    (canonical : PurePosixPath → PurePosixPath) where
  copied-IsBacking :
      (p : PurePosixPath) (paths new_files todo : List PurePosixPath) (w u : World R A)
      → ((q : PurePosixPath)
          → In q paths
          → p ≢ q
          → backup_of ts canonical p ≢ backup_of ts canonical q)
      → IsBacking content (backup_of ts canonical) canonical paths new_files (p ∷ todo) w
      → IsBackedUp content (backup_of ts canonical) p w u
      → IsBacking content (backup_of ts canonical) canonical paths new_files todo u
  copied-IsBacking p paths new_files todo w u apart h done = record {
    canonicals = λ q iq.
        ap (λ (l : Progress). get_item q l.canonical_paths) done.progress_is ∙ h.canonicals q iq;
    added = ap (λ (l : Progress). l.new_files) done.progress_is ∙ h.added;
    saved = λ q iq out was_there. elim (path_cases p q) [
      | inl e ↦
          subst (λ k. IsSaved content (backup_of ts canonical) k u) e
            (record {
              named =
                  ap (λ (l : Progress). get_item p l.backup_paths) done.progress_is
                  ∙ get_item-set_item p (backup_of ts canonical p) w.progress.backup_paths;
              original = done.original;
              was =
                  ap (λ (l : Progress). get_item p l.original_contents) done.progress_is ∙ done.was;
              copied = done.copied;
            })
      | inr ne ↦
          let before = h.saved q iq (λ o. elim o [ here e ↦ ne e | there t ↦ out t ]) was_there in
          record {
            named =
                ap (λ (l : Progress). get_item q l.backup_paths) done.progress_is
                ∙ get_item-set_item_other p q (backup_of ts canonical p) w.progress.backup_paths ne
                ∙ before.named;
            original = before.original;
            was =
                ap (λ (l : Progress). get_item q l.original_contents) done.progress_is ∙ before.was;
            copied =
                done.elsewhere (backup_of ts canonical q) (λ e. apart q iq ne (sym e))
                ∙ before.copied;
          }
    ];
  }

  remote_backup-IsBacking :
      (f : FileMutation) (paths new_files todo : List PurePosixPath) (w u : World R A)
      → f.scope ≡ scope
      → In f.path paths
      → ((q : PurePosixPath)
          → In q paths
          → f.path ≢ q
          → backup_of ts canonical f.path ≢ backup_of ts canonical q)
      → IsBacking content (backup_of ts canonical) canonical paths new_files (f.path ∷ todo) w
      → remote_backup py backend config now request ts f w ≡ (ok tt, u)
      → IsBacking content (backup_of ts canonical) canonical paths new_files todo u
  unfolding remote_backup
  remote_backup-IsBacking f paths new_files todo w u at_scope i apart h run =
      elim (Bool-cases (mem_path f.path w.progress.new_files)) [
        | inl e ↦
            let same = ap (λ (o : Result Failure (Unit {0}) × World R A). o.1) (rw e at run) in
            let is_new = sym (ap (mem_path f.path) h.added) ∙ e in
            subst (IsBacking content (backup_of ts canonical) canonical paths new_files todo) same
              (record {
                canonicals = h.canonicals;
                added = h.added;
                saved = λ q iq out was_there.
                    h.saved q iq
                      (λ o. elim o [
                        | here k ↦ absurd (cc (is_new, ap (λ p. mem_path p new_files) k, was_there))
                        | there t ↦ out t
                      ])
                      was_there;
              })
        | inr e ↦
            let copies : copy_original py backend config now request ts f w.progress w
                ≡ (ok tt, u) =
              rw e at run in
            let at =
              sym (
                >>=-ok (item f.path w.progress.canonical_paths)
                  (λ canonical.
                    copy_to py backend config now request f w.progress (backup_name ts canonical)
                      canonical)
                  w (item_ok f.path w.progress.canonical_paths w (h.canonicals f.path i)))
              ∙ copies in
            copied-IsBacking f.path paths new_files todo w u apart h (
              copy_to-IsBackedUp py backend config now request ts scope content fs canonical f w u
                at_scope at)
      ]

  remote_backup_each :
      (files : List FileMutation) (paths new_files : List PurePosixPath) (w u : World R A)
      → All (λ (f : FileMutation). f.scope ≡ scope) files
      → ((p : PurePosixPath) → In p (paths_of files) → In p paths)
      → AreDistinct (paths_of files)
      → ((p q : PurePosixPath)
          → In p paths
          → In q paths
          → p ≢ q
          → backup_of ts canonical p ≢ backup_of ts canonical q)
      → IsBacking content (backup_of ts canonical) canonical paths new_files (paths_of files) w
      → for_each (remote_backup py backend config now request ts) files w ≡ (ok tt, u)
      → IsBacking content (backup_of ts canonical) canonical paths new_files [] u
  remote_backup_each [] paths new_files w u at ins once apart h run =
      subst (IsBacking content (backup_of ts canonical) canonical paths new_files [])
        (ap (λ (o : Result Failure (Unit {0}) × World R A). o.1) run) h
  remote_backup_each (f ∷ files) paths new_files w u at ins once apart h run =
      let (_, v, first, rest) =
        bind_ok (remote_backup py backend config now request ts f)
          (λ _. for_each (remote_backup py backend config now request ts) files) w run in
      let i = ins f.path (here refl) in
      remote_backup_each files paths new_files v u at.1 (λ p ip. ins p (there ip)) once.1 apart
        (remote_backup-IsBacking f paths new_files (paths_of files) w v at.0 i
          (λ q iq. apart f.path q i iq) h first)
        rest

  -- Step 6 over the files of a change, all in one scope: where it ends well, every file that was
  -- there has an entry for its backup, and what stands at that path on the remote side is exactly
  -- the content that was read of the file at first. The remote file system copies and reads as
  -- `IsReadable` says, and no two files have one path or one backup.
  pub remote_backup-IsSaved :
      (files : List FileMutation) (w u : World R A)
      → All (λ (f : FileMutation). f.scope ≡ scope) files
      → AreDistinct (paths_of files)
      → ((p q : PurePosixPath)
          → In p (paths_of files)
          → In q (paths_of files)
          → p ≢ q
          → backup_of ts canonical p ≢ backup_of ts canonical q)
      → ((p : PurePosixPath)
          → In p (paths_of files)
          → get_item p w.progress.canonical_paths ≡ some (canonical p))
      → for_each (remote_backup py backend config now request ts) files w ≡ (ok tt, u)
      → (p : PurePosixPath) → In p (paths_of files)
      → mem_path p w.progress.new_files ≡ false
      → IsSaved content (backup_of ts canonical) p u
  remote_backup-IsSaved files w u at once apart canonicals run p ip was_there =
      let start : IsBacking content (backup_of ts canonical) canonical (paths_of files)
          w.progress.new_files (paths_of files) w =
        record { canonicals = canonicals; added = refl; saved = λ q iq out _. absurd (out iq) } in
      let last =
        remote_backup_each files (paths_of files) w.progress.new_files w u at (λ q iq. iq) once
          apart start run in
      last.saved p ip (λ i. elim i [ ]) was_there
