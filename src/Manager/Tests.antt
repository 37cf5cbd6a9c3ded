-- ===== src/Manager/Tests.antt =====
-- Edits, and a change of two files whose second rename fails.
use incidentlens.Common.{
  none, is, ℕ, false, some, [], ◌∷◌, List, Result, ok, err, ◌≡◌, refl, ap, arith, codes, here,
  same_text, if◌then◌else◌, ◌≢◌, there, Action, Option-cases, inl, inr, ◌∙◌,
}
use incidentlens.Policy.Paths.{host, PurePosixPath, same_path, RemoteScope}
use incidentlens.Changes.Types.{rolled_back}
use incidentlens.Manager.Types.{
  RemoteError, World, Failure, remote, ChangeResult, Backend, files_of, no_progress, get_item,
}
use incidentlens.Manager.Edits.{find_occurrences, apply_edits}
use incidentlens.Manager.Replace.{rename_files}
use incidentlens.Manager.Restore.{handle_failure}
use incidentlens.Manager.Occurrences.{positions, find_occurrences-positions}
use incidentlens.Manager.Applied.{IsEdited, apply_edits-IsEdited}
use incidentlens.Manager.Atomic.{rename_files-handle_failure}
use incidentlens.Manager.Samples.{
  Files, py, backend, config, at, world, replacements, content, request, plan, files-IsFileSystem,
  put, files, progress, put_elsewhere,
}
use incidentlens.Manager.SamplePlan.{plan-IsApart, world-IsReady, request-Scopes, differ, each}
use incidentlens.Changes.Vault.{Bytes}
use incidentlens.Manager.Plan.{In, Plan, IsApart, IsReady, IsBacked}
use incidentlens.Manager.Backups.{mem_path, remote_backup}
use incidentlens.Manager.Moved.{rename_files_replaces}
use incidentlens.Manager.Backed.{IsReadable, backup_of}
use incidentlens.Manager.Saved.{IsSaved, remote_backup-IsSaved}
use incidentlens.Manager.Monad.{for_each}

find_occurrences-positions_example :
    find_occurrences (codes "aaaba") (codes "aa") ≡ positions (codes "aa") 0 (codes "aaaba")
find_occurrences-positions_example = find_occurrences-positions b'a' (codes "a") (codes "aaaba")

found_test : find_occurrences (codes "aaaba") (codes "aa") ≡ 0 ∷ 1 ∷ []
unfolding find_occurrences
found_test = refl

apply_edits_test : apply_edits py (codes "on 80 on") replacements ≡ ok (codes "off 8080 off")
unfolding apply_edits
apply_edits_test = refl

apply_edits-IsEdited_example :
    (text : List ℕ) × (py.decode (codes "on 80 on") ≡ some text)
    × IsEdited py text replacements (codes "off 8080 off")
apply_edits-IsEdited_example =
    apply_edits-IsEdited py (codes "on 80 on") replacements (omega arith, (omega arith, tt))
      apply_edits_test

abbrev stopped : World Files (Unit {0})
stopped = (rename_files py backend config 9 request world).1

rename_files_test :
    (rename_files py backend config 9 request world).0 ≡ err (remote RemoteError.path_error)
unfolding rename_files same_text
rename_files_test = refl

abbrev handled : Result Failure ChangeResult × World Files (Unit {0})
handled = handle_failure py backend config 9 request (remote RemoteError.path_error) stopped

abbrev result : ChangeResult
result = record {
  changeset_id = "chs-1";
  status = rolled_back;
  applied_files = at "a" ∷ [];
  error = some (remote RemoteError.path_error);
  uncertain = false;
}

handle_failure_test : handled.0 ≡ ok result
unfolding rename_files handle_failure same_text
handle_failure_test = refl

-- The file that was replaced has its old content.
rename_files-handle_failure_example : handled.1.files (at "a") ≡ some (codes "old a")
unfolding rename_files handle_failure same_text
rename_files-handle_failure_example =
    rename_files-handle_failure backend host content files-IsFileSystem plan plan-IsApart py config
      9 request request-Scopes (remote RemoteError.path_error) world stopped result handled.1
      world-IsReady (ap (λ r. (r, stopped)) rename_files_test) refl
      (ap (λ r. (r, handled.1)) handle_failure_test) refl (at "a") (here refl)

-- Both temporary files are there.
abbrev both_files : Files
both_files = put (at "b.tmp") (some (codes "new b")) files

abbrev both_plan : Plan
both_plan = record plan { original = both_files }

abbrev both_world : World Files (Unit {0})
both_world = record world { files = both_files }

abbrev new : PurePosixPath → Bytes
new p = if same_path p (at "a") then codes "new a" else codes "new b"

temp-ne :
    (p q : PurePosixPath)
    → In p both_plan.paths
    → In q both_plan.paths
    → p ≢ q
    → both_plan.temp p ≢ both_plan.temp q
unfolding same_text
temp-ne p q ip iq =
    each (λ p. p ≢ q → plan.temp p ≢ plan.temp q)
      (each (λ q. at "a" ≢ q → plan.temp (at "a") ≢ plan.temp q) (λ ne. absurd (ne refl))
        (λ ne. differ (at "a.tmp") (at "b.tmp") refl) q iq)
      (each (λ q. at "b" ≢ q → plan.temp (at "b") ≢ plan.temp q)
        (λ ne. differ (at "b.tmp") (at "a.tmp") refl) (λ ne. absurd (ne refl)) q iq)
      p ip

both_world-IsReady : IsReady content both_plan both_files progress
unfolding same_text
both_world-IsReady = record {
  has = record {
    canonicals = world-IsReady.has.canonicals;
    temps = world-IsReady.has.temps;
    backups = world-IsReady.has.backups;
    added = refl;
    entries = world-IsReady.has.entries;
  };
  untouched = refl;
  in_order = world-IsReady.in_order;
  once = world-IsReady.once;
  backed =
      each (λ p. IsBacked content both_plan (mem_path p plan.new_files) p both_files)
        (codes "old a", refl, refl) (codes "old b", refl, refl);
  originals = λ q iq. refl;
}

both_plan-IsApart : IsApart both_plan
both_plan-IsApart = record {
  canonical-ne = plan-IsApart.canonical-ne;
  backup-ne = plan-IsApart.backup-ne;
  canonical-ne-backup = plan-IsApart.canonical-ne-backup;
  canonical-ne-temp = plan-IsApart.canonical-ne-temp;
  backup-ne-temp = plan-IsApart.backup-ne-temp;
}

both_renamed_test : (rename_files py backend config 9 request both_world).0 ≡ ok tt
unfolding rename_files same_text
both_renamed_test = refl

waiting : (q : PurePosixPath) → In q both_plan.paths → both_files (both_plan.temp q) ≡ some (new q)
unfolding same_text
waiting = each (λ q. both_files (both_plan.temp q) ≡ some (new q)) refl refl

rename_files_replaces_example :
    (rename_files py backend config 9 request both_world).1.files (at "b") ≡ some (new (at "b"))
unfolding rename_files
rename_files_replaces_example =
    rename_files_replaces backend host content files-IsFileSystem both_plan both_plan-IsApart
      temp-ne new py config 9 request request-Scopes both_world
      (rename_files py backend config 9 request both_world).1 both_world-IsReady waiting
      (ap (λ r. (r, (rename_files py backend config 9 request both_world).1)) both_renamed_test)
      (at "b") (there (here refl))

abbrev read_bytes : RemoteScope → PurePosixPath → ℕ → Action Files RemoteError Bytes
read_bytes scope p n r = elim (r p) [ none ↦ (err RemoteError.path_error, r) | some x ↦ (ok x, r) ]

-- The file system, with reads.
abbrev reading : Backend Files
reading = record backend { read_bytes = read_bytes }

reading-IsReadable : IsReadable reading host content
reading-IsReadable = record {
  copy_elsewhere = λ a b q r ne. put_elsewhere b q (r a) r ne;
  read_gives = λ a n r x done. elim (Option-cases (r a)) [
    | inl e ↦
        let failed : err RemoteError.path_error ≡ ok x = rw (e, read_bytes) at done in
        absurd (cc failed)
    | inr (y, e) ↦ let same : ok y ≡ ok x = rw (e, read_bytes) at done in e ∙ cc same
  ];
  read_keeps = λ a q n r. elim (Option-cases (r a)) [
    | inl e ↦ rw (e, read_bytes) refl
    | inr (y, e) ↦ rw (e, read_bytes) refl
  ];
}

abbrev reads : World Files (Unit {0})
reads = record world {
  progress = record no_progress {
    canonical_paths = (at "a", at "a") ∷ (at "b", at "b") ∷ [];
    original_contents = (at "a", codes "old a") ∷ (at "b", codes "old b") ∷ [];
  };
}

backups-apart :
    (p q : PurePosixPath)
    → In p plan.paths
    → In q plan.paths
    → p ≢ q
    → backup_of (codes "T") (λ p. p) p ≢ backup_of (codes "T") (λ p. p) q
unfolding same_text is
backups-apart p q ip iq =
    each (λ p. p ≢ q → backup_of (codes "T") (λ p. p) p ≢ backup_of (codes "T") (λ p. p) q)
      (each (λ q. at "a" ≢ q → at "a.incidentlens-backup.T" ≢ backup_of (codes "T") (λ p. p) q)
        (λ ne. absurd (ne refl))
        (λ ne. differ (at "a.incidentlens-backup.T") (at "b.incidentlens-backup.T") refl) q iq)
      (each (λ q. at "b" ≢ q → at "b.incidentlens-backup.T" ≢ backup_of (codes "T") (λ p. p) q)
        (λ ne. differ (at "b.incidentlens-backup.T") (at "a.incidentlens-backup.T") refl)
        (λ ne. absurd (ne refl)) q iq)
      p ip

remote_backup_test :
    (for_each (remote_backup py reading config 9 request (codes "T")) (files_of request) reads).0
    ≡ ok tt
unfolding remote_backup same_text is
remote_backup_test = refl

remote_backup-IsSaved_example :
    IsSaved content
      (backup_of (codes "T") (λ p. p))
      (at "b")
      (for_each (remote_backup py reading config 9 request (codes "T")) (files_of request) reads).1
unfolding remote_backup same_text is
remote_backup-IsSaved_example =
    remote_backup-IsSaved py reading config 9 request (codes "T") host content reading-IsReadable
      (λ p. p) (files_of request) reads
      (for_each (remote_backup py reading config 9 request (codes "T")) (files_of request) reads).1
      (refl, (refl, tt)) world-IsReady.once backups-apart
      (each (λ p. get_item p reads.progress.canonical_paths ≡ some p) refl refl)
      (ap
        (λ r. (
          r,
          (for_each (remote_backup py reading config 9 request (codes "T")) (files_of request)
              reads).1,
        ))
        remote_backup_test)
      (at "b") (there (here refl)) refl
