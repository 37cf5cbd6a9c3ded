-- ===== src/Manager/Samples.antt =====
-- A file system, and a change of two files of which one has lost its temporary file.
use incidentlens.Common.{
  String, true, false, none, some, Option, [], ◌∷◌, List, Result, ok, err, ◌≡◌, ◌≢◌, refl, ap, ◌∙◌,
  codes, Bool-cases, inl, inr, if◌then◌else◌, Action, Option-cases,
}
use incidentlens.Policy.Paths.{PurePosixPath, slash, RemoteScope, host, same_path}
use incidentlens.Changes.Types.{FileChange, ChangeDb, remotely_backed_up}
use incidentlens.Changes.Vault.{Bytes}
use incidentlens.Manager.Types.{
  Runtime, Backend, Config, RemoteError, TextReplacement, FileMutation, edit, ChangeSetRequest,
  World, Progress, no_progress,
}
use incidentlens.Manager.Plan.{IsFileSystem, Plan}
use incidentlens.Policy.Same.{same_path-≡, same_path_refl}

abbrev pub py : Runtime
py = record {
  lower_above = λ c. c ∷ [];
  is_space_above = λ c. false;
  decode = some;
  encode = λ text. text;
  parses_python = λ text. true;
  parses_json = λ text. true;
  parses_toml = λ text. true;
  crypto = record {
    encrypt = λ key nonce text extra. text;
    decrypt = λ key nonce text extra. some text;
    hexdigest = λ content. content;
    metadata_bytes = λ metadata. [];
    utf8 = λ text. text;
  };
}

abbrev pub replacements : List TextReplacement
replacements =
    record { old_text = codes "80"; new_text = codes "8080"; expected_count = 1 }
    ∷ record { old_text = codes "on"; new_text = codes "off"; expected_count = 2 }
    ∷ []

-- A file system whose calls fail on a path that is absent.
abbrev pub Files : Type 0
Files = PurePosixPath → Option Bytes

abbrev pub put : PurePosixPath → Option Bytes → Files → Files
put a x r q = if same_path q a then x else r q

abbrev rename : RemoteScope → PurePosixPath → PurePosixPath → Action Files RemoteError (Unit {0})
rename scope a b r = elim (r a) [
  | none ↦ (err RemoteError.path_error, r)
  | some x ↦ (ok tt, put b (some x) (put a none r))
]

abbrev remove_file : RemoteScope → PurePosixPath → Action Files RemoteError (Unit {0})
remove_file scope a r = (ok tt, put a none r)

abbrev pub backend : Backend Files
backend = record {
  realpath = λ p r. (ok p, r);
  lstat = λ scope p r. (err RemoteError.path_error, r);
  read_bytes = λ scope p n r. (err RemoteError.other_error, r);
  copy_file = λ scope a b r. (ok tt, put b (r a) r);
  write_exclusive = λ scope a content mode r. (ok tt, put a (some content) r);
  rename = rename;
  remove_file = remove_file;
  compose_config = λ p r. (ok true, r);
}

abbrev pub content : Files → PurePosixPath → Option Bytes
content r = r

put_at : (a : PurePosixPath) (x : Option Bytes) (r : Files) → put a x r a ≡ x
put_at a x r = rw (same_path_refl a) refl

pub put_elsewhere : (a q : PurePosixPath) (x : Option Bytes) (r : Files) → q ≢ a → put a x r q ≡ r q
put_elsewhere a q x r ne = elim (Bool-cases (same_path q a)) [
  | inl e ↦ absurd (ne (same_path-≡ q a e))
  | inr e ↦ rw e refl
]

rename_none :
    (a b : PurePosixPath) (r : Files)
    → r a ≡ none
    → rename host a b r ≡ (err RemoteError.path_error, r)
rename_none a b r e = rw (e, rename) refl

rename_some :
    (a b : PurePosixPath) (r : Files) {x : Bytes}
    → r a ≡ some x
    → rename host a b r ≡ (ok tt, put b (some x) (put a none r))
rename_some a b r e = rw (e, rename) refl

pub files-IsFileSystem : IsFileSystem backend host content
files-IsFileSystem = record {
  rename_moves = λ a b r x at done.
      ap (λ (o : Result RemoteError (Unit {0}) × Files). o.1 b) (rename_some a b r at)
      ∙ put_at b (some x) (put a none r);
  rename_elsewhere = λ a b q r na nb. elim (Option-cases (r a)) [
    | inl e ↦ ap (λ (o : Result RemoteError (Unit {0}) × Files). o.1 q) (rename_none a b r e)
    | inr (x, e) ↦
        ap (λ (o : Result RemoteError (Unit {0}) × Files). o.1 q) (rename_some a b r e)
        ∙ put_elsewhere b q (some x) (put a none r) nb
        ∙ put_elsewhere a q none r na
  ];
  rename_refused = λ a b q r e refused calm. elim (Option-cases (r a)) [
    | inl e ↦ ap (λ (o : Result RemoteError (Unit {0}) × Files). o.1 q) (rename_none a b r e)
    | inr (x, e) ↦ absurd (
        cc (ap (λ (o : Result RemoteError (Unit {0}) × Files). o.0) (rename_some a b r e), refused))
  ];
  remove_removes = λ a r done. put_at a none r;
  remove_elsewhere = λ a q r ne. put_elsewhere a q none r ne;
}

abbrev pub at : String → PurePosixPath
at name = record { root = slash; parts = codes "srv" ∷ codes name ∷ [] }

abbrev pub request_of : String → String → FileMutation
request_of operation_id name = record {
  operation_id = operation_id;
  incident_id = "inc-1";
  project_id = "prj-1";
  target_id = "web-1";
  service = "app";
  scope = host;
  path = at name;
  mutation = edit (codes "aa") replacements;
}

abbrev pub request : ChangeSetRequest
request = record {
  changeset_id = "chs-1";
  first = request_of "fch-1" "a";
  others = request_of "fch-2" "b" ∷ [];
  verification_plan = "curl";
  rollback_plan = "restore";
}

abbrev pub config : Config
config = record {
  projects = none;
  sessions = none;
  has_transport = true;
  policy = none;
  protected_paths = [];
  has_approvals = false;
  has_events = true;
}

abbrev file_change : String → String → FileChange
file_change file_change_id name = record {
  file_change_id = file_change_id;
  scope = "host";
  remote_path = codes name;
  expected_sha256 = some (codes "aa");
  replacement_sha256 = codes "bb";
  diff_text = "";
  original_metadata = [];
  local_backup_ref = some (codes "ref");
  remote_backup_path = codes "backup";
  temp_path = none;
  applied = false;
  validation_result = none;
  rollback_result = none;
}

abbrev pub journal_db : ChangeDb
journal_db = record {
  changesets =
      record {
        changeset_id = "chs-1";
        incident_id = "inc-1";
        project_id = "prj-1";
        target_id = "web-1";
        service_name = "app";
        status = remotely_backed_up;
        created_at = 5;
        updated_at = 6;
        verification_plan = "curl";
        rollback_plan = "restore";
        approval_id = none;
      }
      ∷ [];
  file_changes =
      record { changeset_id = "chs-1"; file = file_change "fch-1" "/srv/a" }
      ∷ record { changeset_id = "chs-1"; file = file_change "fch-2" "/srv/b" }
      ∷ [];
}

-- The temporary file of `b` is gone.
abbrev pub files : Files
files = put (at "a") (some (codes "old a")) (
    put (at "b") (some (codes "old b")) (
      put (at "a.bak") (some (codes "old a")) (
        put (at "b.bak") (some (codes "old b"))
          (put (at "a.tmp") (some (codes "new a")) (λ q. none)))))

abbrev pub progress : Progress
progress = record no_progress {
  changeset_created = true;
  written_temps = at "a" ∷ at "b" ∷ [];
  canonical_paths = (at "a", at "a") ∷ (at "b", at "b") ∷ [];
  backup_paths = (at "a", at "a.bak") ∷ (at "b", at "b.bak") ∷ [];
  temp_paths = (at "a", at "a.tmp") ∷ (at "b", at "b.tmp") ∷ [];
  validation_results = (at "a", "passed") ∷ (at "b", "passed") ∷ [];
}

abbrev pub world : World Files (Unit {0})
world = record {
  journal_db = journal_db;
  disk = record { key_file = none; backups = [] };
  files = files;
  approvals = tt;
  events = [];
  progress = progress;
}

abbrev with_suffix : String → String → PurePosixPath → PurePosixPath
with_suffix a b p = if same_path p (at "a") then at a else at b

abbrev pub plan : Plan
plan = record {
  paths = at "a" ∷ at "b" ∷ [];
  canonical = λ p. p;
  temp = with_suffix "a.tmp" "b.tmp";
  backup = with_suffix "a.bak" "b.bak";
  new_files = [];
  original = files;
}
