-- ===== src/Manager/Preflight.antt =====
-- Steps 1 to 4 of `_apply_locked` in changes/manager.py, and the journal's draft.
use incidentlens.Common.{
  ℕ, String, Bool, true, false, not, Option, none, some, is_some, [], ◌∷◌, ◌++◌, if◌then◌else◌, ok,
  err, pure, raise, ◌>>=◌,
}
use incidentlens.Policy.Paths.{
  PurePosixPath, host, container, FileMetadata, ServiceRegistration, authorize, path_contains,
}
use incidentlens.Changes.Vault.{Bytes}
use incidentlens.Manager.Types.{
  Runtime, Backend, FileMutation, Mutation, edit, write, expected_sha256, denied, symbolic_link,
  already_exists, no_such_path, escapes_roots, set_item,
}
use incidentlens.Manager.Paths.{name_of, parent_of, join_name}
use incidentlens.Manager.Edits.{apply_edits, validate_content, check_sha}
use incidentlens.Manager.Monad.{
  Step, of_result, fails, on_files, lstat_or_absent, locals, set_locals, item,
}

-- `_MAX_CHANGE_FILE_BYTES`.
abbrev pub max_change_file_bytes : ℕ
max_change_file_bytes = 10485760

-- `isinstance(file_req, FileWriteRequest) and file_req.expected_sha256 is None`.
abbrev pub is_new : FileMutation → Bool
is_new file_req = elim file_req.mutation [ write none content mode ↦ true | other ↦ false ]

abbrev pub is_link : Option FileMetadata → Bool
is_link none = false
is_link (some meta) = meta.is_symlink

abbrev pub mode_or_default : Mutation → ℕ
mode_or_default (edit sha256 replacements) = 420
mode_or_default (write sha256 content none) = 420
mode_or_default (write sha256 content (some mode)) = mode

abbrev validation_name : Bool → String
validation_name true = "validated"
validation_name false = "not_validated"

module _ {R A : Type 0} (py : Runtime) (backend : Backend R) (service : ServiceRegistration) where
  -- Whether the file may be there, or must be.
  abbrev check_presence : FileMutation → Option FileMetadata → Step R A (Unit {0})
  check_presence file_req meta =
      if is_new file_req
      then if is_some meta then fails already_exists else pure tt
      else if is_some meta
      then pure tt
      else fails no_such_path

  abbrev authorized : FileMutation → Step R A (Unit {0})
  authorized file_req = elim (authorize service file_req.scope file_req.path none) [
    | ok _ ↦ pure tt
    | err e ↦ raise (denied e)
  ]

  abbrev resolved : FileMutation → Bool → Step R A PurePosixPath
  resolved file_req absent =
      if absent
      then (on_files (backend.realpath (parent_of file_req.path)) >>= λ parent_canonical.
          pure (join_name parent_canonical (name_of file_req.path)))
      else on_files (backend.realpath file_req.path)

  abbrev canonical_path : FileMutation → Bool → Step R A PurePosixPath
  canonical_path file_req absent = elim file_req.scope [
    | container name ↦ pure file_req.path
    | host ↦ resolved file_req absent >>= λ canonical.
        if not (path_contains service canonical file_req.scope)
        then fails escapes_roots
        else pure canonical
  ]

  abbrev check_expected : FileMutation → Bytes → Step R A (Unit {0})
  check_expected file_req content = elim (expected_sha256 file_req) [
    | none ↦ pure tt
    | some sha256 ↦ of_result (check_sha py content sha256)
  ]

  abbrev read_original : FileMutation → PurePosixPath → Option FileMetadata → Step R A (Unit {0})
  read_original file_req canonical none = set_locals (λ l. record l {
    new_files = l.new_files ++ file_req.path ∷ [];
    original_contents = set_item file_req.path [] l.original_contents;
    original_modes = set_item file_req.path (mode_or_default file_req.mutation) l.original_modes;
  })
  read_original file_req canonical (some meta) = do
    content ← on_files (backend.read_bytes file_req.scope canonical max_change_file_bytes)
    _ ← set_locals (λ l. record l {
      original_contents = set_item file_req.path content l.original_contents;
      original_modes = set_item file_req.path meta.mode l.original_modes;
    })
    check_expected file_req content

  -- Steps 1 and 2 for one file.
  unfoldable pub preflight_file : FileMutation → Step R A (Unit {0})
  unfolding authorize path_contains
  preflight_file file_req = do
    meta ← lstat_or_absent backend file_req.scope file_req.path
    _ ← if is_link meta then fails symbolic_link else pure tt
    _ ← check_presence file_req meta
    _ ← authorized file_req
    canonical ← canonical_path file_req (not (is_some meta))
    _ ←
        set_locals
          (λ l. record l { canonical_paths = set_item file_req.path canonical l.canonical_paths })
    read_original file_req canonical meta

  abbrev replacement_of : FileMutation → Step R A Bytes
  replacement_of file_req = elim file_req.mutation [
    | write sha256 content mode ↦ pure content
    | edit sha256 replacements ↦ locals >>= λ l.
        item file_req.path l.original_contents >>= λ content.
        of_result (apply_edits py content replacements)
  ]

  -- Step 3.
  unfoldable pub compute_file : FileMutation → Step R A (Unit {0})
  unfolding apply_edits
  compute_file file_req = do
    content ← replacement_of file_req
    set_locals (λ l. record l { new_contents = set_item file_req.path content l.new_contents })

  -- Step 4.
  unfoldable pub validate_file : FileMutation → Step R A (Unit {0})
  unfolding validate_content
  validate_file file_req = do
    l ← locals
    content ← item file_req.path l.new_contents
    validated ← of_result (validate_content py file_req.path content)
    set_locals (λ m. record m {
      validation_results = set_item file_req.path (validation_name validated) m.validation_results;
    })
