-- ===== src/Manager/Replace.antt =====
-- Steps 7 to 10 of `_apply_locked` in changes/manager.py: temporary files, checks and renames.
use incidentlens.Common.{
  ℕ, String, Bool, true, not, Option, none, some, List, [], ◌∷◌, ◌++◌, map, filter, length, ◌==◌,
  if◌then◌else◌, Text, codes, pure, ◌>>=◌,
}
use incidentlens.Policy.Paths.{PurePosixPath, host, container, same_path}
use incidentlens.Changes.Types.{applied}
use incidentlens.Manager.Types.{
  Runtime, Backend, Config, FileMutation, ChangeSetRequest, files_of, expected_sha256, Intent,
  Progress, change_intent, compose_config_failed, approval_required, no_file_request, PathDict,
  set_item,
}
use incidentlens.Manager.Paths.{
  name_of, parent_of, join_name, path_str, sort_paths, is_compose_yaml, is_protected_path,
}
use incidentlens.Manager.Edits.{check_sha}
use incidentlens.Manager.Monad.{
  Step, of_result, fails, on_files, locals, set_locals, item, for_each, move_to, consume_with,
  update_file, no_updates,
}

abbrev pub temp_name : String → PurePosixPath → PurePosixPath
temp_name changeset_id canonical =
    join_name (parent_of canonical)
      (codes "." ++ (name_of canonical ++ (codes ".incidentlens-tmp-" ++ codes changeset_id)))

abbrev pub keys : {V : Type 0} → PathDict V → List PurePosixPath
keys {V} dict = map (λ (entry : PurePosixPath × V). entry.0) dict

abbrev joined_lines : List Text → Text
joined_lines [] = []
joined_lines (line ∷ []) = line
joined_lines (line ∷ next ∷ lines) = line ++ (b'\n' ∷ joined_lines (next ∷ lines))

-- `protected_paths_intent`.
unfoldable pub protected_paths_intent :
    Runtime → String → String → String → List PurePosixPath → Intent
unfolding sort_paths path_str
protected_paths_intent py changeset_id target_id service paths =
    let sorted_paths = map path_str (sort_paths paths) in
    change_intent changeset_id target_id service sorted_paths
      (py.crypto.hexdigest (py.encode (joined_lines sorted_paths)))

-- `_file_req_by_path`.
abbrev pub file_req_by_path : PurePosixPath → List FileMutation → Option FileMutation
file_req_by_path path [] = none
file_req_by_path path (file_req ∷ files) =
    let rest = file_req_by_path path files in
    if same_path file_req.path path then some file_req else rest

module _ {R A : Type 0} (py : Runtime) (backend : Backend R) (config : Config) (now : ℕ)
    (request : ChangeSetRequest) where
  -- Step 7 for one file.
  unfoldable pub write_temp : FileMutation → Step R A (Unit {0})
  unfolding update_file path_str
  write_temp file_req = do
    l ← locals
    canonical ← item file_req.path l.canonical_paths
    let temp_path = temp_name request.changeset_id canonical
    _ ← set_locals (λ m. record m { temp_paths = set_item file_req.path temp_path m.temp_paths })
    content ← item file_req.path l.new_contents
    mode ← item file_req.path l.original_modes
    _ ← on_files (backend.write_exclusive file_req.scope temp_path content mode)
    _ ← set_locals (λ m. record m { written_temps = m.written_temps ++ file_req.path ∷ [] })
    update_file request.changeset_id file_req.operation_id
        (record no_updates { temp_path = some (path_str temp_path) })

  abbrev pub run_config : FileMutation → PurePosixPath → Step R A (Unit {0})
  run_config file_req temp_path = elim file_req.scope [
    | container name ↦ pure tt
    | host ↦ on_files (backend.compose_config temp_path) >>= λ succeeded.
        if succeeded then pure tt else fails compose_config_failed
  ]

  -- Step 8 for one file.
  unfoldable pub check_compose : FileMutation → Step R A (Unit {0})
  unfolding is_compose_yaml
  check_compose file_req =
      if not (is_compose_yaml py file_req.path)
      then pure tt
      else (locals >>= λ l.
          item file_req.path l.temp_paths >>= λ temp_path. run_config file_req temp_path)

  abbrev pub ask_approval :
      (String → Intent → A → Bool × A) → Option String → List FileMutation → Step R A (Unit {0})
  ask_approval consume approval_id [] = pure tt
  ask_approval consume none (first ∷ rest) = fails approval_required
  ask_approval consume (some approval_id) (first ∷ rest) =
      if not config.has_approvals
      then fails approval_required
      else (consume_with consume approval_id (
          protected_paths_intent py request.changeset_id first.target_id first.service
            (map (λ (file_req : FileMutation). file_req.path) (first ∷ rest))))

  -- The approval of the protected paths.
  unfoldable pub approve_protected :
      (String → Intent → A → Bool × A) → Option String → List PurePosixPath → Step R A (Unit {0})
  unfolding is_protected_path protected_paths_intent
  approve_protected consume approval_id protected_paths =
      ask_approval consume approval_id
        (filter (λ file_req. is_protected_path py file_req.path protected_paths) (files_of request))

  -- `_file_req_by_path`, which raises.
  abbrev pub request_at : PurePosixPath → Step R A FileMutation
  request_at path = elim (file_req_by_path path (files_of request)) [
    | none ↦ fails no_file_request
    | some file_req ↦ pure file_req
  ]

  -- `_recheck_originals` for one path.
  abbrev pub recheck_file : PurePosixPath → Step R A (Unit {0})
  recheck_file path = request_at path >>= λ file_req. elim (expected_sha256 file_req) [
    | none ↦ pure tt
    | some sha256 ↦ locals >>= λ l.
        item path l.original_contents >>= λ content. of_result (check_sha py content sha256)
  ]

  unfoldable pub recheck_originals : Step R A (Unit {0})
  unfolding sort_paths
  recheck_originals = locals >>= λ l. for_each recheck_file (sort_paths (keys l.canonical_paths))

  abbrev pub first_applied : List PurePosixPath → Step R A (Unit {0})
  first_applied applied_files =
      if length applied_files == 1 then move_to config now request.changeset_id applied else pure tt

  -- What follows a rename.
  abbrev pub note_applied : PurePosixPath → FileMutation → Progress → Step R A (Unit {0})
  note_applied path file_req l =
      set_locals (λ m. record m { applied_files = m.applied_files ++ path ∷ [] }) >>= λ _.
      item path l.validation_results >>= λ validation.
      update_file request.changeset_id file_req.operation_id
        (record no_updates { applied = some true; validation_result = some validation })
      >>= λ _. first_applied (l.applied_files ++ path ∷ [])

  abbrev pub rename_to :
      PurePosixPath → FileMutation → Progress → PurePosixPath → PurePosixPath → Step R A (Unit {0})
  rename_to path file_req l temp_path canonical =
      on_files (backend.rename file_req.scope temp_path canonical) >>= λ _.
      note_applied path file_req l

  abbrev pub rename_at : PurePosixPath → FileMutation → Progress → Step R A (Unit {0})
  rename_at path file_req l = item path l.temp_paths >>= λ temp_path.
      item path l.canonical_paths >>= rename_to path file_req l temp_path

  -- Step 10 for one path.
  unfoldable pub rename_file : PurePosixPath → Step R A (Unit {0})
  unfolding update_file move_to
  rename_file path = request_at path >>= λ file_req. locals >>= rename_at path file_req

  unfoldable pub rename_files : Step R A (Unit {0})
  unfolding rename_file sort_paths
  rename_files = locals >>= λ l. for_each rename_file (sort_paths (keys l.temp_paths))
