-- ===== src/Manager/Paths.antt =====
-- The paths of changes/manager.py: temporary and backup names, and which paths are protected.
use incidentlens.Common.{
  ℕ, ◌+◌, Bool, true, false, ◌&&◌, ◌||◌, Option, none, some, List, [], ◌∷◌, ◌++◌, ◌==◌, leb, ltb,
  any, if◌then◌else◌, Text, codes, is, is_in, same_text, starts_with,
}
use incidentlens.Policy.Paths.{
  PurePosixPath, Root, no_root, slash, double_slash, is_part, parse_path, is_relative_to,
}
use incidentlens.Manager.Types.{Runtime}

-- `path.name`.
abbrev pub last_part : List Text → Text
last_part [] = []
last_part (part ∷ []) = part
last_part (part ∷ next ∷ parts) = last_part (next ∷ parts)

abbrev pub name_of : PurePosixPath → Text
name_of path = last_part path.parts

abbrev without_last : List Text → List Text
without_last [] = []
without_last (part ∷ []) = []
without_last (part ∷ next ∷ parts) = part ∷ without_last (next ∷ parts)

-- `path.parent`.
abbrev pub parent_of : PurePosixPath → PurePosixPath
parent_of path = record path { parts = without_last path.parts }

-- `path / name`, where the name has no slash.
abbrev pub join_name : PurePosixPath → Text → PurePosixPath
join_name path name = if is_part name then record path { parts = path.parts ++ name ∷ [] } else path

abbrev joined : List Text → Text
joined [] = []
joined (part ∷ []) = part
joined (part ∷ next ∷ parts) = part ++ (b'/' ∷ joined (next ∷ parts))

abbrev root_text : Root → Text
root_text no_root = []
root_text slash = codes "/"
root_text double_slash = codes "//"

abbrev or_dot : Text → Text
or_dot [] = codes "."
or_dot (c ∷ text) = c ∷ text

-- `str(path)`.
unfoldable pub path_str : PurePosixPath → Text
path_str path = or_dot (root_text path.root ++ joined path.parts)

-- The order of texts, by code points.
abbrev pub text_le : Text → Text → Bool
text_le [] b = true
text_le (c ∷ a) [] = false
text_le (c ∷ a) (d ∷ b) = ltb c d || (c == d && text_le a b)

abbrev insert_path : PurePosixPath → List PurePosixPath → List PurePosixPath
insert_path p [] = p ∷ []
insert_path p (q ∷ paths) =
    let rest = insert_path p paths in
    if text_le (path_str p) (path_str q) then p ∷ q ∷ paths else q ∷ rest

-- `sorted(…)` of paths by their texts.
unfoldable pub sort_paths : List PurePosixPath → List PurePosixPath
unfolding path_str
sort_paths [] = []
sort_paths (p ∷ paths) = insert_path p (sort_paths paths)

module _ (py : Runtime) where
  abbrev lower_char : ℕ → Text
  lower_char c =
      if leb b'A' c && leb c b'Z'
      then (c + 32) ∷ []
      else if leb 128 c
      then py.lower_above c
      else c ∷ []

  -- `text.lower()`.
  unfoldable pub lower : Text → Text
  lower [] = []
  lower (c ∷ text) = lower_char c ++ lower text

abbrev pub ends_with : Text → Text → Bool
ends_with suffix [] = same_text suffix []
ends_with suffix (c ∷ text) = same_text suffix (c ∷ text) || ends_with suffix text

-- The text from its last dot on.
abbrev from_last_dot : Text → Option Text
from_last_dot [] = none
from_last_dot (c ∷ text) = elim (from_last_dot text) [
  | some found ↦ some found
  | none ↦ if c == b'.' then some (c ∷ text) else none
]

abbrev dot_inside : Text → Option Text → Text
dot_inside rest none = []
dot_inside rest (some []) = []
dot_inside rest (some (dot ∷ [])) = []
dot_inside rest (some (dot ∷ c ∷ text)) = dot ∷ c ∷ text

-- `path.suffix`: from the last dot, which is neither the first nor the last character.
abbrev suffix_of_name : Text → Text
suffix_of_name [] = []
suffix_of_name (c ∷ rest) = dot_inside rest (from_last_dot rest)

abbrev pub suffix_of : PurePosixPath → Text
suffix_of path = suffix_of_name (name_of path)

abbrev has_yaml_suffix : Text → Bool
has_yaml_suffix name = ends_with (codes ".yml") name || ends_with (codes ".yaml") name

-- `_is_compose_yaml`.
unfoldable pub is_compose_yaml : Runtime → PurePosixPath → Bool
unfolding lower same_text is
is_compose_yaml py path =
    let name = lower py (name_of path) in
    if is_in name (
      codes "compose.yaml"
      ∷ codes "compose.yml"
      ∷ codes "docker-compose.yml"
      ∷ codes "docker-compose.yaml"
      ∷ [])
    then true
    else starts_with (codes "docker-compose") name && has_yaml_suffix name

unfoldable pub is_protected_path : Runtime → PurePosixPath → List PurePosixPath → Bool
unfolding lower same_text is parse_path
is_protected_path py path service_protected =
    let name = lower py (name_of path) in
    if any (is_relative_to path) service_protected
    then true
    else if is_in name
        (codes ".env" ∷ codes "compose.yaml" ∷ codes "compose.yml" ∷ codes "dockerfile" ∷ [])
    then true
    else if starts_with (codes "docker-compose") name && has_yaml_suffix name
    then true
    else if is_relative_to path (parse_path (codes "/etc"))
    then true
    else (ends_with (codes ".service") name
        && (is_relative_to path (parse_path (codes "/etc/systemd"))
            || is_relative_to path (parse_path (codes "/lib/systemd"))))
