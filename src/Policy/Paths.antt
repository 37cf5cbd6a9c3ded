-- ===== src/Policy/Paths.antt =====
-- class RemotePathPolicy of remote_ops/policy.py, and the paths of Python's pathlib that it reads.
use incidentlens.Common.{
  ℕ, suc, Bool, true, false, ◌&&◌, ◌||◌, not, Option, none, some, List, [], ◌∷◌, ◌==◌, any, filter,
  if◌then◌else◌, Text, is, is_in, same_text, split_on, Result, ok, err,
}

pub data Root : Type 0 where
  no_root slash double_slash : Root

-- A `PurePosixPath`: its root, and its parts without the root.
pub record PurePosixPath : Type 0 where
  pub root : Root
  pub parts : List Text

abbrev leading_slashes : Text → ℕ
leading_slashes [] = 0
leading_slashes (c ∷ text) = let rest = leading_slashes text in if c == b'/' then suc rest else 0

-- Two slashes are a root of their own only when they are exactly two.
abbrev root_of : Text → Root
root_of text =
    let slashes = leading_slashes text in
    if slashes == 0 then no_root else if slashes == 2 then double_slash else slash

abbrev pub is_part : Text → Bool
is_part [] = false
is_part part = not (is part ".")

-- `PurePosixPath(text)`.
unfoldable pub parse_path : Text → PurePosixPath
unfolding is same_text
parse_path text = record { root = root_of text; parts = filter is_part (split_on b'/' text) }

abbrev pub same_root : Root → Root → Bool
same_root no_root no_root = true
same_root slash slash = true
same_root double_slash double_slash = true
same_root _ _ = false

abbrev pub is_absolute : PurePosixPath → Bool
is_absolute p = not (same_root p.root no_root)

abbrev pub is_prefix : List Text → List Text → Bool
is_prefix [] parts = true
is_prefix (part ∷ prefix) [] = false
is_prefix (part ∷ prefix) (q ∷ parts) = same_text part q && is_prefix prefix parts

-- `path.is_relative_to(root)`.
abbrev pub is_relative_to : PurePosixPath → PurePosixPath → Bool
is_relative_to path root = same_root path.root root.root && is_prefix root.parts path.parts

-- `path in paths`.
abbrev pub same_path : PurePosixPath → PurePosixPath → Bool
same_path p q = same_root p.root q.root && is_prefix p.parts q.parts && is_prefix q.parts p.parts

-- `".." in path.parts`.
abbrev pub has_parent : PurePosixPath → Bool
has_parent path = any (λ part. is part "..") path.parts

pub data RemoteScope : Type 0 where
  host : RemoteScope
  container : Text → RemoteScope

-- `ServiceRegistration` of project_registry/types.py. A local path is its text.
pub record ServiceRegistration : Type 0 where
  pub compose_service : Text
  pub container_names : List Text
  pub local_source_path : Option Text
  pub container_path_hints : List Text
  pub allowed_log_paths : List Text
  pub allowed_host_paths : List PurePosixPath
  pub allowed_container_paths : List PurePosixPath
  pub protected_remote_paths : List PurePosixPath
  pub allowed_validation_scripts : List PurePosixPath

pub record FileMetadata : Type 0 where
  pub path : PurePosixPath
  pub size : ℕ
  pub mode : ℕ
  pub uid : ℕ
  pub gid : ℕ
  pub modified_ns : ℕ
  pub is_symlink : Bool

-- `realpath` and `lstat` of remote_ops/transport.py; `none` is a raised `RemoteError`.
pub record RemoteTransport : Type 0 where
  pub realpath : PurePosixPath → Option PurePosixPath
  pub lstat : PurePosixPath → Option FileMetadata

-- The raises of `authorize`, in their order; `transport_error` is one of the transport's.
pub data AuthorizeError : Type 0 where
  not_absolute contains_parent unknown_container outside_roots : AuthorizeError
  transport_error escapes_root symlink : AuthorizeError

abbrev pub roots_of : ServiceRegistration → RemoteScope → List PurePosixPath
roots_of service host = service.allowed_host_paths
roots_of service (container name) = service.allowed_container_paths

abbrev pub is_known : ServiceRegistration → RemoteScope → Bool
is_known service host = true
is_known service (container name) = is_in name service.container_names

-- `_find_root`.
abbrev pub find_root : PurePosixPath → List PurePosixPath → Option PurePosixPath
find_root path [] = none
find_root path (root ∷ roots) =
    let rest = find_root path roots in if is_relative_to path root then some root else rest

abbrev pub at_metadata : PurePosixPath → Option FileMetadata → Result AuthorizeError PurePosixPath
at_metadata canonical none = err transport_error
at_metadata canonical (some meta) = if meta.is_symlink then err symlink else ok canonical

abbrev pub at_canonical :
    RemoteTransport → PurePosixPath → Option PurePosixPath → Result AuthorizeError PurePosixPath
at_canonical transport root none = err transport_error
at_canonical transport root (some canonical) =
    if not (is_relative_to canonical root)
    then err escapes_root
    else at_metadata canonical (transport.lstat canonical)

-- The checks of `authorize` on the canonical path, where there is a transport.
abbrev pub canonical_in :
    Option RemoteTransport → PurePosixPath → PurePosixPath → Result AuthorizeError PurePosixPath
canonical_in none root path = ok path
canonical_in (some transport) root path = at_canonical transport root (transport.realpath path)

abbrev pub in_root :
    Option RemoteTransport
    → PurePosixPath
    → Option PurePosixPath
    → Result AuthorizeError PurePosixPath
in_root transport path none = err outside_roots
in_root transport path (some root) = canonical_in transport root path

unfoldable pub authorize :
    ServiceRegistration
    → RemoteScope
    → PurePosixPath
    → Option RemoteTransport
    → Result AuthorizeError PurePosixPath
authorize service scope path transport =
    if not (is_absolute path)
    then err not_absolute
    else if has_parent path
    then err contains_parent
    else if not (is_known service scope)
    then err unknown_container
    else in_root transport path (find_root path (roots_of service scope))

unfoldable pub path_contains : ServiceRegistration → PurePosixPath → RemoteScope → Bool
path_contains service path scope = any (is_relative_to path) (roots_of service scope)

-- `_is_path_authorized`.
unfoldable pub is_path_authorized : Text → ServiceRegistration → Bool
unfolding parse_path
is_path_authorized text service =
    let path = parse_path text in
    is_absolute path
    && not (has_parent path)
    && (any (is_relative_to path) service.allowed_host_paths
        || any (is_relative_to path) service.allowed_container_paths)
