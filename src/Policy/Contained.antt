-- ===== src/Policy/Contained.antt =====
-- What the path checks of remote_ops/policy.py let through.
use incidentlens.Common.{
  any_iff, Bool, true, false, Option, none, some, some_inj, List, [], ◌∷◌, ◌++◌, any, Any, here,
  there, if◌then◌else◌, Text, is, same_text_iff, ok, ◌≡◌, refl, ap, ◌⊎◌, inl, inr, ◌↔◌, arith,
  Bool-cases, append_assoc, subst, ◌∙◌,
}
use incidentlens.Policy.Paths.{
  Root, PurePosixPath, ServiceRegistration, RemoteScope, RemoteTransport, same_root, is_absolute,
  is_prefix, is_relative_to, has_parent, roots_of, is_known, find_root, canonical_in, at_metadata,
  at_canonical, FileMetadata, in_root, authorize, is_path_authorized, parse_path,
}

-- The directory that a walk of the parts ends in, from the one with the parts `seen`, innermost first.
abbrev pub walk : List Text → List Text → List Text
walk seen [] = seen
walk [] (part ∷ parts) =
    let rest = walk (part ∷ []) parts in if is part ".." then walk [] parts else rest
walk (s ∷ seen) (part ∷ parts) =
    let rest = walk (part ∷ s ∷ seen) parts in if is part ".." then walk seen parts else rest

-- The path is the root, followed by more parts.
abbrev pub IsUnder : PurePosixPath → PurePosixPath → Type 0
IsUnder path root =
    (path.root ≡ root.root) × ((rest : List Text) × (path.parts ≡ root.parts ++ rest))

pub same_root_lem : (p q : PurePosixPath) → same_root p.root q.root ≡ true → p.root ≡ q.root
same_root_lem p q h = ground arith

pub is_prefix_lem :
    (xs ys : List Text) → is_prefix xs ys ≡ true → (rest : List Text) × (ys ≡ xs ++ rest)
is_prefix_lem [] ys h = (ys, refl)
is_prefix_lem (x ∷ xs) [] h = absurd (cc h)
is_prefix_lem (x ∷ xs) (y ∷ ys) h = ground (arith, same_text_iff x y, is_prefix_lem xs ys)

pub prefix_append : (xs rest : List Text) → is_prefix xs (xs ++ rest) ≡ true
prefix_append [] rest = refl
prefix_append (x ∷ xs) rest = ground (arith, same_text_iff x x, prefix_append xs rest)

pub same_root_refl : (r : Root) → same_root r r ≡ true
same_root_refl r = ground arith

pub is_relative_to_iff :
    (path root : PurePosixPath) → (is_relative_to path root ≡ true) ↔ IsUnder path root
is_relative_to_iff path root = (
  λ h. (ground arith, is_prefix_lem root.parts path.parts (ground arith)),
  λ h. rw (h.0, h.1.1, same_root_refl root.root) (prefix_append root.parts h.1.0),
)

-- The path stays below the root when its parts are walked one by one.
abbrev pub IsInside : PurePosixPath → PurePosixPath → Type 0
IsInside path root =
    (path.root ≡ root.root)
    × ((rest : List Text) × (walk [] path.parts ≡ rest ++ walk [] root.parts))

walk_plain :
    (seen parts : List Text)
    → any (λ part. is part "..") parts ≡ false
    → (rest : List Text) × (walk seen parts ≡ rest ++ seen)
walk_plain seen [] h = ([], refl)
walk_plain [] (part ∷ parts) h =
    let (rest, e) = walk_plain (part ∷ []) parts (ground arith) in
    (rest ++ part ∷ [], ground (arith, e, append_assoc rest (part ∷ []) []))
walk_plain (s ∷ seen) (part ∷ parts) h =
    let (rest, e) = walk_plain (part ∷ s ∷ seen) parts (ground arith) in
    (rest ++ part ∷ [], ground (arith, e, append_assoc rest (part ∷ []) (s ∷ seen)))

walk_append :
    (seen xs ys : List Text)
    → any (λ part. is part "..") (xs ++ ys) ≡ false
    → walk seen (xs ++ ys) ≡ walk (walk seen xs) ys
walk_append seen [] ys h = refl
walk_append [] (x ∷ xs) ys h = ground (arith, walk_append (x ∷ []) xs ys)
walk_append (s ∷ seen) (x ∷ xs) ys h = ground (arith, walk_append (x ∷ s ∷ seen) xs ys)

any_after : (p : Text → Bool) (xs ys : List Text) → any p (xs ++ ys) ≡ false → any p ys ≡ false
any_after p [] ys h = h
any_after p (x ∷ xs) ys h = any_after p xs ys (ground arith)

pub IsUnder-IsInside :
    (path root : PurePosixPath) → has_parent path ≡ false → IsUnder path root → IsInside path root
IsUnder-IsInside path root h (e, (rest, q)) =
    let clean = rw q at h in
    let (below, w) =
      walk_plain (walk [] root.parts) rest
        (any_after (λ part. is part "..") root.parts rest clean) in
    (e, (below, rw q (walk_append [] root.parts rest clean ∙ w)))

-- The root that `_find_root` returns is one of the roots, and the path lies below it.
find_root-some :
    (path : PurePosixPath) (roots : List PurePosixPath) {root : PurePosixPath}
    → find_root path roots ≡ some root
    → Any (λ r. r ≡ root) roots × IsUnder path root
find_root-some path [] h = absurd (cc h)
find_root-some path (r ∷ roots) {root} h = elim (Bool-cases (is_relative_to path r)) [
  | inl e ↦
      let same : r ≡ root = some_inj.0 (rw e at h) in
      (here same, subst (IsUnder path) same ((is_relative_to_iff path r).0 e))
  | inr e ↦ let (at_root, under) = find_root-some path roots (rw e at h) in (there at_root, under)
]

-- What `authorize` returns for the path: itself, or what the transport resolves it to, with the
-- metadata of that.
abbrev pub Resolves :
    Option RemoteTransport → PurePosixPath → PurePosixPath → PurePosixPath → Type 0
Resolves none path root result = result ≡ path
Resolves (some transport) path root result =
    (transport.realpath path ≡ some result)
    × IsUnder result root
    × ((meta : FileMetadata) × (transport.lstat result ≡ some meta) × (meta.is_symlink ≡ false))

at_metadata_ok :
    (canonical : PurePosixPath) (found : Option FileMetadata) {result : PurePosixPath}
    → at_metadata canonical found ≡ ok result
    → (canonical ≡ result)
      × ((meta : FileMetadata) × (found ≡ some meta) × (meta.is_symlink ≡ false))
at_metadata_ok canonical none h = absurd (cc h)
at_metadata_ok canonical (some meta) h = elim (Bool-cases meta.is_symlink) [
  | inl e ↦ absurd (cc (rw e at h))
  | inr e ↦ (ground (arith, h, e), (meta, refl, e))
]

at_canonical_ok :
    (transport : RemoteTransport) (root : PurePosixPath) (found : Option PurePosixPath)
    {result : PurePosixPath}
    → at_canonical transport root found ≡ ok result
    → (found ≡ some result)
      × IsUnder result root
      × ((meta : FileMetadata) × (transport.lstat result ≡ some meta) × (meta.is_symlink ≡ false))
at_canonical_ok transport root none h = absurd (cc h)
at_canonical_ok transport root (some canonical) {result} h =
    elim (Bool-cases (is_relative_to canonical root)) [
      | inr e ↦ absurd (cc (rw e at h))
      | inl e ↦
          let (same, (meta, found, plain)) =
            at_metadata_ok canonical (transport.lstat canonical) (rw e at h) in
          (
            ap (λ p. some p) same,
            subst (λ p. IsUnder p root) same ((is_relative_to_iff canonical root).0 e),
            (meta, rw same at found, plain),
          )
    ]

canonical_in_ok :
    (transport : Option RemoteTransport) (root path : PurePosixPath) {result : PurePosixPath}
    → canonical_in transport root path ≡ ok result
    → Resolves transport path root result
canonical_in_ok none root path h = ground arith
canonical_in_ok (some t) root path h = at_canonical_ok t root (t.realpath path) h

in_root_ok :
    (transport : Option RemoteTransport) (path : PurePosixPath) (found : Option PurePosixPath)
    {result : PurePosixPath}
    → in_root transport path found ≡ ok result
    → (root : PurePosixPath) × (found ≡ some root) × Resolves transport path root result
in_root_ok transport path none h = absurd (cc h)
in_root_ok transport path (some root) h = (root, refl, canonical_in_ok transport root path h)

-- Where `authorize` returns a path, the scope's container, if it names one, is registered, and
-- one of the scope's roots holds the requested path, even when its parts are walked one by one;
-- without a transport the result is that path, and with one it is what the transport resolves it
-- to, which lies below the same root and is no symlink.
pub authorize-IsInside :
    (service : ServiceRegistration) (scope : RemoteScope) (path : PurePosixPath)
    (transport : Option RemoteTransport) {result : PurePosixPath}
    → authorize service scope path transport ≡ ok result
    → (is_known service scope ≡ true)
      × ((root : PurePosixPath) × Any (λ r. r ≡ root) (roots_of service scope)
          × IsInside path root
          × Resolves transport path root result)
unfolding authorize
authorize-IsInside service scope path transport {result} h = elim (Bool-cases (is_absolute path)) [
  | inr a ↦ absurd (cc (rw a at h))
  | inl a ↦ elim (Bool-cases (has_parent path)) [
    | inl b ↦ absurd (cc (rw (a, b) at h))
    | inr b ↦ elim (Bool-cases (is_known service scope)) [
      | inr c ↦ absurd (cc (rw (a, b, c) at h))
      | inl c ↦
          let (root, found, resolves) =
            in_root_ok transport path (find_root path (roots_of service scope))
              (rw (a, b, c) at h) in
          let (listed, under) = find_root-some path (roots_of service scope) found in
          (c, (root, listed, IsUnder-IsInside path root b under, resolves))
    ]
  ]
]

pub any_relative_iff :
    (path : PurePosixPath) (roots : List PurePosixPath)
    → (any (is_relative_to path) roots ≡ true) ↔ Any (IsUnder path) roots
any_relative_iff path roots =
    any_iff (IsUnder path) (is_relative_to path) roots (is_relative_to_iff path)

-- The text is an absolute path with no `..` below a host root or a container root of the service.
abbrev pub IsAuthorized : ServiceRegistration → Text → Type 0
IsAuthorized service text =
    (is_absolute (parse_path text) ≡ true)
    × (has_parent (parse_path text) ≡ false)
    × (Any (IsUnder (parse_path text)) service.allowed_host_paths
        ⊎ Any (IsUnder (parse_path text)) service.allowed_container_paths)

-- `_is_path_authorized` is true exactly for the texts that name an absolute path with no `..`
-- whose parts begin with all the parts of a host root or a container root of the service.
pub is_path_authorized_iff :
    (text : Text) (service : ServiceRegistration)
    → (is_path_authorized text service ≡ true) ↔ IsAuthorized service text
unfolding is_path_authorized
is_path_authorized_iff text service = (
  λ h. (
    ground arith,
    ground arith,
    elim (Bool-cases (any (is_relative_to (parse_path text)) service.allowed_host_paths)) [
      | inl e ↦ inl ((any_relative_iff (parse_path text) service.allowed_host_paths).0 e)
      | inr e ↦
          inr
            ((any_relative_iff (parse_path text) service.allowed_container_paths).0 (ground arith))
    ],
  ),
  λ (a, b, c). elim c [
    | inl u ↦
        let e = (any_relative_iff (parse_path text) service.allowed_host_paths).1 u in ground arith
    | inr u ↦
        let e = (any_relative_iff (parse_path text) service.allowed_container_paths).1 u in
        ground arith
  ],
)
