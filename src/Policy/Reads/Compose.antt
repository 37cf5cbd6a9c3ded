-- ===== src/Policy/Reads/Compose.antt =====
-- The arguments that `_docker_compose_read_subcommand` of remote_ops/policy.py accepts.
use incidentlens.Common.{
  true, none, some, some_inj, if◌then◌else◌, List, [], ◌∷◌, Text, ◌≡◌, sym, subst, inl, inr,
  Bool-cases,
}
use incidentlens.Policy.Paths.{ServiceRegistration, is_path_authorized}
use incidentlens.Policy.Contained.{IsAuthorized, is_path_authorized_iff}
use incidentlens.Policy.Reads.{
  is_one_of, is_option, is_file_option, is_file_assignment, after_equals, compose_read_subcommand,
  compose_after_file,
}

-- File options with authorized paths, then a read subcommand; what follows it is free.
pub data ComposeRead (service : ServiceRegistration) (name : Text) : List Text → Type 0 where
  subcommand :
      {rest : List Text}
      → is_one_of name ("ps" ∷ "logs" ∷ "config" ∷ []) ≡ true
      → ComposeRead service name (name ∷ rest)
  separate :
      {token path : Text} {rest : List Text}
      → is_file_option token ≡ true
      → IsAuthorized service path
      → ComposeRead service name rest
      → ComposeRead service name (token ∷ path ∷ rest)
  joined :
      {token : Text} {rest : List Text}
      → is_file_assignment token ≡ true
      → IsAuthorized service (after_equals token)
      → ComposeRead service name rest
      → ComposeRead service name (token ∷ rest)

abbrev Reads : ServiceRegistration → Text → List Text → Type 0
Reads service name xs =
    (compose_read_subcommand xs service ≡ some name → ComposeRead service name xs)
    × ((token : Text)
        → is_file_option token ≡ true
        → compose_after_file xs service ≡ some name
        → ComposeRead service name (token ∷ xs))

chosen :
    (service : ServiceRegistration) (name token : Text) (rest : List Text)
    → (if is_option token
        then none
        else if is_one_of token ("ps" ∷ "logs" ∷ "config" ∷ [])
        then some token
        else none)
      ≡ some name
    → ComposeRead service name (token ∷ rest)
chosen service name token rest h = elim (Bool-cases (is_option token)) [
  | inl e ↦ absurd (cc (rw e at h))
  | inr a ↦ elim (Bool-cases (is_one_of token ("ps" ∷ "logs" ∷ "config" ∷ []))) [
    | inr e ↦ absurd (cc (rw (a, e) at h))
    | inl e ↦
        let same : token ≡ name = some_inj.0 (rw (a, e) at h) in
        subst (λ t. ComposeRead service name (t ∷ rest)) (sym same) (subcommand (rw same at e))
  ]
]

all-Reads : (service : ServiceRegistration) (name : Text) (xs : List Text) → Reads service name xs
unfolding compose_read_subcommand compose_after_file
all-Reads service name [] = (λ h. absurd (cc h), λ token s h. absurd (cc h))
all-Reads service name (x ∷ xs) =
    let reads = all-Reads service name xs in
    (
      λ h. elim (Bool-cases (is_file_option x)) [
        | inl e ↦ reads.1 x e (rw (compose_read_subcommand, e) at h)
        | inr a ↦ elim (Bool-cases (is_file_assignment x)) [
          | inr e ↦ chosen service name x xs (rw (compose_read_subcommand, a, e) at h)
          | inl b ↦ elim (Bool-cases (is_path_authorized (after_equals x) service)) [
            | inr e ↦ absurd (cc (rw (compose_read_subcommand, a, b, e) at h))
            | inl e ↦
                joined b ((is_path_authorized_iff (after_equals x) service).0 e)
                  (reads.0 (rw (compose_read_subcommand, a, b, e) at h))
          ]
        ]
      ],
      λ token s h. elim (Bool-cases (is_path_authorized x service)) [
        | inr e ↦ absurd (cc (rw (compose_after_file, e) at h))
        | inl e ↦
            separate s ((is_path_authorized_iff x service).0 e)
              (reads.0 (rw (compose_after_file, e) at h))
      ],
    )

pub compose_read_subcommand-ComposeRead :
    (service : ServiceRegistration) (name : Text) (arguments : List Text)
    → compose_read_subcommand arguments service ≡ some name
    → ComposeRead service name arguments
compose_read_subcommand-ComposeRead service name arguments h =
    (all-Reads service name arguments).0 h
