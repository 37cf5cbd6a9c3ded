-- ===== src/Policy/Reads/Docker.antt =====
-- The operand that `_docker_read_target` of remote_ops/policy.py finds.
use incidentlens.Common.{
  true, false, none, some, some_inj, List, [], ◌∷◌, ◌++◌, Text, ◌≡◌, refl, ap, ◌⊎◌, inl, inr,
  Bool-cases,
}
use incidentlens.Policy.Reads.{
  is_one_of, is_option, Options, has_value, DockerToken, takes_value, stands_alone, refused,
  operand, docker_token, docker_target_from, docker_target_after_value, docker_read_target,
}

-- A list of options: a listed option and its value, an option with `=`, or a flag, each listed.
pub data AreOptions (options : Options) : List Text → Type 0 where
  done : AreOptions options []
  separate :
      {token value : Text} {rest : List Text}
      → is_one_of token options.with_values ≡ true
      → AreOptions options rest
      → AreOptions options (token ∷ value ∷ rest)
  joined :
      {token : Text} {rest : List Text}
      → (has_value options token ≡ true) ⊎ (is_one_of token options.flags ≡ true)
      → AreOptions options rest
      → AreOptions options (token ∷ rest)

-- The arguments are options, the operand, which is no option, and options.
pub record HasOperand (options : Options) (arguments : List Text) (name : Text) : Type 0 where
  pub before : List Text
  pub after : List Text
  pub splits : arguments ≡ before ++ name ∷ after
  pub are_before : AreOptions options before
  pub are_after : AreOptions options after
  pub plain : is_option name ≡ false

-- What the token is, where `docker_token` says so.
Says : Options → Text → DockerToken → Type 0
Says options token takes_value = is_one_of token options.with_values ≡ true
Says options token stands_alone =
    (has_value options token ≡ true) ⊎ (is_one_of token options.flags ≡ true)
Says options token refused = Unit {0}
Says options token operand = is_option token ≡ false

docker_token-Says :
    (options : Options) (token : Text) → Says options token (docker_token options token)
unfolding docker_token Says
docker_token-Says options token = elim (Bool-cases (is_one_of token options.with_values)) [
  | inl e ↦ rw e e
  | inr a ↦ elim (Bool-cases (has_value options token)) [
    | inl e ↦ rw (a, e) (inl e)
    | inr b ↦ elim (Bool-cases (is_one_of token options.flags)) [
      | inl e ↦ rw (a, b, e) (inr e)
      | inr c ↦ elim (Bool-cases (is_option token)) [
        | inl e ↦ rw (a, b, c, e) tt
        | inr e ↦ rw (a, b, c, e) e
      ]
    ]
  ]
]

-- With a target in hand, only options are left.
abbrev Ends : Options → List Text → Type 0
Ends options xs =
    ((target name : Text)
      → docker_target_from options (some target) xs ≡ some name
      → (target ≡ name) × AreOptions options xs)
    × ((token target name : Text)
        → is_one_of token options.with_values ≡ true
        → docker_target_after_value options (some target) xs ≡ some name
        → (target ≡ name) × AreOptions options (token ∷ xs))

Ends-at :
    (options : Options) (token : Text) (rest : List Text) (k : DockerToken)
    → docker_token options token ≡ k
    → Says options token k
    → Ends options rest
    → (target name : Text) → docker_target_from options (some target) (token ∷ rest) ≡ some name
    → (target ≡ name) × AreOptions options (token ∷ rest)
unfolding docker_target_from docker_target_after_value Says
Ends-at options token rest takes_value e s ends target name h =
    ends.1 token target name s (rw (docker_target_from, e) at h)
Ends-at options token rest stands_alone e s ends target name h =
    let (same, are) = ends.0 target name (rw (docker_target_from, e) at h) in (same, joined s are)
Ends-at options token rest refused e s ends target name h =
    absurd (cc (rw (docker_target_from, e) at h))
Ends-at options token rest operand e s ends target name h =
    absurd (cc (rw (docker_target_from, e) at h))

all-Ends : (options : Options) (xs : List Text) → Ends options xs
unfolding docker_target_from docker_target_after_value
all-Ends options [] =
    (λ target name h. (some_inj.0 h, done), λ token target name s h. absurd (cc h))
all-Ends options (x ∷ xs) =
    let ends = all-Ends options xs in
    (
      Ends-at options x xs (docker_token options x) refl (docker_token-Says options x) ends,
      λ token target name s h. let (same, are) = ends.0 target name h in (same, separate s are),
    )

-- Before the target is found.
abbrev Finds : Options → List Text → Type 0
Finds options xs =
    ((name : Text) → docker_target_from options none xs ≡ some name → HasOperand options xs name)
    × ((token name : Text)
        → is_one_of token options.with_values ≡ true
        → docker_target_after_value options none xs ≡ some name
        → HasOperand options (token ∷ xs) name)

put_separate :
    {options : Options} {xs : List Text} {name : Text} (token value : Text)
    → is_one_of token options.with_values ≡ true
    → HasOperand options xs name
    → HasOperand options (token ∷ value ∷ xs) name
put_separate token value s found = record {
  before = token ∷ value ∷ found.before;
  after = found.after;
  splits = ap (λ ys. token ∷ value ∷ ys) found.splits;
  are_before = separate s found.are_before;
  are_after = found.are_after;
  plain = found.plain;
}

put_joined :
    {options : Options} {xs : List Text} {name : Text} (token : Text)
    → (has_value options token ≡ true) ⊎ (is_one_of token options.flags ≡ true)
    → HasOperand options xs name
    → HasOperand options (token ∷ xs) name
put_joined token s found = record {
  before = token ∷ found.before;
  after = found.after;
  splits = ap (◌∷◌ token) found.splits;
  are_before = joined s found.are_before;
  are_after = found.are_after;
  plain = found.plain;
}

Finds-at :
    (options : Options) (token : Text) (rest : List Text) (k : DockerToken)
    → docker_token options token ≡ k
    → Says options token k
    → Finds options rest
    → (name : Text) → docker_target_from options none (token ∷ rest) ≡ some name
    → HasOperand options (token ∷ rest) name
unfolding docker_target_from docker_target_after_value Says
Finds-at options token rest takes_value e s finds name h =
    finds.1 token name s (rw (docker_target_from, e) at h)
Finds-at options token rest stands_alone e s finds name h =
    put_joined token s (finds.0 name (rw (docker_target_from, e) at h))
Finds-at options token rest refused e s finds name h = absurd (cc (rw (docker_target_from, e) at h))
Finds-at options token rest operand e s finds name h =
    let (same, are) = (all-Ends options rest).0 token name (rw (docker_target_from, e) at h) in
    record {
      before = [];
      after = rest;
      splits = ap (λ n. n ∷ rest) same;
      are_before = done;
      are_after = are;
      plain = rw same at s;
    }

all-Finds : (options : Options) (xs : List Text) → Finds options xs
unfolding docker_target_from docker_target_after_value
all-Finds options [] = (λ name h. absurd (cc h), λ token name s h. absurd (cc h))
all-Finds options (x ∷ xs) =
    let finds = all-Finds options xs in
    (
      Finds-at options x xs (docker_token options x) refl (docker_token-Says options x) finds,
      λ token name s h. put_separate token x s (finds.0 name h),
    )

-- Where `_docker_read_target` returns a name, the arguments are listed options, that name as the
-- only operand, and listed options again.
pub docker_read_target-HasOperand :
    (options : Options) (arguments : List Text) (name : Text)
    → docker_read_target options arguments ≡ some name
    → HasOperand options arguments name
docker_read_target-HasOperand options arguments name h = (all-Finds options arguments).0 name h
