-- ===== src/Policy/Find/Grammar.antt =====
-- The `find` commands that remote_ops/policy.py takes for reads, as a grammar.
use incidentlens.Common.{
  ℕ, ◌≤◌, true, some, List, [], ◌∷◌, leb, leb→le, le→leb, Text, codes, is, is_iff, ◌≡◌, refl, sym,
  subst, ◌∙◌, inl, inr, Bool-cases, Option-cases,
}
use incidentlens.Policy.Parse.{Python}
use incidentlens.Policy.Reads.{is_one_of, one_of_two, one_of_three}
use incidentlens.Policy.Find.{
  isdigit, int_of, FindToken, maxdepth, mindepth, type, pattern, print, other, find_token,
  find_tests, find_maxdepth, find_mindepth, find_type, find_pattern,
}

-- The tests: depths, file types, name patterns and printing, each with its value.
pub data Tests (py : Python) : List Text → Type 0 where
  done : Tests py []
  at_most :
      {value : Text} {rest : List Text} {depth : ℕ}
      → isdigit py value ≡ true
      → int_of py value ≡ some depth
      → depth ≤ 10
      → Tests py rest
      → Tests py (codes "-maxdepth" ∷ value ∷ rest)
  at_least :
      {value : Text} {rest : List Text}
      → isdigit py value ≡ true
      → Tests py rest
      → Tests py (codes "-mindepth" ∷ value ∷ rest)
  of_type :
      {value : Text} {rest : List Text}
      → is_one_of value ("f" ∷ "d" ∷ "l" ∷ []) ≡ true
      → Tests py rest
      → Tests py (codes "-type" ∷ value ∷ rest)
  like :
      {token value : Text} {rest : List Text}
      → is_one_of token ("-name" ∷ "-iname" ∷ "-path" ∷ []) ≡ true
      → Tests py rest
      → Tests py (token ∷ value ∷ rest)
  prints :
      {token : Text} {rest : List Text}
      → is_one_of token ("-print" ∷ "-print0" ∷ []) ≡ true
      → Tests py rest
      → Tests py (token ∷ rest)

-- What the token is, where `find_token` says so.
pub Says : Text → FindToken → Type 0
Says token maxdepth = token ≡ codes "-maxdepth"
Says token mindepth = token ≡ codes "-mindepth"
Says token type = token ≡ codes "-type"
Says token pattern = is_one_of token ("-name" ∷ "-iname" ∷ "-path" ∷ []) ≡ true
Says token print = is_one_of token ("-print" ∷ "-print0" ∷ []) ≡ true
Says token other = Unit {0}

find_token-Says : (token : Text) → Says token (find_token token)
unfolding find_token Says
find_token-Says token = elim (Bool-cases (is token "-maxdepth")) [
  | inl e ↦ rw e ((is_iff token "-maxdepth").0 e)
  | inr a ↦ elim (Bool-cases (is token "-mindepth")) [
    | inl e ↦ rw (a, e) ((is_iff token "-mindepth").0 e)
    | inr b ↦ elim (Bool-cases (is token "-type")) [
      | inl e ↦ rw (a, b, e) ((is_iff token "-type").0 e)
      | inr c ↦ elim (Bool-cases (is_one_of token ("-name" ∷ "-iname" ∷ "-path" ∷ []))) [
        | inl e ↦ rw (a, b, c, e) e
        | inr d ↦ elim (Bool-cases (is_one_of token ("-print" ∷ "-print0" ∷ []))) [
          | inl e ↦ rw (a, b, c, d, e) e
          | inr e ↦ rw (a, b, c, d, e) tt
        ]
      ]
    ]
  ]
]

-- Where the loop accepts, from each of its places, the grammar does.
abbrev pub Sound : Python → List Text → Type 0
Sound py xs =
    (find_tests py xs ≡ some true → Tests py xs)
    × (find_maxdepth py xs ≡ some true → Tests py (codes "-maxdepth" ∷ xs))
    × (find_mindepth py xs ≡ some true → Tests py (codes "-mindepth" ∷ xs))
    × (find_type py xs ≡ some true → Tests py (codes "-type" ∷ xs))
    × ((token : Text) → Says token pattern → find_pattern py xs ≡ some true → Tests py (token ∷ xs))

find_tests-Sound :
    (py : Python) (token : Text) (rest : List Text) (k : FindToken)
    → find_token token ≡ k
    → Says token k
    → Sound py rest
    → find_tests py (token ∷ rest) ≡ some true
    → Tests py (token ∷ rest)
unfolding find_tests find_maxdepth find_mindepth find_type find_pattern Says
find_tests-Sound py token rest maxdepth e s (a, b, c, d, f) h =
    subst (λ t. Tests py (t ∷ rest)) (sym s) (b (rw (find_tests, e) at h))
find_tests-Sound py token rest mindepth e s (a, b, c, d, f) h =
    subst (λ t. Tests py (t ∷ rest)) (sym s) (c (rw (find_tests, e) at h))
find_tests-Sound py token rest type e s (a, b, c, d, f) h =
    subst (λ t. Tests py (t ∷ rest)) (sym s) (d (rw (find_tests, e) at h))
find_tests-Sound py token rest pattern e s (a, b, c, d, f) h = f token s (rw (find_tests, e) at h)
find_tests-Sound py token rest print e s (a, b, c, d, f) h = prints s (a (rw (find_tests, e) at h))
find_tests-Sound py token rest other e s sound h = absurd (cc (rw (find_tests, e) at h))

find_maxdepth-Sound :
    (py : Python) (value : Text) (rest : List Text)
    → (find_tests py rest ≡ some true → Tests py rest)
    → find_maxdepth py (value ∷ rest) ≡ some true
    → Tests py (codes "-maxdepth" ∷ value ∷ rest)
unfolding find_tests find_maxdepth find_mindepth find_type find_pattern
find_maxdepth-Sound py value rest ih h = elim (Bool-cases (isdigit py value)) [
  | inr e ↦ absurd (cc (rw (find_maxdepth, e) at h))
  | inl e ↦ elim (Option-cases (int_of py value)) [
    | inl q ↦ absurd (cc (rw (find_maxdepth, e, q) at h))
    | inr (depth, q) ↦ elim (Bool-cases (leb depth 10)) [
      | inr r ↦ absurd (cc (rw (find_maxdepth, e, q, r) at h))
      | inl r ↦ at_most e q (leb→le depth 10 r) (ih (rw (find_maxdepth, e, q, r) at h))
    ]
  ]
]

pub all-Sound : (py : Python) (xs : List Text) → Sound py xs
unfolding find_tests find_maxdepth find_mindepth find_type find_pattern Says
all-Sound py [] = (
  λ h. done,
  λ h. absurd (cc h),
  λ h. absurd (cc h),
  λ h. absurd (cc h),
  λ token s h. absurd (cc h),
)
all-Sound py (x ∷ xs) =
    let sound = all-Sound py xs in
    (
      find_tests-Sound py x xs (find_token x) refl (find_token-Says x) sound,
      find_maxdepth-Sound py x xs sound.0,
      λ h. elim (Bool-cases (isdigit py x)) [
        | inl e ↦ at_least e (sound.0 (rw (find_mindepth, e) at h))
        | inr e ↦ absurd (cc (rw (find_mindepth, e) at h))
      ],
      λ h. elim (Bool-cases (is_one_of x ("f" ∷ "d" ∷ "l" ∷ []))) [
        | inl e ↦ of_type e (sound.0 (rw (find_type, e) at h))
        | inr e ↦ absurd (cc (rw (find_type, e) at h))
      ],
      λ token s h. like s (sound.0 h),
    )

find_token_like :
    (token : Text)
    → is_one_of token ("-name" ∷ "-iname" ∷ "-path" ∷ []) ≡ true
    → find_token token ≡ pattern
unfolding find_token is
find_token_like token h = elim (one_of_three token "-name" "-iname" "-path" h) [
  | inl e ↦ rw e refl
  | inr (inl e) ↦ rw e refl
  | inr (inr e) ↦ rw e refl
]

find_token_prints :
    (token : Text) → is_one_of token ("-print" ∷ "-print0" ∷ []) ≡ true → find_token token ≡ print
unfolding find_token is
find_token_prints token h = elim (one_of_two token "-print" "-print0" h) [
  | inl e ↦ rw e refl
  | inr e ↦ rw e refl
]

find_tests_literals :
    (py : Python) (rest : List Text)
    → (find_tests py (codes "-maxdepth" ∷ rest) ≡ find_maxdepth py rest)
      × (find_tests py (codes "-mindepth" ∷ rest) ≡ find_mindepth py rest)
      × (find_tests py (codes "-type" ∷ rest) ≡ find_type py rest)
unfolding find_tests find_maxdepth find_mindepth find_type find_token is
find_tests_literals py rest = (refl, refl, refl)

-- Where the grammar accepts, the loop does.
pub Tests-find_tests : (py : Python) (xs : List Text) → Tests py xs → find_tests py xs ≡ some true
unfolding find_tests find_maxdepth find_mindepth find_type find_pattern
Tests-find_tests py _ done = refl
Tests-find_tests py _ (at_most {value} {rest} e q r t) =
    (find_tests_literals py (value ∷ rest)).0
    ∙ rw (find_maxdepth, e, q, le→leb _ 10 r) (Tests-find_tests py rest t)
Tests-find_tests py _ (at_least {value} {rest} e t) =
    (find_tests_literals py (value ∷ rest)).1 ∙ rw (find_mindepth, e) (Tests-find_tests py rest t)
Tests-find_tests py _ (of_type {value} {rest} e t) =
    (find_tests_literals py (value ∷ rest)).2 ∙ rw (find_type, e) (Tests-find_tests py rest t)
Tests-find_tests py _ (like {token} e t) =
    rw (find_tests, find_token_like token e) (Tests-find_tests py _ t)
Tests-find_tests py _ (prints {token} e t) =
    rw (find_tests, find_token_prints token e) (Tests-find_tests py _ t)
