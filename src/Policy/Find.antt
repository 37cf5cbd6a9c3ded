-- ===== src/Policy/Find.antt =====
-- `_is_read_only_find` of remote_ops/policy.py. `none` is the `ValueError` that `int` raises.
pub mod Grammar
pub mod Roots
use incidentlens.Common.{
  ℕ, zero, suc, ◌+◌, ◌-◌, ◌*◌, Bool, true, false, ◌&&◌, ◌||◌, not, Option, none, some, List, [],
  ◌∷◌, ◌==◌, leb, all, length, if◌then◌else◌, Text, is,
}
use incidentlens.Policy.Paths.{ServiceRegistration, is_path_authorized}
use incidentlens.Policy.Parse.{Python, Digit, no_digit, digit_only, decimal}
use incidentlens.Policy.Reads.{is_one_of, is_option}

abbrev pub digit : Python → ℕ → Digit
digit py c =
    if leb b'0' c && leb c b'9'
    then decimal (c - b'0')
    else if leb 128 c
    then py.digit_above c
    else no_digit

abbrev is_digit : Digit → Bool
is_digit no_digit = false
is_digit _ = true

-- `text.isdigit()`.
unfoldable pub isdigit : Python → Text → Bool
isdigit py [] = false
isdigit py (c ∷ text) = all (λ d. is_digit (digit py d)) (c ∷ text)

abbrev add_digit : ℕ → Digit → Option ℕ
add_digit n (decimal d) = some (10 * n + d)
add_digit n _ = none

abbrev int_from : Python → Option ℕ → Text → Option ℕ
int_from py n [] = n
int_from py none (c ∷ text) = none
int_from py (some n) (c ∷ text) = int_from py (add_digit n (digit py c)) text

-- `int(text)` of a text of digits: more than 4300 are refused.
unfoldable pub int_of : Python → Text → Option ℕ
int_of py text = let n = int_from py (some 0) text in if leb (length text) 4300 then n else none

-- What a token is in the second loop.
pub data FindToken : Type 0 where
  maxdepth mindepth type pattern print other : FindToken

unfoldable pub find_token : Text → FindToken
find_token token =
    if is token "-maxdepth"
    then maxdepth
    else if is token "-mindepth"
    then mindepth
    else if is token "-type"
    then type
    else if is_one_of token ("-name" ∷ "-iname" ∷ "-path" ∷ [])
    then pattern
    else if is_one_of token ("-print" ∷ "-print0" ∷ [])
    then print
    else other

-- The second loop, at the tests, and after a test that takes a value.
unfoldable mutual
  pub find_tests : Python → List Text → Option Bool
  find_tests py [] = some true
  find_tests py (token ∷ rest) = elim (find_token token) [
    | maxdepth ↦ find_maxdepth py rest
    | mindepth ↦ find_mindepth py rest
    | type ↦ find_type py rest
    | pattern ↦ find_pattern py rest
    | print ↦ find_tests py rest
    | other ↦ some false
  ]

  pub find_maxdepth : Python → List Text → Option Bool
  find_maxdepth py [] = some false
  find_maxdepth py (value ∷ rest) = elim (isdigit py value) [
    | false ↦ some false
    | true ↦ elim (int_of py value) [
      | none ↦ none
      | some depth ↦ elim (leb depth 10) [ true ↦ find_tests py rest | false ↦ some false ]
    ]
  ]

  pub find_mindepth : Python → List Text → Option Bool
  find_mindepth py [] = some false
  find_mindepth py (value ∷ rest) = elim (isdigit py value) [
    | true ↦ find_tests py rest
    | false ↦ some false
  ]

  pub find_type : Python → List Text → Option Bool
  find_type py [] = some false
  find_type py (value ∷ rest) = elim (is_one_of value ("f" ∷ "d" ∷ "l" ∷ [])) [
    | true ↦ find_tests py rest
    | false ↦ some false
  ]

  pub find_pattern : Python → List Text → Option Bool
  find_pattern py [] = some false
  find_pattern py (value ∷ rest) = find_tests py rest

-- The first loop: the roots, and what follows them.
unfoldable pub find_roots : List Text → List Text × List Text
find_roots [] = ([], [])
find_roots (token ∷ rest) =
    let (roots, tests) = find_roots rest in
    if is_option token then ([], token ∷ rest) else (token ∷ roots, tests)

abbrev pub has_elements : List Text → Bool
has_elements [] = false
has_elements (x ∷ xs) = true

unfoldable pub is_read_only_find : Python → List Text → ServiceRegistration → Option Bool
is_read_only_find py arguments service =
    let (roots, tests) = find_roots arguments in
    if not (has_elements roots) || not (all (λ root. is_path_authorized root service) roots)
    then some false
    else find_tests py tests
