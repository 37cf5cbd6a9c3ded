-- ===== src/Policy/Find/Roots.antt =====
-- The roots of a `find` command, and what `_is_read_only_find` of remote_ops/policy.py accepts.
use incidentlens.Common.{
  true, false, some, List, [], ◌∷◌, ◌++◌, all, All, Text, ◌≡◌, refl, ap, ◌↔◌, inl, inr, arith,
  Bool-cases,
}
use incidentlens.Policy.Paths.{ServiceRegistration, is_path_authorized}
use incidentlens.Policy.Contained.{IsAuthorized, is_path_authorized_iff}
use incidentlens.Policy.Parse.{Python}
use incidentlens.Policy.Reads.{is_option, one_of_two, one_of_three}
use incidentlens.Policy.Find.{find_roots, is_read_only_find}
use incidentlens.Policy.Find.Grammar.{
  Tests, done, at_most, at_least, of_type, like, prints, all-Sound, Tests-find_tests,
}

-- Arguments of a read: some authorized paths that are no options, then tests; the first test, if
-- any, is where the options begin.
pub record IsFindRead (py : Python) (service : ServiceRegistration) (arguments : List Text)
    : Type 0 where
  pub root : Text
  pub roots : List Text
  pub tests : List Text
  pub splits : arguments ≡ (root ∷ roots) ++ tests
  pub plain : All (λ r. is_option r ≡ false) (root ∷ roots)
  pub authorized : All (IsAuthorized service) (root ∷ roots)
  pub rest : Tests py tests

pub find_roots-splits : (xs : List Text) → xs ≡ (find_roots xs).0 ++ (find_roots xs).1
unfolding find_roots
find_roots-splits [] = refl
find_roots-splits (x ∷ xs) = elim (Bool-cases (is_option x)) [
  | inl e ↦ rw (find_roots, e) refl
  | inr e ↦ rw (find_roots, e) (ap (◌∷◌ x) (find_roots-splits xs))
]

find_roots-plain : (xs : List Text) → All (λ r. is_option r ≡ false) (find_roots xs).0
unfolding find_roots
find_roots-plain [] = tt
find_roots-plain (x ∷ xs) = elim (Bool-cases (is_option x)) [
  | inl e ↦ rw (find_roots, e) tt
  | inr e ↦ rw (find_roots, e) (e, find_roots-plain xs)
]

option_first :
    (token : Text) (rest : List Text)
    → is_option token ≡ true
    → find_roots (token ∷ rest) ≡ ([], token ∷ rest)
unfolding find_roots
option_first token rest h = rw (find_roots, h) refl

Tests-option_first : (py : Python) (xs : List Text) → Tests py xs → find_roots xs ≡ ([], xs)
unfolding find_roots
Tests-option_first py _ done = refl
Tests-option_first py _ (at_most e q r t) = option_first _ _ refl
Tests-option_first py _ (at_least e t) = option_first _ _ refl
Tests-option_first py _ (of_type e t) = option_first _ _ refl
Tests-option_first py _ (like {token} e t) = elim (one_of_three token "-name" "-iname" "-path" e) [
  | inl q ↦ option_first _ _ (rw q refl)
  | inr (inl q) ↦ option_first _ _ (rw q refl)
  | inr (inr q) ↦ option_first _ _ (rw q refl)
]
Tests-option_first py _ (prints {token} e t) = elim (one_of_two token "-print" "-print0" e) [
  | inl q ↦ option_first _ _ (rw q refl)
  | inr q ↦ option_first _ _ (rw q refl)
]

find_roots-append :
    (roots tests : List Text)
    → All (λ r. is_option r ≡ false) roots
    → find_roots tests ≡ ([], tests)
    → find_roots (roots ++ tests) ≡ (roots, tests)
unfolding find_roots
find_roots-append [] tests h e = e
find_roots-append (r ∷ roots) tests h e =
    rw (find_roots, h.0) (rw (find_roots-append roots tests h.1 e) refl)

all-IsAuthorized_iff :
    (service : ServiceRegistration) (xs : List Text)
    → (all (λ r. is_path_authorized r service) xs ≡ true) ↔ All (IsAuthorized service) xs
all-IsAuthorized_iff service [] = (λ h. tt, λ h. refl)
all-IsAuthorized_iff service (x ∷ xs) = (
  λ h. (
    (is_path_authorized_iff x service).0 (ground arith),
    (all-IsAuthorized_iff service xs).0 (ground arith),
  ),
  λ h. rw ((is_path_authorized_iff x service).1 h.0) ((all-IsAuthorized_iff service xs).1 h.1),
)

accepts :
    (py : Python) (service : ServiceRegistration) (arguments roots tests : List Text)
    → find_roots arguments ≡ (roots, tests)
    → is_read_only_find py arguments service ≡ some true
    → IsFindRead py service arguments
unfolding is_read_only_find
accepts py service arguments [] tests e h = absurd (cc (rw e at h))
accepts py service arguments (root ∷ roots) tests e h =
    elim (Bool-cases (all (λ r. is_path_authorized r service) (root ∷ roots))) [
      | inr q ↦ absurd (cc (rw (e, q) at h))
      | inl q ↦ record {
        root = root;
        roots = roots;
        tests = tests;
        splits = rw e at (find_roots-splits arguments);
        plain = rw e at (find_roots-plain arguments);
        authorized = (all-IsAuthorized_iff service (root ∷ roots)).0 q;
        rest = (all-Sound py tests).0 (rw (e, q) at h);
      }
    ]

-- `_is_read_only_find` accepts exactly the arguments that are one or more authorized paths
-- followed by tests of the grammar: depths, types, name patterns and printing.
pub is_read_only_find_iff :
    (py : Python) (service : ServiceRegistration) (arguments : List Text)
    → (is_read_only_find py arguments service ≡ some true) ↔ IsFindRead py service arguments
unfolding is_read_only_find
is_read_only_find_iff py service arguments = (
  λ h. accepts py service arguments (find_roots arguments).0 (find_roots arguments).1 refl h,
  λ (r : IsFindRead py service arguments).
      let e : find_roots arguments ≡ (r.root ∷ r.roots, r.tests) = rw r.splits (
        find_roots-append (r.root ∷ r.roots) r.tests r.plain
          (Tests-option_first py r.tests r.rest)) in
      rw (e, (all-IsAuthorized_iff service (r.root ∷ r.roots)).1 r.authorized)
        (Tests-find_tests py r.tests r.rest),
)
