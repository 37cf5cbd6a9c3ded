-- ===== src/Policy/Command/Raises.antt =====
-- The `ValueError` that CommandPolicy of remote_ops/policy.py lets through.
use incidentlens.Common.{
  Bool, true, false, ◌&&◌, Option, none, some, List, [], ◌∷◌, ◌++◌, Any, here, there, Text, is,
  is_iff, codes, ◌≡◌, refl, ap, inl, inr, Bool-cases, Option-cases, all, not, ◌||◌, leb,
}
use incidentlens.Policy.Paths.{ServiceRegistration, is_path_authorized}
use incidentlens.Policy.Parse.{Python, parse_command, strip_prefixes, has_recursive_force_rm}
use incidentlens.Policy.Reads.{is_one_of, is_read_only_health_curl, is_registered_validation_script}
use incidentlens.Policy.Find.{
  isdigit, int_of, FindToken, maxdepth, mindepth, type, pattern, print, other, find_token,
  find_tests, find_maxdepth, find_mindepth, find_type, find_pattern, find_roots, is_read_only_find,
  has_elements,
}
use incidentlens.Policy.Find.Roots.{find_roots-splits}
use incidentlens.Policy.Command.{
  ShellPolicyDecision, docker_decision, is_file_read, after_find, find_decision, after_docker,
  classify, evaluate_parsed, evaluate,
}

-- Digits that `int` refuses.
abbrev pub IsRefused : Python → Text → Type 0
IsRefused py value = (isdigit py value ≡ true) × (int_of py value ≡ none)

abbrev Raises : Python → List Text → Type 0
Raises py xs =
    (find_tests py xs ≡ none → Any (IsRefused py) xs)
    × (find_maxdepth py xs ≡ none → Any (IsRefused py) xs)
    × (find_mindepth py xs ≡ none → Any (IsRefused py) xs)
    × (find_type py xs ≡ none → Any (IsRefused py) xs)
    × (find_pattern py xs ≡ none → Any (IsRefused py) xs)

tests_at :
    (py : Python) (token : Text) (rest : List Text) (k : FindToken)
    → find_token token ≡ k
    → Raises py rest
    → find_tests py (token ∷ rest) ≡ none
    → Any (IsRefused py) (token ∷ rest)
unfolding find_tests find_maxdepth find_mindepth find_type find_pattern
tests_at py token rest maxdepth e r h = there (r.1 (rw (find_tests, e) at h))
tests_at py token rest mindepth e r h = there (r.2 (rw (find_tests, e) at h))
tests_at py token rest type e r h = there (r.3 (rw (find_tests, e) at h))
tests_at py token rest pattern e r h = there (r.4 (rw (find_tests, e) at h))
tests_at py token rest print e r h = there (r.0 (rw (find_tests, e) at h))
tests_at py token rest other e r h = absurd (cc (rw (find_tests, e) at h))

maxdepth_at :
    (py : Python) (value : Text) (rest : List Text)
    → Raises py rest
    → find_maxdepth py (value ∷ rest) ≡ none
    → Any (IsRefused py) (value ∷ rest)
unfolding find_tests find_maxdepth find_mindepth find_type find_pattern
maxdepth_at py value rest r h = elim (Bool-cases (isdigit py value)) [
  | inr e ↦ absurd (cc (rw (find_maxdepth, e) at h))
  | inl e ↦ elim (Option-cases (int_of py value)) [
    | inl q ↦ here (e, q)
    | inr (depth, q) ↦ elim (Bool-cases (leb depth 10)) [
      | inl s ↦ there (r.0 (rw (find_maxdepth, e, q, s) at h))
      | inr s ↦ absurd (cc (rw (find_maxdepth, e, q, s) at h))
    ]
  ]
]

all-Raises : (py : Python) (xs : List Text) → Raises py xs
unfolding find_tests find_maxdepth find_mindepth find_type find_pattern
all-Raises py [] = (
  λ h. absurd (cc h),
  λ h. absurd (cc h),
  λ h. absurd (cc h),
  λ h. absurd (cc h),
  λ h. absurd (cc h),
)
all-Raises py (x ∷ xs) =
    let r = all-Raises py xs in
    (
      tests_at py x xs (find_token x) refl r,
      maxdepth_at py x xs r,
      λ h. elim (Bool-cases (isdigit py x)) [
        | inl e ↦ there (r.0 (rw (find_mindepth, e) at h))
        | inr e ↦ absurd (cc (rw (find_mindepth, e) at h))
      ],
      λ h. elim (Bool-cases (is_one_of x ("f" ∷ "d" ∷ "l" ∷ []))) [
        | inl e ↦ there (r.0 (rw (find_type, e) at h))
        | inr e ↦ absurd (cc (rw (find_type, e) at h))
      ],
      λ h. there (r.0 h),
    )

Any-after : (P : Text → Type 0) (xs ys : List Text) → Any P ys → Any P (xs ++ ys)
Any-after P [] ys u = u
Any-after P (x ∷ xs) ys u = there (Any-after P xs ys u)

find_raises :
    (py : Python) (arguments : List Text) (service : ServiceRegistration)
    → is_read_only_find py arguments service ≡ none
    → Any (IsRefused py) arguments
unfolding is_read_only_find
find_raises py arguments service h =
    elim (Bool-cases (
      not (has_elements (find_roots arguments).0)
      || not (all (λ root. is_path_authorized root service) (find_roots arguments).0))) [
        | inl e ↦ absurd (cc (rw e at h))
        | inr e ↦
            let refused = (all-Raises py (find_roots arguments).1).0 (rw e at h) in
            rw (find_roots-splits arguments)
              (Any-after (IsRefused py) (find_roots arguments).0 (find_roots arguments).1 refused)
      ]

-- The words are a `find` with such a value among its arguments.
pub record IsRefusedFind (py : Python) (words : List Text) : Type 0 where
  pub arguments : List Text
  pub words_are : words ≡ codes "find" ∷ arguments
  pub refused : Any (IsRefused py) arguments

find_decision-raises :
    (py : Python) (executable : Text) (arguments : List Text) (service : ServiceRegistration)
    (command : Text)
    → find_decision py executable arguments service command ≡ none
    → IsRefusedFind py (executable ∷ arguments)
unfolding find_decision
find_decision-raises py executable arguments service command h =
    elim (Bool-cases (is executable "find")) [
      | inr e ↦ absurd (cc (rw e at h))
      | inl e ↦ record {
        arguments = arguments;
        words_are = ap (λ x. x ∷ arguments) ((is_iff executable "find").0 e);
        refused =
            find_raises py arguments service
              (at_find (is_read_only_find py arguments service) (rw e at h));
      }
    ]
  where
    at_find :
        (found : Option Bool) → after_find executable arguments command found ≡ none → found ≡ none
    at_find none k = refl
    at_find (some true) k = absurd (cc k)
    at_find (some false) k = absurd (cc k)

after_docker-raises :
    (py : Python) (executable : Text) (arguments : List Text) (service : ServiceRegistration)
    (command : Text) (found : Option ShellPolicyDecision)
    → after_docker py executable arguments service command found ≡ none
    → IsRefusedFind py (executable ∷ arguments)
after_docker-raises py executable arguments service command (some d) h = absurd (cc h)
after_docker-raises py executable arguments service command none h =
    elim (Bool-cases (is_file_read executable arguments service)) [
      | inl e ↦ absurd (cc (rw e at h))
      | inr e ↦ find_decision-raises py executable arguments service command (rw e at h)
    ]

classify-raises :
    (py : Python) (words : List Text) (service : ServiceRegistration) (command : Text)
    → classify py words service command ≡ none
    → IsRefusedFind py words
unfolding classify
classify-raises py [] service command h = absurd (cc h)
classify-raises py (executable ∷ arguments) service command h =
    elim (Bool-cases (is executable "pwd")) [
      | inl e ↦ absurd (cc (rw e at h))
      | inr a ↦ elim (Bool-cases (is executable "curl" && is_read_only_health_curl py arguments)) [
        | inl e ↦ absurd (cc (rw (a, e) at h))
        | inr b ↦
            elim (Bool-cases (is_registered_validation_script py executable arguments service)) [
              | inl e ↦ absurd (cc (rw (a, b, e) at h))
              | inr e ↦
                  after_docker-raises py executable arguments service command
                    (docker_decision executable arguments service command) (rw (a, b, e) at h)
            ]
      ]
    ]

parsed-raises :
    (py : Python) (parsed : Option (List Text)) (service : ServiceRegistration) (command : Text)
    → evaluate_parsed py parsed service command ≡ none
    → (tokens : List Text) × (parsed ≡ some tokens) × IsRefusedFind py (strip_prefixes tokens)
parsed-raises py none service command h = absurd (cc h)
parsed-raises py (some tokens) service command h =
    elim (Bool-cases (has_recursive_force_rm tokens)) [
      | inl e ↦ absurd (cc (rw e at h))
      | inr e ↦
          (tokens, refl, classify-raises py (strip_prefixes tokens) service command (rw e at h))
    ]

-- Where no decision is made and a `ValueError` leaves the call, the command parses and is, without
-- its prefixes, a `find` with an argument whose characters are all digits and which `int` refuses.
pub evaluate-raises :
    (py : Python) (command : Text) (service : ServiceRegistration)
    → evaluate py command service ≡ none
    → (tokens : List Text) × (parse_command py command ≡ some tokens)
      × IsRefusedFind py (strip_prefixes tokens)
unfolding evaluate
evaluate-raises py command service h = parsed-raises py (parse_command py command) service command h
