-- ===== src/Policy/Forbidden.antt =====
-- The commands that CommandPolicy of remote_ops/policy.py forbids for good.
use incidentlens.Common.{
  ℕ, String, Bool, true, false, ◌||◌, none, some, List, [], ◌∷◌, ◌++◌, any, All, Any, here, there,
  Any-any, occurs_in, ◌==◌, Text, is, is_codes, ◌∙◌, starts_with, codes, ◌≡◌, refl, ◌⊎◌, inl, inr,
  arith,
}
use incidentlens.Policy.Paths.{ServiceRegistration}
use incidentlens.Policy.Shlex.{split}
use incidentlens.Policy.Parse.{
  Python, is_control, parse_command, is_assignment, strip_from, says_recursive, says_force,
  has_recursive_force_rm,
}
use incidentlens.Policy.Command.{
  forbid, ShellReason, dangerous_features, recursive_force_rm, evaluate,
}

-- NUL, a newline, a backtick, or one of `& | ; < >`.
abbrev pub IsBreaking : ℕ → Type 0
IsBreaking c =
    (c ≡ 0)
    ⊎ (c ≡ b'\n')
    ⊎ (c ≡ b'`')
    ⊎ (c ≡ b'&')
    ⊎ (c ≡ b'|')
    ⊎ (c ≡ b';')
    ⊎ (c ≡ b'<')
    ⊎ (c ≡ b'>')

-- Words that run the command after `sudo`, `command` and `env` with its assignments.
pub data Prefixed (command : List Text) : List Text → Type 0 where
  bare : Prefixed command command
  sudo : {tokens : List Text} → Prefixed command tokens → Prefixed command (codes "sudo" ∷ tokens)
  command_word :
      {tokens : List Text} → Prefixed command tokens → Prefixed command (codes "command" ∷ tokens)
  env :
      (assignments : List Text) {tokens : List Text}
      → All (λ a. is_assignment a ≡ true) assignments
      → Prefixed command tokens
      → Prefixed command (codes "env" ∷ (assignments ++ tokens))

-- `-` and letters, one of them listed, or the long option, perhaps with more after it.
pub data IsFlag (letters : List ℕ) (long : String) : Text → Type 0 where
  short :
      (before after : Text) (c : ℕ)
      → Any (λ letter. c ≡ letter) letters
      → starts_with (codes "-") (before ++ c ∷ after) ≡ false
      → IsFlag letters long (b'-' ∷ (before ++ c ∷ after))
  spelled : (after : Text) → IsFlag letters long (codes long ++ after)

any_middle :
    (p : ℕ → Bool) (before after : Text) (c : ℕ) → p c ≡ true → any p (before ++ c ∷ after) ≡ true
any_middle p [] after c h = rw h refl
any_middle p (b ∷ before) after c h = ground (arith, any_middle p before after c h)

longer_than_dash : (before after : Text) (c : ℕ) → is (b'-' ∷ (before ++ c ∷ after)) "-" ≡ false
unfolding is
longer_than_dash [] after c = refl
longer_than_dash (b ∷ before) after c = refl

is_r : (c : ℕ) → Any (λ letter. c ≡ letter) (b'r' ∷ b'R' ∷ []) → (c == b'r' || c == b'R') ≡ true
is_r c (here e) = ground arith
is_r c (there (here e)) = ground arith
is_r c (there (there u)) = elim u [ ]

is_f : (c : ℕ) → Any (λ letter. c ≡ letter) (b'f' ∷ []) → (c == b'f') ≡ true
is_f c (here e) = ground arith
is_f c (there u) = elim u [ ]

IsFlag-says_recursive :
    (token : Text) → IsFlag (b'r' ∷ b'R' ∷ []) "--recursive" token → says_recursive token ≡ true
IsFlag-says_recursive _ (short before after c a h) =
    rw (h, longer_than_dash before after c)
      (any_middle (λ c. c == b'r' || c == b'R') before after c (is_r c a))
IsFlag-says_recursive _ (spelled after) = refl

IsFlag-says_force : (token : Text) → IsFlag (b'f' ∷ []) "--force" token → says_force token ≡ true
IsFlag-says_force _ (short before after c a h) =
    rw (h, longer_than_dash before after c) (any_middle (λ c. c == b'f') before after c (is_f c a))
IsFlag-says_force _ (spelled after) = refl

strip_assignments :
    (assignments tokens : List Text)
    → All (λ a. is_assignment a ≡ true) assignments
    → strip_from true (assignments ++ tokens) ≡ strip_from true tokens
unfolding strip_from
strip_assignments [] tokens h = refl
strip_assignments (a ∷ assignments) tokens h = rw h.0 (strip_assignments assignments tokens h.1)

-- The prefixes are stripped, whether or not assignments are skipped at their start.
strip_from-Prefixed :
    (arguments : List Text) (in_env : Bool) (tokens : List Text)
    → Prefixed (codes "rm" ∷ arguments) tokens
    → strip_from in_env tokens ≡ codes "rm" ∷ arguments
unfolding strip_from is
strip_from-Prefixed arguments true _ bare = refl
strip_from-Prefixed arguments false _ bare = refl
strip_from-Prefixed arguments true _ (sudo p) = strip_from-Prefixed arguments false _ p
strip_from-Prefixed arguments false _ (sudo p) = strip_from-Prefixed arguments false _ p
strip_from-Prefixed arguments true _ (command_word p) = strip_from-Prefixed arguments false _ p
strip_from-Prefixed arguments false _ (command_word p) = strip_from-Prefixed arguments false _ p
strip_from-Prefixed arguments true _ (env assignments {tokens} h p) =
    strip_assignments assignments tokens h ∙ strip_from-Prefixed arguments true _ p
strip_from-Prefixed arguments false _ (env assignments {tokens} h p) =
    strip_assignments assignments tokens h ∙ strip_from-Prefixed arguments true _ p

has_recursive_force_rm_lem :
    (arguments tokens : List Text)
    → Prefixed (codes "rm" ∷ arguments) tokens
    → Any (IsFlag (b'r' ∷ b'R' ∷ []) "--recursive") arguments
    → Any (IsFlag (b'f' ∷ []) "--force") arguments
    → has_recursive_force_rm tokens ≡ true
unfolding has_recursive_force_rm
has_recursive_force_rm_lem arguments tokens p r f =
    rw (strip_from-Prefixed arguments false tokens p) (
      ground (
        arith,
        is_codes "rm",
        Any-any (IsFlag (b'r' ∷ b'R' ∷ []) "--recursive") says_recursive arguments
            IsFlag-says_recursive r,
        Any-any (IsFlag (b'f' ∷ []) "--force") says_force arguments IsFlag-says_force f,
      ))

parse_or_forbid :
    (py : Python) (command : Text) {tokens : List Text}
    → split command ≡ some tokens
    → (parse_command py command ≡ none) ⊎ (parse_command py command ≡ some tokens)
unfolding parse_command
parse_or_forbid py command h = ground (arith, h)

-- A command line whose words are, after `sudo`, `command` and `env` with its assignments, an `rm`
-- with a recursive and a force flag, wherever the flags stand among the arguments, is forbidden,
-- and no approval overrides it.
pub evaluate-forbids_rm :
    (py : Python) (command : Text) (service : ServiceRegistration) (tokens arguments : List Text)
    → split command ≡ some tokens
    → Prefixed (codes "rm" ∷ arguments) tokens
    → Any (IsFlag (b'r' ∷ b'R' ∷ []) "--recursive") arguments
    → Any (IsFlag (b'f' ∷ []) "--force") arguments
    → (reason : ShellReason) × (evaluate py command service ≡ some (forbid reason command))
unfolding evaluate
evaluate-forbids_rm py command service tokens arguments h p r f =
    elim (parse_or_forbid py command h) [
      | inl e ↦ (dangerous_features, rw e refl)
      | inr e ↦ (recursive_force_rm, rw (e, has_recursive_force_rm_lem arguments tokens p r f) refl)
    ]

occurs_one : (d : ℕ) (text : Text) → any (λ c. c == d) text ≡ true → occurs_in (d ∷ []) text ≡ true
occurs_one d [] h = absurd (cc h)
occurs_one d (c ∷ text) h = ground (arith, occurs_one d text)

-- One of the tests of `_parse_command` on single characters.
breaks : ℕ → Bool
breaks c = c == 0 || c == b'\n' || c == b'`' || is_control c

breaks_lem : (c : ℕ) → IsBreaking c → breaks c ≡ true
unfolding breaks
breaks_lem c h = ground (arith, h)

any-breaks :
    (command : Text)
    → any breaks command ≡ true
    → (any (λ c. c == 0) command
        || any (λ c. c == b'\n') command
        || any (λ c. c == b'`') command
        || any is_control command)
      ≡ true
unfolding breaks
any-breaks [] h = absurd (cc h)
any-breaks (c ∷ command) h = ground (arith, any-breaks command)

breaks-parse_command :
    (py : Python) (command : Text) → any breaks command ≡ true → parse_command py command ≡ none
unfolding parse_command
breaks-parse_command py command h = ground (arith, any-breaks command h, occurs_one b'`' command)

-- A command with a NUL, a newline, a backtick or one of `& | ; < >` anywhere, inside quotes too,
-- is forbidden, and no approval overrides it.
pub evaluate-forbids_breaking :
    (py : Python) (command : Text) (service : ServiceRegistration)
    → Any IsBreaking command
    → evaluate py command service ≡ some (forbid dangerous_features command)
unfolding evaluate
evaluate-forbids_breaking py command service u =
    rw (breaks-parse_command py command (Any-any IsBreaking breaks command breaks_lem u)) refl
