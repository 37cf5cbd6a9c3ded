-- ===== src/Policy/Parse.antt =====
-- `_parse_command`, `_strip_prefixes` and `_has_recursive_force_rm` of remote_ops/policy.py.
use incidentlens.Common.{
  ℕ, Bool, true, false, ◌&&◌, ◌||◌, not, Option, none, some, List, [], ◌∷◌, ◌==◌, leb, any,
  if◌then◌else◌, Text, codes, is, starts_with, occurs_in, strip_prefix,
}
use incidentlens.Policy.Shlex.{split}

pub data Digit : Type 0 where
  no_digit : Digit
  -- `isdigit()` holds and `int` refuses it.
  digit_only : Digit
  decimal : ℕ → Digit

pub record SplitUrl : Type 0 where
  pub scheme : Text
  pub username : Option Text
  pub password : Option Text
  pub hostname : Option Text
  pub path : Text
  pub query : Text
  pub fragment : Text

-- What the policy reads of Python's data: the classes of the characters above ASCII, and
-- `urlsplit`, where `none` is `ValueError` of the call or of its `.port`.
pub record Python : Type 0 where
  pub is_word_above : ℕ → Bool
  pub digit_above : ℕ → Digit
  pub urlsplit : Text → Option SplitUrl

-- `\w`.
abbrev pub is_word : Python → ℕ → Bool
is_word py c =
    (leb b'a' c && leb c b'z')
    || (leb b'A' c && leb c b'Z')
    || (leb b'0' c && leb c b'9')
    || c == b'_'
    || (leb 128 c && py.is_word_above c)

abbrev starts_word : Python → Text → Bool
starts_word py [] = false
starts_word py (c ∷ text) = is_word py c

abbrev ends_word : Python → (Text → Bool) → Option Text → Bool
ends_word py next none = false
ends_word py next (some rest) = not (starts_word py rest) && next rest

-- `\bname\b`, followed by what `next` accepts; `inside` tells that a word character stands before.
unfoldable pub has_word : Python → Text → (Text → Bool) → Bool → Text → Bool
has_word py name next inside [] = false
has_word py name next inside (c ∷ text) =
    (not inside && ends_word py next (strip_prefix name (c ∷ text)))
    || has_word py name next (is_word py c) text

-- `_SHELL_CONTROL_RE`.
abbrev pub is_control : ℕ → Bool
is_control c = c == b'&' || c == b'|' || c == b';' || c == b'<' || c == b'>'

abbrev pub has_shell_control_metacharacters : Text → Bool
has_shell_control_metacharacters command = any is_control command

-- `_CMD_SUBSTITUTION_RE`.
abbrev pub has_substitution : Text → Bool
has_substitution command = occurs_in (codes "$(") command || occurs_in (codes "`") command

-- `_EVAL_RE`.
abbrev pub has_eval : Python → Text → Bool
has_eval py = has_word py (codes "eval") (λ _. true) false

-- `_XARGS_RM_RE`, on a text with no newline.
abbrev pub has_xargs_rm : Python → Text → Bool
has_xargs_rm py = has_word py (codes "xargs") (has_word py (codes "rm") (λ _. true) true) false

-- `_FIND_DELETE_RE`, on a text with no newline.
abbrev pub has_find_delete : Python → Text → Bool
has_find_delete py = has_word py (codes "find") (occurs_in (codes "-delete")) false

-- `_parse_command`; a `ValueError` of `shlex.split` is `None` too.
unfoldable pub parse_command : Python → Text → Option (List Text)
parse_command py command =
    if any (λ c. c == 0) command
    then none
    else if any (λ c. c == b'\n') command
    then none
    else if has_shell_control_metacharacters command
    then none
    else if has_substitution command
    then none
    else if has_eval py command
    then none
    else if has_xargs_rm py command
    then none
    else if has_find_delete py command
    then none
    else split command

-- `"=" in token`.
abbrev pub is_assignment : Text → Bool
is_assignment token = any (λ c. c == b'=') token

-- `env` and the `NAME=value` pairs after it; `in_env` while these are skipped.
abbrev is_env : Bool → Text → Bool
is_env in_env token = (in_env && is_assignment token) || is token "env"

-- `_strip_prefixes`.
unfoldable pub strip_from : Bool → List Text → List Text
strip_from in_env [] = []
strip_from in_env (token ∷ tokens) =
    let rest = strip_from (is_env in_env token) tokens in
    if is_env in_env token || is token "sudo" || is token "command" then rest else token ∷ tokens

abbrev pub strip_prefixes : List Text → List Text
strip_prefixes tokens = strip_from false tokens

-- What a token of the `rm` says of `has_recursive`.
abbrev pub says_recursive : Text → Bool
says_recursive token =
    if starts_with (codes "--") token
    then starts_with (codes "--recursive") token
    else starts_with (codes "-") token
      && not (is token "-")
      && any (λ c. c == b'r' || c == b'R') token

-- What it says of `has_force`.
abbrev pub says_force : Text → Bool
says_force token =
    if starts_with (codes "--") token
    then not (starts_with (codes "--recursive") token) && starts_with (codes "--force") token
    else starts_with (codes "-") token && not (is token "-") && any (λ c. c == b'f') token

abbrev rm_flags : List Text → Bool
rm_flags [] = false
rm_flags (command ∷ arguments) =
    is command "rm" && any says_recursive arguments && any says_force arguments

-- `_has_recursive_force_rm`.
unfoldable pub has_recursive_force_rm : List Text → Bool
unfolding strip_from
has_recursive_force_rm tokens = rm_flags (strip_prefixes tokens)
