-- ===== src/Policy/Reads.antt =====
-- The argument lists that remote_ops/policy.py takes for reads: docker, docker compose, curl and
-- the validation scripts.
pub mod Docker
pub mod Compose
pub mod Loopback
pub mod Curl
use incidentlens.Common.{
  String, Bool, true, false, ◌&&◌, ◌||◌, not, Option, none, some, is_some, List, [], ◌∷◌, ◌++◌,
  ◌==◌, any, if◌then◌else◌, Text, codes, is, starts_with, is_iff, ◌≡◌, ◌⊎◌, inl, inr, arith,
  Bool-cases,
}
use incidentlens.Policy.Paths.{ServiceRegistration, parse_path, same_path, is_path_authorized}
use incidentlens.Policy.Parse.{Python, SplitUrl}

-- `token in {literals}`.
abbrev pub is_one_of : Text → List String → Bool
is_one_of token literals = any (is token) literals

pub one_of_two :
    (token : Text) (a b : String)
    → is_one_of token (a ∷ b ∷ []) ≡ true
    → (token ≡ codes a) ⊎ (token ≡ codes b)
one_of_two token a b h = elim (Bool-cases (is token a)) [
  | inl e ↦ inl ((is_iff token a).0 e)
  | inr e ↦ inr ((is_iff token b).0 (ground arith))
]

pub one_of_three :
    (token : Text) (a b c : String)
    → is_one_of token (a ∷ b ∷ c ∷ []) ≡ true
    → (token ≡ codes a) ⊎ (token ≡ codes b) ⊎ (token ≡ codes c)
one_of_three token a b c h = elim (Bool-cases (is token a)) [
  | inl e ↦ inl ((is_iff token a).0 e)
  | inr e ↦ inr (one_of_two token b c (rw e at h))
]

-- `token.startswith("-")`.
abbrev pub is_option : Text → Bool
is_option token = starts_with (codes "-") token

-- Options with a value, and flags, of `_docker_read_target`.
pub record Options : Type 0 where
  pub with_values : List String
  pub flags : List String

-- `any(token.startswith(f"{option}=") for option in options_with_values)`.
abbrev pub has_value : Options → Text → Bool
has_value options token =
    any (λ option. starts_with (codes option ++ b'=' ∷ []) token) options.with_values

-- What a token is in the loop of `_docker_read_target`.
pub data DockerToken : Type 0 where
  takes_value stands_alone refused operand : DockerToken

unfoldable pub docker_token : Options → Text → DockerToken
docker_token options token =
    if is_one_of token options.with_values
    then takes_value
    else if has_value options token
    then stands_alone
    else if is_one_of token options.flags
    then stands_alone
    else if is_option token
    then refused
    else operand

-- The loop, with the target found so far.
unfoldable mutual
  pub docker_target_from : Options → Option Text → List Text → Option Text
  docker_target_from options target [] = target
  docker_target_from options target (token ∷ rest) = elim (docker_token options token) [
    | takes_value ↦ docker_target_after_value options target rest
    | stands_alone ↦ docker_target_from options target rest
    | refused ↦ none
    | operand ↦ elim target [
      | none ↦ docker_target_from options (some token) rest
      | some other ↦ none
    ]
  ]

  pub docker_target_after_value : Options → Option Text → List Text → Option Text
  docker_target_after_value options target [] = none
  docker_target_after_value options target (value ∷ rest) = docker_target_from options target rest

abbrev pub docker_read_target : Options → List Text → Option Text
docker_read_target options arguments = docker_target_from options none arguments

abbrev pub inspect_options : Options
inspect_options = record {
  with_values = "--format" ∷ "-f" ∷ "--type" ∷ [];
  flags = "--size" ∷ "-s" ∷ [];
}

abbrev pub logs_options : Options
logs_options = record {
  with_values = "--since" ∷ "--tail" ∷ "--until" ∷ [];
  flags = "--details" ∷ "--timestamps" ∷ [];
}

-- `_docker_logs_target`.
abbrev pub docker_logs_target : List Text → Option Text
docker_logs_target arguments = docker_read_target logs_options arguments

-- `token.split("=", 1)[1]`, where the token has a `=`.
abbrev pub after_equals : Text → Text
after_equals [] = []
after_equals (c ∷ token) = let rest = after_equals token in if c == b'=' then token else rest

abbrev pub is_file_option : Text → Bool
is_file_option token = is_one_of token ("-f" ∷ "--file" ∷ "--project-directory" ∷ [])

abbrev pub is_file_assignment : Text → Bool
is_file_assignment token =
    starts_with (codes "--file=") token || starts_with (codes "--project-directory=") token

-- `_docker_compose_read_subcommand`.
unfoldable mutual
  pub compose_read_subcommand : List Text → ServiceRegistration → Option Text
  compose_read_subcommand [] service = none
  compose_read_subcommand (token ∷ rest) service = elim (is_file_option token) [
    | true ↦ compose_after_file rest service
    | false ↦ elim (is_file_assignment token) [
      | true ↦ elim (is_path_authorized (after_equals token) service) [
        | true ↦ compose_read_subcommand rest service
        | false ↦ none
      ]
      | false ↦
          if is_option token
          then none
          else if is_one_of token ("ps" ∷ "logs" ∷ "config" ∷ [])
          then some token
          else none
    ]
  ]

  pub compose_after_file : List Text → ServiceRegistration → Option Text
  compose_after_file [] service = none
  compose_after_file (path ∷ rest) service = elim (is_path_authorized path service) [
    | true ↦ compose_read_subcommand rest service
    | false ↦ none
  ]

-- `bool(value)`.
abbrev pub is_given : Option Text → Bool
is_given none = false
is_given (some []) = false
is_given (some (c ∷ text)) = true

abbrev pub is_loopback_host : Option Text → Bool
is_loopback_host none = false
is_loopback_host (some host) = is_one_of host ("localhost" ∷ "127.0.0.1" ∷ "::1" ∷ [])

abbrev pub is_empty_text : Text → Bool
is_empty_text [] = true
is_empty_text (c ∷ text) = false

abbrev pub is_loopback_split : Bool → SplitUrl → Bool
is_loopback_split health_only url =
    is_one_of url.scheme ("http" ∷ "https" ∷ [])
    && not (is_given url.username || is_given url.password || not (is_loopback_host url.hostname))
    && is_empty_text url.query
    && is_empty_text url.fragment
    && (if health_only
        then is_one_of url.path ("/health" ∷ "/healthz" ∷ [])
        else is_one_of url.path ("" ∷ "/" ∷ []))

-- `_is_loopback_http_url`.
unfoldable pub is_loopback_http_url : Python → Bool → Text → Bool
is_loopback_http_url py health_only value = elim (py.urlsplit value) [
  | none ↦ false
  | some url ↦ is_loopback_split health_only url
]

-- What a token is in the loop of `_is_read_only_health_curl`.
pub data CurlToken : Type 0 where
  silent output write_out other : CurlToken

unfoldable pub curl_token : Text → CurlToken
curl_token token =
    if is_one_of token ("-s" ∷ "-S" ∷ "--silent" ∷ "--show-error" ∷ [])
    then silent
    else if is_one_of token ("-o" ∷ "--output" ∷ [])
    then output
    else if is_one_of token ("-w" ∷ "--write-out" ∷ [])
    then write_out
    else other

-- The loop, with the URL found so far.
unfoldable mutual
  pub curl_from : Python → Option Text → List Text → Bool
  curl_from py none [] = false
  curl_from py (some url) [] = is_loopback_http_url py true url
  curl_from py url (token ∷ rest) = elim (curl_token token) [
    | silent ↦ curl_from py url rest
    | output ↦ curl_after py url "/dev/null" rest
    | write_out ↦ curl_after py url "%{http_code}" rest
    | other ↦ elim (is_option token || is_some url) [
      | true ↦ false
      | false ↦ curl_from py (some token) rest
    ]
  ]

  pub curl_after : Python → Option Text → String → List Text → Bool
  curl_after py url wanted [] = false
  curl_after py url wanted (value ∷ rest) = elim (is value wanted) [
    | true ↦ curl_from py url rest
    | false ↦ false
  ]

-- `_is_read_only_health_curl`.
abbrev pub is_read_only_health_curl : Python → List Text → Bool
is_read_only_health_curl py arguments = curl_from py none arguments

-- `_is_registered_validation_script`.
unfoldable pub is_registered_validation_script :
    Python → Text → List Text → ServiceRegistration → Bool
is_registered_validation_script py executable
      (script ∷ url_flag ∷ url ∷ expected_flag ∷ expected ∷ []) service =
    is_one_of executable ("python" ∷ "python3" ∷ [])
    && any (same_path (parse_path script)) service.allowed_validation_scripts
    && is url_flag "--url"
    && is_loopback_http_url py false url
    && is expected_flag "--expected"
    && is_one_of expected ("pre-repair" ∷ "repaired" ∷ [])
is_registered_validation_script py executable _ service = false
