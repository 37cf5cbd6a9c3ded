-- ===== src/Policy/Command/Automatic.antt =====
-- The commands that CommandPolicy of remote_ops/policy.py runs without approval are in the grammar.
use incidentlens.Common.{
  Bool, true, false, ◌&&◌, not, Option, none, some, some_inj, List, [], ◌∷◌, all, any, codes,
  filter, All, Text, is, is_iff, ◌≡◌, refl, ap, sym, subst, ◌⊎◌, inl, inr, arith, Bool-cases, ◌∙◌,
}
use mathlib.Core.List.{Mem, mem-cons_self, mem-cons_of_mem}
use incidentlens.Policy.Paths.{
  PurePosixPath, ServiceRegistration, same_path, parse_path, is_path_authorized,
}
use incidentlens.Policy.Same.{same_path-≡}
use incidentlens.Policy.Contained.{IsAuthorized, is_path_authorized_iff}
use incidentlens.Policy.Parse.{Python, parse_command, strip_prefixes, has_recursive_force_rm}
use incidentlens.Policy.Reads.{
  is_option, one_of_two, is_read_only_health_curl, is_registered_validation_script,
}
use incidentlens.Policy.Reads.Loopback.{is_loopback_http_url-IsLoopback}
use incidentlens.Policy.Reads.Curl.{is_read_only_health_curl-HealthCurl}
use incidentlens.Policy.Find.{is_read_only_find}
use incidentlens.Policy.Find.Roots.{is_read_only_find_iff}
use incidentlens.Policy.Command.{
  OperationRisk, ShellReason, ShellPolicyDecision, docker_reason, docker_change_reason,
  docker_choice, docker_decision, is_file_read, without_read, after_find, find_decision,
  after_docker, classify, evaluate_parsed, evaluate,
}
use incidentlens.Policy.Command.Grammar.{
  DockerRead, AutoRead, pwd, health, script, docker, files, finds,
}
use incidentlens.Policy.Command.Docker.{Gives, docker_reason-Gives}

without_read_never :
    (executable : Text) (arguments : List Text) (command : Text)
    → (without_read executable arguments command).risk ≡ OperationRisk.auto_read
    → ⊥
unfolding without_read
without_read_never executable arguments command h = ground (arith, h)

find_decision-AutoRead :
    (py : Python) (executable : Text) (arguments : List Text) (service : ServiceRegistration)
    (command : Text) {d : ShellPolicyDecision}
    → find_decision py executable arguments service command ≡ some d
    → d.risk ≡ OperationRisk.auto_read
    → AutoRead py service (executable ∷ arguments)
unfolding find_decision
find_decision-AutoRead py executable arguments service command {d} h r =
    elim (Bool-cases (is executable "find")) [
      | inr e ↦ absurd (
          without_read_never executable arguments command
            (ap (λ (x : ShellPolicyDecision). x.risk) (some_inj.0 (rw e at h)) ∙ r))
      | inl e ↦ at_find (is_read_only_find py arguments service) refl e (rw e at h)
    ]
  where
    at_find :
        (found : Option Bool)
        → is_read_only_find py arguments service ≡ found
        → is executable "find" ≡ true
        → after_find executable arguments command found ≡ some d
        → AutoRead py service (executable ∷ arguments)
    at_find none q e k = absurd (cc k)
    at_find (some true) q e k =
        subst (λ x. AutoRead py service (x ∷ arguments)) (sym ((is_iff executable "find").0 e))
          (finds ((is_read_only_find_iff py service arguments).0 q))
    at_find (some false) q e k = absurd (
        without_read_never executable arguments command
          (ap (λ (x : ShellPolicyDecision). x.risk) (some_inj.0 k) ∙ r))

all_plain :
    (service : ServiceRegistration) (xs : List Text)
    → all (λ a. is_path_authorized a service) (filter (λ a. not (is_option a)) xs) ≡ true
    → All (λ a. (is_option a ≡ true) ⊎ IsAuthorized service a) xs
all_plain service [] h = tt
all_plain service (x ∷ xs) h = elim (Bool-cases (is_option x)) [
  | inl e ↦ (inl e, all_plain service xs (rw e at h))
  | inr e ↦
      let both = rw e at h in
      (
        inr ((is_path_authorized_iff x service).0 (ground arith)),
        all_plain service xs (ground arith),
      )
]

is_file_read-AutoRead :
    (py : Python) (executable : Text) (arguments : List Text) (service : ServiceRegistration)
    → is_file_read executable arguments service ≡ true
    → AutoRead py service (executable ∷ arguments)
unfolding is_file_read
is_file_read-AutoRead py executable [] service h = absurd (cc h)
is_file_read-AutoRead py executable (word ∷ words) service h =
    files (ground arith) (all_plain service (word ∷ words) (ground arith))

choice-Gives :
    (service : ServiceRegistration) (subcommand : Text) (words : List Text) (command : Text)
    (reason change : Option ShellReason) {d : ShellPolicyDecision}
    → Gives service subcommand words reason
    → docker_choice reason change command ≡ some d
    → d.risk ≡ OperationRisk.auto_read
    → DockerRead service subcommand words
choice-Gives service subcommand words command (some reason) change g h r = g
choice-Gives service subcommand words command none (some change) g h r =
    absurd (cc (ap (λ (x : ShellPolicyDecision). x.risk) (some_inj.0 h) ∙ r))
choice-Gives service subcommand words command none none g h r = absurd (cc h)

docker_decision-AutoRead :
    (py : Python) (executable : Text) (arguments : List Text) (service : ServiceRegistration)
    (command : Text) {d : ShellPolicyDecision}
    → docker_decision executable arguments service command ≡ some d
    → d.risk ≡ OperationRisk.auto_read
    → AutoRead py service (executable ∷ arguments)
docker_decision-AutoRead py executable [] service command h r = absurd (cc h)
docker_decision-AutoRead py executable (subcommand ∷ words) service command h r =
    elim (Bool-cases (is executable "docker")) [
      | inr e ↦ absurd (cc (rw e at h))
      | inl e ↦
          subst (λ x. AutoRead py service (x ∷ subcommand ∷ words))
            (sym ((is_iff executable "docker").0 e))
            (docker (
              choice-Gives service subcommand words command (docker_reason subcommand words service)
                (docker_change_reason subcommand words)
                (docker_reason-Gives service subcommand words) (rw e at h) r))
    ]

after_docker-AutoRead :
    (py : Python) (executable : Text) (arguments : List Text) (service : ServiceRegistration)
    (command : Text) (found : Option ShellPolicyDecision) {d : ShellPolicyDecision}
    → docker_decision executable arguments service command ≡ found
    → after_docker py executable arguments service command found ≡ some d
    → d.risk ≡ OperationRisk.auto_read
    → AutoRead py service (executable ∷ arguments)
after_docker-AutoRead py executable arguments service command (some decision) q h r =
    docker_decision-AutoRead py executable arguments service command (q ∙ h) r
after_docker-AutoRead py executable arguments service command none q h r =
    elim (Bool-cases (is_file_read executable arguments service)) [
      | inl e ↦ is_file_read-AutoRead py executable arguments service e
      | inr e ↦ find_decision-AutoRead py executable arguments service command (rw e at h) r
    ]

any_same_path-Mem :
    (p : PurePosixPath) (paths : List PurePosixPath) → any (same_path p) paths ≡ true → Mem p paths
any_same_path-Mem p [] h = absurd (cc h)
any_same_path-Mem p (q ∷ paths) h = elim (Bool-cases (same_path p q)) [
  | inl e ↦ subst (λ r. Mem p (r ∷ paths)) (same_path-≡ p q e) mem-cons_self
  | inr e ↦ mem-cons_of_mem q (any_same_path-Mem p paths (ground arith))
]

registered-AutoRead :
    (py : Python) (executable : Text) (arguments : List Text) (service : ServiceRegistration)
    → is_registered_validation_script py executable arguments service ≡ true
    → AutoRead py service (executable ∷ arguments)
unfolding is_registered_validation_script
registered-AutoRead py executable (name ∷ url_flag ∷ url ∷ expected_flag ∷ expected ∷ []) service
      h =
    subst (λ x. AutoRead py service (executable ∷ name ∷ x ∷ url ∷ expected_flag ∷ expected ∷ []))
      (sym ((is_iff url_flag "--url").0 (ground arith)))
      (subst
        (λ x. AutoRead py service (executable ∷ name ∷ codes "--url" ∷ url ∷ x ∷ expected ∷ []))
        (sym ((is_iff expected_flag "--expected").0 (ground arith)))
        (script (one_of_two executable "python" "python3" (ground arith))
          (any_same_path-Mem (parse_path name) service.allowed_validation_scripts (ground arith))
          (is_loopback_http_url-IsLoopback py false url (ground arith))
          (one_of_two expected "pre-repair" "repaired" (ground arith))))
registered-AutoRead py executable [] service h = absurd (cc h)
registered-AutoRead py executable (a ∷ []) service h = absurd (cc h)
registered-AutoRead py executable (a ∷ b ∷ []) service h = absurd (cc h)
registered-AutoRead py executable (a ∷ b ∷ c ∷ []) service h = absurd (cc h)
registered-AutoRead py executable (a ∷ b ∷ c ∷ d ∷ []) service h = absurd (cc h)
registered-AutoRead py executable (a ∷ b ∷ c ∷ d ∷ e ∷ f ∷ rest) service h = absurd (cc h)

classify-AutoRead :
    (py : Python) (words : List Text) (service : ServiceRegistration) (command : Text)
    {d : ShellPolicyDecision}
    → classify py words service command ≡ some d
    → d.risk ≡ OperationRisk.auto_read
    → AutoRead py service words
unfolding classify
classify-AutoRead py [] service command h r =
    absurd (cc (ap (λ (x : ShellPolicyDecision). x.risk) (some_inj.0 h) ∙ r))
classify-AutoRead py (executable ∷ arguments) service command h r =
    elim (Bool-cases (is executable "pwd")) [
      | inl e ↦
          subst (λ x. AutoRead py service (x ∷ arguments)) (sym ((is_iff executable "pwd").0 e)) pwd
      | inr a ↦ elim (Bool-cases (is executable "curl" && is_read_only_health_curl py arguments)) [
        | inl e ↦
            subst (λ x. AutoRead py service (x ∷ arguments))
              (sym ((is_iff executable "curl").0 (ground arith)))
              (health (is_read_only_health_curl-HealthCurl py arguments (ground arith)))
        | inr b ↦
            elim (Bool-cases (is_registered_validation_script py executable arguments service)) [
              | inl e ↦ registered-AutoRead py executable arguments service e
              | inr e ↦
                  after_docker-AutoRead py executable arguments service command
                    (docker_decision executable arguments service command) refl (rw (a, b, e) at h)
                    r
            ]
      ]
    ]

parsed-AutoRead :
    (py : Python) (parsed : Option (List Text)) (service : ServiceRegistration) (command : Text)
    {d : ShellPolicyDecision}
    → evaluate_parsed py parsed service command ≡ some d
    → d.risk ≡ OperationRisk.auto_read
    → (tokens : List Text) × (parsed ≡ some tokens) × AutoRead py service (strip_prefixes tokens)
parsed-AutoRead py none service command h r =
    absurd (cc (ap (λ (x : ShellPolicyDecision). x.risk) (some_inj.0 h) ∙ r))
parsed-AutoRead py (some tokens) service command h r =
    elim (Bool-cases (has_recursive_force_rm tokens)) [
      | inl e ↦ absurd (cc (ap (λ (x : ShellPolicyDecision). x.risk) (some_inj.0 (rw e at h)) ∙ r))
      | inr e ↦
          (tokens, refl, classify-AutoRead py (strip_prefixes tokens) service command (rw e at h) r)
    ]

-- A command that is classified as an automatic read parses, and without its `sudo`, `command` and
-- `env` prefixes it is one of these: `pwd` with any arguments; `curl` with silent flags, output to
-- /dev/null, the status code written out, and one loopback URL with the path /health or /healthz;
-- `python` or `python3` with exactly a script that is one of the service's registered validation
-- scripts, `--url` with a loopback URL without a path and `--expected` with `pre-repair` or
-- `repaired`; `docker ps` with any words; `docker inspect`, `logs` or `port` of a registered
-- container; `docker compose` with compose files at authorized paths and then `ps`, `logs` or
-- `config` with any words; `ls`, `cat` or `stat` with one argument or more, each an option or an
-- authorized path; or a `find` of the read grammar. A loopback URL is one that `urlsplit` splits into
-- http or https, a host of this machine, and no user, password, query or fragment.
pub evaluate-AutoRead :
    (py : Python) (command : Text) (service : ServiceRegistration) {d : ShellPolicyDecision}
    → evaluate py command service ≡ some d
    → d.risk ≡ OperationRisk.auto_read
    → (tokens : List Text) × (parse_command py command ≡ some tokens)
      × AutoRead py service (strip_prefixes tokens)
unfolding evaluate
evaluate-AutoRead py command service h r =
    parsed-AutoRead py (parse_command py command) service command h r
