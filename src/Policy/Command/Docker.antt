-- ===== src/Policy/Command/Docker.antt =====
-- The docker commands that CommandPolicy of remote_ops/policy.py runs without approval.
use incidentlens.Common.{
  String, true, Option, none, some, some_inj, List, [], ◌∷◌, if◌then◌else◌, Text, is, is_in, is_iff,
  codes, ◌≡◌, refl, ap, sym, subst, inl, inr, Bool-cases,
}
use incidentlens.Policy.Paths.{ServiceRegistration}
use incidentlens.Policy.Reads.{
  inspect_options, logs_options, docker_read_target, docker_logs_target, compose_read_subcommand,
}
use incidentlens.Policy.Reads.Docker.{docker_read_target-HasOperand}
use incidentlens.Policy.Reads.Compose.{compose_read_subcommand-ComposeRead}
use incidentlens.Policy.Command.{
  ShellReason, docker_inspect, docker_logs, docker_port, compose_read, registered, read_of,
  inspect_read, logs_read, port_read, compose_command_read, docker_reason,
}
use incidentlens.Policy.Command.Grammar.{DockerRead, ps, inspect, logs, port, compose}

-- The rows of the docker block: a reason is found only where the words are such a read.
abbrev pub Gives : ServiceRegistration → Text → List Text → Option ShellReason → Type 0
Gives service subcommand words none = Unit {0}
Gives service subcommand words (some reason) = DockerRead service subcommand words

read_of-Gives :
    (service : ServiceRegistration) (subcommand : Text) (words : List Text)
    (reason : Text → ShellReason) (found : Option Text) (next : Option ShellReason)
    → ((name : Text) → found ≡ some name → DockerRead service subcommand words)
    → Gives service subcommand words next
    → Gives service subcommand words (read_of reason found next)
read_of-Gives service subcommand words reason none next f g = g
read_of-Gives service subcommand words reason (some name) next f g = f name refl

registered-some :
    (found : Option Text) (service : ServiceRegistration) {name : Text}
    → registered found service ≡ some name
    → (found ≡ some name) × (is_in name service.container_names ≡ true)
registered-some none service h = absurd (cc h)
registered-some (some n) service {name} h = elim (Bool-cases (is_in n service.container_names)) [
  | inr e ↦ absurd (cc (rw e at h))
  | inl e ↦ let same : n ≡ name = some_inj.0 (rw e at h) in (ap (λ t. some t) same, rw same at e)
]

-- `subcommand` is this literal, and what is found is found for it.
literal_some :
    (subcommand : Text) (literal : String) (found : Option Text) {name : Text}
    → (if is subcommand literal then found else none) ≡ some name
    → (subcommand ≡ codes literal) × (found ≡ some name)
literal_some subcommand literal found h = elim (Bool-cases (is subcommand literal)) [
  | inr e ↦ absurd (cc (rw e at h))
  | inl e ↦ ((is_iff subcommand literal).0 e, rw e at h)
]

inspect_read-DockerRead :
    (service : ServiceRegistration) (subcommand : Text) (words : List Text) (name : Text)
    → inspect_read subcommand words service ≡ some name
    → DockerRead service subcommand words
inspect_read-DockerRead service subcommand [] name h = absurd (cc h)
inspect_read-DockerRead service subcommand (word ∷ words) name h =
    let (same, found) =
      literal_some subcommand "inspect"
        (registered (docker_read_target inspect_options (word ∷ words)) service) h in
    let (target, listed) =
      registered-some (docker_read_target inspect_options (word ∷ words)) service found in
    subst (λ s. DockerRead service s (word ∷ words)) (sym same)
      (inspect (docker_read_target-HasOperand inspect_options (word ∷ words) name target) listed)

logs_read-DockerRead :
    (service : ServiceRegistration) (subcommand : Text) (words : List Text) (name : Text)
    → logs_read subcommand words service ≡ some name
    → DockerRead service subcommand words
logs_read-DockerRead service subcommand [] name h = absurd (cc h)
logs_read-DockerRead service subcommand (word ∷ words) name h =
    let (same, found) =
      literal_some subcommand "logs" (registered (docker_logs_target (word ∷ words)) service) h in
    let (target, listed) = registered-some (docker_logs_target (word ∷ words)) service found in
    subst (λ s. DockerRead service s (word ∷ words)) (sym same)
      (logs (docker_read_target-HasOperand logs_options (word ∷ words) name target) listed)

port_read-DockerRead :
    (service : ServiceRegistration) (subcommand : Text) (words : List Text) (name : Text)
    → port_read subcommand words service ≡ some name
    → DockerRead service subcommand words
port_read-DockerRead service subcommand [] name h = absurd (cc h)
port_read-DockerRead service subcommand (word ∷ more ∷ words) name h = absurd (cc h)
port_read-DockerRead service subcommand (word ∷ []) name h =
    let (same, found) = literal_some subcommand "port" (registered (some word) service) h in
    let (target, listed) = registered-some (some word) service found in
    subst (λ s. DockerRead service s (word ∷ [])) (sym same)
      (port (rw (sym (some_inj.0 target)) at listed))

compose_command_read-DockerRead :
    (service : ServiceRegistration) (subcommand : Text) (words : List Text) (name : Text)
    → compose_command_read subcommand words service ≡ some name
    → DockerRead service subcommand words
compose_command_read-DockerRead service subcommand [] name h = absurd (cc h)
compose_command_read-DockerRead service subcommand (word ∷ words) name h =
    let (same, found) =
      literal_some subcommand "compose" (compose_read_subcommand (word ∷ words) service) h in
    subst (λ s. DockerRead service s (word ∷ words)) (sym same)
      (compose (compose_read_subcommand-ComposeRead service name (word ∷ words) found))

pub docker_reason-Gives :
    (service : ServiceRegistration) (subcommand : Text) (words : List Text)
    → Gives service subcommand words (docker_reason subcommand words service)
unfolding docker_reason
docker_reason-Gives service subcommand words = elim (Bool-cases (is subcommand "ps")) [
  | inl e ↦ rw e (subst (λ s. DockerRead service s words) (sym ((is_iff subcommand "ps").0 e)) ps)
  | inr e ↦ rw e (
      read_of-Gives service subcommand words docker_inspect _ _
        (inspect_read-DockerRead service subcommand words)
        (read_of-Gives service subcommand words docker_logs _ _
          (logs_read-DockerRead service subcommand words)
          (read_of-Gives service subcommand words docker_port _ _
            (port_read-DockerRead service subcommand words)
            (read_of-Gives service subcommand words compose_read _ _
              (compose_command_read-DockerRead service subcommand words) tt))))
]
