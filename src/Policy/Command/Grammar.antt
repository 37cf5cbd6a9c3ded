-- ===== src/Policy/Command/Grammar.antt =====
-- The commands that CommandPolicy of remote_ops/policy.py may run without approval, as a grammar.
use incidentlens.Common.{true, false, none, List, [], ◌∷◌, All, Text, is_in, codes, ◌≡◌, ◌⊎◌}
use mathlib.Core.List.{Mem}
use incidentlens.Policy.Paths.{ServiceRegistration, parse_path}
use incidentlens.Policy.Contained.{IsAuthorized}
use incidentlens.Policy.Parse.{Python}
use incidentlens.Policy.Reads.{is_one_of, is_option, inspect_options, logs_options}
use incidentlens.Policy.Reads.Docker.{HasOperand}
use incidentlens.Policy.Reads.Compose.{ComposeRead}
use incidentlens.Policy.Reads.Loopback.{IsLoopback}
use incidentlens.Policy.Reads.Curl.{HealthCurl}
use incidentlens.Policy.Find.Roots.{IsFindRead}

-- `docker subcommand words`.
pub data DockerRead (service : ServiceRegistration) : Text → List Text → Type 0 where
  ps : {words : List Text} → DockerRead service (codes "ps") words
  inspect :
      {words : List Text} {name : Text}
      → HasOperand inspect_options words name
      → is_in name service.container_names ≡ true
      → DockerRead service (codes "inspect") words
  logs :
      {words : List Text} {name : Text}
      → HasOperand logs_options words name
      → is_in name service.container_names ≡ true
      → DockerRead service (codes "logs") words
  port :
      {name : Text}
      → is_in name service.container_names ≡ true
      → DockerRead service (codes "port") (name ∷ [])
  compose :
      {words : List Text} {name : Text}
      → ComposeRead service name words
      → DockerRead service (codes "compose") words

-- A command without its prefixes that may run without approval.
pub data AutoRead (py : Python) (service : ServiceRegistration) : List Text → Type 0 where
  pwd : {arguments : List Text} → AutoRead py service (codes "pwd" ∷ arguments)
  health :
      {arguments : List Text}
      → HealthCurl py none arguments
      → AutoRead py service (codes "curl" ∷ arguments)
  script :
      {executable name url expected : Text}
      → (executable ≡ codes "python") ⊎ (executable ≡ codes "python3")
      → Mem (parse_path name) service.allowed_validation_scripts
      → IsLoopback py false url
      → (expected ≡ codes "pre-repair") ⊎ (expected ≡ codes "repaired")
      → AutoRead py service
          (executable ∷ name ∷ codes "--url" ∷ url ∷ codes "--expected" ∷ expected ∷ [])
  docker :
      {subcommand : Text} {words : List Text}
      → DockerRead service subcommand words
      → AutoRead py service (codes "docker" ∷ subcommand ∷ words)
  files :
      {executable argument : Text} {arguments : List Text}
      → is_one_of executable ("ls" ∷ "cat" ∷ "stat" ∷ []) ≡ true
      → All (λ a. (is_option a ≡ true) ⊎ IsAuthorized service a) (argument ∷ arguments)
      → AutoRead py service (executable ∷ argument ∷ arguments)
  finds :
      {arguments : List Text}
      → IsFindRead py service arguments
      → AutoRead py service (codes "find" ∷ arguments)
