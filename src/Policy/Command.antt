-- ===== src/Policy/Command.antt =====
-- class CommandPolicy of remote_ops/policy.py.
pub mod Grammar
pub mod Docker
pub mod Automatic
pub mod Raises
use incidentlens.Common.{
  Bool, true, false, ◌&&◌, not, Option, none, some, List, [], ◌∷◌, any, all, filter, if◌then◌else◌,
  Text, is, is_in,
}
use incidentlens.Policy.Paths.{ServiceRegistration, is_path_authorized}
use incidentlens.Policy.Parse.{Python, parse_command, has_recursive_force_rm, strip_prefixes}
use incidentlens.Policy.Reads.{
  is_one_of, is_option, docker_read_target, docker_logs_target, inspect_options,
  compose_read_subcommand, is_read_only_health_curl, is_registered_validation_script,
}
use incidentlens.Policy.Find.{is_read_only_find}

-- `OperationRisk` of remote_ops/types.py.
pub data OperationRisk : Type 0 where
  auto_read backup_required approval_required forbidden : OperationRisk

-- The reasons, with the words that their text quotes.
pub data ShellReason : Type 0 where
  dangerous_features recursive_force_rm empty_command pwd_read health_request : ShellReason
  validation_script docker_ps find_read sed_in_place : ShellReason
  docker_inspect docker_logs docker_port compose_read compose_change docker_change :
      Text → ShellReason
  file_read package_manager unclassified : Text → ShellReason

pub record ShellPolicyDecision : Type 0 where
  pub risk : OperationRisk
  pub reason : ShellReason
  pub approval_can_override : Bool
  pub canonical_operation : Text

abbrev pub auto : ShellReason → Text → ShellPolicyDecision
auto reason command = record {
  risk = OperationRisk.auto_read;
  reason = reason;
  approval_can_override = true;
  canonical_operation = command;
}

abbrev pub ask : ShellReason → Text → ShellPolicyDecision
ask reason command = record {
  risk = OperationRisk.approval_required;
  reason = reason;
  approval_can_override = true;
  canonical_operation = command;
}

abbrev pub forbid : ShellReason → Text → ShellPolicyDecision
forbid reason command = record {
  risk = OperationRisk.forbidden;
  reason = reason;
  approval_can_override = false;
  canonical_operation = command;
}

-- `target_container in service.container_names`.
abbrev pub registered : Option Text → ServiceRegistration → Option Text
registered none service = none
registered (some name) service = if is_in name service.container_names then some name else none

-- `return` with the reason for the name, if there is one; else go on.
abbrev pub read_of : (Text → ShellReason) → Option Text → Option ShellReason → Option ShellReason
read_of reason (some name) next = some (reason name)
read_of reason none next = next

abbrev inspect_read : Text → List Text → ServiceRegistration → Option Text
inspect_read subcommand [] service = none
inspect_read subcommand (word ∷ words) service =
    if is subcommand "inspect"
    then registered (docker_read_target inspect_options (word ∷ words)) service
    else none

abbrev logs_read : Text → List Text → ServiceRegistration → Option Text
logs_read subcommand [] service = none
logs_read subcommand (word ∷ words) service =
    if is subcommand "logs" then registered (docker_logs_target (word ∷ words)) service else none

abbrev port_read : Text → List Text → ServiceRegistration → Option Text
port_read subcommand (word ∷ []) service =
    if is subcommand "port" then registered (some word) service else none
port_read subcommand _ service = none

abbrev compose_command_read : Text → List Text → ServiceRegistration → Option Text
compose_command_read subcommand [] service = none
compose_command_read subcommand (word ∷ words) service =
    if is subcommand "compose" then compose_read_subcommand (word ∷ words) service else none

abbrev compose_changed : Text → List Text → Option Text
compose_changed subcommand [] = none
compose_changed subcommand (word ∷ words) =
    if is subcommand "compose" && is_one_of word ("up" ∷ "down" ∷ []) then some word else none

abbrev docker_changed : Text → Option Text
docker_changed subcommand =
    if is_one_of subcommand ("restart" ∷ "rm" ∷ []) then some subcommand else none

-- What the reads of the docker block give for `docker subcommand words`.
unfoldable pub docker_reason : Text → List Text → ServiceRegistration → Option ShellReason
docker_reason subcommand words service =
    if is subcommand "ps"
    then some docker_ps
    else read_of docker_inspect (inspect_read subcommand words service) (
        read_of docker_logs (logs_read subcommand words service) (
          read_of docker_port (port_read subcommand words service)
            (read_of compose_read (compose_command_read subcommand words service) none)))

-- What its changes give.
unfoldable pub docker_change_reason : Text → List Text → Option ShellReason
docker_change_reason subcommand words =
    read_of compose_change (compose_changed subcommand words)
      (read_of docker_change (docker_changed subcommand) none)

abbrev docker_choice : Option ShellReason → Option ShellReason → Text → Option ShellPolicyDecision
docker_choice (some reason) change command = some (auto reason command)
docker_choice none (some reason) command = some (ask reason command)
docker_choice none none command = none

-- The docker block.
abbrev pub docker_decision :
    Text → List Text → ServiceRegistration → Text → Option ShellPolicyDecision
docker_decision executable [] service command = none
docker_decision executable (subcommand ∷ words) service command =
    if is executable "docker"
    then docker_choice (docker_reason subcommand words service)
        (docker_change_reason subcommand words) command
    else none

-- `ls`, `cat` and `stat`.
unfoldable pub is_file_read : Text → List Text → ServiceRegistration → Bool
is_file_read executable [] service = false
is_file_read executable (word ∷ words) service =
    is_one_of executable ("ls" ∷ "cat" ∷ "stat" ∷ [])
    && all (λ argument. is_path_authorized argument service)
        (filter (λ argument. not (is_option argument)) (word ∷ words))

-- From the `sed` test on.
unfoldable pub without_read : Text → List Text → Text → ShellPolicyDecision
without_read executable arguments command =
    if is executable "sed" && any (λ word. is word "-i") (executable ∷ arguments)
    then forbid sed_in_place command
    else if is_one_of executable ("apt-get" ∷ "apt" ∷ "yum" ∷ "dnf" ∷ "pip" ∷ "npm" ∷ [])
    then ask (package_manager executable) command
    else ask (unclassified executable) command

-- The `find` test and what follows it.
abbrev after_find : Text → List Text → Text → Option Bool → Option ShellPolicyDecision
after_find executable arguments command none = none
after_find executable arguments command (some true) = some (auto find_read command)
after_find executable arguments command (some false) =
    some (without_read executable arguments command)

unfoldable pub find_decision :
    Python → Text → List Text → ServiceRegistration → Text → Option ShellPolicyDecision
find_decision py executable arguments service command =
    if is executable "find"
    then after_find executable arguments command (is_read_only_find py arguments service)
    else some (without_read executable arguments command)

-- The docker block, and from the file reads on.
abbrev after_docker :
    Python
    → Text
    → List Text
    → ServiceRegistration
    → Text
    → Option ShellPolicyDecision
    → Option ShellPolicyDecision
after_docker py executable arguments service command (some decision) = some decision
after_docker py executable arguments service command none =
    if is_file_read executable arguments service
    then some (auto (file_read executable) command)
    else find_decision py executable arguments service command

-- `evaluate`, after the prefixes.
unfoldable pub classify :
    Python → List Text → ServiceRegistration → Text → Option ShellPolicyDecision
classify py [] service command = some (ask empty_command command)
classify py (executable ∷ arguments) service command =
    if is executable "pwd"
    then some (auto pwd_read command)
    else if is executable "curl" && is_read_only_health_curl py arguments
    then some (auto health_request command)
    else if is_registered_validation_script py executable arguments service
    then some (auto validation_script command)
    else after_docker py executable arguments service command
        (docker_decision executable arguments service command)

-- `evaluate`, after the parse.
abbrev pub evaluate_parsed :
    Python → Option (List Text) → ServiceRegistration → Text → Option ShellPolicyDecision
evaluate_parsed py none service command = some (forbid dangerous_features command)
evaluate_parsed py (some tokens) service command =
    if has_recursive_force_rm tokens
    then some (forbid recursive_force_rm command)
    else classify py (strip_prefixes tokens) service command

-- `CommandPolicy.evaluate`; `none` is the `ValueError` that `int` raises.
unfoldable pub evaluate : Python → Text → ServiceRegistration → Option ShellPolicyDecision
evaluate py command service = evaluate_parsed py (parse_command py command) service command
