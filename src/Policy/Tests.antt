-- ===== src/Policy/Tests.antt =====
-- The policies of remote_ops/policy.py on a service with one host root, and what they make of commands.
use incidentlens.Common.{
  String, ◌↔◌, true, false, Option, none, some, List, [], ◌∷◌, Any, here, there, if◌then◌else◌,
  Text, is, codes, ok, ◌≡◌, refl, inl, inr, ◌==◌, str_eq,
}
use incidentlens.Policy.Paths.{
  Root, PurePosixPath, ServiceRegistration, RemoteScope, RemoteTransport, is_path_authorized,
  authorize, is_known, roots_of,
}
use incidentlens.Policy.Contained.{IsInside, Resolves, authorize-IsInside}
use incidentlens.Policy.Shlex.{split, words_from, move}
use incidentlens.Policy.Parse.{
  Python, SplitUrl, no_digit, digit_only, parse_command, strip_prefixes, strip_from, has_word,
  has_recursive_force_rm,
}
use incidentlens.Policy.Reads.{
  docker_token, docker_target_from, docker_target_after_value, is_registered_validation_script,
}
use incidentlens.Policy.Find.{
  isdigit, int_of, find_token, find_tests, find_maxdepth, find_roots, is_read_only_find,
}
use incidentlens.Policy.Find.Roots.{IsFindRead, is_read_only_find_iff}
use incidentlens.Policy.Command.{
  ShellReason, auto, ask, forbid, unclassified, docker_logs, dangerous_features, docker_reason,
  docker_change_reason, is_file_read, without_read, find_decision, classify, evaluate,
}
use incidentlens.Policy.Command.Grammar.{AutoRead}
use incidentlens.Policy.Command.Automatic.{evaluate-AutoRead}
use incidentlens.Policy.Command.Raises.{IsRefusedFind, evaluate-raises}
use incidentlens.Policy.Forbidden.{
  bare, sudo, env, short, evaluate-forbids_rm, evaluate-forbids_breaking,
}
use incidentlens.Policy.Operations.{
  OperationKind, RuntimeKind, TargetProfile, RemoteAction, evaluate_operation,
}

abbrev split_url : Text → Text → SplitUrl
split_url host path = record {
  scheme = codes "http";
  username = none;
  password = none;
  hostname = some host;
  path = path;
  query = [];
  fragment = [];
}

-- No character above ASCII is a word character; only a superscript two is a digit there.
abbrev python : Python
python = record {
  is_word_above = λ c. false;
  digit_above = λ c. if c == 178 then digit_only else no_digit;
  urlsplit = λ text.
      if is text "http://127.0.0.1:8000/health"
      then some (split_url (codes "127.0.0.1") (codes "/health"))
      else none;
}

abbrev service : ServiceRegistration
service = record {
  compose_service = codes "shop";
  local_source_path = none;
  container_path_hints = [];
  allowed_log_paths = [];
  protected_remote_paths = [];
  container_names = codes "shop-api" ∷ [];
  allowed_host_paths = record { root = Root.slash; parts = codes "srv" ∷ codes "app" ∷ [] } ∷ [];
  allowed_container_paths = [];
  allowed_validation_scripts = [];
}

-- `/srv/application` is not below `/srv/app`.
collision : is_path_authorized (codes "/srv/application") service ≡ false
unfolding is_path_authorized
collision = refl

dots_and_slashes : is_path_authorized (codes "/srv//./app/logs/") service ≡ true
unfolding is_path_authorized
dots_and_slashes = refl

-- Two leading slashes are another root.
double : is_path_authorized (codes "//srv/app") service ≡ false
unfolding is_path_authorized
double = refl

read_logs :
    evaluate python (codes "sudo docker logs --tail=50 shop-api") service
    ≡ some (auto (docker_logs (codes "shop-api")) (codes "sudo docker logs --tail=50 shop-api"))
unfolding evaluate parse_command has_word words_from move strip_from has_recursive_force_rm classify
    is_registered_validation_script docker_reason docker_token docker_target_from
    docker_target_after_value docker_change_reason is
read_logs = refl

-- The name of the executable is compared as it is written, and options of `sudo` and `env` are not
-- prefixes: each of these asks for an approval, which can be given.
by_path :
    evaluate python (codes "/bin/rm -rf /") service
    ≡ some (ask (unclassified (codes "/bin/rm")) (codes "/bin/rm -rf /"))
unfolding evaluate parse_command has_word words_from move strip_from has_recursive_force_rm classify
    is_registered_validation_script docker_reason is is_file_read find_decision without_read
by_path = refl

sudo_option :
    evaluate python (codes "sudo -n rm -rf /") service
    ≡ some (ask (unclassified (codes "-n")) (codes "sudo -n rm -rf /"))
unfolding evaluate parse_command has_word words_from move strip_from has_recursive_force_rm classify
    is_registered_validation_script docker_reason is is_file_read find_decision without_read
sudo_option = refl

sed_suffix :
    evaluate python (codes "sed -i.bak s/a/b/ /srv/app/x") service
    ≡ some (ask (unclassified (codes "sed")) (codes "sed -i.bak s/a/b/ /srv/app/x"))
unfolding evaluate parse_command has_word words_from move strip_from has_recursive_force_rm classify
    is_registered_validation_script docker_reason is is_file_read find_decision without_read
sed_suffix = refl

superscript : evaluate python (codes "find /srv/app -maxdepth ²") service ≡ none
unfolding evaluate parse_command has_word words_from move strip_from has_recursive_force_rm classify
    is_registered_validation_script docker_reason is is_file_read find_decision find_roots
    is_read_only_find is_path_authorized find_tests find_maxdepth find_token isdigit int_of
superscript = refl

evaluate-raises_example :
    (tokens : List Text) × (parse_command python (codes "find /srv/app -maxdepth ²") ≡ some tokens)
    × IsRefusedFind python (strip_prefixes tokens)
evaluate-raises_example =
    evaluate-raises python (codes "find /srv/app -maxdepth ²") service superscript

evaluate-AutoRead_example :
    (tokens : List Text) × (parse_command python (codes "sudo docker logs --tail=50 shop-api")
      ≡ some tokens)
    × AutoRead python service (strip_prefixes tokens)
evaluate-AutoRead_example =
    evaluate-AutoRead python (codes "sudo docker logs --tail=50 shop-api") service read_logs refl

rm_words :
    split (codes "sudo env A=1 rm /srv -rf")
    ≡ some (codes "sudo" ∷ codes "env" ∷ codes "A=1" ∷ codes "rm" ∷ codes "/srv" ∷ codes "-rf" ∷ [])
unfolding words_from move
rm_words = refl

abbrev rm_tokens : List Text
rm_tokens = codes "sudo" ∷ codes "env" ∷ codes "A=1" ∷ codes "rm" ∷ codes "/srv" ∷ codes "-rf" ∷ []

evaluate-forbids_rm_example :
    (reason : ShellReason) × (evaluate python (codes "sudo env A=1 rm /srv -rf") service
      ≡ some (forbid reason (codes "sudo env A=1 rm /srv -rf")))
evaluate-forbids_rm_example =
    evaluate-forbids_rm python (codes "sudo env A=1 rm /srv -rf") service rm_tokens
      (codes "/srv" ∷ codes "-rf" ∷ []) rm_words (sudo (env (codes "A=1" ∷ []) (refl, tt) bare))
      (there (here (short [] (codes "f") b'r' (here refl) refl)))
      (there (here (short (codes "r") [] b'f' (here refl) refl)))

evaluate-forbids_breaking_example :
    evaluate python (codes "ls ';'") service ≡ some (forbid dangerous_features (codes "ls ';'"))
evaluate-forbids_breaking_example =
    evaluate-forbids_breaking python (codes "ls ';'") service
      (there (there (there (there (here (inr (inr (inr (inr (inr (inl refl)))))))))))

is_read_only_find_iff_example :
    (is_read_only_find python (codes "/srv/app" ∷ codes "-print" ∷ []) service ≡ some true)
    ↔ IsFindRead python service (codes "/srv/app" ∷ codes "-print" ∷ [])
is_read_only_find_iff_example =
    is_read_only_find_iff python service (codes "/srv/app" ∷ codes "-print" ∷ [])

abbrev log_path : PurePosixPath
log_path = record { root = Root.slash; parts = codes "srv" ∷ codes "app" ∷ codes "current" ∷ [] }

abbrev release_path : PurePosixPath
release_path = record { root = Root.slash; parts = codes "srv" ∷ codes "app" ∷ codes "r7" ∷ [] }

abbrev transport : RemoteTransport
transport = record {
  realpath = λ path. some release_path;
  lstat = λ path. some (record {
    path = path;
    size = 120;
    mode = 420;
    uid = 0;
    gid = 0;
    modified_ns = 0;
    is_symlink = false;
  });
}

resolved : authorize service RemoteScope.host log_path (some transport) ≡ ok release_path
unfolding authorize is
resolved = refl

authorize-IsInside_example :
    (is_known service RemoteScope.host ≡ true)
    × ((root : PurePosixPath) × Any (λ r. r ≡ root) (roots_of service RemoteScope.host)
        × IsInside log_path root
        × Resolves (some transport) log_path root release_path)
authorize-IsInside_example =
    authorize-IsInside service RemoteScope.host log_path (some transport) resolved

abbrev targets : String → Option TargetProfile
targets name =
    if str_eq name "web-1"
    then some (record {
      target_id = "web-1";
      host = "10.0.0.7";
      ssh_user = "ops";
      runtime = RuntimeKind.docker_compose;
      credential_ref = "key-1";
      allowed_services = "shop" ∷ [];
    })
    else none

abbrev bare_change : RemoteAction
bare_change = record {
  target_id = "web-1";
  operation = OperationKind.apply_change;
  service = "shop";
  incident_id = "inc-1";
  log_query = none;
  time_range_minutes = 30;
  change_controls = none;
}

no_controls : (evaluate_operation targets bare_change).allowed ≡ false
unfolding evaluate_operation
no_controls = refl
