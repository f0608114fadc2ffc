-- ===== src/Commands/Tests.antt =====
-- The theorems on runs at concrete options.
use trivy.Base.{
  ℕ, suc, refl, [], ◌∷◌, none, true, false, ◌≡◌, ◌≢◌, Option, if◌then◌else◌, some, Bool-cases, inl,
  inr, ◌↔◌, ◌⊎◌,
}
use trivy.Base.Text.{to_lower, str, contains, ◌==◌, split, has_prefix}
use trivy.Base.Result.{collect, ok}
use trivy.Base.Dict.{lookup}
use trivy.Scanner.{Report}
use trivy.Types.{new_vuln_type, new_security_check, failed}
use trivy.Samples.{bash_high, severities}
use trivy.Commands.Action.{Process, unopened, done}
use trivy.Commands.Calls.{Calls, Options}
use trivy.Commands.Run.{
  run_with_timeout, with_db, init_cache, init_db, scan, filter, exit, scan_and_report,
}
use trivy.Commands.Run
use trivy.Commands.Option
use trivy.Commands.Artifact.{Initializers, config_run}
use trivy.Commands.Artifact.Laws.{config_run-no_db}
use trivy.Commands.Remote.{RemoteOption, init_remote, get, Header, with_custom_headers}
use trivy.Commands.Remote.Laws.{wanted, get-init_remote, init_remote-with_token}
use trivy.Rpc.Listen.{with_token, served}
use trivy.Commands.Option.Valid.{IsValid, init-IsValid}
use trivy.Commands.Run.Ending.{IsClosed, run_with_timeout-IsClosed}
use trivy.Commands.Run.Code.{IsFailure, run_with_timeout-exited}

-- A run on vulnerabilities that asks for the code 3.
abbrev options : Options
options = record {
  remote_addr = [];
  custom_headers = [];
  insecure = false;
  target = str "alpine:3.15";
  input = [];
  reset = false;
  clear_cache = false;
  download_db_only = false;
  skip_db_update = false;
  skip_policy_update = false;
  quiet = false;
  no_progress = false;
  offline_scan = false;
  skip_files = [];
  skip_dirs = [];
  vuln_type = str "os" ∷ [];
  security_checks = str "vuln" ∷ [];
  scan_removed_pkgs = false;
  list_all_pkgs = false;
  disabled_analyzers = [];
  trace = false;
  policy_namespaces = [];
  policy_paths = [];
  data_paths = [];
  file_patterns = [];
  exit_code = 3;
}

abbrev report : Report
report = record {
  schema_version = 2;
  artifact_name = str "alpine:3.15";
  artifact_type = str "container_image";
  metadata = record {
    size = 0;
    os = none;
    image_id = [];
    diff_ids = [];
    repo_tags = [];
    repo_digests = [];
  };
  results =
      record {
        target = str "alpine:3.15";
        class = str "os-pkgs";
        type = str "alpine";
        packages = [];
        vulnerabilities = bash_high ∷ [];
        misconf_summary = none;
        misconfigurations = [];
        custom_resources = [];
      }
      ∷ [];
}

-- The files are the number of reports that are written.
abbrev calls : Calls ℕ
calls = record {
  init_logger = ok done;
  new_cache = λ s. (s, ok done);
  clear_db = λ s. (s, ok done);
  clear_artifacts = λ s. (s, ok done);
  download_db = λ skip s. (s, ok done);
  init_db = λ s. (s, ok done);
  init_builtin_policies = λ skip s. (s, ok []);
  initialize_scanner = λ config s. (s, ok (λ scan_options t. (t, ok report)));
  fill = λ vulns type. vulns;
  filter = λ vulns misconfs.
      ok (record { vulnerabilities = vulns; misconf_summary = none; misconfigurations = misconfs });
  write = λ written s. (1, ok done);
  apk_command = str "apk-command";
  languages = [];
}

abbrev process : Process ℕ
process = record { files = 0; cache = unopened; db = unopened }

run_with_timeout-IsClosed_example :
    IsClosed (run_with_timeout calls (record options { download_db_only = true }) process)
run_with_timeout-IsClosed_example =
    run_with_timeout-IsClosed calls (record options { download_db_only = true }) process (λ e. cc)
      (λ e. cc)

run_with_timeout-exited_example : IsFailure calls options 3
unfolding run_with_timeout with_db init_cache init_db scan filter exit scan_and_report
    Run.config_scanner_options Run.filter_results Run.filter_result contains failed ◌==◌
run_with_timeout-exited_example = run_with_timeout-exited calls options process refl

abbrev remote : RemoteOption
remote = record {
  remote_addr = str "http://localhost:4954";
  custom_headers_flag = str "X-Api:one" ∷ str "trivy-token:old" ∷ str "x-api:two" ∷ [];
  token = str "secret";
  token_header = str "Trivy-Token";
  remote = [];
  custom_headers = [];
}

remote_addressed : (init_remote to_lower remote).remote_addr ≢ []
unfolding init_remote ◌==◌
remote_addressed e = cc

get-init_remote_example :
    get to_lower (str "X-API") (init_remote to_lower remote).custom_headers
    ≡ wanted to_lower remote (str "X-API")
get-init_remote_example = get-init_remote to_lower remote (str "X-API") remote_addressed

-- A context is the headers of its requests; Content-Type is rejected.
abbrev with_headers : Header → Header → Option Header
with_headers ctx h = if get to_lower (str "Content-Type") h == [] then some h else none

with_headers-taken :
    (h ctx : Header)
    → with_headers [] h ≡ some ctx
    → get to_lower (str "trivy-token") h ≡ str "secret"
    → get to_lower (str "trivy-token") ctx ≡ str "secret"
with_headers-taken h ctx e g = elim (Bool-cases (get to_lower (str "Content-Type") h == [])) [
  | inl t ↦ let e' : some h ≡ some ctx = rw t at e in let same : h ≡ ctx = cc in rw (← same) g
  | inr f ↦ absurd (let e' : none ≡ some ctx = rw f at e in cc)
]

init_remote-with_token_example :
    (with_token (str "secret") (
        get to_lower
          (str "trivy-token")
          (with_custom_headers with_headers [] (init_remote to_lower remote).custom_headers))
      ≡ served)
    ↔ (str "secret" ≡ [])
      ⊎ (ctx : Header) × (with_headers [] (init_remote to_lower remote).custom_headers ≡ some ctx)
unfolding lookup
init_remote-with_token_example =
    init_remote-with_token to_lower with_headers (λ ctx. ctx) [] remote (str "trivy-token")
      remote_addressed refl refl with_headers-taken

abbrev flags : Option.Options
flags = record {
  report = record {
    format = str "table";
    vuln_type_flag = str "os,library";
    security_checks_flag = str "vuln";
    output_flag = [];
    severities_flag = str "HIGH";
    vuln_type = [];
    security_checks = [];
    output = none;
    severities = [];
    list_all_pkgs = false;
  };
  db = record { reset = false; download_db_only = false; skip_db_update = true };
  cache = record { cache_backend = str "fs"; redis_ca_cert = []; redis_cert = []; redis_key = [] };
  remote = remote;
  artifact = record { input = []; clear_cache = false; target = [] };
}

abbrev checked : Option.Options
checked = record flags {
  report = record (flags.report) {
    vuln_type_flag = [];
    security_checks_flag = [];
    severities_flag = [];
    vuln_type = str "os" ∷ str "library" ∷ [];
    security_checks = str "vuln" ∷ [];
    severities = 3 ∷ [];
  };
  remote = init_remote to_lower remote;
  artifact = record (flags.artifact) { target = str "alpine:3.15" };
}

init-IsValid_example : IsValid checked
unfolding Option.init Option.init_report Option.init_db Option.init_cache Option.init_artifact
    Option.populate_vuln_types Option.populate_security_checks Option.known_vuln_type
    Option.known_security_check Option.split_severity new_vuln_type new_security_check collect split
    has_prefix contains ◌==◌
init-IsValid_example =
    init-IsValid severities (λ name. ok name) to_lower (str "alpine:3.15" ∷ []) flags (tt, tt) refl

abbrev initializers : Initializers ℕ
initializers = record {
  parse_env = ok (record { user_name = []; password = []; registry_token = []; non_ssl = false });
  docker = λ conf opt s. (s, ok (λ scan_options t. (t, ok report)));
  archive = λ conf s. (s, ok (λ scan_options t. (t, ok report)));
  filesystem = λ conf s. (s, ok (λ scan_options t. (t, ok report)));
  repository = λ conf s. (s, ok (λ scan_options t. (t, ok report)));
  remote_docker = λ conf opt s. (s, ok (λ scan_options t. (t, ok report)));
  remote_archive = λ conf s. (s, ok (λ scan_options t. (t, ok report)));
  remote_filesystem = λ conf s. (s, ok (λ scan_options t. (t, ok report)));
  type_lockfiles = str "npm" ∷ [];
  type_individual_pkgs = str "jar" ∷ [];
  type_oses = str "alpine" ∷ [];
}

config_run-no_db_example :
    config_run initializers
      (record calls { download_db = λ skip s. (suc s, ok done); init_db = λ s. (suc s, ok done) })
      options
    ≡ config_run initializers calls options
config_run-no_db_example =
    config_run-no_db initializers calls options (λ skip s. (suc s, ok done)) (λ s. (suc s, ok done))
