-- ===== src/Commands/Option.antt =====
-- pkg/commands/option and pkg/commands/artifact/option.go: the check of the options of the command
-- line. Warnings are left out.
pub mod Laws
pub mod Valid
use trivy.Base.{
  ℕ, Bool, true, false, not, ◌&&◌, ◌||◌, List, [], ◌∷◌, ◌++◌, Option, none, some, if◌then◌else◌,
  ltb, length, map, eqb,
}
use trivy.Base.Text.{Str, str, ◌==◌, split, has_prefix}
use trivy.Base.Result.{Result, ok, err, panicked, message, context, collect, ◌>>=◌}
use trivy.External.{Severities}
use trivy.Commands.Remote.{RemoteOption, init_remote}
use trivy.Types.{new_vuln_type, new_security_check, vuln_type_unknown, security_check_unknown}

-- ReportOption: the flags, and what Init makes of them; the output is os.Stdout or a file
pub record ReportOption : Type 0 where
  pub format : Str
  pub vuln_type_flag : Str
  pub security_checks_flag : Str
  pub output_flag : Str
  pub severities_flag : Str
  pub vuln_type : List Str
  pub security_checks : List Str
  pub output : Option Str
  pub severities : List ℕ
  pub list_all_pkgs : Bool

pub record DbOption : Type 0 where
  pub reset : Bool
  pub download_db_only : Bool
  pub skip_db_update : Bool

-- CacheOption, with RedisOption
pub record CacheOption : Type 0 where
  pub cache_backend : Str
  pub redis_ca_cert : Str
  pub redis_cert : Str
  pub redis_key : Str

pub record ArtifactOption : Type 0 where
  pub input : Str
  pub clear_cache : Bool
  pub target : Str

-- Option, of which Init reads these parts
pub record Options : Type 0 where
  pub report : ReportOption
  pub db : DbOption
  pub cache : CacheOption
  pub remote : RemoteOption
  pub artifact : ArtifactOption

-- The body of a loop over the words of a flag.
unfoldable pub known_vuln_type : Str → Result (List Str)
known_vuln_type v =
    if new_vuln_type v == vuln_type_unknown
    then err (message (str "unknown vulnerability type (" ++ (v ++ str ")")))
    else ok (v ∷ [])

unfoldable pub known_security_check : Str → Result (List Str)
known_security_check v =
    if new_security_check v == security_check_unknown
    then err (message (str "unknown security check (" ++ (v ++ str ")")))
    else ok (v ∷ [])

-- ReportOption.populateVulnTypes
unfoldable pub populate_vuln_types : ReportOption → Result ReportOption
unfolding known_vuln_type
populate_vuln_types c =
    if c.vuln_type_flag == []
    then ok c
    else (collect known_vuln_type c.vuln_type (split b',' c.vuln_type_flag) >>= λ types.
        ok (record c { vuln_type = types }))

-- ReportOption.populateSecurityChecks
unfoldable pub populate_security_checks : ReportOption → Result ReportOption
unfolding known_security_check
populate_security_checks c =
    if c.security_checks_flag == []
    then ok c
    else (collect known_security_check c.security_checks (split b',' c.security_checks_flag)
        >>= λ checks. ok (record c { security_checks = checks }))

-- ReportOption.forceListAllPkgs
abbrev pub force_list_all_pkgs : ReportOption → Bool
force_list_all_pkgs c = c.format == str "cyclonedx" && not c.list_all_pkgs

-- splitSeverity: a name that is none counts as unknown
unfoldable pub split_severity : Severities → Str → List ℕ
split_severity db severity =
    map (λ s. elim (db.new_severity s) [ none ↦ db.unknown | some n ↦ n ]) (split b',' severity)

-- The first part of Init, before the types are split.
abbrev pub with_severities : Severities → ReportOption → ReportOption
with_severities db c = record c {
  list_all_pkgs = if force_list_all_pkgs c then true else c.list_all_pkgs;
  severities = split_severity db c.severities_flag;
}

-- The last part, where `create` is os.Create.
abbrev pub with_output : (Str → Result Str) → ReportOption → Result ReportOption
with_output create c =
    let cleared = record c {
      severities_flag = [];
      vuln_type_flag = [];
      security_checks_flag = [];
    } in
    if not (c.output_flag == [])
    then (context (str "failed to create an output file") (create c.output_flag) >>= λ file.
        ok (record cleared { output = some file }))
    else ok (record cleared { output = none })

-- ReportOption.Init
unfoldable pub init_report : Severities → (Str → Result Str) → ReportOption → Result ReportOption
unfolding populate_vuln_types populate_security_checks split_severity
init_report db create c = do
  typed ← context (str "vuln type") (populate_vuln_types (with_severities db c))
  checked ← context (str "security checks") (populate_security_checks typed)
  with_output create checked

-- DBOption.Init
unfoldable pub init_db : DbOption → Result DbOption
init_db c =
    if c.skip_db_update && c.download_db_only
    then err
        (message (str "--skip-db-update and --download-db-only options can not be specified both"))
    else ok c

-- CacheOption.Init
unfoldable pub init_cache : CacheOption → Result CacheOption
init_cache c =
    if not (has_prefix c.cache_backend (str "redis://"))
      && not (c.cache_backend == str "fs")
      && not (c.cache_backend == [])
    then err (message (str "unsupported cache backend: " ++ c.cache_backend))
    else if not (c.redis_ca_cert == [] && c.redis_cert == [] && c.redis_key == [])
        && (c.redis_ca_cert == [] || c.redis_cert == [] || c.redis_key == [])
    then err (message (str "you must provide CA, cert and key file path when using tls"))
    else ok c

-- How Init ends without an error: os.Exit(0) after the help, or the options.
pub data Initialized : Type 0 where
  help : Initialized
  initialized : Options → Initialized

-- Option.skipScan
abbrev pub skip_scan : Options → Bool
skip_scan c = c.artifact.clear_cache || c.db.download_db_only || c.db.reset

-- c.Target = ctx.Args().First()
abbrev pub with_target : List Str → Options → Options
with_target [] c = record c { artifact = record (c.artifact) { target = [] } }
with_target (a ∷ _) c = record c { artifact = record (c.artifact) { target = a } }

-- ArtifactOption.Init, with the arguments of the command line
unfoldable pub init_artifact : List Str → Options → Result Initialized
init_artifact args c =
    if c.artifact.input == [] && eqb (length args) 0
    then ok help
    else if ltb 1 (length args)
    then err (message (str "arguments error"))
    else if c.artifact.input == []
    then ok (initialized (with_target args c))
    else ok (initialized c)

-- Option.Init, with initPreScanOptions
unfoldable pub init :
    Severities → (Str → Result Str) → (Str → Str) → List Str → Options → Result Initialized
unfolding init_report init_db init_cache init_remote init_artifact
init db create canonical args c = do
  report ← init_report db create c.report
  checked_db ← init_db c.db
  cache ← init_cache c.cache
  let out = record c {
    report = report;
    db = checked_db;
    cache = cache;
    remote = init_remote canonical c.remote;
  }
  (if skip_scan out then ok (initialized out) else init_artifact args out)
