-- ===== src/Commands/Run.antt =====
-- pkg/commands/artifact/run.go: the scan of an artifact by a command.
pub mod Laws
pub mod Ending
pub mod Code
use trivy.Base.{
  ℕ, Bool, true, false, not, ◌&&◌, ◌||◌, List, [], ◌∷◌, ◌++◌, Option, none, some, if◌then◌else◌,
  eqb,
}
use trivy.Base.Text.{Str, str, ◌==◌, contains}
use trivy.Base.Result.{Result, ok, err, panicked, skip_scan, wrap}
use trivy.External
use trivy.Types
use trivy.Types.{
  DetectedVulnerability, DetectedMisconfiguration, failed, security_check_vulnerability,
  security_check_config, vuln_type_library,
}
use trivy.Scanner.{Report}
use trivy.ResultClient.Filter.{Filtered}
use trivy.Commands.Calls.{Options, ConfigScannerOption, ArtifactOption, ScannerConfig, Calls}
use trivy.Commands.Action.{
  Done, done, Process, Action, Ended, finished, exited, pure, fail, next, ◌>>=◌, within, on_files,
  defer, deferred, unless_skipped, open_cache, close_cache, open_db, close_db,
}

-- config.ScannerOption{}
abbrev pub no_config_scanner_option : ConfigScannerOption
no_config_scanner_option = record {
  trace = false;
  namespaces = [];
  policy_paths = [];
  data_paths = [];
  file_patterns = [];
}

module _ {S : Type 0} (calls : Calls S) (opt : Options) where
  -- Cache.Reset, and what initCache does with it
  abbrev pub reset_cache : Action S Done
  reset_cache = do
    _ ← within (str "cache reset error") (
        within (str "failed to clear the database") (on_files calls.clear_db) >>= λ _.
        within (str "failed to clear the artifact cache") (on_files calls.clear_artifacts))
    fail skip_scan

  -- Cache.ClearArtifacts
  abbrev pub clear_cache : Action S Done
  clear_cache = do
    _ ← within (str "cache clear error") (on_files calls.clear_artifacts)
    fail skip_scan

  -- NewCache returns a cache that is open.
  abbrev pub opened_cache : Action S Done
  opened_cache = on_files calls.new_cache >>= λ _ p. (open_cache p, ok done)

  -- initCache, with the deferred Close of the cache that is cleared
  unfoldable pub init_cache : Action S Done
  init_cache = if not (opt.remote_addr == []) then (λ p. (open_cache p, ok done)) else do
    _ ← within (str "unable to initialize the cache") opened_cache
    (if opt.reset
        then defer close_cache reset_cache
        else if opt.clear_cache
        then defer close_cache clear_cache
        else pure done)

  -- initDB
  unfoldable pub init_db : Action S Done
  init_db = do
    _ ← on_files (calls.download_db opt.skip_db_update)
    (if opt.download_db_only
        then fail skip_scan
        else (within (str "error in vulnerability DB initialize") (on_files calls.init_db)
            >>= λ _ p. (open_db p, ok done)))

  -- disabledAnalyzers
  unfoldable pub disabled_analyzers : List Str
  disabled_analyzers =
      let commands =
        if not opt.scan_removed_pkgs
        then opt.disabled_analyzers ++ calls.apk_command ∷ []
        else opt.disabled_analyzers in
      if not (contains opt.vuln_type vuln_type_library)
      then commands ++ calls.languages
      else commands

  abbrev pub scan_options : Types.ScanOptions
  scan_options = record {
    vuln_type = opt.vuln_type;
    security_checks = opt.security_checks;
    scan_removed_packages = opt.scan_removed_pkgs;
    list_all_packages = opt.list_all_pkgs;
  }

  abbrev pub scanner_config : ConfigScannerOption → ScannerConfig
  unfolding disabled_analyzers
  scanner_config misconf_option = record {
    target = if not (opt.input == []) then opt.input else opt.target;
    remote_url = opt.remote_addr;
    custom_headers = opt.custom_headers;
    insecure = opt.insecure;
    artifact_option = record {
      disabled_analyzers = disabled_analyzers;
      skip_files = opt.skip_files;
      skip_dirs = opt.skip_dirs;
      insecure_skip_tls = opt.insecure;
      offline = opt.offline_scan;
      no_progress = opt.no_progress || opt.quiet;
    };
    misconf_option = misconf_option;
  }

  -- The options of the scan of configuration files, filled only where it is asked for.
  unfoldable pub config_scanner_options : Action S ConfigScannerOption
  config_scanner_options =
      if contains opt.security_checks security_check_config
      then (do
        paths ←
            within (str "failed to initialize built-in policies")
              (on_files (calls.init_builtin_policies opt.skip_policy_update))
        pure (record {
          trace = opt.trace;
          namespaces = opt.policy_namespaces ++ str "appshield" ∷ [];
          policy_paths = opt.policy_paths ++ paths;
          data_paths = opt.data_paths;
          file_patterns = opt.file_patterns;
        }))
      else pure no_config_scanner_option

  -- scan
  unfoldable pub scan : Action S Report
  unfolding config_scanner_options disabled_analyzers
  scan = do
    misconf_option ← config_scanner_options
    scan_artifact ←
        within (str "unable to initialize a scanner")
          (on_files (calls.initialize_scanner (scanner_config misconf_option)))
    within (str "image scan failed") (on_files (scan_artifact scan_options))

  abbrev pub filtered_result : Types.Result → Filtered → Types.Result
  filtered_result result f = record result {
    vulnerabilities = f.vulnerabilities;
    misconfigurations = f.misconfigurations;
    misconf_summary = f.misconf_summary;
  }

  -- The body of the loop of filter: the details are filled in only without a server.
  unfoldable pub filter_result : Types.Result → Result Types.Result
  filter_result result =
      let vulns =
        if opt.remote_addr == []
        then calls.fill result.vulnerabilities result.type
        else result.vulnerabilities in
      elim (calls.filter vulns result.misconfigurations) [
        | ok f ↦ ok (filtered_result result f)
        | err e ↦ err (wrap (str "unable to filter vulnerabilities") e)
        | panicked ↦ panicked
      ]

  unfoldable pub filter_results : List Types.Result → Action S (List Types.Result)
  unfolding filter_result
  filter_results [] = pure []
  filter_results (r ∷ rs) = do
    filtered ← (λ p. (p, filter_result r))
    rest ← filter_results rs
    pure (filtered ∷ rest)

  -- filter
  unfoldable pub filter : Report → Action S Report
  unfolding filter_results
  filter report = do
    results ← filter_results report.results
    pure (record report { results = results })

  -- exit
  unfoldable pub exit : List Types.Result → Action S Ended
  exit results =
      if not (eqb opt.exit_code 0) && failed results
      then pure (exited opt.exit_code)
      else pure finished

  -- The part of runWithTimeout after the filters, and the one after the scan.
  abbrev pub write_and_exit : Report → Action S Ended
  write_and_exit report = do
    _ ← within (str "unable to write results") (on_files (calls.write report))
    exit report.results

  abbrev pub filter_and_write : Report → Action S Ended
  filter_and_write scanned = do
    report ← within (str "filter error") (filter scanned)
    write_and_exit report

  -- The part after the database is there.
  unfoldable pub scan_and_report : Action S Ended
  unfolding scan filter exit
  scan_and_report = do scanned ← within (str "scan error") scan; filter_and_write scanned

  -- The part after the cache is there.
  unfoldable pub with_db : Action S Ended
  unfolding scan_and_report init_db
  with_db =
      if opt.remote_addr == [] && contains opt.security_checks security_check_vulnerability
      then unless_skipped (str "DB error") init_db (λ _. deferred close_db scan_and_report)
      else scan_and_report

  -- runWithTimeout
  unfoldable pub run_with_timeout : Action S Ended
  unfolding with_db init_cache
  run_with_timeout = do
    _ ← (λ p. (p, calls.init_logger))
    unless_skipped (str "cache error") init_cache (λ _. deferred close_cache with_db)
