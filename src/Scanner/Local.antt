-- ===== src/Scanner/Local.antt =====
-- pkg/scanner/local/scan.go: what a scan of an artifact's layers finds.
pub mod Statuses
pub mod Classes
pub mod Laws
use trivy.Base.{Bool, false, List, [], ◌∷◌, ◌++◌, Option, none, some, if◌then◌else◌, map, any}
use trivy.Base.Text.{Str, str, ◌==◌, contains, contains_text, has_prefix, to_lower, trim_space}
use trivy.Base.Dict.{Dict, lookup}
use trivy.Base.Result.{
  Result, ok, err, panicked, Error, context, error_is, is_unknown_os, is_no_pkgs_detected,
  is_unsupported_os, collect, ◌>>=◌,
}
use trivy.External.{
  Layer, Package, Application, Os, MisconfResult, Misconfiguration, ArtifactDetail, Severity,
  Severities,
}
use trivy.Types
use trivy.Types.{
  DetectedVulnerability, DetectedMisconfiguration, MisconfStatus, ScanOptions, class_os_pkg,
  class_lang_pkg, class_config, status_passed, status_failure, status_exception, vuln_type_os,
  vuln_type_library, security_check_vulnerability, security_check_config,
}

-- What the scanner calls: the applier of layers, the detectors, sort.Slice on results and on
-- packages (the order of equal elements is not fixed by the package), and trivy-db's severities.
pub record Scanner : Type 0 where
  pub apply_layers : Str → List Str → ArtifactDetail × Option Error
  pub detect_os : Str → Str → List Package → Result (List DetectedVulnerability × Bool)
  pub detect_library : Str → List Package → Result (List DetectedVulnerability)
  pub sort_results : List Types.Result → List Types.Result
  pub sort_packages : List Package → List Package
  pub db : Severities
  pub pkg_targets : Dict Str

-- mergePkgs: the packages from the history whose names are not those of packages
unfoldable pub not_named : List Package → List Package → List Package
not_named pkgs [] = []
not_named pkgs (pkg ∷ from_commands) =
    let rest = not_named pkgs from_commands in
    if any (λ p. p.name == pkg.name) pkgs then rest else pkg ∷ rest

unfoldable pub merge_pkgs : List Package → List Package → List Package
unfolding not_named
merge_pkgs pkgs pkgs_from_commands = pkgs ++ not_named pkgs pkgs_from_commands

-- The message of a misconfiguration.
abbrev pub message_of : Str → Str
message_of message =
    let msg = trim_space message in if msg == [] then str "No issues found" else msg

unfoldable pub first_with_prefix : Str → List Str → Str
first_with_prefix prefix [] = []
first_with_prefix prefix (ref ∷ refs) =
    let rest = first_with_prefix prefix refs in if has_prefix ref prefix then ref else rest

-- The primary URL and the references of a misconfiguration.
unfoldable pub primary_url_of : MisconfResult → Str × List Str
unfolding first_with_prefix
primary_url_of res =
    let appshield = str "https://avd.aquasec.com/appshield/" ++ to_lower res.id in
    if has_prefix res.namespace (str "appshield.")
    then (appshield, res.references ++ appshield ∷ [])
    else if contains_text res.type (str "tfsec")
    then (first_with_prefix (str "https://tfsec.dev/docs/") res.references, res.references)
    else ([], res.references)

-- toDetectedMisconfiguration
unfoldable pub to_detected_misconfiguration :
    Severities → MisconfResult → Severity → MisconfStatus → Layer → DetectedMisconfiguration
unfolding primary_url_of
to_detected_misconfiguration db res default_severity status layer =
    let severity : Severity = elim (db.new_severity res.severity) [
      | none ↦ default_severity
      | some sev ↦ sev
    ] in
    record {
      id = res.id;
      type = res.type;
      title = res.title;
      description = res.description;
      message = message_of res.message;
      resolution = res.recommended_actions;
      namespace = res.namespace;
      query = res.query;
      severity = db.to_string severity;
      primary_url = (primary_url_of res).0;
      references = (primary_url_of res).1;
      status = status;
      layer = layer;
      traces = res.traces;
      iac_metadata = record {
        resource = res.resource;
        provider = res.provider;
        service = res.service;
        start_line = res.start_line;
        end_line = res.end_line;
      };
    }

-- The misconfigurations of one file, the failures first.
unfoldable pub detected_of : Severities → Misconfiguration → List DetectedMisconfiguration
unfolding to_detected_misconfiguration
detected_of db misconf =
    let to : Severity → MisconfStatus → MisconfResult → DetectedMisconfiguration =
      λ default status res. to_detected_misconfiguration db res default status misconf.layer in
    map (to db.critical status_failure) misconf.failures
    ++ map (to db.medium status_failure) misconf.warnings
    ++ map (to db.unknown status_passed) misconf.successes
    ++ map (to db.unknown status_exception) misconf.exceptions

unfoldable pub misconf_result : Severities → Misconfiguration → Types.Result
unfolding detected_of
misconf_result db misconf = record {
  target = misconf.file_path;
  class = class_config;
  type = misconf.file_type;
  packages = [];
  vulnerabilities = [];
  misconf_summary = none;
  custom_resources = [];
  misconfigurations = detected_of db misconf;
}

module _ (s : Scanner) where
  -- Scanner.misconfsToResults
  unfoldable pub misconfs_to_results : List Misconfiguration → List Types.Result
  unfolding misconf_result
  misconfs_to_results misconfs = s.sort_results (map (misconf_result s.db) misconfs)

  -- The target of the packages of an application: pre-defined where there is no path.
  abbrev pub target_of : Application → Str
  target_of app = elim (lookup app.type s.pkg_targets) [
    | none ↦ app.file_path
    | some t ↦ if app.file_path == [] then t else app.file_path
  ]

  abbrev pub library_result : ScanOptions → Application → List DetectedVulnerability → Types.Result
  library_result options app vulns = record {
    target = target_of app;
    class = class_lang_pkg;
    type = app.type;
    packages = if options.list_all_packages then app.libraries else [];
    vulnerabilities = vulns;
    misconf_summary = none;
    custom_resources = [];
    misconfigurations = [];
  }

  -- The body of the loop of scanLibrary.
  unfoldable pub scan_app : ScanOptions → Application → Result (List Types.Result)
  scan_app options app = elim (app.libraries) [
    | [] ↦ ok []
    | _ ↦ do
      vulns ←
          context (str "failed vulnerability detection of libraries")
            (s.detect_library app.type app.libraries)
      ok (library_result options app vulns ∷ [])
  ]

  -- Scanner.scanLibrary
  unfoldable pub scan_library : ScanOptions → List Application → Result (List Types.Result)
  unfolding scan_app
  scan_library options [] = ok []
  scan_library options (app ∷ apps) = do
    results ← collect (scan_app options) [] (app ∷ apps)
    ok (s.sort_results results)

  abbrev pub os_result : Str → Str → Str → List DetectedVulnerability → Types.Result
  os_result target os_family os_name vulns = record {
    target = target ++ (str " (" ++ (os_family ++ (str " " ++ (os_name ++ str ")"))));
    class = class_os_pkg;
    type = os_family;
    packages = [];
    vulnerabilities = vulns;
    misconf_summary = none;
    custom_resources = [];
    misconfigurations = [];
  }

  -- Scanner.detectVulnsInOSPkgs: the result, and whether the support has ended
  unfoldable pub detect_vulns_in_os_pkgs :
      Str → Str → Str → List Package → Result (Option Types.Result × Bool)
  detect_vulns_in_os_pkgs target os_family os_name pkgs =
      if os_family == [] then ok (none, false) else elim (s.detect_os os_family os_name pkgs) [
        | ok (vulns, eosl) ↦ ok (some (os_result target os_family os_name vulns), eosl)
        | err e ↦
            if is_unsupported_os e
            then ok (none, false)
            else context (str "failed vulnerability detection of OS packages") (err e)
        | panicked ↦ panicked
      ]

  -- The packages that scanOSPkgs scans.
  abbrev pub scanned_packages : ArtifactDetail → ScanOptions → List Package
  scanned_packages detail options =
      if options.scan_removed_packages
      then merge_pkgs detail.packages detail.history_packages
      else detail.packages

  -- Scanner.scanOSPkgs
  unfoldable pub scan_os_pkgs :
      Str → ArtifactDetail → ScanOptions → Result (Option Types.Result × Bool)
  unfolding detect_vulns_in_os_pkgs merge_pkgs
  scan_os_pkgs target detail options = elim (detail.os) [
    | none ↦ ok (none, false)
    | some os ↦ do
      let pkgs = scanned_packages detail options
      found ←
          context (str "failed to scan OS packages")
            (detect_vulns_in_os_pkgs target os.family os.name pkgs)
      elim (found.0) [
        | none ↦ ok (none, found.1)
        | some result ↦
            if options.list_all_packages
            then ok (some (record result { packages = s.sort_packages pkgs }), found.1)
            else ok (some result, found.1)
      ]
  ]

  -- results = append(results, *result) where there is one
  abbrev pub to_results : Option Types.Result → List Types.Result
  to_results none = []
  to_results (some result) = result ∷ []

  -- Scanner.checkVulnerabilities
  unfoldable pub check_vulnerabilities :
      Str → ArtifactDetail → ScanOptions → Result (List Types.Result × Bool)
  unfolding scan_os_pkgs scan_library
  check_vulnerabilities target detail options = do
    found ←
        (if contains options.vuln_type vuln_type_os
          then context (str "unable to scan OS packages") (scan_os_pkgs target detail options)
          else ok (none, false))
    libs ←
        (if contains options.vuln_type vuln_type_library
          then context (str "failed to scan application libraries")
              (scan_library options detail.applications)
          else ok [])
    ok (to_results found.0 ++ libs, found.1)

  -- errors.Is(err, analyzer.ErrUnknownOS) or errors.Is(err, analyzer.ErrNoPkgsDetected) pass
  abbrev pub applied : Str → List Str → Result ArtifactDetail
  applied artifact_key blob_keys =
      let (detail, e) = s.apply_layers artifact_key blob_keys in
      elim e [
        | none ↦ ok detail
        | some x ↦
            if error_is is_unknown_os x
            then ok detail
            else if error_is is_no_pkgs_detected x
            then ok detail
            else context (str "failed to apply layers") (err x)
      ]

  -- artifactDetail.OS.Eosl = eosl
  abbrev pub with_eosl : Option Os → Bool → Option Os
  with_eosl none eosl = none
  with_eosl (some os) eosl = some (record os { eosl = eosl })

  -- The part of Scan for security checks of packages, and what stands without it.
  abbrev check_packages :
      Str → ArtifactDetail → ScanOptions → Result (List Types.Result × Option Os)
  check_packages target detail options = do
    checked ←
        context (str "failed to detect vulnerabilities")
          (check_vulnerabilities target detail options)
    let out : List Types.Result × Option Os = (checked.0, with_eosl detail.os checked.1)
    ok out

  abbrev unchecked : ArtifactDetail → Result (List Types.Result × Option Os)
  unchecked detail = ok ([], detail.os)

  -- Scanner.Scan
  unfoldable pub scan : Str → Str → List Str → ScanOptions → Result (List Types.Result × Option Os)
  unfolding check_vulnerabilities misconfs_to_results
  scan target artifact_key blob_keys options = do
    detail ← applied artifact_key blob_keys
    found ←
        (if contains options.security_checks security_check_vulnerability
          then check_packages target detail options
          else unchecked detail)
    let configs =
        if contains options.security_checks security_check_config
        then misconfs_to_results detail.misconfigurations
        else []
    ok (found.0 ++ configs, found.1)
