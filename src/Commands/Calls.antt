-- ===== src/Commands/Calls.antt =====
-- pkg/commands/artifact/run.go: the options that it reads, and what it calls.
use trivy.Base.{ℕ, Bool, List}
use trivy.Base.Text.{Str}
use trivy.Base.Result.{Result}
use trivy.Types
use trivy.Types.{DetectedVulnerability, DetectedMisconfiguration}
use trivy.Scanner.{Report}
use trivy.ResultClient.Filter.{Filtered}
use trivy.Commands.Action.{Done}

-- The options that run.go reads, from the parts of Option.
pub record Options : Type 0 where
  pub remote_addr : Str
  pub custom_headers : List (Str × Str)
  pub insecure : Bool
  pub target : Str
  pub input : Str
  pub reset : Bool
  pub clear_cache : Bool
  pub download_db_only : Bool
  pub skip_db_update : Bool
  pub skip_policy_update : Bool
  pub quiet : Bool
  pub no_progress : Bool
  pub offline_scan : Bool
  pub skip_files : List Str
  pub skip_dirs : List Str
  pub vuln_type : List Str
  pub security_checks : List Str
  pub scan_removed_pkgs : Bool
  pub list_all_pkgs : Bool
  pub disabled_analyzers : List Str
  pub trace : Bool
  pub policy_namespaces : List Str
  pub policy_paths : List Str
  pub data_paths : List Str
  pub file_patterns : List Str
  pub exit_code : ℕ

-- config.ScannerOption and artifact.Option of fanal
pub record ConfigScannerOption : Type 0 where
  pub trace : Bool
  pub namespaces : List Str
  pub policy_paths : List Str
  pub data_paths : List Str
  pub file_patterns : List Str

pub record ArtifactOption : Type 0 where
  pub disabled_analyzers : List Str
  pub skip_files : List Str
  pub skip_dirs : List Str
  pub insecure_skip_tls : Bool
  pub offline : Bool
  pub no_progress : Bool

-- scannerConfig, without the caches
pub record ScannerConfig : Type 0 where
  pub target : Str
  pub remote_url : Str
  pub custom_headers : List (Str × Str)
  pub insecure : Bool
  pub artifact_option : ArtifactOption
  pub misconf_option : ConfigScannerOption

-- What a run calls, on a state S of files: log.InitLogger, operation.NewCache, ClearDB and
-- ClearArtifacts, DownloadDB, db.Init, InitBuiltinPolicies, the initialization of a scanner with its
-- ScanArtifact and its cleanup, the result client with the filters of the options, and the report's Write; and fanal's
-- types of analyzers.
pub record Calls (S : Type 0) : Type 0 where
  pub init_logger : Result Done
  pub new_cache : S → S × Result Done
  pub clear_db : S → S × Result Done
  pub clear_artifacts : S → S × Result Done
  pub download_db : Bool → S → S × Result Done
  pub init_db : S → S × Result Done
  pub init_builtin_policies : Bool → S → S × Result (List Str)
  pub initialize_scanner :
      ScannerConfig → S → S × Result (Types.ScanOptions → S → S × Result Report)
  pub fill : List DetectedVulnerability → Str → List DetectedVulnerability
  pub filter : List DetectedVulnerability → List DetectedMisconfiguration → Result Filtered
  pub write : Report → S → S × Result Done
  pub apk_command : Str
  pub languages : List Str
