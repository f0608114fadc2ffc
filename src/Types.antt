-- ===== src/Types.antt =====
-- pkg/types: what a scan reports, and the order of the report.
pub mod Order
use trivy.Base.{
  ℕ, Bool, true, false, not, ◌&&◌, ◌||◌, List, [], ◌∷◌, Option, none, if◌then◌else◌, eqb, ltb, any,
  length, Ordering,
}
use trivy.Base.Text.{Str, str, ◌==◌, contains}
use trivy.Base.TextOrder.{lt}
use trivy.External.{
  no_layer, no_vulnerability, Layer, Package, DataSource, Custom, Vulnerability, CustomResource,
  Severities,
}

-- vulnerability.go
pub record DetectedVulnerability : Type 0 where
  pub vulnerability_id : Str
  pub vendor_ids : List Str
  pub pkg_name : Str
  pub pkg_path : Str
  pub installed_version : Str
  pub fixed_version : Str
  pub layer : Layer
  pub severity_source : Str
  pub primary_url : Str
  pub data_source : Option DataSource
  pub custom : Custom
  -- the embedded details
  pub vulnerability : Vulnerability
  pub open vulnerability use {severity}

-- DetectedVulnerability{}
abbrev pub no_detected : DetectedVulnerability
no_detected = record {
  vulnerability_id = [];
  vendor_ids = [];
  pkg_name = [];
  pkg_path = [];
  installed_version = [];
  fixed_version = [];
  layer = no_layer;
  severity_source = [];
  primary_url = [];
  data_source = none;
  custom = none;
  vulnerability = no_vulnerability;
}

-- vuln.Severity = s
abbrev pub with_severity : DetectedVulnerability → Str → DetectedVulnerability
with_severity v s = record v { vulnerability = record (v.vulnerability) { severity = s } }

-- BySeverity.Less
unfoldable pub by_severity_less : Severities → DetectedVulnerability → DetectedVulnerability → Bool
by_severity_less db a b =
    if not (a.pkg_name == b.pkg_name)
    then lt a.pkg_name b.pkg_name
    else if not (a.installed_version == b.installed_version)
    then lt a.installed_version b.installed_version
    else elim (db.compare_severity_string b.severity a.severity) [
      | Ordering.gt ↦ true
      | Ordering.lt ↦ false
      | Ordering.eq ↦ lt a.vulnerability_id b.vulnerability_id
    ]

-- misconfiguration.go
abbrev pub MisconfStatus : Type 0
MisconfStatus = Str

abbrev pub status_passed : MisconfStatus
status_passed = str "PASS"

abbrev pub status_failure : MisconfStatus
status_failure = str "FAIL"

abbrev pub status_exception : MisconfStatus
status_exception = str "EXCEPTION"

pub record IacMetadata : Type 0 where
  pub resource : Str
  pub provider : Str
  pub service : Str
  pub start_line : ℕ
  pub end_line : ℕ

pub record DetectedMisconfiguration : Type 0 where
  pub type : Str
  pub id : Str
  pub title : Str
  pub description : Str
  pub message : Str
  pub namespace : Str
  pub query : Str
  pub resolution : Str
  pub severity : Str
  pub primary_url : Str
  pub references : List Str
  pub status : MisconfStatus
  pub layer : Layer
  pub iac_metadata : IacMetadata
  pub traces : List Str

-- report.go
pub record MisconfSummary : Type 0 where
  pub successes : ℕ
  pub failures : ℕ
  pub exceptions : ℕ

-- MisconfSummary.Empty
unfoldable pub is_empty : MisconfSummary → Bool
is_empty s = eqb s.successes 0 && eqb s.failures 0 && eqb s.exceptions 0

pub record Result : Type 0 where
  pub target : Str
  pub class : Str
  pub type : Str
  pub packages : List Package
  pub vulnerabilities : List DetectedVulnerability
  pub misconf_summary : Option MisconfSummary
  pub misconfigurations : List DetectedMisconfiguration
  pub custom_resources : List CustomResource

abbrev pub class_os_pkg : Str
class_os_pkg = str "os-pkgs"

abbrev pub class_lang_pkg : Str
class_lang_pkg = str "lang-pkgs"

abbrev pub class_config : Str
class_config = str "config"

-- Results.Failed
unfoldable pub failed : List Result → Bool
failed [] = false
failed (r ∷ rs) =
    ltb 0 (length r.vulnerabilities)
    || any (λ m. m.status == status_failure) r.misconfigurations
    || failed rs

-- target.go
abbrev pub vuln_type_unknown : Str
vuln_type_unknown = str "unknown"

abbrev pub vuln_type_os : Str
vuln_type_os = str "os"

abbrev pub vuln_type_library : Str
vuln_type_library = str "library"

abbrev pub security_check_unknown : Str
security_check_unknown = str "unknown"

abbrev pub security_check_vulnerability : Str
security_check_vulnerability = str "vuln"

abbrev pub security_check_config : Str
security_check_config = str "config"

-- NewVulnType
unfoldable pub new_vuln_type : Str → Str
unfolding contains
new_vuln_type s =
    if contains (vuln_type_os ∷ vuln_type_library ∷ []) s then s else vuln_type_unknown

-- NewSecurityCheck
unfoldable pub new_security_check : Str → Str
unfolding contains
new_security_check s =
    if contains (security_check_vulnerability ∷ security_check_config ∷ []) s
    then s
    else security_check_unknown

-- scanoptions.go
pub record ScanOptions : Type 0 where
  pub vuln_type : List Str
  pub security_checks : List Str
  pub scan_removed_packages : Bool
  pub list_all_packages : Bool
