-- ===== src/External.antt =====
-- The data and the functions of the packages that the program imports and that are not in this
-- repository: fanal (types of packages, applications, layers) and trivy-db (advisories, severities).
-- A record has the fields that the program reads or writes; a function is a field of an interface,
-- which the definitions that call it take as an argument.
use trivy.Base.{ℕ, ◌≡◌, Bool, List, [], Option, none, compare, Ordering}
use trivy.Base.Text.{Str}
use trivy.Base.Dict.{Dict}

-- fanal's types.Layer
pub record Layer : Type 0 where
  pub digest : Str
  pub diff_id : Str

abbrev pub no_layer : Layer
no_layer = record { digest = []; diff_id = [] }

pub record BuildInfo : Type 0 where
  pub content_sets : List Str
  pub nvr : Str
  pub arch : Str

-- fanal's types.Package. An epoch is an int, given by the pattern of its 64 bits; where it is printed
-- it is not negative.
pub record Package : Type 0 where
  pub name : Str
  pub version : Str
  pub release : Str
  pub epoch : ℕ
  pub arch : Str
  pub src_name : Str
  pub src_version : Str
  pub src_release : Str
  pub src_epoch : ℕ
  pub modularitylabel : Str
  pub build_info : Option BuildInfo
  pub license : Str
  pub layer : Layer
  pub file_path : Str

-- fanal's types.Application
pub record Application : Type 0 where
  pub type : Str
  pub file_path : Str
  pub libraries : List Package

-- fanal's types.OS
pub record Os : Type 0 where
  pub family : Str
  pub name : Str
  pub eosl : Bool

-- fanal's types.MisconfResult
pub record MisconfResult : Type 0 where
  pub namespace : Str
  pub query : Str
  pub message : Str
  pub id : Str
  pub type : Str
  pub title : Str
  pub description : Str
  pub severity : Str
  pub recommended_actions : Str
  pub references : List Str
  pub traces : List Str
  pub resource : Str
  pub provider : Str
  pub service : Str
  pub start_line : ℕ
  pub end_line : ℕ

-- fanal's types.Misconfiguration
pub record Misconfiguration : Type 0 where
  pub file_type : Str
  pub file_path : Str
  pub successes : List MisconfResult
  pub warnings : List MisconfResult
  pub failures : List MisconfResult
  pub exceptions : List MisconfResult
  pub layer : Layer

-- A value of type interface{} in a resource: plain data, or a message of protobuf, as a text.
pub data Any : Type 0 where
  plain message : Str → Any

-- fanal's types.CustomResource
pub record CustomResource : Type 0 where
  pub type : Str
  pub file_path : Str
  pub layer : Layer
  pub resource_data : Any

-- fanal's types.PackageInfo
pub record PackageInfo : Type 0 where
  pub file_path : Str
  pub packages : List Package

-- fanal's types.ArtifactInfo
pub record ArtifactInfo : Type 0 where
  pub schema_version : ℕ
  pub architecture : Str
  pub created : ℕ
  pub docker_version : Str
  pub os : Str
  pub history_packages : List Package

-- fanal's types.BlobInfo
pub record BlobInfo : Type 0 where
  pub schema_version : ℕ
  pub digest : Str
  pub diff_id : Str
  pub os : Option Os
  pub package_infos : List PackageInfo
  pub applications : List Application
  pub misconfigurations : List Misconfiguration
  pub opaque_dirs : List Str
  pub whiteout_files : List Str
  pub custom_resources : List CustomResource

-- fanal's types.ArtifactDetail
pub record ArtifactDetail : Type 0 where
  pub os : Option Os
  pub packages : List Package
  pub applications : List Application
  pub misconfigurations : List Misconfiguration
  pub history_packages : List Package

-- trivy-db's types.DataSource
pub record DataSource : Type 0 where
  pub id : Str
  pub name : Str
  pub url : Str

-- trivy-db's types.Severity is an integer.
abbrev pub Severity : Type 0
Severity = ℕ

-- A value of type interface{} that is only passed on, as a text, or nil.
abbrev pub Custom : Type 0
Custom = Option Str

-- trivy-db's types.Advisory
pub record Advisory : Type 0 where
  pub vulnerability_id : Str
  pub vendor_ids : List Str
  pub severity : Severity
  pub fixed_version : Str
  pub affected_version : Str
  pub vulnerable_versions : List Str
  pub patched_versions : List Str
  pub unaffected_versions : List Str
  pub data_source : Option DataSource
  pub custom : Custom

-- trivy-db's types.CVSS. A score is only passed on, as a text.
pub record Cvss : Type 0 where
  pub v2_vector : Str
  pub v3_vector : Str
  pub v2_score : Str
  pub v3_score : Str

-- trivy-db's types.Vulnerability
pub record Vulnerability : Type 0 where
  pub title : Str
  pub description : Str
  pub severity : Str
  pub cwe_ids : List Str
  pub vendor_severity : Dict Severity
  pub cvss : Dict Cvss
  pub references : List Str
  pub published_date : Option ℕ
  pub last_modified_date : Option ℕ
  pub custom : Custom

abbrev pub no_vulnerability : Vulnerability
no_vulnerability = record {
  title = [];
  description = [];
  severity = [];
  cwe_ids = [];
  vendor_severity = [];
  cvss = [];
  references = [];
  published_date = none;
  last_modified_date = none;
  custom = none;
}

-- trivy-db's severities: three of its constants, Severity.String, NewSeverity (`none` on an error)
-- and the sign of CompareSeverityString.
pub record Severities : Type 0 where
  pub unknown : Severity
  pub medium : Severity
  pub critical : Severity
  pub to_string : Severity → Str
  pub new_severity : Str → Option Severity
  pub compare_severity_string : Str → Str → Ordering

-- CompareSeverityString compares the ranks of two severities, the higher rank first.
pub record IsRanked (db : Severities) : Type 0 where
  pub rank : Str → ℕ
  pub ranked : (s t : Str) → db.compare_severity_string s t ≡ compare (rank t) (rank s)

-- trivy-db's source identifiers, vulnerability.Debian and so on.
pub record SourceIds : Type 0 where
  pub nvd : Str
  pub debian : Str
  pub ubuntu : Str
  pub red_hat : Str
  pub suse_cvrf : Str
  pub oracle_oval : Str
  pub nodejs_security_wg : Str
  pub ruby_sec : Str
