-- ===== src/Rpc/Messages.antt =====
-- The messages of rpc/common, rpc/scanner and rpc/cache. A pointer that may be nil is an Option; an
-- element of a repeated field is never nil. T stands for timestamps and W for values of protobuf.
use trivy.Base.{ℕ, Bool, List, Option}
use trivy.Base.Text.{Str}
use trivy.Base.Dict.{Dict}
use trivy.External.{Layer, Os, Cvss, DataSource}

-- common.Layer, common.OS, common.DataSource and common.CVSS have the fields of fanal's and
-- trivy-db's types.
pub record Package : Type 0 where
  pub name : Str
  pub version : Str
  pub release : Str
  pub epoch : ℕ
  pub arch : Str
  pub src_name : Str
  pub src_version : Str
  pub src_release : Str
  pub src_epoch : ℕ
  pub license : Str
  pub layer : Option Layer

pub record Library : Type 0 where
  pub name : Str
  pub version : Str
  pub license : Str

pub record Application : Type 0 where
  pub type : Str
  pub file_path : Str
  pub libraries : List Library

pub record PackageInfo : Type 0 where
  pub file_path : Str
  pub packages : List Package

pub record MisconfResult : Type 0 where
  pub namespace : Str
  pub message : Str
  pub type : Str
  pub id : Str
  pub title : Str
  pub severity : Str

pub record Misconfiguration : Type 0 where
  pub file_type : Str
  pub file_path : Str
  pub successes : List MisconfResult
  pub warnings : List MisconfResult
  pub failures : List MisconfResult
  pub exceptions : List MisconfResult

pub record DetectedMisconfiguration : Type 0 where
  pub type : Str
  pub id : Str
  pub title : Str
  pub description : Str
  pub message : Str
  pub namespace : Str
  pub resolution : Str
  pub severity : ℕ
  pub primary_url : Str
  pub references : List Str
  pub status : Str
  pub layer : Option Layer

pub record Vulnerability (T W : Type 0) : Type 0 where
  pub vulnerability_id : Str
  pub pkg_name : Str
  pub installed_version : Str
  pub fixed_version : Str
  pub title : Str
  pub description : Str
  pub severity : ℕ
  pub references : List Str
  pub layer : Option Layer
  pub severity_source : Str
  pub cvss : Dict Cvss
  pub cwe_ids : List Str
  pub primary_url : Str
  pub published_date : Option T
  pub last_modified_date : Option T
  pub custom_advisory_data : Option W
  pub custom_vuln_data : Option W
  pub vendor_ids : List Str
  pub data_source : Option DataSource

pub record CustomResource (W : Type 0) : Type 0 where
  pub type : Str
  pub file_path : Str
  pub layer : Layer
  pub resource_data : W

-- rpc/scanner
pub record ScanOptions : Type 0 where
  pub vuln_type : List Str
  pub security_checks : List Str
  pub list_all_packages : Bool

pub record ScanRequest : Type 0 where
  pub target : Str
  pub artifact_id : Str
  pub blob_ids : List Str
  pub options : ScanOptions

pub record Result (T W : Type 0) : Type 0 where
  pub target : Str
  pub vulnerabilities : List (Vulnerability T W)
  pub misconfigurations : List DetectedMisconfiguration
  pub class : Str
  pub type : Str
  pub packages : List Package
  pub custom_resources : List (CustomResource W)

pub record ScanResponse (T W : Type 0) : Type 0 where
  pub os : Option Os
  pub results : List (Result T W)

-- rpc/cache
pub record ArtifactInfo (T : Type 0) : Type 0 where
  pub schema_version : ℕ
  pub architecture : Str
  pub created : Option T
  pub docker_version : Str
  pub os : Str
  pub history_packages : List Package

pub record PutArtifactRequest (T : Type 0) : Type 0 where
  pub artifact_id : Str
  pub artifact_info : Option (ArtifactInfo T)

pub record BlobInfo (W : Type 0) : Type 0 where
  pub schema_version : ℕ
  pub os : Option Os
  pub package_infos : List PackageInfo
  pub applications : List Application
  pub misconfigurations : List Misconfiguration
  pub opaque_dirs : List Str
  pub whiteout_files : List Str
  pub digest : Str
  pub diff_id : Str
  pub custom_resources : List (CustomResource W)

pub record PutBlobRequest (W : Type 0) : Type 0 where
  pub diff_id : Str
  pub blob_info : Option (BlobInfo W)

pub record MissingBlobsRequest : Type 0 where
  pub artifact_id : Str
  pub blob_ids : List Str

pub record MissingBlobsResponse : Type 0 where
  pub missing_artifact : Bool
  pub missing_blob_ids : List Str
