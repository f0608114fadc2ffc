-- ===== src/Rpc/Convert/Results.antt =====
-- pkg/rpc/convert.go: the results of a scan.
use trivy.Base.{ℕ, List, [], Option, none, some, map}
use trivy.Base.Text.{Str}
use trivy.External
use trivy.External.{
  Any, no_vulnerability, Layer, Os, Any, plain, message, Cvss, DataSource, Custom, Severity,
  Severities,
}
use trivy.Types
use trivy.Types.{DetectedVulnerability, no_detected, MisconfStatus}
use trivy.Rpc.Messages
use trivy.Rpc.Convert.{
  convert_to_rpc_layer, convert_from_rpc_layer, convert_to_rpc_os, convert_to_rpc_data_source,
  convert_from_rpc_data_source, convert_to_rpc_pkgs, convert_from_rpc_pkgs,
}

-- ptypes.TimestampProto (`none` on an error) and ptypes.Timestamp; structpb.NewValue (`none` on an
-- error) of a text and of any data, AsInterface and the text of a value; the name that rpc/common has for a severity; and
-- trivy-db's severities, where NewSeverity gives SeverityUnknown with an error.
pub record Protobuf (T W : Type 0) : Type 0 where
  pub timestamp_proto : ℕ → Option T
  pub timestamp : Option T → ℕ
  pub new_value : Str → Option W
  pub new_any : Any → Option W
  pub as_interface : Option W → Custom
  pub value_text : W → Str
  pub severity_string : ℕ → Str
  pub db : Severities

module _ {T W : Type 0} (pb : Protobuf T W) where
  -- severity, err := dbTypes.NewSeverity(…), as a number of the message
  unfoldable pub to_severity : Str → ℕ
  to_severity severity = elim (pb.db.new_severity severity) [ none ↦ pb.db.unknown | some s ↦ s ]

  abbrev pub to_date : Option ℕ → Option T
  to_date none = none
  to_date (some t) = pb.timestamp_proto t

  abbrev pub from_date : Option T → Option ℕ
  from_date none = none
  from_date (some ts) = some (pb.timestamp (some ts))

  abbrev pub to_custom : Custom → Option W
  to_custom none = none
  to_custom (some v) = pb.new_value v

  -- One entry of the loop over vuln.CVSS, in either direction.
  abbrev pub convert_cvss : Str × Cvss → Str × Cvss
  convert_cvss (vendor, c) = (
    vendor,
    record {
      v2_vector = c.v2_vector;
      v3_vector = c.v3_vector;
      v2_score = c.v2_score;
      v3_score = c.v3_score;
    },
  )

  unfoldable pub to_vuln : DetectedVulnerability → Messages.Vulnerability T W
  unfolding to_severity convert_to_rpc_layer convert_to_rpc_data_source
  to_vuln vuln =
      let d = vuln.vulnerability in
      record {
        vulnerability_id = vuln.vulnerability_id;
        vendor_ids = vuln.vendor_ids;
        pkg_name = vuln.pkg_name;
        installed_version = vuln.installed_version;
        fixed_version = vuln.fixed_version;
        title = d.title;
        description = d.description;
        severity = to_severity d.severity;
        references = d.references;
        layer = convert_to_rpc_layer vuln.layer;
        cvss = map convert_cvss d.cvss;
        severity_source = vuln.severity_source;
        cwe_ids = d.cwe_ids;
        primary_url = vuln.primary_url;
        last_modified_date = to_date d.last_modified_date;
        published_date = to_date d.published_date;
        custom_advisory_data = to_custom vuln.custom;
        custom_vuln_data = to_custom d.custom;
        data_source = convert_to_rpc_data_source vuln.data_source;
      }

  unfoldable pub convert_to_rpc_vulns :
      List DetectedVulnerability → List (Messages.Vulnerability T W)
  unfolding to_vuln
  convert_to_rpc_vulns vulns = map to_vuln vulns

  unfoldable pub from_vuln : Messages.Vulnerability T W → DetectedVulnerability
  unfolding convert_from_rpc_layer convert_from_rpc_data_source
  from_vuln vuln = record no_detected {
    vulnerability_id = vuln.vulnerability_id;
    vendor_ids = vuln.vendor_ids;
    pkg_name = vuln.pkg_name;
    installed_version = vuln.installed_version;
    fixed_version = vuln.fixed_version;
    vulnerability = record no_vulnerability {
      title = vuln.title;
      description = vuln.description;
      severity = pb.db.to_string vuln.severity;
      cvss = map convert_cvss vuln.cvss;
      references = vuln.references;
      cwe_ids = vuln.cwe_ids;
      last_modified_date = from_date vuln.last_modified_date;
      published_date = from_date vuln.published_date;
      custom = pb.as_interface vuln.custom_vuln_data;
    };
    layer = convert_from_rpc_layer vuln.layer;
    severity_source = vuln.severity_source;
    primary_url = vuln.primary_url;
    custom = pb.as_interface vuln.custom_advisory_data;
    data_source = convert_from_rpc_data_source vuln.data_source;
  }

  unfoldable pub convert_from_rpc_vulns :
      List (Messages.Vulnerability T W) → List DetectedVulnerability
  unfolding from_vuln
  convert_from_rpc_vulns vulns = map from_vuln vulns

  unfoldable pub to_misconf : Types.DetectedMisconfiguration → Messages.DetectedMisconfiguration
  unfolding to_severity convert_to_rpc_layer
  to_misconf m = record {
    type = m.type;
    id = m.id;
    title = m.title;
    description = m.description;
    message = m.message;
    namespace = m.namespace;
    resolution = m.resolution;
    severity = to_severity m.severity;
    primary_url = m.primary_url;
    references = m.references;
    status = m.status;
    layer = convert_to_rpc_layer m.layer;
  }

  unfoldable pub convert_to_rpc_misconfs :
      List Types.DetectedMisconfiguration → List Messages.DetectedMisconfiguration
  unfolding to_misconf
  convert_to_rpc_misconfs misconfs = map to_misconf misconfs

  -- IacMetadata{}
  abbrev pub no_iac_metadata : Types.IacMetadata
  no_iac_metadata = record {
    resource = [];
    provider = [];
    service = [];
    start_line = 0;
    end_line = 0;
  }

  unfoldable pub from_misconf : Messages.DetectedMisconfiguration → Types.DetectedMisconfiguration
  unfolding convert_from_rpc_layer
  from_misconf m = record {
    type = m.type;
    id = m.id;
    title = m.title;
    description = m.description;
    message = m.message;
    namespace = m.namespace;
    query = [];
    resolution = m.resolution;
    severity = pb.severity_string m.severity;
    primary_url = m.primary_url;
    references = m.references;
    status = m.status;
    layer = convert_from_rpc_layer m.layer;
    iac_metadata = no_iac_metadata;
    traces = [];
  }

  unfoldable pub convert_from_rpc_misconfs :
      List Messages.DetectedMisconfiguration → List Types.DetectedMisconfiguration
  unfolding from_misconf
  convert_from_rpc_misconfs misconfs = map from_misconf misconfs

  -- The data of a resource stays the message.
  abbrev pub from_custom_resource : Messages.CustomResource W → External.CustomResource
  from_custom_resource res = record {
    type = res.type;
    file_path = res.file_path;
    layer = record { digest = res.layer.digest; diff_id = res.layer.diff_id };
    resource_data = message (pb.value_text res.resource_data);
  }

  unfoldable pub convert_from_rpc_custom_resources :
      List (Messages.CustomResource W) → List External.CustomResource
  convert_from_rpc_custom_resources resources = map from_custom_resource resources

  unfoldable pub to_result : Types.Result → Messages.Result T W
  unfolding convert_to_rpc_vulns convert_to_rpc_misconfs convert_to_rpc_pkgs
  to_result result = record {
    target = result.target;
    class = result.class;
    type = result.type;
    vulnerabilities = convert_to_rpc_vulns result.vulnerabilities;
    misconfigurations = convert_to_rpc_misconfs result.misconfigurations;
    packages = convert_to_rpc_pkgs result.packages;
    custom_resources = [];
  }

  unfoldable pub convert_to_rpc_scan_response :
      List Types.Result → Option Os → Messages.ScanResponse T W
  unfolding to_result convert_to_rpc_os
  convert_to_rpc_scan_response results os = record {
    os = convert_to_rpc_os os;
    results = map to_result results;
  }

  unfoldable pub from_result : Messages.Result T W → Types.Result
  unfolding convert_from_rpc_vulns convert_from_rpc_misconfs convert_from_rpc_pkgs
      convert_from_rpc_custom_resources
  from_result result = record {
    target = result.target;
    vulnerabilities = convert_from_rpc_vulns result.vulnerabilities;
    misconfigurations = convert_from_rpc_misconfs result.misconfigurations;
    misconf_summary = none;
    class = result.class;
    type = result.type;
    packages = convert_from_rpc_pkgs result.packages;
    custom_resources = convert_from_rpc_custom_resources result.custom_resources;
  }

  unfoldable pub convert_from_rpc_results : List (Messages.Result T W) → List Types.Result
  unfolding from_result
  convert_from_rpc_results results = map from_result results
