-- ===== src/Rpc/Convert.antt =====
-- pkg/rpc/convert.go: the conversions to and from the messages. A loop that appends one element in
-- each round is `map`.
pub mod Results
pub mod Requests
pub mod Laws
pub mod Blobs
use trivy.Base.{ℕ, ◌+◌, ◌-◌, ◌%◌, List, [], Option, none, some, map, if◌then◌else◌, ltb}
use trivy.Base.Text.{Str}
use trivy.External
use trivy.External.{
  Layer, no_layer, no_vulnerability, Os, Any, plain, message, Cvss, DataSource, Custom, Severity,
  Severities,
}
use trivy.Rpc.Messages

-- int32(n) and int(w), on the patterns of 64 and 32 bits
unfoldable pub to_int32 : ℕ → ℕ
to_int32 n = n % 4_294_967_296

unfoldable pub from_int32 : ℕ → ℕ
from_int32 w = if ltb w 2_147_483_648 then w else w + (18_446_744_073_709_551_616 - 4_294_967_296)

-- A message is optional, but the conversion always makes one.
unfoldable pub convert_to_rpc_layer : Layer → Option Layer
convert_to_rpc_layer layer = some (record { digest = layer.digest; diff_id = layer.diff_id })

unfoldable pub convert_from_rpc_layer : Option Layer → Layer
convert_from_rpc_layer none = no_layer
convert_from_rpc_layer (some layer) = record { digest = layer.digest; diff_id = layer.diff_id }

unfoldable pub convert_to_rpc_os : Option Os → Option Os
convert_to_rpc_os none = none
convert_to_rpc_os (some os) = some (record { family = os.family; name = os.name; eosl = os.eosl })

unfoldable pub convert_from_rpc_os : Option Os → Option Os
convert_from_rpc_os none = none
convert_from_rpc_os (some os) = some (record { family = os.family; name = os.name; eosl = os.eosl })

unfoldable pub convert_to_rpc_data_source : Option DataSource → Option DataSource
convert_to_rpc_data_source none = none
convert_to_rpc_data_source (some ds) = some (record { id = ds.id; name = ds.name; url = ds.url })

unfoldable pub convert_from_rpc_data_source : Option DataSource → Option DataSource
convert_from_rpc_data_source none = none
convert_from_rpc_data_source (some ds) = some (record { id = ds.id; name = ds.name; url = ds.url })

unfoldable pub to_pkg : External.Package → Messages.Package
unfolding to_int32 convert_to_rpc_layer
to_pkg pkg = record {
  name = pkg.name;
  version = pkg.version;
  release = pkg.release;
  epoch = to_int32 pkg.epoch;
  arch = pkg.arch;
  src_name = pkg.src_name;
  src_version = pkg.src_version;
  src_release = pkg.src_release;
  src_epoch = to_int32 pkg.src_epoch;
  license = pkg.license;
  layer = convert_to_rpc_layer pkg.layer;
}

unfoldable pub convert_to_rpc_pkgs : List External.Package → List Messages.Package
unfolding to_pkg
convert_to_rpc_pkgs pkgs = map to_pkg pkgs

-- Package{}
abbrev pub no_package : External.Package
no_package = record {
  name = [];
  version = [];
  release = [];
  epoch = 0;
  arch = [];
  src_name = [];
  src_version = [];
  src_release = [];
  src_epoch = 0;
  modularitylabel = [];
  build_info = none;
  license = [];
  layer = no_layer;
  file_path = [];
}

unfoldable pub from_pkg : Messages.Package → External.Package
unfolding from_int32 convert_from_rpc_layer
from_pkg pkg = record no_package {
  name = pkg.name;
  version = pkg.version;
  release = pkg.release;
  epoch = from_int32 pkg.epoch;
  arch = pkg.arch;
  src_name = pkg.src_name;
  src_version = pkg.src_version;
  src_release = pkg.src_release;
  src_epoch = from_int32 pkg.src_epoch;
  license = pkg.license;
  layer = convert_from_rpc_layer pkg.layer;
}

unfoldable pub convert_from_rpc_pkgs : List Messages.Package → List External.Package
unfolding from_pkg
convert_from_rpc_pkgs pkgs = map from_pkg pkgs

abbrev pub from_library : Messages.Library → External.Package
from_library l = record no_package { name = l.name; version = l.version; license = l.license }

unfoldable pub convert_from_rpc_libraries : List Messages.Library → List External.Package
convert_from_rpc_libraries libs = map from_library libs

-- The inner loop of ConvertToRPCBlobInfo over the libraries of an application; go-dep-parser's
-- Library, which ConvertToRPCLibraries takes, has these fields of a package.
abbrev pub to_library : External.Package → Messages.Library
to_library lib = record { name = lib.name; version = lib.version; license = lib.license }

unfoldable pub to_application : External.Application → Messages.Application
to_application app = record {
  type = app.type;
  file_path = app.file_path;
  libraries = map to_library app.libraries;
}

abbrev pub from_application : Messages.Application → External.Application
from_application app = record {
  type = app.type;
  file_path = app.file_path;
  libraries = convert_from_rpc_libraries app.libraries;
}

unfoldable pub convert_from_rpc_applications : List Messages.Application → List External.Application
unfolding convert_from_rpc_libraries
convert_from_rpc_applications apps = map from_application apps

abbrev pub to_package_info : External.PackageInfo → Messages.PackageInfo
to_package_info info = record {
  file_path = info.file_path;
  packages = convert_to_rpc_pkgs info.packages;
}

abbrev pub from_package_info : Messages.PackageInfo → External.PackageInfo
from_package_info info = record {
  file_path = info.file_path;
  packages = convert_from_rpc_pkgs info.packages;
}

unfoldable pub convert_from_rpc_package_infos :
    List Messages.PackageInfo → List External.PackageInfo
unfolding convert_from_rpc_pkgs
convert_from_rpc_package_infos infos = map from_package_info infos

abbrev pub to_misconf_result : External.MisconfResult → Messages.MisconfResult
to_misconf_result r = record {
  namespace = r.namespace;
  message = r.message;
  id = r.id;
  type = r.type;
  title = r.title;
  severity = r.severity;
}

unfoldable pub convert_to_misconf_results :
    List External.MisconfResult → List Messages.MisconfResult
convert_to_misconf_results results = map to_misconf_result results

-- MisconfResult{}
abbrev pub no_misconf_result : External.MisconfResult
no_misconf_result = record {
  namespace = [];
  query = [];
  message = [];
  id = [];
  type = [];
  title = [];
  description = [];
  severity = [];
  recommended_actions = [];
  references = [];
  traces = [];
  resource = [];
  provider = [];
  service = [];
  start_line = 0;
  end_line = 0;
}

abbrev pub from_misconf_result : Messages.MisconfResult → External.MisconfResult
from_misconf_result r = record no_misconf_result {
  namespace = r.namespace;
  message = r.message;
  id = r.id;
  type = r.type;
  title = r.title;
  severity = r.severity;
}

unfoldable pub convert_from_rpc_misconf_results :
    List Messages.MisconfResult → List External.MisconfResult
convert_from_rpc_misconf_results results = map from_misconf_result results

unfoldable pub to_misconfiguration : External.Misconfiguration → Messages.Misconfiguration
unfolding convert_to_misconf_results
to_misconfiguration m = record {
  file_type = m.file_type;
  file_path = m.file_path;
  successes = convert_to_misconf_results m.successes;
  warnings = convert_to_misconf_results m.warnings;
  failures = convert_to_misconf_results m.failures;
  exceptions = convert_to_misconf_results m.exceptions;
}

abbrev pub from_misconfiguration : Messages.Misconfiguration → External.Misconfiguration
from_misconfiguration m = record {
  file_type = m.file_type;
  file_path = m.file_path;
  successes = convert_from_rpc_misconf_results m.successes;
  warnings = convert_from_rpc_misconf_results m.warnings;
  failures = convert_from_rpc_misconf_results m.failures;
  exceptions = convert_from_rpc_misconf_results m.exceptions;
  layer = no_layer;
}

unfoldable pub convert_from_rpc_misconfigurations :
    List Messages.Misconfiguration → List External.Misconfiguration
unfolding convert_from_rpc_misconf_results
convert_from_rpc_misconfigurations misconfs = map from_misconfiguration misconfs

unfoldable pub convert_to_missing_blobs_request : Str → List Str → Messages.MissingBlobsRequest
convert_to_missing_blobs_request image_id layer_ids = record {
  artifact_id = image_id;
  blob_ids = layer_ids;
}
