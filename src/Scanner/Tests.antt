-- ===== src/Scanner/Tests.antt =====
-- The theorems on scans at concrete artifacts.
use trivy.Base.{◌≡◌, refl, [], ◌∷◌, none, some, true, false}
use trivy.Base.Text.{str, ◌==◌, contains, Str}
use trivy.Base.Result.{ok}
use trivy.External.{MisconfResult, Misconfiguration, Package, ArtifactDetail, Os, no_layer}
use trivy.Types
use trivy.Types.{ScanOptions, DetectedVulnerability}
use trivy.Samples.{installed_package, severities, bash_high}
use trivy.Scanner.{ArtifactReference, scan_artifact, remove_layer, without_layer}
use trivy.Scanner.Layers.{HasNoLayer, scan_artifact-HasNoLayer, report_of}
use trivy.Scanner.Local
use trivy.Scanner.Local.{
  merge_pkgs, not_named, scan_os_pkgs, scan, os_result, detect_vulns_in_os_pkgs,
  check_vulnerabilities, misconfs_to_results, scan_library,
}
use trivy.Scanner.Local.{misconf_result}
use trivy.Scanner.Local.Statuses.{status_count, misconf_result-status_count}
use trivy.Types.{status_failure, status_passed, status_exception}
use trivy.Scanner.Local.Classes.{IsRequested, scan-IsRequested}
use mathlib.Core.List.{Memᴰ}

abbrev bash : Package
bash = installed_package (str "bash") (str "5.0") []

abbrev plan9 : Os
plan9 = record { family = str "plan9"; name = str "4"; eosl = false }

abbrev detail : ArtifactDetail
detail = record {
  os = some plan9;
  packages = bash ∷ [];
  applications = [];
  misconfigurations = [];
  history_packages = [];
}

abbrev options : ScanOptions
options = record {
  vuln_type = str "os" ∷ [];
  security_checks = str "vuln" ∷ [];
  scan_removed_packages = false;
  list_all_packages = false;
}

abbrev local_scanner : Local.Scanner
local_scanner = record {
  apply_layers = λ key blobs. (detail, none);
  detect_os = λ family name pkgs. ok (bash_high ∷ [], true);
  detect_library = λ type pkgs. ok [];
  sort_results = λ rs. rs;
  sort_packages = λ ps. ps;
  db = severities;
  pkg_targets = [];
}

abbrev bash_result : Types.Result
bash_result = os_result local_scanner (str "image") (str "plan9") (str "4") (bash_high ∷ [])

scan-IsRequested_example : IsRequested local_scanner options bash_result
unfolding scan check_vulnerabilities misconfs_to_results scan_library scan_os_pkgs
    detect_vulns_in_os_pkgs contains ◌==◌
scan-IsRequested_example =
    scan-IsRequested local_scanner (λ rs r m. m) (str "image") (str "key") [] options
      {rs = bash_result ∷ []} {os = some (record plan9 { eosl = true })} refl bash_result
      (Memᴰ.head refl)

abbrev info : ArtifactReference
info = record {
  name = str "dir";
  type = str "filesystem";
  id = [];
  blob_ids = [];
  image_id = [];
  diff_ids = [];
  repo_tags = [];
  repo_digests = [];
}

abbrev scanner : trivy.Scanner.Scanner
scanner = record {
  inspect = ok info;
  scan = λ target key blobs options. ok (bash_result ∷ [], none);
  container_image = str "container_image";
}

scan_artifact-HasNoLayer_example : HasNoLayer (without_layer bash_result)
unfolding scan_artifact remove_layer ◌==◌
scan_artifact-HasNoLayer_example =
    scan_artifact-HasNoLayer scanner options info
      {report = report_of info none (without_layer bash_result ∷ [])} refl refl refl
      (without_layer bash_result) (Memᴰ.head refl)

abbrev misconf_of : Str → MisconfResult
misconf_of id = record {
  namespace = [];
  query = [];
  message = [];
  id = id;
  type = [];
  title = [];
  description = [];
  severity = str "HIGH";
  recommended_actions = [];
  references = [];
  traces = [];
  resource = [];
  provider = [];
  service = [];
  start_line = 0;
  end_line = 0;
}

abbrev dockerfile : Misconfiguration
dockerfile = record {
  file_type = str "dockerfile";
  file_path = str "Dockerfile";
  successes = misconf_of (str "DS001") ∷ [];
  warnings = misconf_of (str "DS002") ∷ [];
  failures = misconf_of (str "DS003") ∷ misconf_of (str "DS004") ∷ [];
  exceptions = [];
  layer = no_layer;
}

misconf_result-status_count_example :
    (status_count status_failure (misconf_result severities dockerfile).misconfigurations ≡ 3)
    × (status_count status_passed (misconf_result severities dockerfile).misconfigurations ≡ 1)
    × (status_count status_exception (misconf_result severities dockerfile).misconfigurations ≡ 0)
misconf_result-status_count_example = misconf_result-status_count severities dockerfile
