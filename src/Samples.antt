-- ===== src/Samples.antt =====
-- Data for tests: a database of severities, advisories, packages and detected vulnerabilities.
use trivy.Base.{ℕ, refl, [], none, some, if◌then◌else◌, eqb, compare}
use trivy.Base.Text.{Str, str, ◌==◌}
use trivy.External.{no_layer, Package, Advisory, no_vulnerability, Severities, IsRanked, SourceIds}
use trivy.Purl
use trivy.Base.Result.{err, message}
use trivy.Types.{DetectedVulnerability, DetectedMisconfiguration}

abbrev pub severity_name : ℕ → Str
severity_name n =
    if eqb n 4
    then str "CRITICAL"
    else if eqb n 3
    then str "HIGH"
    else if eqb n 2
    then str "MEDIUM"
    else if eqb n 1
    then str "LOW"
    else str "UNKNOWN"

abbrev pub severity_rank : Str → ℕ
severity_rank s =
    if s == str "CRITICAL"
    then 4
    else if s == str "HIGH"
    then 3
    else if s == str "MEDIUM"
    then 2
    else if s == str "LOW"
    then 1
    else 0

abbrev pub severities : Severities
severities = record {
  unknown = 0;
  medium = 2;
  critical = 4;
  to_string = severity_name;
  new_severity = λ s. if s == str "BROKEN" then none else some (severity_rank s);
  compare_severity_string = λ s t. compare (severity_rank t) (severity_rank s);
}

abbrev pub severities-IsRanked : IsRanked severities
severities-IsRanked = record { rank = severity_rank; ranked = λ s t. refl }

abbrev pub source_ids : SourceIds
source_ids = record {
  nvd = str "nvd";
  debian = str "debian";
  ubuntu = str "ubuntu";
  red_hat = str "redhat";
  suse_cvrf = str "suse-cvrf";
  oracle_oval = str "oracle-oval";
  nodejs_security_wg = str "nodejs-security-wg";
  ruby_sec = str "ruby-advisory-db";
}

abbrev pub detected : Str → Str → Str → Str → Str → DetectedVulnerability
detected id pkg installed fixed severity = record {
  vulnerability_id = id;
  vendor_ids = [];
  pkg_name = pkg;
  pkg_path = [];
  installed_version = installed;
  fixed_version = fixed;
  layer = no_layer;
  severity_source = [];
  primary_url = [];
  data_source = none;
  custom = none;
  vulnerability = record no_vulnerability { severity = severity };
}

abbrev pub bash_high : DetectedVulnerability
bash_high = detected (str "CVE-1") (str "bash") (str "5.0") (str "5.1") (str "HIGH")

abbrev pub bash_better : DetectedVulnerability
bash_better = detected (str "CVE-1") (str "bash") (str "5.0") (str "5.2") (str "HIGH")

abbrev pub apt_blank : DetectedVulnerability
apt_blank = detected (str "CVE-2") (str "apt") (str "2.0") [] []

abbrev pub misconf : Str → Str → Str → DetectedMisconfiguration
misconf id severity status = record {
  type = str "Dockerfile Security Check";
  id = id;
  title = [];
  description = [];
  message = [];
  namespace = [];
  query = [];
  resolution = [];
  severity = severity;
  primary_url = [];
  references = [];
  status = status;
  layer = no_layer;
  iac_metadata = record {
    resource = [];
    provider = [];
    service = [];
    start_line = 0;
    end_line = 0;
  };
  traces = [];
}

abbrev pub installed_package : Str → Str → Str → Package
installed_package name version release = record {
  name = name;
  version = version;
  release = release;
  epoch = 0;
  arch = [];
  src_name = name;
  src_version = version;
  src_release = release;
  src_epoch = 0;
  modularitylabel = [];
  build_info = none;
  license = [];
  layer = record { digest = str "sha256:1"; diff_id = str "sha256:2" };
  file_path = [];
}

abbrev pub advisory : Str → Str → Advisory
advisory id fixed = record {
  vulnerability_id = id;
  vendor_ids = [];
  severity = 0;
  fixed_version = fixed;
  affected_version = [];
  vulnerable_versions = [];
  patched_versions = [];
  unaffected_versions = [];
  data_source = none;
  custom = none;
}

-- The libraries of a package URL.
abbrev pub purl_libraries : Purl.Libraries
purl_libraries = record {
  maven = str "maven";
  gem = str "gem";
  pypi = str "pypi";
  golang = str "golang";
  npm = str "npm";
  debian = str "deb";
  rpm = str "rpm";
  composer = str "composer";
  oci = str "oci";
  apk = str "apk";
  jar = str "jar";
  pom = str "pom";
  bundler = str "bundler";
  gem_spec = str "gemspec";
  python_pkg = str "python-pkg";
  pip = str "pip";
  pipenv = str "pipenv";
  poetry = str "poetry";
  go_binary = str "gobinary";
  go_mod = str "gomod";
  npm_pkg_lock = str "npm";
  node_pkg = str "node-pkg";
  yarn = str "yarn";
  alpine = str "alpine";
  debian_family = str "debian";
  ubuntu = str "ubuntu";
  redhat = str "redhat";
  centos = str "centos";
  rocky = str "rocky";
  alma = str "alma";
  amazon = str "amazon";
  fedora = str "fedora";
  oracle = str "oracle";
  opensuse = str "opensuse";
  opensuse_leap = str "opensuse.leap";
  opensuse_tumbleweed = str "opensuse.tumbleweed";
  sles = str "suse linux enterprise server";
  photon = str "photon";
  new_digest = λ s. err (message s);
  to_lower = λ s. s;
}
