-- ===== src/Detector/Tests.antt =====
-- The theorems on the detectors at concrete packages and advisories.
use trivy.Base.{keep, ◌≡◌, refl, ◌↔◌, List, [], ◌∷◌, none, some, true, false, if◌then◌else◌}
use trivy.Base.Text.{Str, str, ◌==◌}
use trivy.Base.TextOrder.{lt}
use trivy.Base.Sort.{sort}
use trivy.Base.Dict.{lookup, store}
use trivy.Base.Result.{ok, panicked, choose, collect}
use trivy.External.{Package, Advisory}
use trivy.Types.{DetectedVulnerability}
use trivy.Samples.{installed_package, advisory, severities, source_ids}
use trivy.Detector.Version.{Versions, format_src_version, format_version, format, major, minor}
use trivy.Detector.Ospkg.Eol.{Get}
use trivy.Detector.Ospkg.Reported.{Reported}
use trivy.Detector.Ospkg.Alpine
use trivy.Detector.Ospkg.Alpine.Laws.{detect-Reported_alpine}
use trivy.Detector.Ospkg.Debian
use trivy.Detector.Ospkg.Debian.Laws.{detect-Reported_debian}
use trivy.Detector.Ospkg.Amazon
use trivy.Detector.Ospkg.Amazon.Laws.{IsBlank, is_supported_version-panicked}
use trivy.Detector.Ospkg.Redhat
use trivy.Detector.Ospkg.Redhat.Laws.{has, detect_pkg-IsAdvised, installed}
use trivy.Detector.Ospkg.Redhat.Loop.{IsAdvised}
use trivy.Detector.Library.Compare
use trivy.Detector.Library.Compare.Laws.{IsAffected, is_vulnerable-IsAffected}
use mathlib.Core.List.{Memᴰ}
use mathlib.Core.List.Perm

-- Versions that compare as texts; one does not parse.
abbrev texts : Versions Str
texts = record {
  new_version = λ s. if s == str "bad" then none else some s;
  less_than = lt;
  greater_than = λ a b. lt b a;
}

abbrev curl : Package
curl = installed_package (str "curl") (str "7.1") (str "r0")

abbrev old_fix : Advisory
old_fix = advisory (str "CVE-1") (str "7.0-r0")

abbrev new_fix : Advisory
new_fix = advisory (str "CVE-2") (str "7.2-r0")

abbrev no_fix : Advisory
no_fix = advisory (str "CVE-3") []

abbrev get : Get
get release name = ok (old_fix ∷ new_fix ∷ no_fix ∷ [])

abbrev pkgs : List Package
pkgs = curl ∷ installed_package (str "zlib") (str "bad") [] ∷ []

detect-Reported_alpine_example :
    Memᴰ
      (Alpine.report texts curl new_fix)
      (Alpine.report texts curl new_fix ∷ Alpine.report texts curl no_fix ∷ [])
    ↔ Reported
        (λ p. get (minor (str "3.10.2")) p.src_name)
        (Alpine.Laws.Finds texts)
        pkgs
        (Alpine.report texts curl new_fix)
unfolding Alpine.detect Alpine.detect_pkg Alpine.is_vulnerable collect choose ◌==◌ lt
    format_src_version format minor
detect-Reported_alpine_example =
    detect-Reported_alpine texts get (str "3.10.2") pkgs refl (Alpine.report texts curl new_fix)

abbrev debian_report : Advisory → DetectedVulnerability
debian_report adv = Debian.report texts severities source_ids curl adv

detect-Reported_debian_example :
    Memᴰ (debian_report new_fix) (debian_report new_fix ∷ debian_report no_fix ∷ [])
    ↔ Reported
        (λ p. get (major (str "11.2")) p.src_name)
        (Debian.Laws.Finds texts severities source_ids)
        pkgs
        (debian_report new_fix)
unfolding Debian.detect Debian.detect_pkg Debian.detect_advisory collect choose ◌==◌ lt
    format_src_version format major
detect-Reported_debian_example =
    detect-Reported_debian texts severities source_ids get (str "11.2") pkgs refl
      (debian_report new_fix)

abbrev redhat : Redhat.Sources Str
redhat = record {
  versions = record { new_version = λ s. s; less_than = lt; to_string = λ s. s };
  get = λ name sets nvrs. ok (no_fix ∷ new_fix ∷ old_fix ∷ new_fix ∷ []);
  unique = λ ids. ids;
  db = severities;
  ids = source_ids;
  order = λ vs. vs;
}

abbrev fixed_curl : DetectedVulnerability
fixed_curl = record (Redhat.report redhat curl new_fix) { fixed_version = str "7.2-r0" }

abbrev found_curl : List DetectedVulnerability
found_curl = fixed_curl ∷ Redhat.report redhat curl no_fix ∷ []

detect_pkg-IsAdvised_example :
    (IsAdvised redhat curl
        (installed redhat (λ vs. Perm.rfl) (str "8") curl)
        (str "CVE-2")
        (no_fix ∷ new_fix ∷ old_fix ∷ new_fix ∷ [])
      → (v : DetectedVulnerability) × (keep (has (str "CVE-2")) found_curl ≡ v ∷ []))
    × (¬ IsAdvised redhat curl
          (installed redhat (λ vs. Perm.rfl) (str "8") curl)
          (str "CVE-2")
          (no_fix ∷ new_fix ∷ old_fix ∷ new_fix ∷ [])
        → keep (has (str "CVE-2")) found_curl ≡ [])
unfolding Redhat.detect_pkg Redhat.detect_advisories Redhat.detect_advisory Redhat.merge
    Redhat.report Redhat.build_of ◌==◌ lt format_version format sort lookup store
detect_pkg-IsAdvised_example =
    detect_pkg-IsAdvised redhat (λ vs. Perm.rfl) (str "8") curl refl refl (str "CVE-2")

-- The constraint "<2" matches the version "1" only.
abbrev below_two : Compare.MatchVersion
below_two ver constraint =
    if constraint == str "<2"
    then some (ver == str "1")
    else if constraint == str "1"
    then some false
    else none

abbrev range : Advisory
range = record (advisory (str "CVE-4") []) { vulnerable_versions = str "<2" ∷ [] }

is_vulnerable-IsAffected_example :
    (Compare.is_vulnerable below_two (str "1") range ≡ true) ↔ IsAffected below_two (str "1") range
is_vulnerable-IsAffected_example = is_vulnerable-IsAffected below_two (str "1") range

is_supported_version-panicked_example :
    (Amazon.is_supported_version 0 (str "  ") ≡ panicked) ↔ IsBlank (str "  ")
is_supported_version-panicked_example = is_supported_version-panicked 0 (str "  ")
