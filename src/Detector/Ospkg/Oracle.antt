-- ===== src/Detector/Ospkg/Oracle.antt =====
-- pkg/detector/ospkg/oracle/oracle.go
pub mod Laws
use trivy.Base.{ℕ, Bool, not, List, [], ◌∷◌, Option, none, some, if◌then◌else◌}
use trivy.Base.Text.{Str, str, ◌==◌, has_prefix, split, to_lower}
use trivy.Base.Dict.{Dict}
use trivy.Base.Time.{date}
use trivy.Base.Result.{Result, ok, context, choose, collect, ◌>>=◌}
use trivy.External.{Package, Advisory}
use trivy.Types.{DetectedVulnerability, no_detected}
use trivy.Detector.Version.{RpmVersions, format_version, major}
use trivy.Detector.Ospkg.Eol.{is_before_eol, Get}

-- eolDates
unfoldable eol_dates : Dict ℕ
eol_dates =
    (str "3", date 2011 12 31 23 59 59 0)
    ∷ (str "4", date 2013 12 31 23 59 59 0)
    ∷ (str "5", date 2017 12 31 23 59 59 0)
    ∷ (str "6", date 2021 3 21 23 59 59 0)
    ∷ (str "7", date 2024 7 23 23 59 59 0)
    ∷ (str "8", date 2029 7 18 23 59 59 0)
    ∷ []

first_ksplice : List Str → Str
first_ksplice [] = []
first_ksplice (s ∷ subs) =
    let rest = first_ksplice subs in if has_prefix s (str "ksplice") then s else rest

unfoldable pub extract_ksplice : Str → Str
unfolding first_ksplice
extract_ksplice v = first_ksplice (split b'.' (to_lower v))

module _ {V : Type 0} (versions : RpmVersions V) where
  abbrev pub report : Package → Advisory → DetectedVulnerability
  report pkg adv = record no_detected {
    vulnerability_id = adv.vulnerability_id;
    pkg_name = pkg.name;
    installed_version = format_version pkg;
    fixed_version = adv.fixed_version;
    layer = pkg.layer;
    custom = adv.custom;
    data_source = adv.data_source;
  }

  -- The body of the loop over the advisories.
  unfoldable pub detect_advisory : Package → V → Advisory → Option DetectedVulnerability
  unfolding extract_ksplice
  detect_advisory pkg installed adv =
      let fixed = versions.new_version adv.fixed_version in
      if not (extract_ksplice adv.fixed_version == extract_ksplice pkg.release)
      then none
      else if versions.less_than installed fixed
      then some (report pkg adv)
      else none

  -- The body of the loop over the packages.
  unfoldable pub detect_pkg : Get → Str → Package → Result (List DetectedVulnerability)
  unfolding detect_advisory
  detect_pkg get os_ver pkg = do
    advisories ← context (str "failed to get Oracle Linux advisory") (get os_ver pkg.name)
    ok (choose (detect_advisory pkg (versions.new_version (format_version pkg))) advisories)

  -- Scanner.Detect
  unfoldable pub detect : Get → Str → List Package → Result (List DetectedVulnerability)
  unfolding detect_pkg
  detect get os_ver pkgs = collect (detect_pkg get (major os_ver)) [] pkgs

-- Scanner.IsSupportedVersion
unfoldable pub is_supported_version : ℕ → Str → Bool
unfolding eol_dates is_before_eol
is_supported_version now os_ver = is_before_eol eol_dates now (major os_ver)
