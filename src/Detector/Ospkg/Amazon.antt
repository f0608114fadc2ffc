-- ===== src/Detector/Ospkg/Amazon.antt =====
-- pkg/detector/ospkg/amazon/amazon.go
pub mod Laws
use trivy.Base.{ℕ, Bool, not, List, [], ◌∷◌, Option, none, some, if◌then◌else◌}
use trivy.Base.Text.{Str, str, ◌==◌, fields}
use trivy.Base.Dict.{Dict}
use trivy.Base.Time.{date}
use trivy.Base.Result.{Result, ok, context, choose, collect, ◌>>=◌, panicked}
use trivy.External.{Package, Advisory}
use trivy.Types.{DetectedVulnerability, no_detected}
use trivy.Detector.Version.{Versions, format_version}
use trivy.Detector.Ospkg.Eol.{is_before_eol, Get}

-- eolDates
unfoldable eol_dates : Dict ℕ
eol_dates = (str "1", date 2023 6 30 23 59 59 0) ∷ (str "2", date 3000 1 1 23 59 59 0) ∷ []

-- osVer = strings.Fields(osVer)[0]; if osVer != "2" { osVer = "1" }
unfoldable pub release_of : Str → Result Str
release_of os_ver = elim (fields os_ver) [
  | [] ↦ panicked
  | v ∷ _ ↦ ok (if not (v == str "2") then str "1" else v)
]

module _ {V : Type 0} (versions : Versions V) where
  abbrev pub report : Package → Advisory → DetectedVulnerability
  report pkg adv = record no_detected {
    vulnerability_id = adv.vulnerability_id;
    pkg_name = pkg.name;
    installed_version = format_version pkg;
    fixed_version = adv.fixed_version;
    layer = pkg.layer;
    custom = adv.custom;
    data_source = adv.data_source;
  }

  -- The body of the loop over the advisories.
  unfoldable pub detect_advisory : Package → V → Advisory → Option DetectedVulnerability
  detect_advisory pkg installed adv = elim (versions.new_version adv.fixed_version) [
    | none ↦ none
    | some fixed ↦ if versions.less_than installed fixed then some (report pkg adv) else none
  ]

  -- The body of the loop over the packages.
  unfoldable pub detect_pkg : Get → Str → Package → Result (List DetectedVulnerability)
  unfolding detect_advisory
  detect_pkg get os_ver pkg = do
    advisories ← context (str "failed to get amazon advisories") (get os_ver pkg.name)
    (if format_version pkg == [] then ok [] else elim (versions.new_version (format_version pkg)) [
      | none ↦ ok []
      | some installed ↦ ok (choose (detect_advisory pkg installed) advisories)
    ])

  -- Scanner.Detect
  unfoldable pub detect : Get → Str → List Package → Result (List DetectedVulnerability)
  unfolding detect_pkg release_of
  detect get os_ver pkgs = do release ← release_of os_ver; collect (detect_pkg get release) [] pkgs

-- Scanner.IsSupportedVersion
unfoldable pub is_supported_version : ℕ → Str → Result Bool
unfolding eol_dates is_before_eol release_of
is_supported_version now os_ver = do
  release ← release_of os_ver
  ok (is_before_eol eol_dates now release)
