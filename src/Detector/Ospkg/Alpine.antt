-- ===== src/Detector/Ospkg/Alpine.antt =====
-- pkg/detector/ospkg/alpine/alpine.go
pub mod Laws
use trivy.Base.{ℕ, Bool, true, false, not, List, [], ◌∷◌, none, some, if◌then◌else◌}
use trivy.Base.Text.{Str, str, ◌==◌}
use trivy.Base.Dict.{Dict}
use trivy.Base.Time.{date}
use trivy.Base.Result.{Result, ok, context, choose, collect, ◌>>=◌}
use trivy.External.{Package, Advisory}
use trivy.Types.{DetectedVulnerability, no_detected}
use trivy.Detector.Version.{Versions, format_src_version, minor}
use trivy.Detector.Ospkg.Eol.{is_before_eol, Get}

-- eolDates
unfoldable eol_dates : Dict ℕ
eol_dates =
    (str "2.0", date 2012 4 1 23 59 59 0)
    ∷ (str "2.1", date 2012 11 1 23 59 59 0)
    ∷ (str "2.2", date 2013 5 1 23 59 59 0)
    ∷ (str "2.3", date 2013 11 1 23 59 59 0)
    ∷ (str "2.4", date 2014 5 1 23 59 59 0)
    ∷ (str "2.5", date 2014 11 1 23 59 59 0)
    ∷ (str "2.6", date 2015 5 1 23 59 59 0)
    ∷ (str "2.7", date 2015 11 1 23 59 59 0)
    ∷ (str "3.0", date 2016 5 1 23 59 59 0)
    ∷ (str "3.1", date 2016 11 1 23 59 59 0)
    ∷ (str "3.2", date 2017 5 1 23 59 59 0)
    ∷ (str "3.3", date 2017 11 1 23 59 59 0)
    ∷ (str "3.4", date 2018 5 1 23 59 59 0)
    ∷ (str "3.5", date 2018 11 1 23 59 59 0)
    ∷ (str "3.6", date 2019 5 1 23 59 59 0)
    ∷ (str "3.7", date 2019 11 1 23 59 59 0)
    ∷ (str "3.8", date 2020 5 1 23 59 59 0)
    ∷ (str "3.9", date 2020 11 1 23 59 59 0)
    ∷ (str "3.10", date 2021 5 1 23 59 59 0)
    ∷ (str "3.11", date 2021 11 1 23 59 59 0)
    ∷ (str "3.12", date 2022 5 1 23 59 59 0)
    ∷ (str "3.13", date 2022 11 1 23 59 59 0)
    ∷ (str "3.14", date 2023 5 1 23 59 59 0)
    ∷ (str "3.15", date 2023 11 1 23 59 59 0)
    ∷ []

module _ {V : Type 0} (versions : Versions V) where
  -- Scanner.isVulnerable
  unfoldable pub is_vulnerable : V → Advisory → Bool
  is_vulnerable installed adv =
      let not_fixed =
        if adv.fixed_version == [] then true else elim (versions.new_version adv.fixed_version) [
          | none ↦ false
          | some fixed ↦ versions.less_than installed fixed
        ] in
      if not (adv.affected_version == [])
      then elim (versions.new_version adv.affected_version) [
        | none ↦ false
        | some affected ↦ if versions.greater_than affected installed then false else not_fixed
      ]
      else not_fixed

  abbrev pub report : Package → Advisory → DetectedVulnerability
  report pkg adv = record no_detected {
    vulnerability_id = adv.vulnerability_id;
    pkg_name = pkg.name;
    installed_version = format_src_version pkg;
    fixed_version = adv.fixed_version;
    layer = pkg.layer;
    custom = adv.custom;
    data_source = adv.data_source;
  }

  -- The body of the loop over the packages.
  unfoldable pub detect_pkg : Get → Str → Package → Result (List DetectedVulnerability)
  unfolding is_vulnerable
  detect_pkg get os_ver pkg = do
    advisories ← context (str "failed to get alpine advisories") (get os_ver pkg.src_name)
    elim (versions.new_version (format_src_version pkg)) [
      | none ↦ ok []
      | some installed ↦ ok (
          choose (λ adv. if is_vulnerable installed adv then some (report pkg adv) else none)
            advisories)
    ]

  -- Scanner.Detect
  unfoldable pub detect : Get → Str → List Package → Result (List DetectedVulnerability)
  unfolding detect_pkg
  detect get os_ver pkgs = collect (detect_pkg get (minor os_ver)) [] pkgs

-- Scanner.IsSupportedVersion
unfoldable pub is_supported_version : ℕ → Str → Bool
unfolding eol_dates is_before_eol
is_supported_version now os_ver = is_before_eol eol_dates now (minor os_ver)
