-- ===== src/Detector/Ospkg/Ubuntu.antt =====
-- pkg/detector/ospkg/ubuntu/ubuntu.go
pub mod Laws
use trivy.Base.{ℕ, Bool, List, [], ◌∷◌, Option, none, some, if◌then◌else◌}
use trivy.Base.Text.{Str, str, ◌==◌}
use trivy.Base.Dict.{Dict}
use trivy.Base.Time.{date}
use trivy.Base.Result.{Result, ok, context, choose, collect, ◌>>=◌}
use trivy.External.{Package, Advisory}
use trivy.Types.{DetectedVulnerability, no_detected}
use trivy.Detector.Version.{Versions, format_src_version}
use trivy.Detector.Ospkg.Eol.{is_before_eol, Get}

-- eolDates
unfoldable eol_dates : Dict ℕ
eol_dates =
    (str "4.10", date 2006 4 30 23 59 59 0)
    ∷ (str "5.04", date 2006 10 31 23 59 59 0)
    ∷ (str "5.10", date 2007 4 13 23 59 59 0)
    ∷ (str "6.06", date 2011 6 1 23 59 59 0)
    ∷ (str "6.10", date 2008 4 25 23 59 59 0)
    ∷ (str "7.04", date 2008 10 19 23 59 59 0)
    ∷ (str "7.10", date 2009 4 18 23 59 59 0)
    ∷ (str "8.04", date 2013 5 9 23 59 59 0)
    ∷ (str "8.10", date 2010 4 30 23 59 59 0)
    ∷ (str "9.04", date 2010 10 23 23 59 59 0)
    ∷ (str "9.10", date 2011 4 29 23 59 59 0)
    ∷ (str "10.04", date 2015 4 29 23 59 59 0)
    ∷ (str "10.10", date 2012 4 10 23 59 59 0)
    ∷ (str "11.04", date 2012 10 28 23 59 59 0)
    ∷ (str "11.10", date 2013 5 9 23 59 59 0)
    ∷ (str "12.04", date 2019 4 26 23 59 59 0)
    ∷ (str "12.10", date 2014 5 16 23 59 59 0)
    ∷ (str "13.04", date 2014 1 27 23 59 59 0)
    ∷ (str "13.10", date 2014 7 17 23 59 59 0)
    ∷ (str "14.04", date 2022 4 25 23 59 59 0)
    ∷ (str "14.10", date 2015 7 23 23 59 59 0)
    ∷ (str "15.04", date 2016 1 23 23 59 59 0)
    ∷ (str "15.10", date 2016 7 22 23 59 59 0)
    ∷ (str "16.04", date 2024 4 21 23 59 59 0)
    ∷ (str "16.10", date 2017 7 20 23 59 59 0)
    ∷ (str "17.04", date 2018 1 13 23 59 59 0)
    ∷ (str "17.10", date 2018 7 19 23 59 59 0)
    ∷ (str "18.04", date 2028 4 26 23 59 59 0)
    ∷ (str "18.10", date 2019 7 18 23 59 59 0)
    ∷ (str "19.04", date 2020 1 18 23 59 59 0)
    ∷ (str "19.10", date 2020 7 17 23 59 59 0)
    ∷ (str "20.04", date 2030 4 23 23 59 59 0)
    ∷ (str "20.10", date 2021 7 22 23 59 59 0)
    ∷ (str "21.04", date 2022 1 22 23 59 59 0)
    ∷ (str "21.10", date 2022 7 22 23 59 59 0)
    ∷ []

module _ {V : Type 0} (versions : Versions V) where
  abbrev pub report : Package → Advisory → DetectedVulnerability
  report pkg adv = record no_detected {
    vulnerability_id = adv.vulnerability_id;
    pkg_name = pkg.name;
    installed_version = format_src_version pkg;
    fixed_version = adv.fixed_version;
    layer = pkg.layer;
    custom = adv.custom;
    data_source = adv.data_source;
  }

  -- The body of the loop over the advisories.
  unfoldable pub detect_advisory : Package → V → Advisory → Option DetectedVulnerability
  detect_advisory pkg installed adv =
      if adv.fixed_version == []
      then some (report pkg adv)
      else elim (versions.new_version adv.fixed_version) [
        | none ↦ none
        | some fixed ↦ if versions.less_than installed fixed then some (report pkg adv) else none
      ]

  -- The body of the loop over the packages.
  unfoldable pub detect_pkg : Get → Str → Package → Result (List DetectedVulnerability)
  unfolding detect_advisory
  detect_pkg get os_ver pkg = do
    advisories ← context (str "failed to get Ubuntu advisories") (get os_ver pkg.src_name)
    elim (versions.new_version (format_src_version pkg)) [
      | none ↦ ok []
      | some installed ↦ ok (choose (detect_advisory pkg installed) advisories)
    ]

  -- Scanner.Detect
  unfoldable pub detect : Get → Str → List Package → Result (List DetectedVulnerability)
  unfolding detect_pkg
  detect get os_ver pkgs = collect (detect_pkg get os_ver) [] pkgs

-- Scanner.IsSupportedVersion
unfoldable pub is_supported_version : ℕ → Str → Bool
unfolding eol_dates is_before_eol
is_supported_version now os_ver = is_before_eol eol_dates now os_ver
