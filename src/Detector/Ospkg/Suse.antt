-- ===== src/Detector/Ospkg/Suse.antt =====
-- pkg/detector/ospkg/suse/suse.go
use trivy.Base.{ℕ, Bool, false, List, [], ◌∷◌, Option, none, some, if◌then◌else◌}
use trivy.Base.Text.{Str, str, ◌==◌}
use trivy.Base.Dict.{Dict}
use trivy.Base.Time.{date}
use trivy.Base.Result.{Result, ok, context, choose, collect, ◌>>=◌}
use trivy.External.{Package, Advisory}
use trivy.Types.{DetectedVulnerability, no_detected}
use trivy.Detector.Version.{RpmVersions, format_version}
use trivy.Detector.Ospkg.Eol.{is_before_eol, Get, Families}

-- slesEolDates
unfoldable sles_eol_dates : Dict ℕ
sles_eol_dates =
    (str "10", date 2007 12 31 23 59 59 0)
    ∷ (str "10.1", date 2008 11 30 23 59 59 0)
    ∷ (str "10.2", date 2010 4 11 23 59 59 0)
    ∷ (str "10.3", date 2011 10 11 23 59 59 0)
    ∷ (str "10.4", date 2013 7 31 23 59 59 0)
    ∷ (str "11", date 2010 12 31 23 59 59 0)
    ∷ (str "11.1", date 2012 8 31 23 59 59 0)
    ∷ (str "11.2", date 2014 1 31 23 59 59 0)
    ∷ (str "11.3", date 2016 1 31 23 59 59 0)
    ∷ (str "11.4", date 2019 3 31 23 59 59 0)
    ∷ (str "12", date 2016 6 30 23 59 59 0)
    ∷ (str "12.1", date 2017 5 31 23 59 59 0)
    ∷ (str "12.2", date 2018 3 31 23 59 59 0)
    ∷ (str "12.3", date 2019 1 30 23 59 59 0)
    ∷ (str "12.4", date 2020 6 30 23 59 59 0)
    ∷ (str "12.5", date 2024 10 31 23 59 59 0)
    ∷ (str "15", date 2019 12 31 23 59 59 0)
    ∷ (str "15.1", date 2021 1 31 23 59 59 0)
    ∷ (str "15.2", date 2021 12 31 23 59 59 0)
    ∷ (str "15.3", date 2028 7 31 23 59 59 0)
    ∷ []

-- opensuseEolDates
unfoldable opensuse_eol_dates : Dict ℕ
opensuse_eol_dates =
    (str "42.1", date 2017 5 17 23 59 59 0)
    ∷ (str "42.2", date 2018 1 26 23 59 59 0)
    ∷ (str "42.3", date 2019 6 30 23 59 59 0)
    ∷ (str "15.0", date 2019 12 3 23 59 59 0)
    ∷ (str "15.1", date 2020 11 30 23 59 59 0)
    ∷ (str "15.2", date 2021 11 30 23 59 59 0)
    ∷ (str "15.3", date 2022 11 30 23 59 59 0)
    ∷ []

module _ {V : Type 0} (versions : RpmVersions V) where
  abbrev pub report : Package → Advisory → DetectedVulnerability
  report pkg adv = record no_detected {
    vulnerability_id = adv.vulnerability_id;
    pkg_name = pkg.name;
    installed_version = format_version pkg;
    fixed_version = adv.fixed_version;
    layer = pkg.layer;
    custom = adv.custom;
    data_source = adv.data_source;
  }

  -- The body of the loop over the advisories.
  unfoldable pub detect_advisory : Package → V → Advisory → Option DetectedVulnerability
  detect_advisory pkg installed adv =
      let fixed = versions.new_version adv.fixed_version in
      if versions.less_than installed fixed then some (report pkg adv) else none

  -- The body of the loop over the packages.
  unfoldable pub detect_pkg : Get → Str → Package → Result (List DetectedVulnerability)
  unfolding detect_advisory
  detect_pkg get os_ver pkg = do
    advisories ← context (str "failed to get SUSE advisory") (get os_ver pkg.src_name)
    ok (choose (detect_advisory pkg (versions.new_version (format_version pkg))) advisories)

  -- Scanner.Detect
  unfoldable pub detect : Get → Str → List Package → Result (List DetectedVulnerability)
  unfolding detect_pkg
  detect get os_ver pkgs = collect (detect_pkg get os_ver) [] pkgs

-- Scanner.IsSupportedVersion
unfoldable pub is_supported_version : Families → ℕ → Str → Str → Bool
unfolding sles_eol_dates opensuse_eol_dates is_before_eol
is_supported_version families now os_family os_ver =
    if os_family == families.sles
    then is_before_eol sles_eol_dates now os_ver
    else if os_family == families.opensuse_leap
    then is_before_eol opensuse_eol_dates now os_ver
    else false
