-- ===== src/Detector/Ospkg/Redhat.antt =====
-- pkg/detector/ospkg/redhat/redhat.go
pub mod Loop
pub mod Laws
use trivy.Base.{ℕ, Bool, false, not, List, [], ◌∷◌, ◌++◌, none, some, if◌then◌else◌, any}
use trivy.Base.Text.{Str, str, ◌==◌, has_suffix}
use trivy.Base.TextOrder.{lt}
use trivy.Base.Sort.{sort}
use trivy.Base.Dict.{Dict, lookup, store, values}
use trivy.Base.Time.{date}
use trivy.Base.Result.{Result, ok, context, collect, ◌>>=◌}
use trivy.External.{Package, Advisory, Severities, no_vulnerability, SourceIds}
use trivy.Types.{DetectedVulnerability, no_detected}
use trivy.Detector.Version.{RpmVersions, format_version, major, add_modular_namespace}
use trivy.Detector.Ospkg.Eol.{is_before_eol, Families}

abbrev default_content_sets : Dict (List Str)
default_content_sets =
    (str "6", str "rhel-6-server-rpms" ∷ str "rhel-6-server-extras-rpms" ∷ [])
    ∷ (str "7", str "rhel-7-server-rpms" ∷ str "rhel-7-server-extras-rpms" ∷ [])
    ∷ (str "8", str "rhel-8-for-x86_64-baseos-rpms" ∷ str "rhel-8-for-x86_64-appstream-rpms" ∷ [])
    ∷ []

-- redhatEOLDates
unfoldable redhat_eol_dates : Dict ℕ
redhat_eol_dates =
    (str "4", date 2017 5 31 23 59 59 0)
    ∷ (str "5", date 2020 11 30 23 59 59 0)
    ∷ (str "6", date 2024 6 30 23 59 59 0)
    ∷ (str "7", date 3000 1 1 23 59 59 0)
    ∷ (str "8", date 3000 1 1 23 59 59 0)
    ∷ []

-- centosEOLDates
unfoldable centos_eol_dates : Dict ℕ
centos_eol_dates =
    (str "3", date 2010 10 31 23 59 59 0)
    ∷ (str "4", date 2012 2 29 23 59 59 0)
    ∷ (str "5", date 2017 3 31 23 59 59 0)
    ∷ (str "6", date 2020 11 30 23 59 59 0)
    ∷ (str "7", date 2024 6 30 23 59 59 0)
    ∷ (str "8", date 2021 12 31 23 59 59 0)
    ∷ []

abbrev excluded_vendors_suffix : List Str
excluded_vendors_suffix = str ".remi" ∷ []

unfoldable pub is_from_supported_vendor : Package → Bool
is_from_supported_vendor pkg = not (any (has_suffix pkg.release) excluded_vendors_suffix)

-- redhat.VulnSrc.Get of trivy-db: the name of a package, content sets and NVRs
abbrev pub RedhatGet : Type 0
RedhatGet = Str → List Str → List Str → Result (List Advisory)

-- The content sets and the NVR of a package.
unfoldable pub build_of : Str → Package → List Str × Str
build_of os_ver pkg = elim (pkg.build_info) [
  | none ↦ (elim (lookup os_ver default_content_sets) [ none ↦ [] | some sets ↦ sets ], [])
  | some info ↦ (info.content_sets, info.nvr ++ (str "-" ++ info.arch))
]

-- redhat.VulnSrc of trivy-db, ustrings.Unique, trivy-db's constants, and the order in which Go
-- iterates over a map
pub record Sources (V : Type 0) : Type 0 where
  pub versions : RpmVersions V
  pub get : RedhatGet
  pub unique : List Str → List Str
  pub db : Severities
  pub ids : SourceIds
  pub order : List DetectedVulnerability → List DetectedVulnerability

module _ {V : Type 0} (s : Sources V) where
  -- The vulnerability before its fix is known.
  unfoldable pub report : Package → Advisory → DetectedVulnerability
  report pkg adv = record no_detected {
    vulnerability_id = adv.vulnerability_id;
    pkg_name = pkg.name;
    installed_version = format_version pkg;
    layer = pkg.layer;
    severity_source = s.ids.red_hat;
    vulnerability = record no_vulnerability { severity = s.db.to_string adv.severity };
    custom = adv.custom;
  }

  -- Two advisories that resolve one vulnerability: the newer fixed version is taken.
  unfoldable pub merge : DetectedVulnerability → DetectedVulnerability → V → DetectedVulnerability
  merge v vuln fixed =
      let v' = record v { vendor_ids = s.unique (v.vendor_ids ++ vuln.vendor_ids) } in
      if s.versions.less_than (s.versions.new_version v.fixed_version) fixed
      then record v' { fixed_version = vuln.fixed_version }
      else v'

  -- The body of the loop over the advisories.
  unfoldable pub detect_advisory :
      Package → V → Dict DetectedVulnerability → Advisory → Dict DetectedVulnerability
  unfolding report merge
  detect_advisory pkg installed uniq_vulns adv =
      let fixed = s.versions.new_version adv.fixed_version in
      let vuln = report pkg adv in
      let patched = record vuln {
        vendor_ids = adv.vendor_ids;
        fixed_version = s.versions.to_string fixed;
      } in
      if adv.fixed_version == []
      then store adv.vulnerability_id vuln uniq_vulns
      else if s.versions.less_than installed fixed
      then elim (lookup adv.vulnerability_id uniq_vulns) [
        | none ↦ store adv.vulnerability_id patched uniq_vulns
        | some v ↦ store adv.vulnerability_id (merge v patched fixed) uniq_vulns
      ]
      else uniq_vulns

  unfoldable pub detect_advisories :
      Package → V → Dict DetectedVulnerability → List Advisory → Dict DetectedVulnerability
  unfolding detect_advisory
  detect_advisories pkg installed uniq_vulns [] = uniq_vulns
  detect_advisories pkg installed uniq_vulns (adv ∷ advisories) =
      detect_advisories pkg installed (detect_advisory pkg installed uniq_vulns adv) advisories

  abbrev pub by_id : DetectedVulnerability → DetectedVulnerability → Bool
  by_id a b = lt a.vulnerability_id b.vulnerability_id

  -- Scanner.detect
  unfoldable pub detect_pkg : Str → Package → Result (List DetectedVulnerability)
  unfolding build_of detect_advisories
  detect_pkg os_ver pkg =
      let (content_sets, nvr) = build_of os_ver pkg in
      do
        advisories ←
            context (str "failed to get Red Hat advisories")
              (s.get (add_modular_namespace pkg.name pkg.modularitylabel) content_sets (nvr ∷ []))
        let installed = s.versions.new_version (format_version pkg)
        ok (sort by_id (s.order (values (detect_advisories pkg installed [] advisories))))

  -- The body of the loop over the packages.
  unfoldable pub detect_supported : Str → Package → Result (List DetectedVulnerability)
  unfolding detect_pkg is_from_supported_vendor
  detect_supported os_ver pkg =
      if not (is_from_supported_vendor pkg)
      then ok []
      else context (str "redhat vulnerability detection error") (detect_pkg os_ver pkg)

  -- Scanner.Detect
  unfoldable pub detect : Str → List Package → Result (List DetectedVulnerability)
  unfolding detect_supported
  detect os_ver pkgs = collect (detect_supported (major os_ver)) [] pkgs

-- Scanner.IsSupportedVersion
unfoldable pub is_supported_version : Families → ℕ → Str → Str → Bool
unfolding redhat_eol_dates centos_eol_dates is_before_eol
is_supported_version families now os_family os_ver =
    if os_family == families.red_hat
    then is_before_eol redhat_eol_dates now (major os_ver)
    else if os_family == families.cent_os
    then is_before_eol centos_eol_dates now (major os_ver)
    else false
