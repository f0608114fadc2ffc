-- ===== src/Detector/Ospkg/Debian.antt =====
-- pkg/detector/ospkg/debian/debian.go
pub mod Laws
use trivy.Base.{ℕ, Bool, not, List, [], ◌∷◌, Option, none, some, if◌then◌else◌, eqb}
use trivy.Base.Text.{Str, str, ◌==◌}
use trivy.Base.Dict.{Dict}
use trivy.Base.Time.{date}
use trivy.Base.Result.{Result, ok, context, choose, collect, ◌>>=◌}
use trivy.External.{Package, Advisory, Severities, SourceIds, no_vulnerability}
use trivy.Types.{DetectedVulnerability, no_detected}
use trivy.Detector.Version.{Versions, format_src_version, major}
use trivy.Detector.Ospkg.Eol.{is_before_eol, Get}

-- eolDates
unfoldable eol_dates : Dict ℕ
eol_dates =
    (str "1.1", date 1997 6 5 23 59 59 0)
    ∷ (str "1.2", date 1998 6 5 23 59 59 0)
    ∷ (str "1.3", date 1999 3 9 23 59 59 0)
    ∷ (str "2.0", date 2000 3 9 23 59 59 0)
    ∷ (str "2.1", date 2000 10 30 23 59 59 0)
    ∷ (str "2.2", date 2003 7 30 23 59 59 0)
    ∷ (str "3.0", date 2006 6 30 23 59 59 0)
    ∷ (str "3.1", date 2008 3 30 23 59 59 0)
    ∷ (str "4.0", date 2010 2 15 23 59 59 0)
    ∷ (str "5.0", date 2012 2 6 23 59 59 0)
    ∷ (str "6.0", date 2016 2 29 23 59 59 0)
    ∷ (str "7", date 2018 5 31 23 59 59 0)
    ∷ (str "8", date 2020 6 30 23 59 59 0)
    ∷ (str "9", date 2022 6 30 23 59 59 0)
    ∷ (str "10", date 2024 6 30 23 59 59 0)
    ∷ (str "11", date 2026 8 14 23 59 59 0)
    ∷ (str "12", date 3000 1 1 23 59 59 0)
    ∷ []

module _ {V : Type 0} (versions : Versions V) (db : Severities) (sources : SourceIds) where
  -- The vulnerability with the package-specific severity, where there is one.
  unfoldable pub report : Package → Advisory → DetectedVulnerability
  report pkg adv =
      let vuln = record no_detected {
        vulnerability_id = adv.vulnerability_id;
        vendor_ids = adv.vendor_ids;
        pkg_name = pkg.name;
        installed_version = format_src_version pkg;
        fixed_version = adv.fixed_version;
        layer = pkg.layer;
        custom = adv.custom;
        data_source = adv.data_source;
      } in
      if not (eqb adv.severity db.unknown)
      then record vuln {
        severity_source = sources.debian;
        vulnerability = record no_vulnerability { severity = db.to_string adv.severity };
      }
      else vuln

  -- The body of the loop over the advisories.
  unfoldable pub detect_advisory : Package → V → Advisory → Option DetectedVulnerability
  unfolding report
  detect_advisory pkg installed adv =
      if adv.fixed_version == []
      then some (report pkg adv)
      else elim (versions.new_version adv.fixed_version) [
        | none ↦ none
        | some fixed ↦ if versions.less_than installed fixed then some (report pkg adv) else none
      ]

  -- The body of the loop over the packages.
  unfoldable pub detect_pkg : Get → Str → Package → Result (List DetectedVulnerability)
  unfolding detect_advisory
  detect_pkg get os_ver pkg = elim (versions.new_version (format_src_version pkg)) [
    | none ↦ ok []
    | some installed ↦ do
      advisories ← context (str "failed to get debian advisories") (get os_ver pkg.src_name)
      ok (choose (detect_advisory pkg installed) advisories)
  ]

  -- Scanner.Detect
  unfoldable pub detect : Get → Str → List Package → Result (List DetectedVulnerability)
  unfolding detect_pkg
  detect get os_ver pkgs = collect (detect_pkg get (major os_ver)) [] pkgs

-- Scanner.IsSupportedVersion
unfoldable pub is_supported_version : ℕ → Str → Bool
unfolding eol_dates is_before_eol
is_supported_version now os_ver = is_before_eol eol_dates now (major os_ver)
