-- ===== src/Detector/Ospkg/Rocky.antt =====
-- pkg/detector/ospkg/rocky/rocky.go
use trivy.Base.{ℕ, Bool, not, List, [], ◌∷◌, Option, none, some, if◌then◌else◌}
use trivy.Base.Text.{Str, str, ◌==◌}
use trivy.Base.Dict.{Dict}
use trivy.Base.Time.{date}
use trivy.Base.Result.{Result, ok, context, choose, collect, ◌>>=◌}
use trivy.External.{Package, Advisory}
use trivy.Types.{DetectedVulnerability, no_detected}
use trivy.Detector.Version.{RpmVersions, format_version, major, add_modular_namespace}
use trivy.Detector.Ospkg.Eol.{is_before_eol, Get}

-- eolDates
unfoldable eol_dates : Dict ℕ
eol_dates = (str "8", date 2029 5 31 23 59 59 0) ∷ []

module _ {V : Type 0} (versions : RpmVersions V) where
  abbrev pub report : Package → Advisory → DetectedVulnerability
  report pkg adv = record no_detected {
    vulnerability_id = adv.vulnerability_id;
    pkg_name = pkg.name;
    installed_version = format_version pkg;
    fixed_version = versions.to_string (versions.new_version adv.fixed_version);
    layer = pkg.layer;
    data_source = adv.data_source;
  }

  -- The body of the loop over the advisories.
  unfoldable pub detect_advisory : Package → V → Advisory → Option DetectedVulnerability
  detect_advisory pkg installed adv =
      let fixed = versions.new_version adv.fixed_version in
      if versions.less_than installed fixed then some (report pkg adv) else none

  -- The body of the loop over the packages.
  unfoldable pub detect_pkg : Get → Str → Package → Result (List DetectedVulnerability)
  unfolding detect_advisory
  detect_pkg get os_ver pkg = if not (pkg.modularitylabel == []) then ok [] else (do
    advisories ←
        context (str "failed to get Rocky Linux advisories")
          (get os_ver (add_modular_namespace pkg.name pkg.modularitylabel))
    ok (choose (detect_advisory pkg (versions.new_version (format_version pkg))) advisories))

  -- Scanner.Detect
  unfoldable pub detect : Get → Str → List Package → Result (List DetectedVulnerability)
  unfolding detect_pkg
  detect get os_ver pkgs = collect (detect_pkg get (major os_ver)) [] pkgs

-- Scanner.IsSupportedVersion
unfoldable pub is_supported_version : ℕ → Str → Bool
unfolding eol_dates is_before_eol
is_supported_version now os_ver = is_before_eol eol_dates now (major os_ver)
