-- ===== src/Detector/Ospkg/Mariner.antt =====
-- pkg/detector/ospkg/mariner/mariner.go
pub mod Laws
use trivy.Base.{ℕ, Bool, true, List, [], Option, none, some, if◌then◌else◌}
use trivy.Base.Text.{Str, str, ◌==◌}
use trivy.Base.Result.{Result, ok, context, choose, collect, ◌>>=◌}
use trivy.External.{Package, Advisory}
use trivy.Types.{DetectedVulnerability, no_detected}
use trivy.Detector.Version.{RpmVersions, format_src_version, minor}
use trivy.Detector.Ospkg.Eol.{Get}

module _ {V : Type 0} (versions : RpmVersions V) where
  abbrev pub report : Package → Advisory → Str → DetectedVulnerability
  report pkg adv fixed = record no_detected {
    vulnerability_id = adv.vulnerability_id;
    pkg_name = pkg.name;
    installed_version = format_src_version pkg;
    fixed_version = fixed;
    layer = pkg.layer;
    data_source = adv.data_source;
  }

  -- The body of the loop over the advisories.
  unfoldable pub detect_advisory : Package → V → Advisory → Option DetectedVulnerability
  detect_advisory pkg installed adv =
      let fixed = versions.new_version adv.fixed_version in
      if adv.fixed_version == []
      then some (report pkg adv [])
      else if versions.less_than installed fixed
      then some (report pkg adv (versions.to_string fixed))
      else none

  -- The body of the loop over the packages.
  unfoldable pub detect_pkg : Get → Str → Package → Result (List DetectedVulnerability)
  unfolding detect_advisory
  detect_pkg get os_ver pkg = do
    advisories ← context (str "failed to get CBL-Mariner advisories") (get os_ver pkg.src_name)
    ok (choose (detect_advisory pkg (versions.new_version (format_src_version pkg))) advisories)

  -- Scanner.Detect
  unfoldable pub detect : Get → Str → List Package → Result (List DetectedVulnerability)
  unfolding detect_pkg
  detect get os_ver pkgs = collect (detect_pkg get (minor os_ver)) [] pkgs

-- Scanner.IsSupportedVersion: the ends of support are not public
unfoldable pub is_supported_version : ℕ → Str → Bool
is_supported_version now os_ver = true
