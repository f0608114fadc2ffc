-- ===== src/Detector/Ospkg.antt =====
-- pkg/detector/ospkg: the detectors of the distributions, and the choice among them.
pub mod Eol
pub mod Reported
pub mod Fixes
pub mod Choice
pub mod Alpine
pub mod Debian
pub mod Ubuntu
pub mod Amazon
pub mod Alma
pub mod Rocky
pub mod Photon
pub mod Oracle
pub mod Suse
pub mod Redhat
pub mod Mariner
use trivy.Base.{ℕ, Bool, not, List, [], ◌∷◌, Option, none, some}
use trivy.Base.Text.{Str, str, ◌==◌}
use trivy.Base.Dict.{Dict, lookup, store}
use trivy.Base.Result.{Result, ok, err, context, ◌>>=◌, unsupported_os, panicked}
use trivy.External.{Package, Severities, SourceIds}
use trivy.Types.{DetectedVulnerability}
use trivy.Detector.Version.{Versions, RpmVersions}
use trivy.Detector.Ospkg.Eol.{Get, Families}

-- The interface Driver. A method may panic.
pub record Driver : Type 0 where
  pub detect : Str → List Package → Result (List DetectedVulnerability)
  pub is_supported_version : Str → Str → Result Bool

-- What the drivers stand on: the clock, the families, the libraries of versions, and trivy-db with
-- one source of advisories for each family.
pub record Libraries (A D R : Type 0) : Type 0 where
  pub now : ℕ
  pub families : Families
  pub apk : Versions A
  pub deb : Versions D
  pub redhat : Redhat.Sources R
  pub severities : Severities
  pub source_ids : SourceIds
  pub source : Str → Get

-- RegisterDriver
unfoldable pub register_driver : Str → Driver → Dict Driver → Dict Driver
register_driver name driver drivers = store name driver drivers

-- newDriver
unfoldable pub new_driver : Dict Driver → Str → Result Driver
new_driver drivers os_family = elim (lookup os_family drivers) [
  | some driver ↦ ok driver
  | none ↦ err unsupported_os
]

-- Detector.Detect: the vulnerabilities, and whether the support has ended
unfoldable pub detect :
    Dict Driver → Str → Str → List Package → Result (List DetectedVulnerability × Bool)
unfolding new_driver
detect drivers os_family os_name pkgs = elim (new_driver drivers os_family) [
  | ok driver ↦ do
    supported ← driver.is_supported_version os_family os_name
    vulns ← context (str "failed detection") (driver.detect os_name pkgs)
    ok (vulns, not supported)
  | err e ↦ err unsupported_os
  | panicked ↦ panicked
]

module _ {A D R : Type 0} (l : Libraries A D R) where
  -- A driver whose test of the version does not read the family.
  abbrev driver_of :
      (Get → Str → List Package → Result (List DetectedVulnerability))
      → Str
      → (ℕ → Str → Bool)
      → Driver
  driver_of detect family supported = record {
    detect = detect (l.source family);
    is_supported_version = λ os_family os_ver. ok (supported l.now os_ver);
  }

  abbrev redhat_driver : Driver
  redhat_driver = record {
    detect = Redhat.detect l.redhat;
    is_supported_version =
        λ os_family os_ver. ok (Redhat.is_supported_version l.families l.now os_family os_ver);
  }

  abbrev suse_driver : Str → Driver
  suse_driver family = record {
    detect = Suse.detect l.redhat.versions (l.source family);
    is_supported_version =
        λ os_family os_ver. ok (Suse.is_supported_version l.families l.now os_family os_ver);
  }

  abbrev amazon_driver : Driver
  amazon_driver = record {
    detect = Amazon.detect l.deb (l.source l.families.amazon);
    is_supported_version = λ os_family os_ver. Amazon.is_supported_version l.now os_ver;
  }

  abbrev rpm : RpmVersions R
  rpm = l.redhat.versions

  -- The drivers at the start of the program.
  unfoldable pub drivers : Dict Driver
  drivers =
      let f = l.families in
      (f.alpine, driver_of (Alpine.detect l.apk) f.alpine Alpine.is_supported_version)
      ∷ (f.alma, driver_of (Alma.detect rpm) f.alma Alma.is_supported_version)
      ∷ (f.amazon, amazon_driver)
      ∷ (f.cbl_mariner, driver_of (Mariner.detect rpm) f.cbl_mariner Mariner.is_supported_version)
      ∷ (
        f.debian,
        driver_of (Debian.detect l.deb l.severities l.source_ids) f.debian
            Debian.is_supported_version,
      )
      ∷ (f.ubuntu, driver_of (Ubuntu.detect l.deb) f.ubuntu Ubuntu.is_supported_version)
      ∷ (f.red_hat, redhat_driver)
      ∷ (f.cent_os, redhat_driver)
      ∷ (f.rocky, driver_of (Rocky.detect rpm) f.rocky Rocky.is_supported_version)
      ∷ (f.oracle, driver_of (Oracle.detect rpm) f.oracle Oracle.is_supported_version)
      ∷ (f.opensuse_leap, suse_driver f.opensuse_leap)
      ∷ (f.sles, suse_driver f.sles)
      ∷ (f.photon, driver_of (Photon.detect rpm) f.photon Photon.is_supported_version)
      ∷ []
