-- ===== src/Detector/Ospkg/Choice.antt =====
-- The choice of a driver in pkg/detector/ospkg/detect.go.
use trivy.Base.{ap, ◌∙◌, ◌≡◌, refl, ◌↔◌, inl, inr, Bool, not, List, some, Option-cases}
use trivy.Base.Text.{Str, str}
use trivy.Base.Dict.{Dict, lookup}
use trivy.Base.Result.{ok, err, wrap, panicked, unsupported_os, Result-cases}
use trivy.External.{Package}
use trivy.Types.{DetectedVulnerability}
use trivy.Detector.Ospkg
use trivy.Detector.Ospkg.{Driver, new_driver, register_driver}

-- The vulnerabilities that the driver of a family finds, and whether it says that support ended.
pub record IsDetected (drivers : Dict Driver) (os_family os_name : Str) (pkgs : List Package)
    (vulns : List DetectedVulnerability) (eosl : Bool) : Type 0 where
  pub driver : Driver
  pub registered : lookup os_family drivers ≡ some driver
  pub supported : Bool
  pub tested : driver.is_supported_version os_family os_name ≡ ok supported
  pub ended : eosl ≡ not supported
  pub detected : driver.detect os_name pkgs ≡ ok vulns

-- Detect succeeds with vulnerabilities and an end of support exactly if a driver is registered for
-- the family, its detection succeeds with these vulnerabilities, and its test of the version
-- returns the opposite of that end of support.
pub detect-IsDetected :
    (drivers : Dict Driver) (os_family os_name : Str) (pkgs : List Package)
    (vulns : List DetectedVulnerability) (eosl : Bool)
    → (Ospkg.detect drivers os_family os_name pkgs ≡ ok (vulns, eosl))
      ↔ IsDetected drivers os_family os_name pkgs vulns eosl
unfolding Ospkg.detect new_driver
detect-IsDetected drivers os_family os_name pkgs vulns eosl = (to, from)
  where
    to :
        Ospkg.detect drivers os_family os_name pkgs ≡ ok (vulns, eosl)
        → IsDetected drivers os_family os_name pkgs vulns eosl
    to e = elim (Option-cases (lookup os_family drivers)) [
      | inl n ↦ absurd (
          let e' : err unsupported_os ≡ ok (vulns, eosl) = rw (n, Ospkg.detect, new_driver) at e in
          cc)
      | inr (d, l) ↦ elim (Result-cases (d.is_supported_version os_family os_name)) [
        | inl (b, t) ↦ elim (Result-cases (d.detect os_name pkgs)) [
          | inl (vs, k) ↦
              let e' : ok (vs, not b) ≡ ok (vulns, eosl) =
                rw (l, t, k, Ospkg.detect, new_driver) at e in
              record {
                driver = d;
                registered = l;
                supported = b;
                tested = t;
                ended = cc;
                detected = let same : vs ≡ vulns = cc in k ∙ ap ok same;
              }
          | inr (inl (x, k)) ↦ absurd (
              let e' : err (wrap (str "failed detection") x) ≡ ok (vulns, eosl) =
                rw (l, t, k, Ospkg.detect, new_driver) at e in
              cc)
          | inr (inr k) ↦ absurd (
              let e' : panicked ≡ ok (vulns, eosl) = rw (l, t, k, Ospkg.detect, new_driver) at e in
              cc)
        ]
        | inr (inl (x, t)) ↦
            absurd
              (let e' : err x ≡ ok (vulns, eosl) = rw (l, t, Ospkg.detect, new_driver) at e in cc)
        | inr (inr t) ↦
            absurd (
              let e' : panicked ≡ ok (vulns, eosl) = rw (l, t, Ospkg.detect, new_driver) at e in cc)
      ]
    ]

    from :
        IsDetected drivers os_family os_name pkgs vulns eosl
        → Ospkg.detect drivers os_family os_name pkgs ≡ ok (vulns, eosl)
    from w = rw (w.registered, w.tested, w.detected, w.ended, Ospkg.detect, new_driver) refl
