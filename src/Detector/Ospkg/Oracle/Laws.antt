-- ===== src/Detector/Ospkg/Oracle/Laws.antt =====
-- What the detector of pkg/detector/ospkg/oracle/oracle.go reports.
use trivy.Base.{◌≡◌, refl, ◌↔◌, inl, inr, Bool, true, List, Option, none, some, Bool-cases}
use trivy.Base.Text.{Str, str, ==_cases}
use trivy.Base.Result.{Result, ok}
use trivy.External.{Package, Advisory}
use trivy.Types.{DetectedVulnerability}
use trivy.Detector.Version.{RpmVersions, format_version, major}
use trivy.Detector.Ospkg.Eol.{Get}
use trivy.Detector.Ospkg.Reported.{Reported, collect-Reported, fetch-IsRound}
use trivy.Detector.Ospkg.Oracle.{report, detect_advisory, detect_pkg, detect, extract_ksplice}
use mathlib.Core.List.{Memᴰ}

module _ {V : Type 0} (versions : RpmVersions V) where
  -- The installed version is older than the fix.
  abbrev pub IsOlder : Package → Advisory → Type 0
  IsOlder pkg adv =
      versions.less_than (versions.new_version (format_version pkg))
        (versions.new_version adv.fixed_version)
      ≡ true

  abbrev pub Finds : Package → Advisory → DetectedVulnerability → Type 0
  Finds pkg adv v =
      (extract_ksplice adv.fixed_version ≡ extract_ksplice pkg.release)
      × IsOlder pkg adv
      × (v ≡ report versions pkg adv)

  older : Package → Advisory → Bool
  older pkg adv =
      versions.less_than (versions.new_version (format_version pkg))
        (versions.new_version adv.fixed_version)

  step : Package → Advisory → Option DetectedVulnerability
  step pkg adv = detect_advisory versions pkg (versions.new_version (format_version pkg)) adv

  step-Finds :
      (p : Package) (adv : Advisory) (v : DetectedVulnerability)
      → (step p adv ≡ some v) ↔ Finds p adv v
  unfolding step detect_advisory older
  step-Finds p adv v =
      elim (==_cases (extract_ksplice adv.fixed_version) (extract_ksplice p.release)) [
        | inl (same, e) ↦ elim (Bool-cases (older p adv)) [
          | inl t ↦ (
            λ h. let h' : some (report versions p adv) ≡ some v = rw (same, t) at h in (e, t, cc),
            λ (_, _, q). rw (same, t, q) refl,
          )
          | inr g ↦ (
            λ h. absurd (let h' : none ≡ some v = rw (same, g) at h in cc),
            λ (_, t, _). absurd (cc (g, t)),
          )
        ]
        | inr (other, n) ↦
            (λ h. absurd (let h' : none ≡ some v = rw other at h in cc), λ (e, _, _). absurd (n e))
      ]

  -- A detection of Oracle Linux that succeeds reports the advisories for the packages and the major
  -- release whose fix is newer than the installed version and has the Ksplice part of the release,
  -- and nothing else.
  pub detect-Reported_oracle :
      (get : Get) (os_ver : Str) (pkgs : List Package) {out : List DetectedVulnerability}
      → detect versions get os_ver pkgs ≡ ok out
      → (v : DetectedVulnerability)
      → Memᴰ v out ↔ Reported (λ p. get (major os_ver) p.name) Finds pkgs v
  unfolding detect detect_pkg step
  detect-Reported_oracle get os_ver pkgs e v =
      let get_for : Package → Result (List Advisory) = λ p. get (major os_ver) p.name in
      collect-Reported get_for Finds
        (fetch-IsRound get_for Finds (str "failed to get Oracle Linux advisory") step step-Finds)
        pkgs e v
