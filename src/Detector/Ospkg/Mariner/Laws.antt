-- ===== src/Detector/Ospkg/Mariner/Laws.antt =====
-- What the detector of pkg/detector/ospkg/mariner/mariner.go reports.
use trivy.Base.{
  ◌≡◌, ◌≢◌, refl, ◌↔◌, ◌⊎◌, inl, inr, Bool, true, List, [], Option, none, some, Bool-cases,
}
use trivy.Base.Text.{Str, str, ==_cases}
use trivy.Base.Result.{Result, ok}
use trivy.External.{Package, Advisory}
use trivy.Types.{DetectedVulnerability}
use trivy.Detector.Version.{RpmVersions, format_src_version, minor}
use trivy.Detector.Ospkg.Eol.{Get}
use trivy.Detector.Ospkg.Reported.{Reported, collect-Reported, fetch-IsRound}
use trivy.Detector.Ospkg.Mariner.{report, detect_advisory, detect_pkg, detect}
use mathlib.Core.List.{Memᴰ}

module _ {V : Type 0} (versions : RpmVersions V) where
  -- The installed version is older than the fix.
  abbrev pub IsOlder : Package → Advisory → Type 0
  IsOlder pkg adv =
      versions.less_than (versions.new_version (format_src_version pkg))
        (versions.new_version adv.fixed_version)
      ≡ true

  abbrev pub Finds : Package → Advisory → DetectedVulnerability → Type 0
  Finds pkg adv v =
      (adv.fixed_version ≡ []) × (v ≡ report versions pkg adv [])
      ⊎ (adv.fixed_version ≢ [])
        × IsOlder pkg adv
        × (v
            ≡ report versions pkg adv (versions.to_string (versions.new_version adv.fixed_version)))

  older : Package → Advisory → Bool
  older pkg adv =
      versions.less_than (versions.new_version (format_src_version pkg))
        (versions.new_version adv.fixed_version)

  step : Package → Advisory → Option DetectedVulnerability
  step pkg adv = detect_advisory versions pkg (versions.new_version (format_src_version pkg)) adv

  step-Finds :
      (p : Package) (adv : Advisory) (v : DetectedVulnerability)
      → (step p adv ≡ some v) ↔ Finds p adv v
  unfolding step detect_advisory older
  step-Finds p adv v = elim (==_cases adv.fixed_version []) [
    | inl (t, e) ↦ (
      λ h. let h' : some (report versions p adv []) ≡ some v = rw t at h in inl (e, cc),
      λ d. elim d [ inl (_, q) ↦ rw (t, q) refl | inr (n, _, _) ↦ absurd (n e) ],
    )
    | inr (f, n) ↦ elim (Bool-cases (older p adv)) [
      | inl t ↦ (
        λ h.
            let h' : some (
                  report versions p adv
                    (versions.to_string (versions.new_version adv.fixed_version)))
                ≡ some v =
              rw (f, t) at h in
            inr (n, t, cc),
        λ d. elim d [ inl (e, _) ↦ absurd (n e) | inr (_, _, q) ↦ rw (f, t, q) refl ],
      )
      | inr g ↦ (
        λ h. absurd (let h' : none ≡ some v = rw (f, g) at h in cc),
        λ d. elim d [ inl (e, _) ↦ absurd (n e) | inr (_, t, _) ↦ absurd (cc (g, t)) ],
      )
    ]
  ]

  -- A detection of CBL-Mariner that succeeds reports the advisories for the source packages and the
  -- release that have no fix, or a fix that is newer than the installed version, the latter with the
  -- fix as the library prints it, and nothing else.
  pub detect-Reported_mariner :
      (get : Get) (os_ver : Str) (pkgs : List Package) {out : List DetectedVulnerability}
      → detect versions get os_ver pkgs ≡ ok out
      → (v : DetectedVulnerability)
      → Memᴰ v out ↔ Reported (λ p. get (minor os_ver) p.src_name) Finds pkgs v
  unfolding detect detect_pkg step
  detect-Reported_mariner get os_ver pkgs e v =
      let get_for : Package → Result (List Advisory) = λ p. get (minor os_ver) p.src_name in
      collect-Reported get_for Finds
        (fetch-IsRound get_for Finds (str "failed to get CBL-Mariner advisories") step step-Finds)
        pkgs e v
