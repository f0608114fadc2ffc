-- ===== src/Detector/Ospkg/Ubuntu/Laws.antt =====
-- What the detector of pkg/detector/ospkg/ubuntu/ubuntu.go reports.
use trivy.Base.{ap, sym, ◌≡◌, refl, ◌↔◌, inl, inr, List, Option, some, Option-cases}
use trivy.Base.Text.{Str, str}
use trivy.Base.Result.{Result, ok, context, choose, ◌>>=◌, Result-cases}
use trivy.External.{Package, Advisory}
use trivy.Types.{DetectedVulnerability}
use trivy.Detector.Version.{Versions, format_src_version}
use trivy.Detector.Ospkg.Eol.{Get}
use trivy.Detector.Ospkg.Reported.{
  Reported, collect-Reported, fetch-IsRound, IsRound-ap, choose-none, parsed, parsed-some,
}
use trivy.Detector.Ospkg.Fixes.{IsUnpatched, IsUnpatched-some}
use trivy.Detector.Ospkg.Ubuntu.{report, detect_advisory, detect_pkg, detect}
use mathlib.Core.List.{Memᴰ}

module _ {V : Type 0} (versions : Versions V) where
  abbrev pub Finds : Package → Advisory → DetectedVulnerability → Type 0
  Finds pkg adv v =
      (installed : V) × (versions.new_version (format_src_version pkg) ≡ some installed)
      × IsUnpatched versions installed adv.fixed_version
      × (v ≡ report versions pkg adv)

  -- What one advisory gives rise to.
  step : Package → Advisory → Option DetectedVulnerability
  step pkg = parsed (versions.new_version (format_src_version pkg)) (detect_advisory versions pkg)

  step-Finds :
      (p : Package) (adv : Advisory) (v : DetectedVulnerability)
      → (step p adv ≡ some v) ↔ Finds p adv v
  unfolding step detect_advisory
  step-Finds p adv v =
      let parse =
        parsed-some (versions.new_version (format_src_version p)) (detect_advisory versions p) adv
          v in
      let fixes =
        λ (i : V). IsUnpatched-some versions i adv.fixed_version (report versions p adv) v in
      (
        λ h. let (i, q, k) = parse.0 h in let (d, r) = (fixes i).0 k in (i, q, d, r),
        λ (i, q, d, r). parse.1 (i, q, (fixes i).1 (d, r)),
      )

  detect_pkg-step :
      (get : Get) (os_ver : Str) (p : Package)
      → detect_pkg versions get os_ver p ≡ (
          context (str "failed to get Ubuntu advisories") (get os_ver p.src_name) >>= λ advs.
          ok (choose (step p) advs))
  unfolding detect_pkg step
  detect_pkg-step get os_ver p = elim (Result-cases (get os_ver p.src_name)) [
    | inl (advs, g) ↦ elim (Option-cases (versions.new_version (format_src_version p))) [
      | inl n ↦ rw (g, n) (ap ok (sym (choose-none advs)))
      | inr (i, s) ↦ rw (g, s) refl
    ]
    | inr (inl (x, g)) ↦ rw g refl
    | inr (inr g) ↦ rw g refl
  ]

  -- A detection that succeeds reports, for each package whose installed version parses, the
  -- advisories for its source package and the release that have no fix, or a fix that is newer
  -- than the installed version, and nothing else.
  pub detect-Reported_ubuntu :
      (get : Get) (os_ver : Str) (pkgs : List Package) {out : List DetectedVulnerability}
      → detect versions get os_ver pkgs ≡ ok out
      → (v : DetectedVulnerability)
      → Memᴰ v out ↔ Reported (λ p. get os_ver p.src_name) Finds pkgs v
  unfolding detect
  detect-Reported_ubuntu get os_ver pkgs e v =
      let get_for : Package → Result (List Advisory) = λ p. get os_ver p.src_name in
      collect-Reported get_for Finds
        (IsRound-ap _ _ (detect_pkg-step get os_ver)
          (fetch-IsRound get_for Finds (str "failed to get Ubuntu advisories") step step-Finds))
        pkgs e v
