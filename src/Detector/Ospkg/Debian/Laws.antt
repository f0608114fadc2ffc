-- ===== src/Detector/Ospkg/Debian/Laws.antt =====
-- What the detector of pkg/detector/ospkg/debian/debian.go reports.
use trivy.Base.{[], ◌≡◌, refl, ◌↔◌, inl, inr, List, Option, none, some, Option-cases}
use trivy.Base.Text.{Str, str}
use trivy.Base.Result.{ok, context, choose, ◌>>=◌}
use trivy.External.{Package, Advisory, Severities, SourceIds}
use trivy.Types.{DetectedVulnerability}
use trivy.Detector.Version.{Versions, format_src_version, major}
use trivy.Detector.Ospkg.Eol.{Get}
use trivy.Detector.Ospkg.Reported.{
  Reported, IsRound, collect-Reported, fetch-IsRound, parsed, parsed-some,
}
use trivy.Detector.Ospkg.Fixes.{IsUnpatched, IsUnpatched-some}
use trivy.Detector.Ospkg.Debian.{report, detect_advisory, detect_pkg, detect}
use mathlib.Core.List.{Memᴰ}
use mathlib.Core.List.Memᴰ

module _ {V : Type 0} (versions : Versions V) (db : Severities) (sources : SourceIds) where
  abbrev pub Finds : Package → Advisory → DetectedVulnerability → Type 0
  Finds pkg adv v =
      (installed : V) × (versions.new_version (format_src_version pkg) ≡ some installed)
      × IsUnpatched versions installed adv.fixed_version
      × (v ≡ report versions db sources pkg adv)

  -- What one advisory gives rise to.
  step : Package → Advisory → Option DetectedVulnerability
  step pkg =
      parsed (versions.new_version (format_src_version pkg))
        (detect_advisory versions db sources pkg)

  step-Finds :
      (p : Package) (adv : Advisory) (v : DetectedVulnerability)
      → (step p adv ≡ some v) ↔ Finds p adv v
  unfolding step detect_advisory
  step-Finds p adv v =
      let parse =
        parsed-some (versions.new_version (format_src_version p))
          (detect_advisory versions db sources p) adv v in
      let fixes = λ (i : V).
        IsUnpatched-some versions i adv.fixed_version (report versions db sources p adv) v in
      (
        λ h. let (i, q, k) = parse.0 h in let (d, r) = (fixes i).0 k in (i, q, d, r),
        λ (i, q, d, r). parse.1 (i, q, (fixes i).1 (d, r)),
      )

  fetched-IsRound :
      (get : Get) (os_ver : Str)
      → IsRound
          (λ p. get os_ver p.src_name)
          Finds
          (λ p. context (str "failed to get debian advisories") (get os_ver p.src_name) >>= λ advs.
            ok (choose (step p) advs))
  fetched-IsRound get os_ver =
      fetch-IsRound (λ p. get os_ver p.src_name) Finds (str "failed to get debian advisories") step
        step-Finds

  detect_pkg-fetched :
      (get : Get) (os_ver : Str) (p : Package) {i : V}
      → versions.new_version (format_src_version p) ≡ some i
      → detect_pkg versions db sources get os_ver p ≡ (
          context (str "failed to get debian advisories") (get os_ver p.src_name) >>= λ advs.
          ok (choose (step p) advs))
  unfolding detect_pkg step
  detect_pkg-fetched get os_ver p s = rw (s, detect_pkg) refl

  detect_pkg-passed :
      (get : Get) (os_ver : Str) (p : Package)
      → versions.new_version (format_src_version p) ≡ none
      → detect_pkg versions db sources get os_ver p ≡ ok []
  unfolding detect_pkg
  detect_pkg-passed get os_ver p n = rw (n, detect_pkg) refl

  -- The versions that do not parse are passed over before the advisories are fetched.
  detect_pkg-IsRound :
      (get : Get) (os_ver : Str)
      → IsRound (λ p. get os_ver p.src_name) Finds (detect_pkg versions db sources get os_ver)
  detect_pkg-IsRound get os_ver = record {
    sound = λ p {ys} {v} e m. elim (Option-cases (versions.new_version (format_src_version p))) [
      | inl n ↦
          let none_found : [] ≡ ys = cc (e, detect_pkg-passed get os_ver p n) in
          absurd (Memᴰ.not-nil (rw (← none_found) at m))
      | inr (i, s) ↦
          (fetched-IsRound get os_ver).sound p (rw (detect_pkg-fetched get os_ver p s) at e) m
    ];
    complete = λ p adv e g i found.
        (fetched-IsRound get os_ver).complete p adv
          (rw (detect_pkg-fetched get os_ver p found.1) at e) g i found;
  }

  -- A detection that succeeds reports, for each package whose installed version parses, the
  -- advisories for its source package and the release that have no fix, or a fix that is newer
  -- than the installed version, and nothing else.
  pub detect-Reported_debian :
      (get : Get) (os_ver : Str) (pkgs : List Package) {out : List DetectedVulnerability}
      → detect versions db sources get os_ver pkgs ≡ ok out
      → (v : DetectedVulnerability)
      → Memᴰ v out ↔ Reported (λ p. get (major os_ver) p.src_name) Finds pkgs v
  unfolding detect
  detect-Reported_debian get os_ver pkgs e v =
      collect-Reported (λ p. get (major os_ver) p.src_name) Finds
        (detect_pkg-IsRound get (major os_ver)) pkgs e v
