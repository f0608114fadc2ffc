-- ===== src/Detector/Ospkg/Alpine/Laws.antt =====
-- What the detector of pkg/detector/ospkg/alpine/alpine.go reports.
use trivy.Base.{
  ap, sym, ◌≡◌, ◌≢◌, refl, ◌↔◌, ◌⊎◌, inl, inr, Bool, true, false, List, [], Option, none, some,
  if◌then◌else◌, Bool-cases, Option-cases,
}
use trivy.Base.Text.{Str, str, ◌==◌, ==_cases}
use trivy.Base.Result.{ok, context, choose, ◌>>=◌, Result-cases}
use trivy.External.{Package, Advisory}
use trivy.Types.{DetectedVulnerability}
use trivy.Detector.Version.{Versions, format_src_version, minor}
use trivy.Detector.Ospkg.Eol.{Get}
use trivy.Detector.Ospkg.Reported.{
  Reported, collect-Reported, fetch-IsRound, IsRound-ap, choose-none, parsed,
}
use trivy.Detector.Ospkg.Alpine.{is_vulnerable, report, detect_pkg, detect}
use mathlib.Core.List.{Memᴰ}

module _ {V : Type 0} (versions : Versions V) where
  -- The version that introduced the vulnerability is not newer than the installed one.
  abbrev pub Introduced : V → Advisory → Type 0
  Introduced installed adv =
      (adv.affected_version ≡ [])
      ⊎ (adv.affected_version ≢ [])
        × (a : V) × (versions.new_version adv.affected_version ≡ some a)
        × (versions.greater_than a installed ≡ false)

  -- The vulnerability has no fix, or the installed version is older than the fix.
  abbrev pub NotFixed : V → Advisory → Type 0
  NotFixed installed adv =
      (adv.fixed_version ≡ [])
      ⊎ (adv.fixed_version ≢ [])
        × (f : V) × (versions.new_version adv.fixed_version ≡ some f)
        × (versions.less_than installed f ≡ true)

  abbrev pub Finds : Package → Advisory → DetectedVulnerability → Type 0
  Finds pkg adv v =
      (installed : V) × (versions.new_version (format_src_version pkg) ≡ some installed)
      × Introduced installed adv
      × NotFixed installed adv
      × (v ≡ report versions pkg adv)

  not_fixed : V → Advisory → Bool
  not_fixed installed adv =
      if adv.fixed_version == [] then true else elim (versions.new_version adv.fixed_version) [
        | none ↦ false
        | some fixed ↦ versions.less_than installed fixed
      ]

  not_fixed-NotFixed : (i : V) (adv : Advisory) → (not_fixed i adv ≡ true) ↔ NotFixed i adv
  unfolding not_fixed
  not_fixed-NotFixed i adv = elim (==_cases adv.fixed_version []) [
    | inl (t, e) ↦ (λ _. inl e, λ _. rw t refl)
    | inr (f, n) ↦ elim (Option-cases (versions.new_version adv.fixed_version)) [
      | inl e ↦ (
        λ h. absurd (let h' : false ≡ true = rw (f, e) at h in cc),
        λ d. elim d [ inl blank ↦ absurd (n blank) | inr (_, w, p, t) ↦ absurd (cc (e, p)) ],
      )
      | inr (w, e) ↦ (
        λ h. inr (n, w, e, rw (f, e) at h),
        λ d. elim d [
          | inl blank ↦ absurd (n blank)
          | inr (_, w', p, t) ↦ let same : w ≡ w' = cc (e, p) in rw (f, e, same) t
        ],
      )
    ]
  ]

  is_vulnerable_lem :
      (i : V) (adv : Advisory)
      → (is_vulnerable versions i adv ≡ true) ↔ Introduced i adv × NotFixed i adv
  unfolding is_vulnerable not_fixed
  is_vulnerable_lem i adv = elim (==_cases adv.affected_version []) [
    | inl (t, e) ↦ (
      λ h. (inl e, (not_fixed-NotFixed i adv).0 (rw t at h)),
      λ d. rw t ((not_fixed-NotFixed i adv).1 d.1),
    )
    | inr (f, n) ↦ elim (Option-cases (versions.new_version adv.affected_version)) [
      | inl e ↦ (
        λ h. absurd (let h' : false ≡ true = rw (f, e) at h in cc),
        λ d. elim (d.0) [ inl blank ↦ absurd (n blank) | inr (_, w, p, t) ↦ absurd (cc (e, p)) ],
      )
      | inr (a, e) ↦ elim (Bool-cases (versions.greater_than a i)) [
        | inl newer ↦ (
          λ h. absurd (let h' : false ≡ true = rw (f, e, newer) at h in cc),
          λ d. elim (d.0) [
            | inl blank ↦ absurd (n blank)
            | inr (_, w, p, t) ↦ let same : a ≡ w = cc (e, p) in absurd (cc (newer, t, same))
          ],
        )
        | inr not_newer ↦ (
          λ h. (inr (n, a, e, not_newer), (not_fixed-NotFixed i adv).0 (rw (f, e, not_newer) at h)),
          λ d. rw (f, e, not_newer) ((not_fixed-NotFixed i adv).1 d.1),
        )
      ]
    ]
  ]

  -- What one advisory gives rise to.
  step : Package → Advisory → Option DetectedVulnerability
  step pkg =
      parsed (versions.new_version (format_src_version pkg))
        (λ i adv. if is_vulnerable versions i adv then some (report versions pkg adv) else none)

  step-Finds :
      (p : Package) (adv : Advisory) (v : DetectedVulnerability)
      → (step p adv ≡ some v) ↔ Finds p adv v
  unfolding step
  step-Finds p adv v = elim (Option-cases (versions.new_version (format_src_version p))) [
    | inl e ↦ (
      λ h. absurd (let h' : none ≡ some v = rw e at h in cc),
      λ (i, q, _, _, _). absurd (cc (e, q)),
    )
    | inr (i, e) ↦ elim (Bool-cases (is_vulnerable versions i adv)) [
      | inl t ↦ (
        λ h.
            let h' : some (report versions p adv) ≡ some v = rw (e, t) at h in
            let (intro, not_fixed) = (is_vulnerable_lem i adv).0 t in (i, e, intro, not_fixed, cc),
        λ (_, _, _, _, q). rw (e, t, q) refl,
      )
      | inr f ↦ (
        λ h. absurd (let h' : none ≡ some v = rw (e, f) at h in cc),
        λ (j, q, intro, not_fixed, _).
            let same : i ≡ j = cc (e, q) in
            let t : is_vulnerable versions j adv ≡ true =
              (is_vulnerable_lem j adv).1 (intro, not_fixed) in
            absurd (cc (f, same, t)),
      )
    ]
  ]

  detect_pkg-step :
      (get : Get) (os_ver : Str) (p : Package)
      → detect_pkg versions get os_ver p ≡ (
          context (str "failed to get alpine advisories") (get os_ver p.src_name) >>= λ advs.
          ok (choose (step p) advs))
  unfolding detect_pkg step
  detect_pkg-step get os_ver p = elim (Result-cases (get os_ver p.src_name)) [
    | inl (advs, g) ↦ elim (Option-cases (versions.new_version (format_src_version p))) [
      | inl n ↦ rw (g, n) (ap ok (sym (choose-none advs)))
      | inr (i, s) ↦ rw (g, s) refl
    ]
    | inr (inl (x, g)) ↦ rw g refl
    | inr (inr g) ↦ rw g refl
  ]

  -- A detection that succeeds reports, for each package whose installed version parses, what the
  -- advisories for its source package and the release say of it, the vulnerabilities introduced
  -- by then and not fixed, and nothing else.
  pub detect-Reported_alpine :
      (get : Get) (os_ver : Str) (pkgs : List Package) {out : List DetectedVulnerability}
      → detect versions get os_ver pkgs ≡ ok out
      → (v : DetectedVulnerability)
      → Memᴰ v out ↔ Reported (λ p. get (minor os_ver) p.src_name) Finds pkgs v
  unfolding detect
  detect-Reported_alpine get os_ver pkgs e v =
      collect-Reported (λ p. get (minor os_ver) p.src_name) Finds
        (IsRound-ap _ _ (detect_pkg-step get (minor os_ver)) (
          fetch-IsRound (λ p. get (minor os_ver) p.src_name) Finds
            (str "failed to get alpine advisories") step step-Finds))
        pkgs e v
