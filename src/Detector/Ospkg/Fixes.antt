-- ===== src/Detector/Ospkg/Fixes.antt =====
-- The test of the detectors for distributions with Debian's versions: is there a fix, and is the
-- installed version older?
use trivy.Base.{
  refl, ◌≡◌, ◌≢◌, ◌↔◌, ◌⊎◌, inl, inr, true, [], none, some, if◌then◌else◌, Bool-cases, Option-cases,
}
use trivy.Base.Text.{Str, ◌==◌, ==_cases}
use trivy.Detector.Version.{Versions}

module _ {V : Type 0} (versions : Versions V) where
  -- There is no fix, or the installed version is older than the fix.
  abbrev pub IsUnpatched : V → Str → Type 0
  IsUnpatched installed fixed_version =
      (fixed_version ≡ [])
      ⊎ (fixed_version ≢ [])
        × (f : V) × (versions.new_version fixed_version ≡ some f)
        × (versions.less_than installed f ≡ true)

  pub IsUnpatched-some {ℓ} :
      {A : Type ℓ} (i : V) (fixed_version : Str) (r v : A)
      → ((if fixed_version == [] then some r else elim (versions.new_version fixed_version) [
        | none ↦ none
        | some fixed ↦ if versions.less_than i fixed then some r else none
      ])
          ≡ some v)
        ↔ IsUnpatched i fixed_version × (v ≡ r)
  IsUnpatched-some i fixed_version r v = elim (==_cases fixed_version []) [
    | inl (t, e) ↦
        (λ h. (inl e, let h' : some r ≡ some v = rw t at h in cc), λ (_, q). rw (t, q) refl)
    | inr (f, n) ↦ elim (Option-cases (versions.new_version fixed_version)) [
      | inl e ↦ (
        λ h. absurd (let h' : none ≡ some v = rw (f, e) at h in cc),
        λ (d, _). elim d [ inl blank ↦ absurd (n blank) | inr (_, w, p, t) ↦ absurd (cc (e, p)) ],
      )
      | inr (w, e) ↦ elim (Bool-cases (versions.less_than i w)) [
        | inl t ↦ (
          λ h. (inr (n, w, e, t), let h' : some r ≡ some v = rw (f, e, t) at h in cc),
          λ (_, q). rw (f, e, t, q) refl,
        )
        | inr g ↦ (
          λ h. absurd (let h' : none ≡ some v = rw (f, e, g) at h in cc),
          λ (d, _). elim d [
            | inl blank ↦ absurd (n blank)
            | inr (_, x, p, t) ↦ let same : w ≡ x = cc (e, p) in absurd (cc (g, t, same))
          ],
        )
      ]
    ]
  ]
