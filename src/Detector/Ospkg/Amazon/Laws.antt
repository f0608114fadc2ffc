-- ===== src/Detector/Ospkg/Amazon/Laws.antt =====
-- The versions on which pkg/detector/ospkg/amazon/amazon.go panics.
use trivy.Base.{
  List-cases, ℕ, ◌≡◌, ◌≢◌, refl, ◌↔◌, inl, inr, true, false, not, [], ◌∷◌, ◌++◌, if◌then◌else◌,
  Bool-cases, any,
}
use trivy.Base.Text.{Str, str, ◌==◌, fields, fields_from, push_word, is_space}
use trivy.Base.Result.{ok, err, panicked, Result-cases}
use trivy.Detector.Ospkg.Eol.{is_before_eol}
use trivy.Detector.Ospkg.Amazon.{release_of, is_supported_version, eol_dates}

-- No character is other than white space.
abbrev pub IsBlank : Str → Type 0
IsBlank s = any (λ c. not (is_space c)) s ≡ false

fields_from-word : (c : ℕ) (w s : Str) → fields_from (c ∷ w) s ≢ []
unfolding fields_from push_word
fields_from-word c w [] e = cc
fields_from-word c w (d ∷ s) e = elim (Bool-cases (is_space d)) [
  | inl t ↦ let e' : (c ∷ w) ∷ fields_from [] s ≡ [] = rw t at e in cc
  | inr f ↦ fields_from-word c (w ++ d ∷ []) s (rw f at e)
]

fields-IsBlank : (s : Str) → (fields s ≡ []) ↔ IsBlank s
unfolding fields fields_from push_word
fields-IsBlank [] = (λ _. refl, λ _. refl)
fields-IsBlank (c ∷ s) = elim (Bool-cases (is_space c)) [
  | inl t ↦
      (λ e. rw t ((fields-IsBlank s).0 (rw t at e)), λ h. rw t ((fields-IsBlank s).1 (rw t at h)))
  | inr f ↦ (
    λ e. absurd (fields_from-word c [] s (rw f at e)),
    λ h. absurd (let h' : true ≡ false = rw f at h in cc),
  )
]

release_of-panicked : (os_ver : Str) → (release_of os_ver ≡ panicked) ↔ (fields os_ver ≡ [])
unfolding release_of
release_of-panicked os_ver = elim (List-cases (fields os_ver)) [
  | inl e ↦ (λ _. e, λ _. rw (e, release_of) refl)
  | inr (v, vs, e) ↦ (
    λ h. absurd (
        let h' : ok (if not (v == str "2") then str "1" else v) ≡ panicked =
          rw (e, release_of) at h in
        cc),
    λ h. absurd (cc (e, h)),
  )
]

-- The test of a version panics on a version that is empty or white space, and on no other.
pub is_supported_version-panicked :
    (now : ℕ) (os_ver : Str) → (is_supported_version now os_ver ≡ panicked) ↔ IsBlank os_ver
unfolding is_supported_version
is_supported_version-panicked now os_ver = elim (Result-cases (release_of os_ver)) [
  | inl (v, e) ↦ (
    λ h. absurd (
        let h' : ok (is_before_eol eol_dates now v) ≡ panicked =
          rw (e, is_supported_version) at h in
        cc),
    λ b. absurd (cc (e, (release_of-panicked os_ver).1 ((fields-IsBlank os_ver).1 b))),
  )
  | inr (inl (x, e)) ↦ (
    λ h. absurd (let h' : err x ≡ panicked = rw (e, is_supported_version) at h in cc),
    λ b. absurd (cc (e, (release_of-panicked os_ver).1 ((fields-IsBlank os_ver).1 b))),
  )
  | inr (inr e) ↦ (
    λ _. (fields-IsBlank os_ver).0 ((release_of-panicked os_ver).0 e),
    λ _. rw (e, is_supported_version) refl,
  )
]
