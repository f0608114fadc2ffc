-- ===== src/Detector/Library/Compare/Laws.antt =====
-- What IsVulnerable of pkg/detector/library/compare/compare.go decides.
use trivy.Base.{
  ◌≡◌, refl, ◌↔◌, ◌⊎◌, inl, inr, Bool, true, false, not, List, [], ◌∷◌, ◌++◌, none, some,
  if◌then◌else◌, any, Bool-cases, Option-cases,
}
use trivy.Base.Text.{Str, str, join}
use trivy.External.{Advisory}
use trivy.Detector.Library.Compare.{MatchVersion, is_blank, check_secure, is_vulnerable}

module _ (match_ver : MatchVersion) (pkg_ver : Str) where
  -- The constraints, joined by " || ", answer so for the version of the package.
  abbrev pub Answers : List Str → Bool → Type 0
  Answers constraints answer = match_ver pkg_ver (join (str " || ") constraints) ≡ some answer

  -- The version is in the vulnerable ones, or there are none to be in.
  abbrev pub InVulnerable : List Str → Type 0
  InVulnerable [] = Unit
  InVulnerable (v ∷ vs) = Answers (v ∷ vs) true

  -- The version is not in the patched or unaffected ones; where there are none of these, there are
  -- vulnerable ones.
  abbrev pub NotInSecure : List Str → List Str → Type 0
  NotInSecure [] [] = false ≡ true
  NotInSecure (v ∷ vs) [] = Unit
  NotInSecure vulnerable (s ∷ ss) = Answers (s ∷ ss) false

  abbrev pub IsAffected : Advisory → Type 0
  IsAffected advisory =
      (any is_blank (advisory.vulnerable_versions ++ advisory.patched_versions) ≡ true)
      ⊎ InVulnerable advisory.vulnerable_versions
        × NotInSecure advisory.vulnerable_versions
            (advisory.patched_versions ++ advisory.unaffected_versions)

  -- IsVulnerable after the test for blank versions.
  tested : List Str → List Str → Bool
  unfolding check_secure
  tested vulnerable secure_versions = elim vulnerable [
    | [] ↦ check_secure match_ver pkg_ver secure_versions false
    | v ∷ vs ↦ elim (match_ver pkg_ver (join (str " || ") (v ∷ vs))) [
      | none ↦ false
      | some matched ↦
          let secure = check_secure match_ver pkg_ver secure_versions matched in
          if not matched then false else secure
    ]
  ]

  check_secure_lem :
      (s : Str) (ss : List Str) (matched : Bool)
      → (check_secure match_ver pkg_ver (s ∷ ss) matched ≡ true) ↔ Answers (s ∷ ss) false
  unfolding check_secure
  check_secure_lem s ss matched =
      elim (Option-cases (match_ver pkg_ver (join (str " || ") (s ∷ ss)))) [
        | inl e ↦ (
          λ h. absurd (let h' : false ≡ true = rw (e, check_secure) at h in cc),
          λ h. absurd (cc (e, h)),
        )
        | inr (true, e) ↦ (
          λ h. absurd (let h' : false ≡ true = rw (e, check_secure) at h in cc),
          λ h. absurd (cc (e, h)),
        )
        | inr (false, e) ↦ (λ _. e, λ _. rw (e, check_secure) refl)
      ]

  tested_lem :
      (vulnerable secure : List Str)
      → (tested vulnerable secure ≡ true) ↔ InVulnerable vulnerable × NotInSecure vulnerable secure
  unfolding tested check_secure
  tested_lem [] [] = (λ h. (tt, h), λ h. h.1)
  tested_lem [] (s ∷ ss) =
      (λ h. (tt, (check_secure_lem s ss false).0 h), λ h. (check_secure_lem s ss false).1 h.1)
  tested_lem (v ∷ vs) secure =
      elim (Option-cases (match_ver pkg_ver (join (str " || ") (v ∷ vs)))) [
        | inl e ↦ (
          λ h. absurd (let h' : false ≡ true = rw (e, tested) at h in cc),
          λ h. absurd (cc (e, h.0)),
        )
        | inr (false, e) ↦ (
          λ h. absurd (let h' : false ≡ true = rw (e, tested) at h in cc),
          λ h. absurd (cc (e, h.0)),
        )
        | inr (true, e) ↦ matched e secure
      ]
    where
      matched :
          Answers (v ∷ vs) true
          → (secure : List Str)
          → (tested (v ∷ vs) secure ≡ true) ↔ InVulnerable (v ∷ vs) × NotInSecure (v ∷ vs) secure
      matched e [] = (λ h. (e, tt), λ _. rw (e, tested, check_secure) refl)
      matched e (s ∷ ss) = (
        λ h. (e, (check_secure_lem s ss true).0 (rw (e, tested) at h)),
        λ h. rw (e, tested) ((check_secure_lem s ss true).1 h.1),
      )

  -- A version is vulnerable exactly if one of the vulnerable or patched versions of the advisory is
  -- blank, or the advisory has vulnerable, patched or unaffected versions, the test of the vulnerable
  -- ones, if there are any, answers that the version is among them, and the test of the patched and
  -- unaffected ones, if there are any, answers that it is not. A test whose version or constraint does
  -- not parse gives no answer.
  pub is_vulnerable-IsAffected :
      (advisory : Advisory)
      → (is_vulnerable match_ver pkg_ver advisory ≡ true) ↔ IsAffected advisory
  unfolding is_vulnerable tested
  is_vulnerable-IsAffected advisory =
      let secure = advisory.patched_versions ++ advisory.unaffected_versions in
      elim (Bool-cases (any is_blank (advisory.vulnerable_versions ++ advisory.patched_versions))) [
        | inl t ↦ (λ _. inl t, λ _. rw t refl)
        | inr f ↦ (
          λ h.
              inr ((tested_lem advisory.vulnerable_versions secure).0 (rw (f, is_vulnerable) at h)),
          λ h. elim h [
            | inl t ↦ absurd (cc (f, t))
            | inr d ↦ rw (f, is_vulnerable) ((tested_lem advisory.vulnerable_versions secure).1 d)
          ],
        )
      ]
