-- ===== src/ResultClient/Vulnerabilities/Step.antt =====
-- One vulnerability at a time: when it may enter the report, and what its round does to the map.
use mathlib.Core.List.{Memᴰ}
use trivy.Base.{
  ◌≡◌, refl, ◌≢◌, Bool, true, not, ◌&&◌, List, [], ◌∷◌, none, some, if◌then◌else◌, any, arith,
  false, ◌⊎◌, Bool-cases, inl, inr,
}
use trivy.Base.Text.{Str, ◌==◌, contains, ==_cases, ==_iff, mem-contains, contains_mem}
use trivy.Base.TextOrder.{lt}
use trivy.Base.Dict.{Dict, lookup, store}
use trivy.External.{Severities, Severity}
use trivy.Types.{DetectedVulnerability}
use trivy.ResultClient.Vulnerabilities.{key, try_severities}

module _ (db : Severities) (ignore_unfixed : Bool) (ignored_ids : List Str) where
  -- The severity is among those asked for, a fix is known if one is asked for, and the identifier
  -- is not ignored.
  pub record Admissible (severities : List Severity) (v : DetectedVulnerability) : Type 0 where
    pub severity : Severity
    pub listed : Memᴰ severity severities
    pub named : db.to_string severity ≡ v.severity
    pub fixed : ignore_unfixed ≡ true → v.fixed_version ≢ []
    pub not_ignored : ¬ Memᴰ v.vulnerability_id ignored_ids

  -- The same as a test, over the severities that are left.
  passes : DetectedVulnerability → List Severity → Bool
  passes v ss =
      any (λ s. db.to_string s == v.severity) ss
      && (not (ignore_unfixed && v.fixed_version == [])
          && not (contains ignored_ids v.vulnerability_id))

  -- A vulnerability enters the map unless one with its key and as good a fix stands there.
  unfoldable pub put :
      Dict DetectedVulnerability → DetectedVulnerability → Dict DetectedVulnerability
  put uniq v = elim (lookup (key v) uniq) [
    | none ↦ store (key v) v uniq
    | some old ↦ if lt old.fixed_version v.fixed_version then store (key v) v uniq else uniq
  ]

  try_severities-passes :
      (uniq : Dict DetectedVulnerability) (v : DetectedVulnerability) (ss : List Severity)
      → try_severities db ignore_unfixed ignored_ids uniq v ss
        ≡ (if passes v ss then put uniq v else uniq)
  unfolding try_severities passes put
  try_severities-passes uniq v [] = refl
  try_severities-passes uniq v (s ∷ ss) = ground (arith, try_severities-passes uniq v ss)

  any_listed :
      (v : DetectedVulnerability) (ss : List Severity)
      → any (λ s. db.to_string s == v.severity) ss ≡ true
      → (s : Severity) × Memᴰ s ss × (db.to_string s ≡ v.severity)
  any_listed v [] h = absurd (cc)
  any_listed v (s ∷ ss) h = elim (==_cases (db.to_string s) v.severity) [
    | inl (e, same) ↦ (s, Memᴰ.head refl, same)
    | inr (n, other) ↦ let (t, m, e) = any_listed v ss (ground (arith, n)) in (t, Memᴰ.tail m, e)
  ]

  listed_any :
      (v : DetectedVulnerability) (s : Severity) (ss : List Severity)
      → Memᴰ s ss
      → db.to_string s ≡ v.severity
      → any (λ t. db.to_string t == v.severity) ss ≡ true
  listed_any v s [] m e = elim m [ ]
  listed_any v s (t ∷ ss) (Memᴰ.head same) e =
      ground (arith, ==_iff (db.to_string t) v.severity, same, e)
  listed_any v s (t ∷ ss) (Memᴰ.tail m) e = ground (arith, listed_any v s ss m e)

  passes-Admissible :
      (v : DetectedVulnerability) (ss : List Severity) → passes v ss ≡ true → Admissible ss v
  unfolding passes
  passes-Admissible v ss h =
      let (s, m, e) = any_listed v ss (ground arith) in
      record {
        severity = s;
        listed = m;
        named = e;
        fixed = λ wanted blank. ground (arith, ==_iff v.fixed_version [], wanted, blank, h);
        not_ignored = λ i. ground (arith, mem-contains ignored_ids v.vulnerability_id i, h);
      }

  Admissible-passes :
      (v : DetectedVulnerability) (ss : List Severity) → Admissible ss v → passes v ss ≡ true
  unfolding passes
  Admissible-passes v ss a =
      let named = listed_any v a.severity ss a.listed a.named in
      let allowed : contains ignored_ids v.vulnerability_id ≡ false =
        elim (Bool-cases (contains ignored_ids v.vulnerability_id)) [
          | inl t ↦ absurd (a.not_ignored (contains_mem ignored_ids v.vulnerability_id t))
          | inr f ↦ f
        ] in
      let has_fix : (ignore_unfixed && v.fixed_version == []) ≡ false =
        elim (Bool-cases (ignore_unfixed && v.fixed_version == [])) [
          | inl t ↦ absurd (a.fixed (ground arith) ((==_iff v.fixed_version []).0 (ground arith)))
          | inr f ↦ f
        ] in
      rw (named, allowed, has_fix) refl

  -- A round puts an admissible vulnerability into the map, and leaves the map for any other.
  pub try_severities-put :
      (uniq : Dict DetectedVulnerability) (v : DetectedVulnerability) (ss : List Severity)
      → Admissible ss v × (try_severities db ignore_unfixed ignored_ids uniq v ss ≡ put uniq v)
        ⊎ (¬ Admissible ss v) × (try_severities db ignore_unfixed ignored_ids uniq v ss ≡ uniq)
  try_severities-put uniq v ss = elim (Bool-cases (passes v ss)) [
    | inl t ↦ inl (passes-Admissible v ss t, rw (try_severities-passes, t) refl)
    | inr f ↦ inr (λ a. cc (Admissible-passes v ss a), rw (try_severities-passes, f) refl)
  ]
