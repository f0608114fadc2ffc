-- ===== src/Types/Order.antt =====
-- The order of a report, BySeverity.
use mathlib.Core.Path.{fun_ext, sym, ◌∙◌}
use trivy.Base.{
  ◌≡◌, refl, if◌then◌else◌, Bool, true, false, not, ◌&&◌, ◌||◌, arith, ltb, inl, inr, Ordering,
}
use trivy.Base.Text.{Str, ◌==◌, ==_cases}
use trivy.Base.TextOrder.{lt, lt_irrefl, lt_connected}
use trivy.Base.Sort.{IsStrictWeak}
use trivy.Base.Order
use trivy.Base.Order.{lex}
use trivy.External.{Severities, IsRanked}
use trivy.Types.{DetectedVulnerability, by_severity_less}

-- One level of the comparison by a string.
level-lex :
    (s t : Str) (rest : Bool)
    → (if not (s == t) then lt s t else rest) ≡ (lt s t || (not (lt t s) && rest))
level-lex s t rest = elim (==_cases s t) [
  | inl (e, same) ↦ rw (e, same, lt_irrefl) refl
  | inr (n, other) ↦ ground (arith, n, lt_connected s t, other)
]

level-rank :
    (db : Severities) (r : IsRanked db) (s t : Str) (rest : Bool)
    → (elim (db.compare_severity_string t s) as (λ _. Bool) [
      | Ordering.gt ↦ true
      | Ordering.lt ↦ false
      | Ordering.eq ↦ rest
    ])
      ≡ (ltb (r.rank t) (r.rank s) || (not (ltb (r.rank s) (r.rank t)) && rest))
level-rank db r s t rest = ground (arith, r.ranked t s)

module _ (db : Severities) (r : IsRanked db) where
  -- By package, version, rank and identifier, one after another.
  abbrev levels : DetectedVulnerability → DetectedVulnerability → Bool
  levels =
      lex (λ a b. lt a.pkg_name b.pkg_name)
        (lex (λ a b. lt a.installed_version b.installed_version)
          (lex (λ a b. ltb (r.rank b.severity) (r.rank a.severity))
            (λ a b. lt a.vulnerability_id b.vulnerability_id)))

  less-levels : (a b : DetectedVulnerability) → by_severity_less db a b ≡ levels a b
  unfolding by_severity_less
  less-levels a b = simp (level-lex, level-rank db r)

  -- The comparison is a strict weak order, as package sort asks of it.
  pub by_severity_less-IsStrictWeak : IsStrictWeak (by_severity_less db)
  by_severity_less-IsStrictWeak = rw (fun_ext (λ a. fun_ext (less-levels a))) (
      Order.lex-IsStrictWeak
        (Order.key-IsStrictWeak (λ (v : DetectedVulnerability). v.pkg_name) Order.lt-IsStrictWeak)
        (Order.lex-IsStrictWeak
          (Order.key-IsStrictWeak (λ (v : DetectedVulnerability). v.installed_version)
            Order.lt-IsStrictWeak)
          (Order.lex-IsStrictWeak
            (Order.key-IsStrictWeak (λ (v : DetectedVulnerability). r.rank v.severity)
              (Order.swap-IsStrictWeak Order.ltb-IsStrictWeak))
            (Order.key-IsStrictWeak (λ (v : DetectedVulnerability). v.vulnerability_id)
              Order.lt-IsStrictWeak))))

  -- Two vulnerabilities of which neither comes first agree in package, version and identifier.
  pub less_incomparable :
      (a b : DetectedVulnerability)
      → by_severity_less db a b ≡ false
      → by_severity_less db b a ≡ false
      → (a.pkg_name ≡ b.pkg_name)
        × (a.installed_version ≡ b.installed_version)
        × (a.vulnerability_id ≡ b.vulnerability_id)
  less_incomparable a b h k =
      let h' : levels a b ≡ false = sym (less-levels a b) ∙ h in
      let k' : levels b a ≡ false = sym (less-levels b a) ∙ k in
      (
        lt_connected _ _ (ground arith) (ground arith),
        lt_connected _ _ (ground arith) (ground arith),
        lt_connected _ _ (ground arith) (ground arith),
      )
