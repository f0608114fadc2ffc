-- ===== src/Report/Table/Laws.antt =====
-- What the table of pkg/report/table.go counts.
use trivy.Base.{
  ℕ, suc, ◌+◌, ◌≡◌, refl, ap, sym, ◌∙◌, Bool, true, false, ◌&&◌, List, [], ◌∷◌, if◌then◌else◌, map,
  Bool-cases, arith, inl, inr,
}
use trivy.Base.Text.{Str, contains, ◌==◌, ==_cases, ==_iff}
use trivy.Base.Dict.{Dict, lookup, lookup-store}
use trivy.Types.{DetectedVulnerability}
use trivy.Report.Table.{
  Libraries, TableWriter, Table, or_zero, count_of, increment, append_row, vulnerability_row,
  set_vulnerability_rows, summarize_names, summary, write_vulnerabilities,
}

-- How many elements pass a test.
abbrev pub tally {ℓ} : {A : Type ℓ} → (A → Bool) → List A → ℕ
tally p [] = 0
tally p (x ∷ xs) = (if p x then 1 else 0) + tally p xs

count_of-increment :
    (s t : Str) (counts : Dict ℕ)
    → count_of (increment s counts) t ≡ (if s == t then 1 else 0) + count_of counts t
count_of-increment s t counts =
    let e = ap or_zero (lookup-store s t (suc (count_of counts s)) counts) in
    elim (==_cases s t) [
      | inl (h, same) ↦
          let r : count_of counts s ≡ count_of counts t = ap (count_of counts) same in
          let e' : count_of (increment s counts) t ≡ suc (count_of counts s) = rw h at e in
          rw h (omega arith)
      | inr (h, _) ↦
          let e' : count_of (increment s counts) t ≡ count_of counts t = rw h at e in
          rw h (omega arith)
    ]

module _ (l : Libraries) (tw : TableWriter) where
  count_of-set_vulnerability_rows :
      (s : Str) (vulns : List DetectedVulnerability) (counts : Dict ℕ) (table : Table)
      → count_of (set_vulnerability_rows l tw vulns counts table).0 s
        ≡ tally (λ v. v.severity == s) vulns + count_of counts s
  unfolding set_vulnerability_rows
  count_of-set_vulnerability_rows s [] counts table = omega arith
  count_of-set_vulnerability_rows s (v ∷ vulns) counts table =
      let later =
        count_of-set_vulnerability_rows s vulns (increment v.severity counts)
          (append_row (vulnerability_row l tw v) table) in
      let now = count_of-increment v.severity s counts in omega arith

-- A name of a severity that is listed apart from others counts its own findings.
tally-listed :
    (severities names : List Str) (s : Str) (vulns : List DetectedVulnerability)
    → contains severities s ≡ true
    → contains names s ≡ false
    → tally (λ v. contains severities v.severity && contains (s ∷ names) v.severity) vulns
      ≡ tally (λ v. v.severity == s) vulns
        + tally (λ v. contains severities v.severity && contains names v.severity) vulns
unfolding contains
tally-listed severities names s [] i o = refl
tally-listed severities names s (v ∷ vulns) i o =
    let rest = tally-listed severities names s vulns i o in
    elim (==_cases s v.severity) [
      | inl (t, same) ↦
          let i' : contains severities v.severity ≡ true = rw same at i in
          let o' : contains names v.severity ≡ false = rw same at o in
          let t' : (v.severity == s) ≡ true = (==_iff v.severity s).1 (sym same) in
          rw (i', o', t', t) (omega arith)
      | inr (f, differs) ↦ elim (==_cases v.severity s) [
        | inl (_, same) ↦ absurd (differs (sym same))
        | inr (f', _) ↦ rw (f, f') (omega arith)
      ]
    ]

plus_zero : (n : ℕ) → n + 0 ≡ n
plus_zero n = omega arith

-- The names are distinct.
abbrev pub IsDistinct : List Str → Type 0
IsDistinct [] = Unit
IsDistinct (s ∷ names) = (contains names s ≡ false) × IsDistinct names

tally-unlisted :
    (severities names : List Str) (s : Str) (vulns : List DetectedVulnerability)
    → contains severities s ≡ false
    → tally (λ v. contains severities v.severity && contains (s ∷ names) v.severity) vulns
      ≡ tally (λ v. contains severities v.severity && contains names v.severity) vulns
unfolding contains
tally-unlisted severities names s [] o = refl
tally-unlisted severities names s (v ∷ vulns) o =
    let rest = tally-unlisted severities names s vulns o in
    elim (==_cases s v.severity) [
      | inl (t, same) ↦
          let o' : contains severities v.severity ≡ false = rw same at o in rw o' (omega arith)
      | inr (f, differs) ↦ rw f (omega arith)
    ]

tally-none :
    (severities : List Str) (vulns : List DetectedVulnerability)
    → tally (λ v. contains severities v.severity && contains [] v.severity) vulns ≡ 0
unfolding contains
tally-none severities [] = refl
tally-none severities (v ∷ vulns) =
    let rest = tally-none severities vulns in
    elim (Bool-cases (contains severities v.severity)) [
      | inl t ↦ rw t (omega arith)
      | inr f ↦ rw f (omega arith)
    ]

module _ (l : Libraries) (tw : TableWriter) where
  summarize_names-tally :
      (severities names : List Str) (vulns : List DetectedVulnerability) (counts : Dict ℕ)
      → ((s : Str) → count_of counts s ≡ tally (λ v. v.severity == s) vulns)
      → IsDistinct names
      → (summarize_names l tw severities names counts).0
        ≡ tally (λ v. contains severities v.severity && contains names v.severity) vulns
  unfolding summarize_names
  summarize_names-tally severities [] vulns counts h d = sym (tally-none severities vulns)
  summarize_names-tally severities (s ∷ names) vulns counts h d =
      let rest = summarize_names-tally severities names vulns counts h d.1 in
      elim (Bool-cases (contains severities s)) [
        | inl t ↦
            let listed = tally-listed severities names s vulns t d.0 in
            let own = h s in rw (t, summarize_names) (omega arith)
        | inr f ↦ rw (f, summarize_names, tally-unlisted severities names s vulns f) rest
      ]

  -- The total that is printed of the vulnerabilities of a result is the number of those whose
  -- severity is asked for, by its name; the names of the severities are distinct.
  pub summary-tally :
      (vulns : List DetectedVulnerability) (table : Table)
      → IsDistinct l.severity_names
      → (summary l tw (write_vulnerabilities l tw vulns table).0).0
        ≡ tally
            (λ v.
              contains (map l.severities.to_string tw.severities) v.severity
              && contains l.severity_names v.severity)
            vulns
  unfolding summary write_vulnerabilities lookup
  summary-tally vulns table d =
      summarize_names-tally (map l.severities.to_string tw.severities) l.severity_names vulns _
        (λ s. count_of-set_vulnerability_rows l tw s vulns [] _ ∙ plus_zero _) d
