-- ===== src/Report/Sarif/Laws.antt =====
-- What the results that pkg/report/sarif.go writes say of the rules.
use trivy.Base.{
  ℕ, suc, ◌+◌, ◌≡◌, refl, ap, ◌∙◌, sym, true, false, List, [], ◌∷◌, ◌++◌, none, some, if◌then◌else◌,
  map, length, get_elem?, get_elem?-append, get_elem?-length, All, All-append, Option-cases, arith,
  inl, inr,
}
use trivy.Base.Text.{Str, contains, ==_cases}
use trivy.Base.Dict.{Dict, lookup, store}
use trivy.Types
use trivy.Types.{DetectedVulnerability, DetectedMisconfiguration}
use trivy.Report.Sarif.{
  Libraries, SarifData, Rule, RuleResult, Run, get_rule_index, add_sarif_rule, add_sarif_result,
  fill_rule,
}
use trivy.Report.Sarif.Write.{
  add_indexed, add_vulnerabilities, add_misconfigurations, add_results, write, vulnerability_data,
  misconfiguration_data,
}

abbrev pub ids : List Rule → List Str
ids = map (λ r. r.id)

-- A rule that is there is not added again.
abbrev pub with_id : Str → List Str → List Str
with_id id known = if contains known id then known else known ++ id ∷ []

abbrev keys : Dict ℕ → List Str
keys = map (λ e. e.0)

-- The values of a map count from a number on.
abbrev Counts : ℕ → Dict ℕ → Type 0
Counts n [] = Unit
Counts n ((k, i) ∷ m) = (i ≡ n) × Counts (suc n) m

length-keys : (m : Dict ℕ) → length (keys m) ≡ length m
length-keys [] = refl
length-keys (e ∷ m) = ap suc (length-keys m)

lookup-Counts :
    (n : ℕ) (k : Str) (m : Dict ℕ) {i : ℕ}
    → Counts n m
    → lookup k m ≡ some i
    → (j : ℕ) × (i ≡ n + j) × (get_elem? (keys m) j ≡ some k) × (contains (keys m) k ≡ true)
unfolding lookup contains
lookup-Counts n k [] h e = absurd cc
lookup-Counts n k ((l, v) ∷ m) {i} h e = elim (==_cases l k) [
  | inl (t, same) ↦
      let e' : some v ≡ some i = rw (t, lookup) at e in
      let at_n : i ≡ n + 0 = (let vi : v ≡ i = cc in let vn = h.0 in omega arith) in
      (0, at_n, ap some same, rw (t, contains) refl)
  | inr (f, _) ↦
      let (j, p, q, r) = lookup-Counts (suc n) k m h.1 (rw (f, lookup) at e) in
      (suc j, omega arith, q, rw (f, contains) r)
]

lookup-none :
    (k : Str) (v : ℕ) (m : Dict ℕ)
    → lookup k m ≡ none
    → (contains (keys m) k ≡ false) × (store k v m ≡ m ++ (k, v) ∷ [])
unfolding lookup contains store
lookup-none k v [] e = (refl, refl)
lookup-none k v ((l, w) ∷ m) e = elim (==_cases l k) [
  | inl (t, same) ↦ absurd (let e' : some w ≡ none = rw (t, lookup) at e in cc)
  | inr (f, _) ↦
      let (p, q) = lookup-none k v m (rw (f, lookup) at e) in
      (rw (f, contains) p, rw (f, store) (ap (◌∷◌ (l, w)) q))
]

Counts-append : (n : ℕ) (m : Dict ℕ) (k : Str) → Counts n m → Counts n (m ++ (k, n + length m) ∷ [])
Counts-append n [] k h = (omega arith, tt)
Counts-append n ((l, w) ∷ m) k h =
    let same : n + suc (length m) ≡ suc n + length m = omega arith in
    (h.0, rw same (Counts-append (suc n) m k h.1))

keys-append : (m : Dict ℕ) (k : Str) (v : ℕ) → keys (m ++ (k, v) ∷ []) ≡ keys m ++ k ∷ []
keys-append [] k v = refl
keys-append (e ∷ m) k v = ap (◌∷◌ e.0) (keys-append m k v)

-- A result's index is that of the rule with its identifier.
abbrev pub IsIndexed : List Str → RuleResult → Type 0
IsIndexed known r = get_elem? known r.rule_index ≡ some r.rule_id

All-mono {ℓ κ μ} :
    {A : Type ℓ} {P : A → Type κ} {Q : A → Type μ}
    → ((a : A) → P a → Q a)
    → (xs : List A) → All P xs
    → All Q xs
All-mono f [] h = tt
All-mono f (x ∷ xs) h = (f x h.0, All-mono f xs h.1)

-- The keys of the map are the identifiers of the rules, numbered as they stand, and all results point
-- to their rules.
record IsConsistent (state : Dict ℕ × Run) : Type 0 where
  keyed : keys state.0 ≡ ids state.1.rules
  counted : Counts 0 state.0
  indexed : All (IsIndexed (ids state.1.rules)) state.1.results

module _ (l : Libraries) where
  -- AddRule, as go-sarif documents it: it returns the rule with the identifier where there is one, and
  -- else it appends one.
  abbrev pub IsLawful : Type 0
  IsLawful =
      (id : Str) (fill : Rule → Rule) (rules : List Rule)
      → ((r : Rule) → (fill r).id ≡ r.id)
      → ids (l.add_rule id fill rules) ≡ with_id id (ids rules)

  module _ (law : IsLawful) where
    -- What a round adds to a consistent state, where the index is that of the identifier afterwards.
    add_sarif_result-IsConsistent :
        (rule_data : SarifData) (indexes : Dict ℕ) (before : Dict ℕ) (run : Run)
        → IsConsistent (before, run)
        → keys indexes ≡ with_id rule_data.vulnerability_id (keys before)
        → Counts 0 indexes
        → get_elem? (keys indexes) rule_data.result_index ≡ some rule_data.vulnerability_id
        → ((r : RuleResult) → IsIndexed (keys before) r → IsIndexed (keys indexes) r)
        → IsConsistent (indexes, add_sarif_result l rule_data run)
    unfolding add_sarif_result add_sarif_rule
    add_sarif_result-IsConsistent rule_data indexes before run h k c g mono =
        let added = law rule_data.vulnerability_id (fill_rule rule_data) run.rules (λ r. refl) in
        let same : keys indexes ≡ ids (add_sarif_result l rule_data run).rules =
          k ∙ ap (with_id rule_data.vulnerability_id) h.keyed ∙ sym added in
        let old : All (IsIndexed (keys before)) run.results = rw h.keyed h.indexed in
        record {
          keyed = same;
          counted = c;
          indexed = rw (← same) (
              All-append (IsIndexed (keys indexes)) run.results _ (All-mono mono run.results old)
                (g, tt));
        }

    add_indexed-IsConsistent :
        (rule_data : ℕ → SarifData) (id : Str) (state : Dict ℕ × Run)
        → ((i : ℕ) → ((rule_data i).vulnerability_id ≡ id) × ((rule_data i).result_index ≡ i))
        → IsConsistent state
        → IsConsistent (add_indexed l rule_data id state)
    unfolding add_indexed get_rule_index
    add_indexed-IsConsistent rule_data id (indexes, run) d h =
        elim (Option-cases (lookup id indexes)) [
          | inr (i, e) ↦
              let (j, p, q, r) = lookup-Counts 0 id indexes h.counted e in
              let there : get_elem? (keys indexes) i ≡ some id =
                let same : i ≡ j = omega arith in rw same q in
              rw (e, add_indexed, get_rule_index)
                (add_sarif_result-IsConsistent (rule_data i) indexes indexes run h
                  (rw ((d i).0, r) refl) h.counted (rw ((d i).0, (d i).1) there) (λ r x. x))
          | inl e ↦
              let n = length indexes in
              let (p, q) = lookup-none id n indexes e in
              let stored : keys (store id n indexes) ≡ keys indexes ++ id ∷ [] =
                ap keys q ∙ keys-append indexes id n in
              let last : get_elem? (keys indexes ++ id ∷ []) n ≡ some id =
                rw (← length-keys indexes) (get_elem?-length (keys indexes) id []) in
              let from_zero : 0 + length indexes ≡ length indexes = omega arith in
              rw (e, add_indexed, get_rule_index)
                (add_sarif_result-IsConsistent (rule_data n) (store id n indexes) indexes run h
                  (rw ((d n).0, p) stored)
                  (rw q (rw from_zero at (Counts-append 0 indexes id h.counted)))
                  (rw ((d n).0, (d n).1, stored) last)
                  (λ r x. rw stored (get_elem?-append (keys indexes) _ r.rule_index x)))
        ]

    add_vulnerabilities-IsConsistent :
        (res : Types.Result) (vulns : List DetectedVulnerability) (state : Dict ℕ × Run)
        → IsConsistent state
        → IsConsistent (add_vulnerabilities l res vulns state)
    unfolding add_vulnerabilities vulnerability_data
    add_vulnerabilities-IsConsistent res [] state h = h
    add_vulnerabilities-IsConsistent res (v ∷ vulns) state h =
        add_vulnerabilities-IsConsistent res vulns _ (
          add_indexed-IsConsistent (vulnerability_data l res v) v.vulnerability_id state
            (λ i. (refl, refl)) h)

    add_misconfigurations-IsConsistent :
        (res : Types.Result) (misconfs : List DetectedMisconfiguration) (state : Dict ℕ × Run)
        → IsConsistent state
        → IsConsistent (add_misconfigurations l res misconfs state)
    unfolding add_misconfigurations misconfiguration_data
    add_misconfigurations-IsConsistent res [] state h = h
    add_misconfigurations-IsConsistent res (m ∷ misconfs) state h =
        add_misconfigurations-IsConsistent res misconfs _ (
          add_indexed-IsConsistent (misconfiguration_data l res m) m.id state (λ i. (refl, refl)) h)

    add_results-IsConsistent :
        (results : List Types.Result) (state : Dict ℕ × Run)
        → IsConsistent state
        → IsConsistent (add_results l results state)
    unfolding add_results
    add_results-IsConsistent [] state h = h
    add_results-IsConsistent (r ∷ results) state h = add_results-IsConsistent results _ (
        add_misconfigurations-IsConsistent r r.misconfigurations _
          (add_vulnerabilities-IsConsistent r r.vulnerabilities state h))

    -- Every result that is written has the index of the rule with its identifier.
    pub write-IsIndexed :
        (results : List Types.Result)
        → All (IsIndexed (ids (write l results).rules)) (write l results).results
    unfolding write
    write-IsIndexed results =
        (add_results-IsConsistent results ([], record { rules = []; results = [] })
          (record { keyed = refl; counted = tt; indexed = tt })).indexed
