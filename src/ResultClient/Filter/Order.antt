-- ===== src/ResultClient/Filter/Order.antt =====
-- The report does not depend on the order in which Go iterates over the map of vulnerabilities.
use mathlib.Core.List.{Memᴰ, Mem, Perm}
use mathlib.Core.List.Perm
use mathlib.Core.Logic.{∥∥₁_elim}
use trivy.Base.{
  ◌≡◌, refl, inl, inr, Bool, true, false, List, [], ◌∷◌, Option, some, arith, sym, ◌∙◌, keep,
}
use trivy.Base.Text.{Str, str, ==_cases, str}
use trivy.Base.Dict.{lookup, values-lookup}
use trivy.Base.Result.{Result, ok, ◌>>=◌, context-ok, bind_ok}
use trivy.Base.Sort.{sort, sort-perm, sort-IsSorted, IsSorted, IsSorted-unique, keep-perm, mem-keep}
use trivy.External.{Severities, Severity, IsRanked}
use trivy.Types.{DetectedVulnerability, DetectedMisconfiguration, by_severity_less}
use trivy.Types.Order.{by_severity_less-IsStrictWeak, less_incomparable}
use trivy.ResultClient.Vulnerabilities.{key, filter_loop, filter_vulnerabilities}
use trivy.ResultClient.Vulnerabilities.Laws.{loop-IsMap, loop-own_key}
use trivy.ResultClient.Policy.{
  Engine, apply_policy, apply_query, prepare_query, Query, evaluate, policy_loop, vulnerability,
  misconfiguration,
}
use trivy.ResultClient.Policy.Laws.{
  policy_loop-keep, policy_loop-Answers, is_kept, policy_loop-eq-keep,
}
use trivy.ResultClient.Filter.{
  MapOrder, FilterOptions, Filtered, filter, get_ignored_ids, policy_applied, MisconfSummary,
  filter_misconfigurations,
}

DetectedVulnerability-set : IsSet DetectedVulnerability
DetectedVulnerability-set = hlevel

same_key :
    (a b : DetectedVulnerability)
    → (a.pkg_name ≡ b.pkg_name)
      × (a.installed_version ≡ b.installed_version)
      × (a.vulnerability_id ≡ b.vulnerability_id)
    → key a ≡ key b
unfolding key
same_key a b (p, v, i) = cc

module _ (db : Severities) (r : IsRanked db) (ignore_unfixed : Bool) (ignored_ids : List Str)
    (severities : List Severity) (vulns : List DetectedVulnerability) where
  abbrev found : List DetectedVulnerability
  found = filter_vulnerabilities db ignore_unfixed ignored_ids severities vulns

  -- Two reported vulnerabilities with one key are one.
  found-key : (a b : DetectedVulnerability) → Memᴰ a found → Memᴰ b found → key a ≡ key b → a ≡ b
  unfolding filter_vulnerabilities
  found-key a b ma mb e =
      let m = filter_loop db ignore_unfixed ignored_ids severities [] vulns in
      let unique = loop-IsMap db ignore_unfixed ignored_ids severities vulns in
      let own = loop-own_key db ignore_unfixed ignored_ids severities vulns in
      let la : lookup (key a) m ≡ some a = values-lookup key m unique own ma in
      let lb : lookup (key b) m ≡ some b = values-lookup key m unique own mb in cc

  -- So are two of which neither comes before the other.
  found-connected :
      (a b : DetectedVulnerability)
      → Mem a found
      → Mem b found
      → by_severity_less db a b ≡ false
      → by_severity_less db b a ≡ false
      → a ≡ b
  found-connected a b ma mb h k = ∥∥₁_elim ma (DetectedVulnerability-set a b) (λ da.
      ∥∥₁_elim mb (DetectedVulnerability-set a b)
        (λ d_b. found-key a b da d_b (same_key a b (less_incomparable db r a b h k))))

  -- Two arrangements of what was found are sorted alike.
  sort_arranged :
      (xs ys : List DetectedVulnerability)
      → Perm xs ys
      → ((a : DetectedVulnerability) → Mem a xs → Mem a found)
      → sort (by_severity_less db) xs ≡ sort (by_severity_less db) ys
  sort_arranged xs ys p sub =
      let less = by_severity_less db in
      let strict = by_severity_less-IsStrictWeak db r in
      let px = sort-perm less xs in
      let from =
        λ (a : DetectedVulnerability) (m : Mem a (sort less xs)). sub a ((Perm.mem_iff px).0 m) in
      IsSorted-unique less strict (sort less xs) (sort less ys)
        (Perm.trans px (Perm.trans p (Perm.symm (sort-perm less ys))))
        (sort-IsSorted less strict xs) (sort-IsSorted less strict ys)
        (λ a b ma mb. found-connected a b (from a ma) (from b mb))

-- A policy keeps the same of two arrangements of one list.
keep_all : (xs : List DetectedVulnerability) → keep (λ _. true) xs ≡ xs
keep_all [] = refl
keep_all (x ∷ xs) = cc (keep_all xs)

module _ (xs ys : List DetectedVulnerability) (p : Perm xs ys)
    (ms : List DetectedMisconfiguration) where
  apply_query-keep :
      (query : Query) {out : List DetectedVulnerability × List DetectedMisconfiguration}
      → apply_query query xs ms ≡ ok out
      → (q : DetectedVulnerability → Bool) × (out.0 ≡ keep q xs)
        × (apply_query query ys ms ≡ ok (keep q ys, out.1))
  unfolding apply_query
  apply_query-keep query e =
      let ignores = λ (v : DetectedVulnerability). evaluate query (vulnerability v) in
      let rest =
        policy_loop (λ (m : DetectedMisconfiguration). evaluate query (misconfiguration m)) [] ms in
      let (vs, kept, e') =
        bind_ok (policy_loop ignores [] xs) (λ vs. rest >>= λ ms'. ok (vs, ms')) e in
      let (ms', kept', e'') = bind_ok rest (λ ms'. ok (vs, ms')) e' in
      let answers = λ (a : DetectedVulnerability) (m : Mem a ys).
        policy_loop-Answers ignores [] xs kept a ((Perm.mem_iff p).1 m) in
      let same : vs ≡ keep (is_kept ignores) xs = policy_loop-eq-keep ignores xs kept in
      (is_kept ignores, cc, rw (policy_loop-keep ignores [] ys answers, kept') (cc))

  policy_applied-keep :
      (engine : Engine) (policy_file : Str)
      {out : List DetectedVulnerability × List DetectedMisconfiguration}
      → policy_applied engine policy_file xs ms ≡ ok out
      → (q : DetectedVulnerability → Bool) × (out.0 ≡ keep q xs)
        × (policy_applied engine policy_file ys ms ≡ ok (keep q ys, out.1))
  unfolding policy_applied apply_policy
  policy_applied-keep engine policy_file {out} e = elim (==_cases policy_file []) [
    | inl (t, same) ↦
        let first : out.0 ≡ xs = ground arith in
        (λ _. true, first ∙ sym (keep_all xs), ground (arith, t, keep_all ys))
    | inr (n, other) ↦
        let e₁ =
          context-ok (str "failed to apply the policy") (apply_policy engine xs ms policy_file)
            (rw n at e) in
        let (query, prepared, e₂) =
          bind_ok (prepare_query engine policy_file) (λ query. apply_query query xs ms) e₁ in
        let (q, first, second) = apply_query-keep query e₂ in
        (q, first, rw (n, prepared, second) refl)
  ]

-- An order of iteration rearranges the values of the map.
abbrev pub IsMapOrder : MapOrder → Type 0
IsMapOrder order = (vs : List DetectedVulnerability) → Perm (order vs) vs

module _ (db : Severities) (r : IsRanked db) (engine : Engine) (options : FilterOptions)
    (vulns : List DetectedVulnerability) (misconfs : List DetectedMisconfiguration) where
  abbrev reported_vulns : List DetectedVulnerability
  reported_vulns =
      filter_vulnerabilities db options.ignore_unfixed (get_ignored_ids options.ignore_file)
        options.severities vulns

  abbrev reported_misconfs : Option MisconfSummary × List DetectedMisconfiguration
  reported_misconfs =
      filter_misconfigurations db options.include_non_failures (get_ignored_ids options.ignore_file)
        options.severities misconfs

  abbrev report : List DetectedVulnerability × List DetectedMisconfiguration → Result Filtered
  report found = ok (record {
    vulnerabilities = sort (by_severity_less db) found.0;
    misconf_summary = reported_misconfs.0;
    misconfigurations = found.1;
  })

  sort_reported :
      (xs ys : List DetectedVulnerability)
      → Perm xs ys
      → ((a : DetectedVulnerability) → Mem a xs → Mem a reported_vulns)
      → sort (by_severity_less db) xs ≡ sort (by_severity_less db) ys
  sort_reported =
      sort_arranged db r options.ignore_unfixed (get_ignored_ids options.ignore_file)
        options.severities vulns

  -- Whatever the order in which Go iterates over the map of vulnerabilities, a call of Filter that
  -- succeeds with one order returns the same report with any other.
  pub filter_deterministic :
      (o₁ o₂ : MapOrder)
      → IsMapOrder o₁
      → IsMapOrder o₂
      → {out : Filtered} → filter db engine o₁ options vulns misconfs ≡ ok out
      → filter db engine o₂ options vulns misconfs ≡ ok out
  unfolding filter
  filter_deterministic o₁ o₂ h₁ h₂ e =
      let xs = o₁ reported_vulns in
      let ys = o₂ reported_vulns in
      let p : Perm xs ys = Perm.trans (h₁ reported_vulns) (Perm.symm (h₂ reported_vulns)) in
      let (found, applied, made) =
        bind_ok (policy_applied engine options.policy_file xs reported_misconfs.1) report e in
      let (q, first, second) =
        policy_applied-keep xs ys p reported_misconfs.1 engine options.policy_file applied in
      let sorted =
        sort_reported (keep q xs) (keep q ys) (keep-perm q p)
          (λ a m. (Perm.mem_iff (h₁ reported_vulns)).0 (mem-keep q a xs m)) in
      rw second (cc)

  -- The vulnerabilities of a report are sorted, and theirs is the only sorted arrangement: any
  -- algorithm of package sort returns it.
  pub filter-IsSorted :
      (order : MapOrder)
      → IsMapOrder order
      → {out : Filtered} → filter db engine order options vulns misconfs ≡ ok out
      → IsSorted (by_severity_less db) out.vulnerabilities
        × ((other : List DetectedVulnerability)
            → Perm other out.vulnerabilities
            → IsSorted (by_severity_less db) other
            → other ≡ out.vulnerabilities)
  unfolding filter
  filter-IsSorted order h {out} e =
      let less = by_severity_less db in
      let strict = by_severity_less-IsStrictWeak db r in
      let xs = order reported_vulns in
      let (found, applied, made) =
        bind_ok (policy_applied engine options.policy_file xs reported_misconfs.1) report e in
      let (q, first, second) =
        policy_applied-keep xs xs Perm.rfl reported_misconfs.1 engine options.policy_file applied in
      let same : out.vulnerabilities ≡ sort less (keep q xs) = cc in
      let sorted : IsSorted less out.vulnerabilities =
        rw same (sort-IsSorted less strict (keep q xs)) in
      let from =
        λ (other : List DetectedVulnerability) (p : Perm other out.vulnerabilities)
            (a : DetectedVulnerability) (m : Mem a other).
          (Perm.mem_iff (h reported_vulns)).0 (
            mem-keep q a xs (
              (Perm.mem_iff (sort-perm less (keep q xs))).0 (rw same at ((Perm.mem_iff p).0 m)))) in
      (
        sorted,
        λ other p s. IsSorted-unique less strict other out.vulnerabilities p s sorted (λ a b ma mb.
            found-connected db r options.ignore_unfixed (get_ignored_ids options.ignore_file)
              options.severities vulns a b (from other p a ma) (from other p b mb)),
      )
