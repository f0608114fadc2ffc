-- ===== src/Detector/Ospkg/Redhat/Laws.antt =====
-- What the detector of pkg/detector/ospkg/redhat/redhat.go reports.
use trivy.Base.{
  subst, sym, ◌≡◌, refl, ◌↔◌, ◌⊎◌, inl, inr, true, false, Bool, keep, none, List, [], ◌∷◌, some,
  Option-cases,
}
use trivy.Base.Text.{Str, ◌==◌, ==_cases}
use trivy.Base.Dict.{Dict, lookup, Entries, IsMap, values}
use trivy.External.{Package, Advisory}
use trivy.Types.{DetectedVulnerability}
use trivy.Detector.Ospkg.Redhat.{Sources, detect_advisories, detect_pkg, build_of, by_id}
use trivy.Base.Result.{Result, ok}
use trivy.Base.Sort.{sort, sort-perm, keep-perm}
use trivy.Detector.Version.{format_version, add_modular_namespace}
use mathlib.Core.Logic.Or
use mathlib.Core.List.{Perm, mem-cons, mem-cons_self, not-mem-nil}
use mathlib.Core.List.Perm
use trivy.Detector.Ospkg.Redhat.Loop.{HasOwnKeys, IsAdvised, Holds, loop-Holds, loop-keys}

lookup-empty : (k : Str) {v : DetectedVulnerability} → lookup k [] ≡ some v → ⊥
unfolding lookup
lookup-empty k l = cc

Detected-set : IsSet DetectedVulnerability
Detected-set = hlevel

perm-single :
    {v : DetectedVulnerability} {vs : List DetectedVulnerability} → Perm vs (v ∷ []) → vs ≡ v ∷ []
perm-single {v = v} {vs = []} p = sym (Perm.eq-nil (Perm.symm p))
perm-single {v = v} {vs = x ∷ rest} p =
    let same : x ≡ v =
      Or.elim (Detected-set x v) (mem-cons.0 ((Perm.mem_iff p).0 mem-cons_self)) (λ e. e)
        (λ m. absurd (not-mem-nil m)) in
    let q : Perm (v ∷ rest) (v ∷ []) = subst (λ y. Perm (y ∷ rest) (v ∷ [])) same p in
    let none_left : rest ≡ [] = Perm.eq-nil (Perm.cons_inv q) in cc

-- A vulnerability has an identifier.
abbrev pub has : Str → DetectedVulnerability → Bool
has id v = v.vulnerability_id == id

abbrev OwnKeys : Dict DetectedVulnerability → Type 0
OwnKeys m = Entries (λ k v. k ≡ v.vulnerability_id) m

keep-values-none :
    (id : Str) (m : Dict DetectedVulnerability)
    → OwnKeys m
    → lookup id m ≡ none
    → keep (has id) (values m) ≡ []
unfolding lookup
keep-values-none id [] own l = refl
keep-values-none id ((k, w) ∷ m) own l = elim (==_cases k id) [
  | inl (t, _) ↦ absurd (let l' : some w ≡ none = rw (t, lookup) at l in cc)
  | inr (f, _) ↦
      let other : has id w ≡ false = rw own.0 at f in
      rw other (keep-values-none id m own.1 (rw (f, lookup) at l))
]

keep-values :
    (id : Str) (m : Dict DetectedVulnerability) {v : DetectedVulnerability}
    → IsMap m
    → OwnKeys m
    → lookup id m ≡ some v
    → keep (has id) (values m) ≡ v ∷ []
unfolding lookup
keep-values id [] unique own l = cc
keep-values id ((k, w) ∷ m) {v} unique own l = elim (==_cases k id) [
  | inl (t, same) ↦
      let l' : some w ≡ some v = rw (t, lookup) at l in
      let first : w ≡ v = cc in
      let found : has id w ≡ true = rw own.0 at t in
      rw (found, first, keep-values-none id m own.1 (rw same at unique.0)) refl
  | inr (f, _) ↦
      let other : has id w ≡ false = rw own.0 at f in
      rw other (keep-values id m unique.1 own.1 (rw (f, lookup) at l))
]

module _ {V : Type 0} (s : Sources V)
    (is_order : (vs : List DetectedVulnerability) → Perm (s.order vs) vs) (os_ver : Str)
    (pkg : Package) where
  -- What detect asks the database for.
  abbrev pub requested : Result (List Advisory)
  requested =
      let build = build_of os_ver pkg in
      s.get (add_modular_namespace pkg.name pkg.modularitylabel) build.0 (build.1 ∷ [])

  abbrev pub installed : V
  installed = s.versions.new_version (format_version pkg)

  abbrev uniq : List Advisory → Dict DetectedVulnerability
  uniq advs = detect_advisories s pkg installed [] advs

  detect_pkg-sort :
      {advs : List Advisory} {out : List DetectedVulnerability}
      → requested ≡ ok advs
      → detect_pkg s os_ver pkg ≡ ok out
      → sort (by_id s) (s.order (values (uniq advs))) ≡ out
  unfolding detect_pkg
  detect_pkg-sort {advs} {out} g e =
      let e' : ok (sort (by_id s) (s.order (values (uniq advs)))) ≡ ok out = rw g at e in cc

  keep-out :
      {advs : List Advisory} {out : List DetectedVulnerability}
      → requested ≡ ok advs
      → detect_pkg s os_ver pkg ≡ ok out
      → (id : Str) → Perm (keep (has id) out) (keep (has id) (values (uniq advs)))
  keep-out {advs} g e id = rw (← detect_pkg-sort g e) (
      keep-perm (has id) (
        Perm.trans (sort-perm (by_id s) (s.order (values (uniq advs))))
          (is_order (values (uniq advs)))))

  -- The detection of a package that succeeds reports exactly one vulnerability with an identifier
  -- that some advisory with no fix, or with a fix newer than the installed version, has, and none
  -- with any other identifier.
  pub detect_pkg-IsAdvised :
      {advs : List Advisory} {out : List DetectedVulnerability}
      → requested ≡ ok advs
      → detect_pkg s os_ver pkg ≡ ok out
      → (id : Str)
      → (IsAdvised s pkg installed id advs
          → (v : DetectedVulnerability) × (keep (has id) out ≡ v ∷ []))
        × (¬ IsAdvised s pkg installed id advs → keep (has id) out ≡ [])
  detect_pkg-IsAdvised {advs} {out} g e id = (
    λ a.
        let (v, l) = held.1 (inr a) in
        (v, perm-single (rw (keep-values id (uniq advs) keys.0 keys.1 l) at (keep-out g e id))),
    λ n. elim (Option-cases (lookup id (uniq advs))) [
      | inl l ↦ Perm.eq-nil (rw (keep-values-none id (uniq advs) keys.1 l) at (keep-out g e id))
      | inr (v, l) ↦ elim (held.0 (v, l)) [
        | inl (_, l) ↦ absurd (lookup-empty id l)
        | inr a ↦ absurd (n a)
      ]
    ],
  )
    where
      keys : IsMap (uniq advs) × HasOwnKeys s pkg installed (uniq advs)
      keys = loop-keys s pkg installed [] advs tt tt

      held :
          Holds s pkg installed id (uniq advs)
          ↔ (Holds s pkg installed id [] ⊎ IsAdvised s pkg installed id advs)
      held = loop-Holds s pkg installed id [] advs tt tt
