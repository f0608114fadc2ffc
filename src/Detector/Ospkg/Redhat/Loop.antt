-- ===== src/Detector/Ospkg/Redhat/Loop.antt =====
-- The loop over the advisories in the detector of pkg/detector/ospkg/redhat/redhat.go.
use trivy.Base.{
  sym, ◌∙◌, ◌≡◌, refl, ◌↔◌, ◌⊎◌, inl, inr, true, List, [], ◌∷◌, some, Bool-cases, Option-cases,
}
use trivy.Base.Text.{Str, ==_cases}
use trivy.Base.Dict.{
  Dict, lookup, store, Entries, lookup-Entries, store-Entries, IsMap, store-IsMap, lookup-store,
}
use trivy.External.{Package, Advisory}
use trivy.Types.{DetectedVulnerability}
use trivy.Detector.Ospkg.Redhat.{Sources, report, merge, detect_advisory, detect_advisories}
use mathlib.Core.List.{Memᴰ}
use mathlib.Core.List.Memᴰ

module _ {V : Type 0} (s : Sources V) (pkg : Package) (installed : V) where
  abbrev pub Affects : Advisory → Type 0
  Affects adv =
      (adv.fixed_version ≡ [])
      ⊎ (s.versions.less_than installed (s.versions.new_version adv.fixed_version) ≡ true)

  abbrev pub HasOwnKeys : Dict DetectedVulnerability → Type 0
  HasOwnKeys m = Entries (λ k v. k ≡ v.vulnerability_id) m

  merge-id :
      (v w : DetectedVulnerability) (fixed : V)
      → (merge s v w fixed).vulnerability_id ≡ v.vulnerability_id
  unfolding merge
  merge-id v w fixed =
      elim (Bool-cases (s.versions.less_than (s.versions.new_version v.fixed_version) fixed)) [
        | inl t ↦ rw (t, merge) refl
        | inr f ↦ rw (f, merge) refl
      ]

  abbrev patched : Advisory → DetectedVulnerability
  patched adv = record (report s pkg adv) {
    vendor_ids = adv.vendor_ids;
    fixed_version = s.versions.to_string (s.versions.new_version adv.fixed_version);
  }

  -- An advisory stores a vulnerability under its identifier, or changes nothing.
  data Step (m : Dict DetectedVulnerability) (adv : Advisory) : Type 0 where
    stored :
        (v : DetectedVulnerability)
        → adv.vulnerability_id ≡ v.vulnerability_id
        → detect_advisory s pkg installed m adv ≡ store adv.vulnerability_id v m
        → Affects adv
        → Step m adv
    passed : detect_advisory s pkg installed m adv ≡ m → ¬ Affects adv → Step m adv

  step : (m : Dict DetectedVulnerability) (adv : Advisory) → HasOwnKeys m → Step m adv
  unfolding detect_advisory report
  step m adv own = elim (==_cases adv.fixed_version []) [
    | inl (t, e) ↦ stored (report s pkg adv) refl (rw (t, detect_advisory) refl) (inl e)
    | inr (f, n) ↦
        elim (Bool-cases
          (s.versions.less_than installed (s.versions.new_version adv.fixed_version))) [
            | inl t ↦ elim (Option-cases (lookup adv.vulnerability_id m)) [
              | inl l ↦ stored (patched adv) refl (rw (f, t, l, detect_advisory) refl) (inr t)
              | inr (v, l) ↦
                  stored (merge s v (patched adv) (s.versions.new_version adv.fixed_version))
                    (lookup-Entries (λ k v. k ≡ v.vulnerability_id) adv.vulnerability_id m own l
                      ∙ sym (merge-id v (patched adv) (s.versions.new_version adv.fixed_version)))
                    (rw (f, t, l, detect_advisory) refl) (inr t)
            ]
            | inr g ↦
                passed (rw (f, g, detect_advisory) refl)
                  (λ a. elim a [ inl e ↦ n e | inr t ↦ absurd (cc (g, t)) ])
          ]
  ]

  -- The keys of the map stay distinct and the vulnerabilities' own.
  step-keys :
      (m : Dict DetectedVulnerability) (adv : Advisory)
      → IsMap m
      → HasOwnKeys m
      → IsMap (detect_advisory s pkg installed m adv)
        × HasOwnKeys (detect_advisory s pkg installed m adv)
  step-keys m adv unique own = elim (step m adv own) [
    | stored v id e a ↦ rw e (
      store-IsMap adv.vulnerability_id v m unique,
      store-Entries (λ k w. k ≡ w.vulnerability_id) adv.vulnerability_id v m id own,
    )
    | passed e _ ↦ rw e (unique, own)
  ]

  -- Some advisory with the identifier affects the package.
  abbrev pub IsAdvised : Str → List Advisory → Type 0
  IsAdvised id advs = (adv : Advisory) × Memᴰ adv advs × (adv.vulnerability_id ≡ id) × Affects adv

  abbrev pub Holds : Str → Dict DetectedVulnerability → Type 0
  Holds id m = (v : DetectedVulnerability) × (lookup id m ≡ some v)

  step-Holds :
      (id : Str) (m : Dict DetectedVulnerability) (adv : Advisory)
      → HasOwnKeys m
      → Holds id (detect_advisory s pkg installed m adv)
        ↔ (Holds id m ⊎ (adv.vulnerability_id ≡ id) × Affects adv)
  step-Holds id m adv own = elim (step m adv own) [
    | stored v k e a ↦ elim (==_cases adv.vulnerability_id id) [
      | inl (t, same) ↦
          (λ _. inr (same, a), λ _. (v, rw (e, lookup-store adv.vulnerability_id id v m, t) refl))
      | inr (f, other) ↦ (
        λ (w, l). inl (w, rw (e, lookup-store adv.vulnerability_id id v m, f) at l),
        λ d. elim d [
          | inl (w, l) ↦ (w, rw (e, lookup-store adv.vulnerability_id id v m, f) l)
          | inr (same, _) ↦ absurd (other same)
        ],
      )
    ]
    | passed e unaffected ↦ (
      λ (w, l). inl (w, rw e at l),
      λ d. elim d [ inl (w, l) ↦ (w, rw e l) | inr (_, a) ↦ absurd (unaffected a) ],
    )
  ]

  pub loop-Holds :
      (id : Str) (m : Dict DetectedVulnerability) (advs : List Advisory)
      → IsMap m
      → HasOwnKeys m
      → Holds id (detect_advisories s pkg installed m advs) ↔ (Holds id m ⊎ IsAdvised id advs)
  unfolding detect_advisories
  loop-Holds id m [] unique own =
      (λ h. inl h, λ d. elim d [ inl h ↦ h | inr (_, i, _, _) ↦ absurd (Memᴰ.not-nil i) ])
  loop-Holds id m (adv ∷ advs) unique own =
      let keys = step-keys m adv unique own in
      let later = loop-Holds id (detect_advisory s pkg installed m adv) advs keys.0 keys.1 in
      let now = step-Holds id m adv own in
      (
        λ h. elim (later.0 h) [
          | inl k ↦ elim (now.0 k) [
            | inl old ↦ inl old
            | inr (same, a) ↦ inr (adv, Memᴰ.head refl, same, a)
          ]
          | inr (x, i, same, a) ↦ inr (x, Memᴰ.tail i, same, a)
        ],
        λ d. elim d [
          | inl old ↦ later.1 (inl (now.1 (inl old)))
          | inr (x, i, same, a) ↦ elim (Memᴰ.cases_cons i) [
            | inl first ↦ later.1 (inl (now.1 (inr (rw (← first) same, rw (← first) a))))
            | inr after ↦ later.1 (inr (x, after, same, a))
          ]
        ],
      )

  pub loop-keys :
      (m : Dict DetectedVulnerability) (advs : List Advisory)
      → IsMap m
      → HasOwnKeys m
      → IsMap (detect_advisories s pkg installed m advs)
        × HasOwnKeys (detect_advisories s pkg installed m advs)
  unfolding detect_advisories
  loop-keys m [] unique own = (unique, own)
  loop-keys m (adv ∷ advs) unique own =
      let keys = step-keys m adv unique own in
      loop-keys (detect_advisory s pkg installed m adv) advs keys.0 keys.1
