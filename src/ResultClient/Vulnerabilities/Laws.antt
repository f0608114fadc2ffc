-- ===== src/ResultClient/Vulnerabilities/Laws.antt =====
-- What filterVulnerabilities returns: admissible vulnerabilities only, the best fix for each key, and
-- each key once.
use mathlib.Core.List.{Memᴰ}
use trivy.Base.{
  ◌≡◌, refl, inl, inr, Bool, false, List, [], ◌∷◌, some, arith, Bool-cases, Option-cases,
}
use trivy.Base.Text.{Str, ==_iff, ==_cases}
use trivy.Base.TextOrder.{lt, lt_irrefl, lt_asymm}
use trivy.Base.Order.{lt-IsStrictWeak}
use trivy.Base.Dict.{
  Dict, lookup, lookup-store, Entries, store-Entries, lookup-Entries, Entries-values, IsMap,
  store-IsMap, mem-lookup,
}
use trivy.External.{Severities, Severity}
use trivy.Types.{DetectedVulnerability}
use trivy.ResultClient.Vulnerabilities.{
  key, default_severity, try_severities, filter_loop, filter_vulnerabilities,
}
use trivy.ResultClient.Vulnerabilities.Step.{Admissible, put, try_severities-put}

key-default_severity :
    (db : Severities) (v : DetectedVulnerability) → key (default_severity db v) ≡ key v
unfolding key default_severity
key-default_severity db v = ground arith

fixed_version-default_severity :
    (db : Severities) (v : DetectedVulnerability)
    → (default_severity db v).fixed_version ≡ v.fixed_version
unfolding default_severity
fixed_version-default_severity db v = ground arith

module _ (db : Severities) (ignore_unfixed : Bool) (ignored_ids : List Str) where
  abbrev put' : Dict DetectedVulnerability → DetectedVulnerability → Dict DetectedVulnerability
  put' = put db ignore_unfixed ignored_ids

  put-IsMap :
      (uniq : Dict DetectedVulnerability) (v : DetectedVulnerability)
      → IsMap uniq
      → IsMap (put' uniq v)
  unfolding put
  put-IsMap uniq v h = elim (Option-cases (lookup (key v) uniq)) [
    | inl e ↦ rw (e, put) (store-IsMap (key v) v uniq h)
    | inr (old, e) ↦ elim (Bool-cases (lt old.fixed_version v.fixed_version)) [
      | inl t ↦ rw (e, put) (rw t (store-IsMap (key v) v uniq h))
      | inr f ↦ rw (e, put) (rw f h)
    ]
  ]

  put-Entries :
      (P : Str → DetectedVulnerability → Type 0) (uniq : Dict DetectedVulnerability)
      (v : DetectedVulnerability)
      → P (key v) v
      → Entries P uniq
      → Entries P (put' uniq v)
  unfolding put
  put-Entries P uniq v p h = elim (Option-cases (lookup (key v) uniq)) [
    | inl e ↦ rw (e, put) (store-Entries P (key v) v uniq p h)
    | inr (old, e) ↦ elim (Bool-cases (lt old.fixed_version v.fixed_version)) [
      | inl t ↦ rw (e, put) (rw t (store-Entries P (key v) v uniq p h))
      | inr f ↦ rw (e, put) (rw f h)
    ]
  ]

  -- Under the key stands a vulnerability whose fixed version is not smaller than `fixed`.
  abbrev AtLeast : Str → Str → Dict DetectedVulnerability → Type 0
  AtLeast k fixed uniq =
      (o : DetectedVulnerability) × (lookup k uniq ≡ some o) × (lt o.fixed_version fixed ≡ false)

  put-AtLeast_self :
      (uniq : Dict DetectedVulnerability) (v : DetectedVulnerability)
      → AtLeast (key v) v.fixed_version (put' uniq v)
  unfolding put
  put-AtLeast_self uniq v = elim (Option-cases (lookup (key v) uniq)) [
    | inl e ↦ (
      v,
      ground (arith, e, lookup-store (key v) (key v) v uniq, ==_iff (key v) (key v)),
      lt_irrefl v.fixed_version,
    )
    | inr (old, e) ↦ elim (Bool-cases (lt old.fixed_version v.fixed_version)) [
      | inl t ↦ (
        v,
        ground (arith, e, t, lookup-store (key v) (key v) v uniq, ==_iff (key v) (key v)),
        lt_irrefl v.fixed_version,
      )
      | inr f ↦ (old, ground (arith, e, f), f)
    ]
  ]

  put-AtLeast :
      (k fixed : Str) (uniq : Dict DetectedVulnerability) (v : DetectedVulnerability)
      → AtLeast k fixed uniq
      → AtLeast k fixed (put' uniq v)
  unfolding put
  put-AtLeast k fixed uniq v (o, found, h) = elim (==_cases (key v) k) [
    | inr (n, other) ↦ (o, ground (arith, n, lookup-store (key v) k v uniq), h)
    | inl (t, same) ↦ elim (Bool-cases (lt o.fixed_version v.fixed_version)) [
      | inl less ↦ (
        v,
        ground (arith, t, same, found, less, lookup-store (key v) k v uniq),
        lt-IsStrictWeak.cotrans v.fixed_version o.fixed_version fixed (lt_asymm _ _ less) h,
      )
      | inr not_less ↦ (o, ground (arith, t, same, found, not_less), h)
    ]
  ]

  module _ (severities : List Severity) where
    -- A rule for the loop: what holds of the empty map and is kept by each round.
    loop_ind :
        (P : Dict DetectedVulnerability → Type 0) (vs : List DetectedVulnerability)
        → ((uniq : Dict DetectedVulnerability) (v : DetectedVulnerability)
            → Memᴰ v vs
            → Admissible db ignore_unfixed ignored_ids severities (default_severity db v)
            → P uniq
            → P (put' uniq (default_severity db v)))
        → (uniq : Dict DetectedVulnerability) → P uniq
        → P (filter_loop db ignore_unfixed ignored_ids severities uniq vs)
    unfolding filter_loop
    loop_ind P [] keep uniq p = p
    loop_ind P (v ∷ vs) keep uniq p =
        elim (try_severities-put db ignore_unfixed ignored_ids uniq (default_severity db v)
          severities) [
            | inl (a, e) ↦ rw e (
                loop_ind P vs (λ u w m. keep u w (Memᴰ.tail m)) _
                  (keep uniq v (Memᴰ.head refl) a p))
            | inr (n, e) ↦ rw e (loop_ind P vs (λ u w m. keep u w (Memᴰ.tail m)) uniq p)
          ]

    -- Every entry stands under its own key, and comes from an admissible input.
    abbrev FromInput : List DetectedVulnerability → Str → DetectedVulnerability → Type 0
    FromInput vs k o =
        (k ≡ key o)
        × Admissible db ignore_unfixed ignored_ids severities o
        × ((v : DetectedVulnerability) × Memᴰ v vs × (o ≡ default_severity db v))

    loop-FromInput :
        (vs : List DetectedVulnerability)
        → Entries (FromInput vs) (filter_loop db ignore_unfixed ignored_ids severities [] vs)
    loop-FromInput vs =
        loop_ind (Entries (FromInput vs)) vs
          (λ uniq v m a h.
            put-Entries (FromInput vs) uniq (default_severity db v) (refl, a, (v, m, refl)) h)
          [] tt

    pub loop-IsMap :
        (vs : List DetectedVulnerability)
        → IsMap (filter_loop db ignore_unfixed ignored_ids severities [] vs)
    loop-IsMap vs =
        loop_ind IsMap vs (λ uniq v m a h. put-IsMap uniq (default_severity db v) h) [] tt

    pub loop-own_key :
        (vs : List DetectedVulnerability)
        → Entries (λ k o. k ≡ key o) (filter_loop db ignore_unfixed ignored_ids severities [] vs)
    loop-own_key vs =
        loop_ind (Entries (λ k o. k ≡ key o)) vs
          (λ uniq v m a h. put-Entries (λ k o. k ≡ key o) uniq (default_severity db v) refl h) [] tt

    loop-AtLeast_keep :
        (k fixed : Str) (vs : List DetectedVulnerability) (uniq : Dict DetectedVulnerability)
        → AtLeast k fixed uniq
        → AtLeast k fixed (filter_loop db ignore_unfixed ignored_ids severities uniq vs)
    loop-AtLeast_keep k fixed vs uniq =
        loop_ind (AtLeast k fixed) vs (λ u w m a. put-AtLeast k fixed u (default_severity db w))
          uniq

    -- The first round of an admissible vulnerability.
    first-AtLeast :
        (uniq : Dict DetectedVulnerability) (v : DetectedVulnerability)
        → Admissible db ignore_unfixed ignored_ids severities v
        → AtLeast
            (key v)
            v.fixed_version
            (try_severities db ignore_unfixed ignored_ids uniq v severities)
    first-AtLeast uniq v a =
        elim (try_severities-put db ignore_unfixed ignored_ids uniq v severities) [
          | inl (_, e) ↦ rw e (put-AtLeast_self uniq v)
          | inr (n, e) ↦ absurd (n a)
        ]

    loop-AtLeast :
        (vs : List DetectedVulnerability) (uniq : Dict DetectedVulnerability)
        (v : DetectedVulnerability)
        → Memᴰ v vs
        → Admissible db ignore_unfixed ignored_ids severities (default_severity db v)
        → AtLeast
            (key (default_severity db v))
            (default_severity db v).fixed_version
            (filter_loop db ignore_unfixed ignored_ids severities uniq vs)
    unfolding filter_loop
    loop-AtLeast [] uniq v m a = elim m [ ]
    loop-AtLeast (w ∷ vs) uniq v (Memᴰ.tail m) a = loop-AtLeast vs _ v m a
    loop-AtLeast (w ∷ vs) uniq v (Memᴰ.head same) a =
        rw same
          (loop-AtLeast_keep _ _ vs _ (first-AtLeast uniq (default_severity db w) (rw same at a)))

    -- Only admissible vulnerabilities of the input are reported, with the unknown severity where the
    -- input had none.
    pub filter_vulnerabilities_sound :
        (vs : List DetectedVulnerability) (o : DetectedVulnerability)
        → Memᴰ o (filter_vulnerabilities db ignore_unfixed ignored_ids severities vs)
        → Admissible db ignore_unfixed ignored_ids severities o
          × ((v : DetectedVulnerability) × Memᴰ v vs × (o ≡ default_severity db v))
    unfolding filter_vulnerabilities
    filter_vulnerabilities_sound vs o m =
        let (k, (e, a, from)) = Entries-values (FromInput vs) _ (loop-FromInput vs) m in (a, from)

    -- For every admissible input, one of the input with the same key is reported whose fixed version
    -- is not smaller.
    pub filter_vulnerabilities-key :
        (vs : List DetectedVulnerability) (v : DetectedVulnerability)
        → Memᴰ v vs
        → Admissible db ignore_unfixed ignored_ids severities (default_severity db v)
        → (o : DetectedVulnerability) × Memᴰ o
            (filter_vulnerabilities db ignore_unfixed ignored_ids severities vs)
          × (key o ≡ key v)
          × (lt o.fixed_version v.fixed_version ≡ false)
    unfolding filter_vulnerabilities
    filter_vulnerabilities-key vs v m a =
        let (o, found, h) = loop-AtLeast vs [] v m a in
        let from =
          lookup-Entries (FromInput vs) (key (default_severity db v)) _ (loop-FromInput vs) found in
        (
          o,
          mem-lookup _ _ found,
          cc (from.0, key-default_severity db v),
          rw (fixed_version-default_severity db v) at h,
        )
