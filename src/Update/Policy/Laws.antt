-- ===== src/Update/Policy/Laws.antt =====
-- When the client of pkg/policy/policy.go asks for a download of the policies.
use trivy.Base.{
  ℕ, ◌+◌, ◌<◌, ◌≤◌, ◌≡◌, ◌≢◌, ◌↔◌, inl, inr, refl, true, false, List, [], ◌∷◌, none, some, arith,
  Option-cases, Bool-cases, ltb, lt→ltb, List-cases, map,
}
use trivy.Base.Text.{Str, ==_cases}
use trivy.Base.Result.{ok, context, context-ok, bind_ok}
use trivy.Update.Policy.{
  Metadata, Client, update_interval, load_builtin_policies, populate_oci_artifact, update_metadata,
  compare_digest, needs_update, download_builtin_policies, before,
}

module _ {S A : Type 0} (c : Client S A) where
  -- The paths that are loaded are never none.
  pub load_builtin_policies-nonempty :
      (s : S) {paths : List Str} → load_builtin_policies c s ≡ ok paths → paths ≢ []
  unfolding load_builtin_policies
  load_builtin_policies-nonempty s {paths} e =
      let (content, _, j) = bind_ok (context _ (c.files.open_manifest s)) _ e in
      let (roots, _, k) = bind_ok (context _ (c.files.decode_roots content)) _ j in
      elim (Option-cases roots) [
        | inl n ↦ let k' : ok (c.files.content_dir ∷ []) ≡ ok paths = rw n at k in λ h. absurd cc
        | inr (rs, h) ↦ elim (List-cases rs) [
          | inl n ↦
              let k' : ok (c.files.content_dir ∷ []) ≡ ok paths = rw (h, n) at k in λ h. absurd cc
          | inr (r, qs, q) ↦
              let k' : ok (map (c.files.join c.files.content_dir) (r ∷ qs)) ≡ ok paths =
                rw (h, q) at k in
              λ h. absurd cc
        ]
      ]

  -- The metadata that is stored is what is read next.
  abbrev pub IsKept : Type 0
  IsKept = (meta : Metadata) (s t : S) → c.files.encode meta s ≡ ok t → c.files.get t ≡ some meta

  update_metadata-get :
      IsKept
      → (digest : Str) (now : ℕ) (s : S) {t : S} → update_metadata c digest now s ≡ ok t
      → c.files.get t ≡ some (record { digest = digest; downloaded_at = now })
  unfolding update_metadata
  update_metadata-get law digest now s {t} e =
      let (u, _, k) = bind_ok (context _ (c.files.create s)) _ e in
      law (record { digest = digest; downloaded_at = now }) u t (context-ok _ _ k)

  -- A download of policies that succeeds leaves the digest of the artifact and the instant.
  download_builtin_policies-get :
      IsKept
      → (s : S) {t : S} → download_builtin_policies c s ≡ ok t
      → (meta : Metadata) × (c.files.get t ≡ some meta)
        × (meta.downloaded_at ≡ c.clock_now)
        × ((a : A) × (populate_oci_artifact c ≡ ok a) × (c.digest a ≡ ok meta.digest))
  unfolding download_builtin_policies
  download_builtin_policies-get law s {t} e =
      let (a, p, k) = bind_ok (context _ (populate_oci_artifact c)) _ e in
      let (u, d, k') = bind_ok (context _ (c.download a c.files.content_dir s)) _ k in
      let (digest, g, k'') = bind_ok (context _ (c.digest a)) _ k' in
      (
        _,
        update_metadata-get law digest c.clock_now u (context-ok _ _ k''),
        refl,
        (a, context-ok _ _ p, context-ok _ _ g),
      )

-- For less than a day after a download that succeeded the policies are not asked for again, nor is the
-- artifact, and no file changes.
pub needs_update-download_builtin_policies :
    {S A : Type 0} (c : Client S A)
    → IsKept c
    → (later : ℕ) (s : S) {t : S} → later < c.clock_now + update_interval
    → download_builtin_policies c s ≡ ok t
    → needs_update (record c { clock_now = later }) t ≡ ok (false, t)
unfolding needs_update
needs_update-download_builtin_policies c law later s {t} l e =
    let (meta, g, d, _) = download_builtin_policies-get c law s e in
    let f : ltb later (meta.downloaded_at + update_interval) ≡ true = lt→ltb _ _ (rw d l) in
    rw (g, f, needs_update) refl

-- There are no policies yet, or they are a day old and the artifact has got another digest.
pub data IsStale {S A : Type 0} (c : Client S A) (s : S) : Type 0 where
  absent : c.files.get s ≡ none → IsStale c s
  replaced :
      (meta : Metadata) (a : A) (digest : Str)
      → c.files.get s ≡ some meta
      → meta.downloaded_at + update_interval ≤ c.clock_now
      → populate_oci_artifact c ≡ ok a
      → c.digest a ≡ ok digest
      → meta.digest ≢ digest
      → IsStale c s

module _ {S A : Type 0} (c : Client S A) where
  compare_digest-true :
      (meta : Metadata) (s t : S)
      → compare_digest c meta s ≡ ok (true, t)
      → ((a : A) × (digest : Str) × (populate_oci_artifact c ≡ ok a)
          × (c.digest a ≡ ok digest)
          × (meta.digest ≢ digest))
        × (s ≡ t)
  unfolding compare_digest
  compare_digest-true meta s t e =
      let (a, p, k) = bind_ok (context _ (populate_oci_artifact c)) _ e in
      let (digest, g, k') = bind_ok (context _ (c.digest a)) _ k in
      elim (==_cases meta.digest digest) [
        | inl (b, same) ↦ absurd (
            let (u, _, k'') =
              bind_ok (context _ (update_metadata c meta.digest c.time_now s)) _ (rw b at k') in
            cc)
        | inr (b, differs) ↦
            let k'' : ok (true, s) ≡ ok (true, t) = rw b at k' in
            ((a, digest, context-ok _ _ p, context-ok _ _ g, differs), cc)
      ]

  -- The policies are asked for exactly if there is no metadata of them, or it is a day old and the
  -- digest that the artifact has by now differs from the one in it; then no file changes.
  pub needs_update-true : (s t : S) → (needs_update c s ≡ ok (true, t)) ↔ (IsStale c s × (s ≡ t))
  unfolding needs_update compare_digest
  needs_update-true s t = (to, from)
    where
      to : needs_update c s ≡ ok (true, t) → IsStale c s × (s ≡ t)
      to e = elim (Option-cases (c.files.get s)) [
        | inl n ↦ let e' : ok (true, s) ≡ ok (true, t) = rw (n, needs_update) at e in (absent n, cc)
        | inr (meta, g) ↦
            elim (Bool-cases (before c.clock_now (meta.downloaded_at + update_interval))) [
              | inl b ↦
                  absurd
                    (let e' : ok (false, s) ≡ ok (true, t) = rw (g, b, needs_update) at e in cc)
              | inr b ↦
                  let ((a, digest, p, d, n), same) =
                    compare_digest-true meta s t (rw (g, b, needs_update) at e) in
                  (replaced meta a digest g (ground arith) p d n, same)
            ]
      ]

      from : IsStale c s × (s ≡ t) → needs_update c s ≡ ok (true, t)
      from (absent n, same) = rw (n, same, needs_update) refl
      from (replaced meta a digest g old p d n, same) =
          let f : ltb c.clock_now (meta.downloaded_at + update_interval) ≡ false = ground arith in
          elim (==_cases meta.digest digest) [
            | inl (_, equal) ↦ absurd (n equal)
            | inr (b, _) ↦ rw (g, f, needs_update, compare_digest, p, d, b, same) refl
          ]
