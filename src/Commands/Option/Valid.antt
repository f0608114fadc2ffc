-- ===== src/Commands/Option/Valid.antt =====
-- What Init of pkg/commands/artifact/option.go lets through.
use trivy.Base.{
  subst, ◌≡◌, ◌≢◌, ◌⊎◌, inl, inr, false, not, ◌&&◌, List, [], ◌∷◌, Bool-cases, eqb, ltb, length,
}
use trivy.Base.Text.{Str, str, ◌==◌, ==_cases, has_prefix}
use trivy.Base.Result.{Result, ok, err, bind_ok}
use trivy.External.{Severities}
use trivy.Commands.Remote.{init_remote}
use trivy.Commands.Option.{
  DbOption, CacheOption, Options, init_report, init_db, init_cache, init_artifact, init, help,
  initialized, skip_scan, with_target,
}
use trivy.Commands.Option.Laws.{IsKnown, init_report-IsKnown}

-- The files for TLS with redis are all there, or none is.
abbrev pub IsComplete : CacheOption → Type 0
IsComplete c =
    ((c.redis_ca_cert ≡ []) × ((c.redis_cert ≡ []) × (c.redis_key ≡ [])))
    ⊎ ((c.redis_ca_cert ≢ []) × ((c.redis_cert ≢ []) × (c.redis_key ≢ [])))

-- What checked options are.
pub record IsValid (o : Options) : Type 0 where
  pub known : IsKnown o.report
  pub database : o.db.skip_db_update && o.db.download_db_only ≡ false
  pub redis : IsComplete o.cache

init_db-ok :
    (c : DbOption) {out : DbOption}
    → init_db c ≡ ok out
    → (c ≡ out) × (c.skip_db_update && c.download_db_only ≡ false)
unfolding init_db
init_db-ok c {out} e = elim (Bool-cases (c.skip_db_update && c.download_db_only)) [
  | inl t ↦ absurd (let e' : err _ ≡ ok out = rw (t, init_db) at e in cc)
  | inr f ↦ let e' : ok c ≡ ok out = rw (f, init_db) at e in (cc, f)
]

init_cache-ok :
    (c : CacheOption) {out : CacheOption} → init_cache c ≡ ok out → (c ≡ out) × IsComplete c
unfolding init_cache
init_cache-ok c {out} e =
    elim (Bool-cases (
      not (has_prefix c.cache_backend (str "redis://"))
      && not (c.cache_backend == str "fs")
      && not (c.cache_backend == []))) [
        | inl t ↦ absurd (let e' : err _ ≡ ok out = rw (t, init_cache) at e in cc)
        | inr t ↦ elim (==_cases c.redis_ca_cert []) [
          | inl (x, a) ↦ elim (==_cases c.redis_cert []) [
            | inl (y, b) ↦ elim (==_cases c.redis_key []) [
              | inl (z, k) ↦
                  let e' : ok c ≡ ok out = rw (t, x, y, z, init_cache) at e in (cc, inl (a, (b, k)))
              | inr (z, k) ↦
                  absurd (let e' : err _ ≡ ok out = rw (t, x, y, z, init_cache) at e in cc)
            ]
            | inr (y, b) ↦ absurd (let e' : err _ ≡ ok out = rw (t, x, y, init_cache) at e in cc)
          ]
          | inr (x, a) ↦ elim (==_cases c.redis_cert []) [
            | inl (y, b) ↦ absurd (let e' : err _ ≡ ok out = rw (t, x, y, init_cache) at e in cc)
            | inr (y, b) ↦ elim (==_cases c.redis_key []) [
              | inl (z, k) ↦
                  absurd (let e' : err _ ≡ ok out = rw (t, x, y, z, init_cache) at e in cc)
              | inr (z, k) ↦
                  let e' : ok c ≡ ok out = rw (t, x, y, z, init_cache) at e in (cc, inr (a, (b, k)))
            ]
          ]
        ]
      ]

with_target-IsValid : (args : List Str) (c : Options) → IsValid c → IsValid (with_target args c)
with_target-IsValid [] c h = record { known = h.known; database = h.database; redis = h.redis }
with_target-IsValid (a ∷ _) c h = record { known = h.known; database = h.database; redis = h.redis }

init_artifact-IsValid :
    (args : List Str) (c : Options) {out : Options}
    → IsValid c
    → init_artifact args c ≡ ok (initialized out)
    → IsValid out
unfolding init_artifact
init_artifact-IsValid args c {out} h e =
    elim (Bool-cases (c.artifact.input == [] && eqb (length args) 0)) [
      | inl t ↦ absurd (let e' : ok help ≡ ok (initialized out) = rw (t, init_artifact) at e in cc)
      | inr t ↦ elim (Bool-cases (ltb 1 (length args))) [
        | inl m ↦
            absurd (let e' : err _ ≡ ok (initialized out) = rw (t, m, init_artifact) at e in cc)
        | inr m ↦ elim (Bool-cases (c.artifact.input == [])) [
          | inl i ↦
              let e' : ok (initialized (with_target args c)) ≡ ok (initialized out) =
                rw (t, m, i, init_artifact) at e in
              let same : with_target args c ≡ out = cc in
              subst IsValid same (with_target-IsValid args c h)
          | inr i ↦
              let e' : ok (initialized c) ≡ ok (initialized out) =
                rw (t, m, i, init_artifact) at e in
              let same : c ≡ out = cc in subst IsValid same h
        ]
      ]
    ]

-- Options that are checked without an error, and without the help, ask for known types and checks if
-- they did before, do not ask both for no download of the database and for nothing else, and have
-- either all the files for TLS with redis or none.
pub init-IsValid :
    (db : Severities) (create : Str → Result Str) (canonical : Str → Str) (args : List Str)
    (c : Options) {out : Options}
    → IsKnown c.report
    → init db create canonical args c ≡ ok (initialized out)
    → IsValid out
unfolding init
init-IsValid db create canonical args c {out} h e =
    let (report, r, k) = bind_ok (init_report db create c.report) _ e in
    let (checked_db, d, k') = bind_ok (init_db c.db) _ k in
    let (cache, s, k'') = bind_ok (init_cache c.cache) _ k' in
    let whole : Options = record c {
      report = report;
      db = checked_db;
      cache = cache;
      remote = init_remote canonical c.remote;
    } in
    let (same_db, once) = init_db-ok c.db d in
    let (same_cache, complete) = init_cache-ok c.cache s in
    let valid : IsValid whole = record {
      known = init_report-IsKnown db create c.report h r;
      database = rw same_db at once;
      redis = subst IsComplete same_cache complete;
    } in
    elim (Bool-cases (skip_scan whole)) [
      | inl t ↦
          let e' : ok (initialized whole) ≡ ok (initialized out) = rw t at k'' in
          let same : whole ≡ out = cc in subst IsValid same valid
      | inr f ↦ init_artifact-IsValid args whole valid (rw f at k'')
    ]
