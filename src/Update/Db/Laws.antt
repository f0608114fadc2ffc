-- ===== src/Update/Db/Laws.antt =====
-- When the client of pkg/db/db.go asks for a download of the database.
use trivy.Base.{refl, ℕ, ◌+◌, ◌<◌, ◌≤◌, ◌≡◌, ◌↔◌, ◌⊎◌, inl, inr, Bool, true, false, arith, ◌≢◌}
use trivy.Base.Result.{ok, bind_ok, context, context-ok}
use trivy.Update.Db.{
  Metadata, Client, hour, is_new_db, check_metadata, Str, download, needs_update,
  update_downloaded_at, populate_oci_artifact,
}

-- A database is current at an instant: it is of the client's schema, and either its successor is not
-- out yet or it was downloaded within an hour.
abbrev pub IsCurrent : ℕ → ℕ → Metadata → Type 0
IsCurrent schema now meta =
    (meta.version ≡ schema) × ((now < meta.next_update) ⊎ (now < meta.downloaded_at + hour))

-- A database is out of date at an instant.
abbrev pub IsOutdated : ℕ → ℕ → Metadata → Type 0
IsOutdated schema now meta =
    (meta.version < schema)
    ⊎ (meta.version ≡ schema) × (meta.next_update ≤ now) × (meta.downloaded_at + hour ≤ now)

module _ {S A : Type 0} (c : Client S A) where
  check_metadata-cases :
      (meta : Metadata)
      → ((c.schema_version < meta.version) × ((b : Bool) → check_metadata c false meta ≢ ok b))
        ⊎ (IsOutdated c.schema_version c.now meta × (check_metadata c false meta ≡ ok true))
        ⊎ (IsCurrent c.schema_version c.now meta × (check_metadata c false meta ≡ ok false))
  unfolding check_metadata is_new_db
  check_metadata-cases meta = ground arith

  check_metadata-IsOutdated :
      (meta : Metadata)
      → (check_metadata c false meta ≡ ok true) ↔ IsOutdated c.schema_version c.now meta
  check_metadata-IsOutdated meta = elim (check_metadata-cases meta) [
    | inl (l, n) ↦ (λ e. absurd (n true e), λ o. absurd (ground arith))
    | inr (inl (o, e)) ↦ (λ _. o, λ _. e)
    | inr (inr (o, e)) ↦ (λ f. absurd cc, λ q. absurd (ground arith))
  ]

  check_metadata-IsCurrent :
      (meta : Metadata)
      → (check_metadata c false meta ≡ ok false) ↔ IsCurrent c.schema_version c.now meta
  check_metadata-IsCurrent meta = elim (check_metadata-cases meta) [
    | inl (l, n) ↦ (λ e. absurd (n false e), λ o. absurd (ground arith))
    | inr (inl (o, e)) ↦ (λ f. absurd cc, λ q. absurd (ground arith))
    | inr (inr (o, e)) ↦ (λ _. o, λ _. e)
  ]

  check_metadata-skip :
      (meta : Metadata) → meta.version ≡ c.schema_version → check_metadata c true meta ≡ ok false
  unfolding check_metadata
  check_metadata-skip meta v = ground arith

  check_metadata-fresh :
      (skip : Bool) (meta : Metadata)
      → IsCurrent c.schema_version c.now meta
      → check_metadata c skip meta ≡ ok false
  check_metadata-fresh true meta q = check_metadata-skip meta q.0
  check_metadata-fresh false meta q = (check_metadata-IsCurrent meta).1 q

  -- Without the option to skip updates, a download is asked for exactly if the database on disk is
  -- of an older schema, or its successor is out and it was downloaded an hour ago or earlier.
  pub needs_update-IsOutdated :
      (s : S) (meta : Metadata)
      → c.metadata.get c.cache_dir s ≡ ok meta
      → (needs_update c false s ≡ ok true) ↔ IsOutdated c.schema_version c.now meta
  unfolding needs_update
  needs_update-IsOutdated s meta e = rw (e, needs_update) (check_metadata-IsOutdated meta)

  -- The operations on the metadata agree with each other, and a download brings metadata of the schema
  -- of the client.
  pub record Lawful : Type 0 where
    pub get_update :
        (dir : Str) (meta : Metadata) (s : S) {t : S}
        → c.metadata.update dir meta s ≡ ok t
        → c.metadata.get dir t ≡ ok meta
    pub get_download :
        (artifact : A) (dir : Str) (s : S) {t : S}
        → c.download artifact (c.db_dir dir) s ≡ ok t
        → (meta : Metadata) × (c.metadata.get dir t ≡ ok meta) × (meta.version ≡ c.schema_version)

  update_downloaded_at-get :
      Lawful
      → (dir : Str) (s : S) (meta : Metadata) {t : S} → c.metadata.get dir s ≡ ok meta
      → update_downloaded_at c dir s ≡ ok t
      → c.metadata.get dir t ≡ ok (record meta { downloaded_at = c.now })
  unfolding update_downloaded_at
  update_downloaded_at-get law dir s meta {t} g e =
      let e' : context _ (c.metadata.update dir (record meta { downloaded_at = c.now }) s) ≡ ok t =
        rw (g, update_downloaded_at) at e in
      law.get_update dir (record meta { downloaded_at = c.now }) s (context-ok _ _ e')

  -- A download that succeeds leaves metadata of the schema, with the instant of the download.
  pub download-get :
      Lawful
      → (dir : Str) (s : S) {t : S} → download c dir s ≡ ok t
      → (meta : Metadata) × (c.metadata.get dir t ≡ ok meta)
        × (meta.version ≡ c.schema_version)
        × (meta.downloaded_at ≡ c.now)
  unfolding download
  download-get law dir s {t} e =
      let cleared = c.metadata.delete c.cache_dir s in
      let (a, _, k) = bind_ok (context _ (populate_oci_artifact c)) _ e in
      let (u, f, k') = bind_ok (context _ (c.download a (c.db_dir dir) cleared)) _ k in
      let (meta, g, v) = law.get_download a dir cleared (context-ok _ _ f) in
      (_, update_downloaded_at-get law dir u meta g (context-ok _ _ k'), v, refl)

-- For less than an hour after a download into the directory of the client, none is asked for, whatever
-- the metadata that it brought says of the next update.
pub needs_update-download :
    {S A : Type 0} (c : Client S A)
    → Lawful c
    → (skip : Bool) (later : ℕ) (s : S) {t : S} → later < c.now + hour
    → download c c.cache_dir s ≡ ok t
    → needs_update (record c { now = later }) skip t ≡ ok false
unfolding needs_update
needs_update-download c law skip later s l e =
    let (meta, g, v, d) = download-get c law c.cache_dir s e in
    rw (g, needs_update)
      (check_metadata-fresh (record c { now = later }) skip meta (v, inr (rw d l)))
