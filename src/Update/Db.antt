-- ===== src/Update/Db.antt =====
-- pkg/db/db.go: is the database of vulnerabilities out of date, and its download.
pub mod Laws
use trivy.Base.{ℕ, ◌+◌, ◌++◌, Bool, true, false, not, Option, none, some, if◌then◌else◌, eqb, ltb}
use trivy.Base.Text.{Str, str, decimal}
use trivy.Base.Time.{date, before}
use trivy.Base.Result.{Result, ok, err, panicked, message, context, ◌>>=◌}

-- trivy-db's metadata.Metadata, with instants as in Base/Time.antt
pub record Metadata : Type 0 where
  pub version : ℕ
  pub next_update : ℕ
  pub updated_at : ℕ
  pub downloaded_at : ℕ

-- time.Time{} and time.Hour
abbrev pub zero_time : ℕ
zero_time = date 1 1 1 0 0 0 0

abbrev pub hour : ℕ
hour = 3_600_000_000_000

-- metadata.Metadata{Version: db.SchemaVersion}
abbrev pub first_metadata : ℕ → Metadata
first_metadata schema = record {
  version = schema;
  next_update = zero_time;
  updated_at = zero_time;
  downloaded_at = zero_time;
}

-- trivy-db's metadata.Client of a directory, on a state S of files: Get, Update, and Delete, whose
-- error is only logged
pub record MetadataFiles (S : Type 0) : Type 0 where
  pub get : Str → S → Result Metadata
  pub update : Str → Metadata → S → Result S
  pub delete : Str → S → S

-- The client: db.SchemaVersion, the clock, its directory, the metadata, the artifact that is given or
-- made (populateOCIArtifact), its Download into a directory, and db.Dir
pub record Client (S A : Type 0) : Type 0 where
  pub schema_version : ℕ
  pub now : ℕ
  pub cache_dir : Str
  pub metadata : MetadataFiles S
  pub artifact : Option A
  pub new_artifact : Result A
  pub download : A → Str → S → Result S
  pub db_dir : Str → Str

module _ {S A : Type 0} (c : Client S A) where
  -- Client.isNewDB
  unfoldable pub is_new_db : Metadata → Bool
  is_new_db meta =
      if before c.now meta.next_update
      then true
      else if before c.now (meta.downloaded_at + hour)
      then true
      else false

  -- The end of the messages on another schema.
  abbrev mismatch : Str → Metadata → Str
  mismatch text meta =
      text
      ++ (str ". Local DB: "
          ++ (decimal meta.version ++ (str ", Expected: " ++ decimal c.schema_version)))

  -- Client.NeedsUpdate once there is metadata
  unfoldable pub check_metadata : Bool → Metadata → Result Bool
  unfolding is_new_db
  check_metadata skip meta =
      if ltb c.schema_version meta.version
      then err (message (mismatch (str "the version of DB schema doesn't match") meta))
      else if skip
      then (if not (eqb c.schema_version meta.version)
          then context (str "validate error") (
              err (
                message
                  (mismatch (str "--skip-update cannot be specified with the old DB schema") meta)))
          else ok false)
      else if not (eqb c.schema_version meta.version)
      then ok true
      else ok (not (is_new_db meta))

  -- Client.NeedsUpdate
  unfoldable pub needs_update : Bool → S → Result Bool
  unfolding check_metadata
  needs_update skip s = elim (c.metadata.get c.cache_dir s) [
    | ok meta ↦ check_metadata skip meta
    | err _ ↦
        if skip
        then err (message (str "--skip-update cannot be specified on the first run"))
        else check_metadata skip (first_metadata c.schema_version)
    | panicked ↦ panicked
  ]

  -- Client.populateOCIArtifact
  abbrev pub populate_oci_artifact : Result A
  populate_oci_artifact = elim (c.artifact) [
    | some a ↦ ok a
    | none ↦ context (str "OCI artifact error") c.new_artifact
  ]

  -- Client.updateDownloadedAt
  unfoldable pub update_downloaded_at : Str → S → Result S
  update_downloaded_at dst s = do
    meta ← context (str "unable to get metadata") (c.metadata.get dst s)
    context (str "failed to update metadata")
        (c.metadata.update dst (record meta { downloaded_at = c.now }) s)

  -- Client.Download
  unfoldable pub download : Str → S → Result S
  unfolding update_downloaded_at
  download dst s = do
    let cleared = c.metadata.delete c.cache_dir s
    artifact ← context (str "OCI artifact error") populate_oci_artifact
    fetched ← context (str "database download error") (c.download artifact (c.db_dir dst) cleared)
    context (str "failed to update downloaded_at") (update_downloaded_at dst fetched)
