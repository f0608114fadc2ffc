-- ===== src/Update/Policy.antt =====
-- pkg/policy/policy.go: the built-in policies and their metadata.
pub mod Laws
use trivy.Base.{
  ◌++◌, ℕ, ◌+◌, Bool, true, false, not, List, [], ◌∷◌, Option, none, some, map, if◌then◌else◌,
}
use trivy.Base.Text.{Str, str, ◌==◌}
use trivy.Base.Time.{before}
use trivy.Base.Result.{Result, ok, err, message, context, ◌>>=◌}

pub record Metadata : Type 0 where
  pub digest : Str
  pub downloaded_at : ℕ

-- 24 * time.Hour
abbrev pub update_interval : ℕ
update_interval = 86_400_000_000_000

-- The files of the client on a state S: the metadata (`none` where it does not open or decode), its
-- creation and its encoding, the content of the manifest, the roots of such a content, where it has
-- the field, the paths of the manifest and of the content, and filepath.Join.
pub record PolicyFiles (S : Type 0) : Type 0 where
  pub get : S → Option Metadata
  pub create : S → Result S
  pub encode : Metadata → S → Result S
  pub open_manifest : S → Result Str
  pub decode_roots : Str → Result (Option (List Str))
  pub manifest_path : Str
  pub content_dir : Str
  pub join : Str → Str → Str

-- The client: its clock and that of the package time, its files, the artifact that is given or made,
-- with its Download and its Digest
pub record Client (S A : Type 0) : Type 0 where
  pub clock_now : ℕ
  pub time_now : ℕ
  pub files : PolicyFiles S
  pub artifact : Option A
  pub new_artifact : Result A
  pub download : A → Str → S → Result S
  pub digest : A → Result Str

module _ {S A : Type 0} (c : Client S A) where
  abbrev on_manifest : Str → Str
  on_manifest text = text ++ (c.files.manifest_path ++ str ")")

  -- Client.LoadBuiltinPolicies
  unfoldable pub load_builtin_policies : S → Result (List Str)
  load_builtin_policies s = do
    content ← context (on_manifest (str "manifest file open error (")) (c.files.open_manifest s)
    roots ← context (on_manifest (str "json decode error (")) (c.files.decode_roots content)
    elim roots [
      | none ↦ ok (c.files.content_dir ∷ [])
      | some [] ↦ ok (c.files.content_dir ∷ [])
      | some (r ∷ rs) ↦ ok (map (c.files.join c.files.content_dir) (r ∷ rs))
    ]

  -- Client.populateOCIArtifact
  abbrev pub populate_oci_artifact : Result A
  populate_oci_artifact = elim (c.artifact) [
    | some a ↦ ok a
    | none ↦ context (str "OCI artifact error") c.new_artifact
  ]

  -- Client.updateMetadata
  abbrev pub update_metadata : Str → ℕ → S → Result S
  update_metadata digest now s = do
    created ← context (str "failed to open a policy manifest") (c.files.create s)
    context (str "json encode error")
        (c.files.encode (record { digest = digest; downloaded_at = now }) created)

  -- What NeedsUpdate does a day after the last download: the answer, and the files.
  unfoldable pub compare_digest : Metadata → S → Result (Bool × S)
  compare_digest meta s = do
    artifact ← context (str "OPA bundle error") populate_oci_artifact
    digest ← context (str "digest error") (c.digest artifact)
    (if not (meta.digest == digest) then ok (true, s) else (do
      t ←
          context (str "unable to update the policy metadata")
            (update_metadata meta.digest c.time_now s)
      ok (false, t)))

  -- Client.NeedsUpdate
  unfoldable pub needs_update : S → Result (Bool × S)
  unfolding compare_digest
  needs_update s = elim (c.files.get s) [
    | none ↦ ok (true, s)
    | some meta ↦
        if before c.clock_now (meta.downloaded_at + update_interval)
        then ok (false, s)
        else compare_digest meta s
  ]

  -- Client.DownloadBuiltinPolicies
  unfoldable pub download_builtin_policies : S → Result S
  download_builtin_policies s = do
    artifact ← context (str "OPA bundle error") populate_oci_artifact
    fetched ← context (str "download error") (c.download artifact c.files.content_dir s)
    digest ← context (str "digest error") (c.digest artifact)
    context (str "unable to update the policy metadata")
        (update_metadata digest c.clock_now fetched)
