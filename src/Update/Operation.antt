-- ===== src/Update/Operation.antt =====
-- pkg/commands/operation/operation.go: the download of the database and of the policies, where they
-- are needed.
pub mod Laws
use trivy.Base.{Bool, true, false, List, [], Option, none, some, if◌then◌else◌, not}
use trivy.Base.Text.{Str, str}
use trivy.Base.Result.{Result, ok, err, panicked, message, context, ◌>>=◌}
use trivy.Update.Db
use trivy.Update.Policy

module _ {S A : Type 0} where
  -- showDBInfo
  abbrev pub show_db_info : Db.Client S A → S → Result S
  show_db_info client s = do
    _ ← context (str "something wrong with DB") (client.metadata.get client.cache_dir s)
    ok s

  -- DownloadDB
  unfoldable pub download_db : Db.Client S A → Bool → S → Result S
  download_db client skip_update s = do
    needs_update ← context (str "database error") (Db.needs_update client skip_update s)
    t ←
        (if needs_update
          then context (str "failed to download vulnerability DB")
              (Db.download client client.cache_dir s)
          else ok s)
    context (str "failed to show database info") (show_db_info client t)

  -- The check of InitBuiltinPolicies.
  abbrev pub policies_needed : Policy.Client S A → Bool → S → Result (Bool × S)
  policies_needed client skip_update s =
      if not skip_update
      then context (str "unable to check if built-in policies need to be updated")
          (Policy.needs_update client s)
      else ok (false, s)

  -- What InitBuiltinPolicies loads, with an update or without.
  abbrev pub loaded : Policy.Client S A → Bool → S → Result (List Str × S)
  loaded client skip_update s = elim (Policy.load_builtin_policies client s) [
    | ok paths ↦ ok (paths, s)
    | err e ↦ if skip_update then ok ([], s) else context (str "policy load error") (err e)
    | panicked ↦ panicked
  ]

  -- InitBuiltinPolicies: the paths of the policies, and the files
  unfoldable pub init_builtin_policies : Policy.Client S A → Bool → S → Result (List Str × S)
  init_builtin_policies client skip_update s = do
    checked ← policies_needed client skip_update s
    t ←
        (if checked.0
          then context (str "failed to download built-in policies")
              (Policy.download_builtin_policies client checked.1)
          else ok checked.1)
    loaded client skip_update t
