-- ===== src/Commands/Artifact/Laws.antt =====
-- What the config command leaves alone.
use trivy.Base.{◌≡◌, refl, inl, inr, [], Bool-cases, Bool}
use trivy.Base.Text.{◌==◌, contains}
use trivy.Base.State.{Call, Done}
use trivy.Commands.Calls.{Calls, Options}
use trivy.Commands.Run.{run_with_timeout, with_db, init_db}
use trivy.Commands.Artifact.{Initializers, config_run, run}

module _ {S : Type 0} (init : Initializers S) (calls : Calls S) where
  -- The config command neither downloads nor opens the database of vulnerabilities: its run is the
  -- same whatever these calls do.
  pub config_run-no_db :
      (opt : Options) (download_db : Bool → Call S Done) (init_db : Call S Done)
      → config_run init (record calls { download_db = download_db; init_db = init_db }) opt
        ≡ config_run init calls opt
  unfolding config_run run run_with_timeout with_db contains ◌==◌
  config_run-no_db opt download_db init_db = elim (Bool-cases (opt.remote_addr == [])) [
    | inl t ↦ rw (t, with_db) refl
    | inr f ↦ rw (f, with_db) refl
  ]
