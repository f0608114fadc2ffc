-- ===== src/Commands/Run/Laws.antt =====
-- What a scan of pkg/commands/artifact/run.go leaves of the handles of a process.
use trivy.Base.{◌≡◌, refl, ◌∙◌, inl, inr, not, ◌&&◌, List, [], ◌∷◌, eqb, Bool-cases}
use trivy.Base.Text.{Str, str, contains}
use trivy.Base.Result.{skip_scan, Result, ok, err, panicked}
use trivy.Types
use trivy.Types.{failed, security_check_vulnerability, security_check_config}
use trivy.Commands.Action.{Process, Action, next, wrapped, within, on_files, ◌>>=◌}
use trivy.Commands.Calls.{Calls, Options}
use trivy.Commands.Run.{
  clear_cache, reset_cache, scanner_config, scan_options, config_scanner_options, scan,
  filter_results, filter, exit, scan_and_report,
}

module _ {S : Type 0} where
  -- The handles of two processes are the same.
  abbrev pub SameHandles : Process S → Process S → Type 0
  SameHandles p q = (q.cache ≡ p.cache) × (q.db ≡ p.db)

  -- An action leaves the handles.
  pub record Keeps {A : Type 0} (m : Action S A) : Type 0 where
    pub kept : (p : Process S) → SameHandles p (m p).0

  wrapped-SameHandles :
      {A : Type 0} (text : Str) (p : Process S) (x : Process S × Result A)
      → SameHandles p x.0
      → SameHandles p (wrapped text x).0
  wrapped-SameHandles text p (q, ok a) h = h
  wrapped-SameHandles text p (q, err e) h = h
  wrapped-SameHandles text p (q, panicked) h = h

  next-SameHandles :
      {A B : Type 0} (k : A → Action S B) (p : Process S) (x : Process S × Result A)
      → ((a : A) → Keeps (k a))
      → SameHandles p x.0
      → SameHandles p (next k x).0
  next-SameHandles k p (q, ok a) f h = let (c, d) = (f a).kept q in (c ∙ h.0, d ∙ h.1)
  next-SameHandles k p (q, err e) f h = h
  next-SameHandles k p (q, panicked) f h = h

  bind-Keeps :
      {A B : Type 0} (m : Action S A) (k : A → Action S B)
      → Keeps m
      → ((a : A) → Keeps (k a))
      → Keeps (m >>= k)
  bind-Keeps m k h f = record { kept = λ p. next-SameHandles k p (m p) f (h.kept p) }

  within-Keeps : {A : Type 0} (text : Str) (m : Action S A) → Keeps m → Keeps (within text m)
  within-Keeps text m h = record { kept = λ p. wrapped-SameHandles text p (m p) (h.kept p) }

  on_files-Keeps : {A : Type 0} (f : S → S × Result A) → Keeps (on_files f)
  on_files-Keeps f = record { kept = λ p. (refl, refl) }

  result-Keeps : {A : Type 0} (r : Result A) → Keeps (λ p. (p, r))
  result-Keeps r = record { kept = λ p. (refl, refl) }

  module _ (calls : Calls S) (opt : Options) where
    config_scanner_options-Keeps : Keeps (config_scanner_options calls opt)
    unfolding config_scanner_options
    config_scanner_options-Keeps =
        elim (Bool-cases (contains opt.security_checks security_check_config)) [
          | inl t ↦
              rw (t, config_scanner_options)
                (bind-Keeps _ _
                  (within-Keeps _ _
                    (on_files-Keeps (calls.init_builtin_policies opt.skip_policy_update)))
                  (λ paths. result-Keeps _))
          | inr f ↦ rw (f, config_scanner_options) (result-Keeps _)
        ]

    scan-Keeps : Keeps (scan calls opt)
    unfolding scan
    scan-Keeps =
        bind-Keeps (config_scanner_options calls opt) _ config_scanner_options-Keeps
          (λ misconf_option.
            let start = calls.initialize_scanner (scanner_config calls opt misconf_option) in
            bind-Keeps (within (str "unable to initialize a scanner") (on_files start)) _
              (within-Keeps (str "unable to initialize a scanner") (on_files start)
                (on_files-Keeps start))
              (λ scan_artifact.
                within-Keeps (str "image scan failed")
                  (on_files (scan_artifact (scan_options calls opt)))
                  (on_files-Keeps (scan_artifact (scan_options calls opt)))))

    filter_results-Keeps : (rs : List Types.Result) → Keeps (filter_results calls opt rs)
    unfolding filter_results
    filter_results-Keeps [] = result-Keeps _
    filter_results-Keeps (r ∷ rs) =
        bind-Keeps _ _ (result-Keeps _)
          (λ filtered. bind-Keeps _ _ (filter_results-Keeps rs) (λ rest. result-Keeps _))

    exit-Keeps : (results : List Types.Result) → Keeps (exit calls opt results)
    unfolding exit
    exit-Keeps results = elim (Bool-cases (not (eqb opt.exit_code 0) && failed results)) [
      | inl t ↦ rw (t, exit) (result-Keeps _)
      | inr f ↦ rw (f, exit) (result-Keeps _)
    ]

    pub scan_and_report-Keeps : Keeps (scan_and_report calls opt)
    unfolding scan_and_report filter
    scan_and_report-Keeps =
        bind-Keeps (within (str "scan error") (scan calls opt)) _
          (within-Keeps (str "scan error") (scan calls opt) scan-Keeps)
          (λ scanned.
            bind-Keeps (within (str "filter error") (filter calls opt scanned)) _
              (within-Keeps (str "filter error") (filter calls opt scanned) (
                bind-Keeps (filter_results calls opt scanned.results) _
                  (filter_results-Keeps scanned.results) (λ results. result-Keeps _)))
              (λ report.
                bind-Keeps (within (str "unable to write results") (on_files (calls.write report)))
                  _
                  (within-Keeps (str "unable to write results") (on_files (calls.write report))
                    (on_files-Keeps (calls.write report)))
                  (λ u. exit-Keeps report.results)))

    pub clear_cache-Keeps : Keeps (clear_cache calls opt)
    clear_cache-Keeps =
        bind-Keeps (within (str "cache clear error") (on_files calls.clear_artifacts)) _
          (within-Keeps (str "cache clear error") (on_files calls.clear_artifacts)
            (on_files-Keeps calls.clear_artifacts))
          (λ u. result-Keeps (err skip_scan))

    pub reset_cache-Keeps : Keeps (reset_cache calls opt)
    reset_cache-Keeps =
        let db = within (str "failed to clear the database") (on_files calls.clear_db) in
        let artifacts =
          within (str "failed to clear the artifact cache") (on_files calls.clear_artifacts) in
        bind-Keeps (within (str "cache reset error") (db >>= λ u. artifacts)) _
          (within-Keeps (str "cache reset error") (db >>= λ u. artifacts) (
            bind-Keeps db (λ u. artifacts)
              (within-Keeps (str "failed to clear the database") (on_files calls.clear_db)
                (on_files-Keeps calls.clear_db))
              (λ u.
                within-Keeps (str "failed to clear the artifact cache")
                  (on_files calls.clear_artifacts) (on_files-Keeps calls.clear_artifacts))))
          (λ u. result-Keeps (err skip_scan))
