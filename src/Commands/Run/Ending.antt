-- ===== src/Commands/Run/Ending.antt =====
-- How a run of pkg/commands/artifact/run.go ends: its handles, and its exit code.
use trivy.Base.{◌≢◌, ◌∙◌, sym, inl, inr, not, ◌&&◌, [], Bool-cases}
use trivy.Base.Text.{Str, str, ◌==◌, contains}
use trivy.Base.Result.{Result, ok, err, panicked, error_is, is_skip_scan, Result-cases}
use trivy.Types.{security_check_vulnerability}
use trivy.Commands.Action.{
  open_cache, deferred, Process, opened, closed, Ended, finished, exited, unless_exited, skipped,
  close_cache, close_db, after,
}
use trivy.Commands.Calls.{Calls, Options}
use trivy.Commands.Run.{
  clear_cache, reset_cache, init_cache, init_db, scan_and_report, with_db, run_with_timeout,
}
use trivy.Commands.Run.Laws.{clear_cache-Keeps, reset_cache-Keeps, scan_and_report-Keeps}

closed-opened : closed ≢ opened
closed-opened e = cc

module _ {S : Type 0} where
  -- The program has called os.Exit, or the database is not left open.
  abbrev IsDbClosed : Process S × Result Ended → Type 0
  IsDbClosed (q, ok (exited n)) = Unit
  IsDbClosed (q, ok finished) = q.db ≢ opened
  IsDbClosed (q, err e) = q.db ≢ opened
  IsDbClosed (q, panicked) = q.db ≢ opened

  -- The program has called os.Exit, or it leaves nothing open.
  abbrev pub IsClosed : Process S × Result Ended → Type 0
  IsClosed (q, ok (exited n)) = Unit
  IsClosed (q, ok finished) = (q.cache ≢ opened) × (q.db ≢ opened)
  IsClosed (q, err e) = (q.cache ≢ opened) × (q.db ≢ opened)
  IsClosed (q, panicked) = (q.cache ≢ opened) × (q.db ≢ opened)

  IsDbClosed-close_db : (x : Process S × Result Ended) → IsDbClosed (unless_exited close_db x)
  IsDbClosed-close_db (q, ok (exited n)) = tt
  IsDbClosed-close_db (q, ok finished) = closed-opened
  IsDbClosed-close_db (q, err e) = closed-opened
  IsDbClosed-close_db (q, panicked) = closed-opened

  IsClosed-close_cache :
      (x : Process S × Result Ended) → IsDbClosed x → IsClosed (unless_exited close_cache x)
  IsClosed-close_cache (q, ok (exited n)) h = tt
  IsClosed-close_cache (q, ok finished) h = (closed-opened, h)
  IsClosed-close_cache (q, err e) h = (closed-opened, h)
  IsClosed-close_cache (q, panicked) h = (closed-opened, h)

  IsDbClosed-unopened : (x : Process S × Result Ended) → x.0.db ≢ opened → IsDbClosed x
  IsDbClosed-unopened (q, ok (exited n)) h = tt
  IsDbClosed-unopened (q, ok finished) h = h
  IsDbClosed-unopened (q, err e) h = h
  IsDbClosed-unopened (q, panicked) h = h

  -- A call that has failed has not opened the database.
  abbrev IsDbKept : {A : Type 0} → Process S × Result A → Type 0
  IsDbKept (q, ok a) = Unit
  IsDbKept (q, err e) = q.db ≢ opened
  IsDbKept (q, panicked) = q.db ≢ opened

  skipped-IsDbClosed :
      {A : Type 0} (text : Str) (k : A → Process S → Process S × Result Ended)
      (x : Process S × Result A)
      → IsDbKept x
      → ((a : A) (q : Process S) → IsDbClosed (k a q))
      → IsDbClosed (skipped text k x)
  skipped-IsDbClosed text k (q, ok a) h f = f a q
  skipped-IsDbClosed text k (q, err e) h f = elim (Bool-cases (error_is is_skip_scan e)) [
    | inl t ↦ rw t h
    | inr n ↦ rw n h
  ]
  skipped-IsDbClosed text k (q, panicked) h f = h

  -- A call on the cache that has failed has left nothing open; else the database is not opened.
  abbrev IsCacheReady : {A : Type 0} → Process S × Result A → Type 0
  IsCacheReady (q, ok a) = q.db ≢ opened
  IsCacheReady (q, err e) = (q.cache ≢ opened) × (q.db ≢ opened)
  IsCacheReady (q, panicked) = (q.cache ≢ opened) × (q.db ≢ opened)

  after-IsCacheReady :
      {A : Type 0} (x : Process S × Result A) → x.0.db ≢ opened → IsCacheReady (after close_cache x)
  after-IsCacheReady (q, ok a) h = h
  after-IsCacheReady (q, err e) h = (closed-opened, h)
  after-IsCacheReady (q, panicked) h = (closed-opened, h)

  skipped-IsClosed :
      {A : Type 0} (text : Str) (k : A → Process S → Process S × Result Ended)
      (x : Process S × Result A)
      → IsCacheReady x
      → ((a : A) (q : Process S) → q.db ≢ opened → IsClosed (k a q))
      → IsClosed (skipped text k x)
  skipped-IsClosed text k (q, ok a) h f = f a q h
  skipped-IsClosed text k (q, err e) h f = elim (Bool-cases (error_is is_skip_scan e)) [
    | inl t ↦ rw t h
    | inr n ↦ rw n h
  ]
  skipped-IsClosed text k (q, panicked) h f = h

  module _ (calls : Calls S) (opt : Options) where
    init_db-IsDbKept : (p : Process S) → p.db ≢ opened → IsDbKept (init_db calls opt p)
    unfolding init_db
    init_db-IsDbKept p h = elim (Result-cases (calls.download_db opt.skip_db_update p.files).1) [
      | inl (u, e) ↦ elim (Bool-cases opt.download_db_only) [
        | inl t ↦ rw (e, t, init_db) h
        | inr f ↦
            elim (Result-cases (calls.init_db (calls.download_db opt.skip_db_update p.files).0).1) [
              | inl (v, i) ↦ rw (e, f, i, init_db) tt
              | inr (inl (x, i)) ↦ rw (e, f, i, init_db) h
              | inr (inr i) ↦ rw (e, f, i, init_db) h
            ]
      ]
      | inr (inl (x, e)) ↦ rw (e, init_db) h
      | inr (inr e) ↦ rw (e, init_db) h
    ]

    with_db-IsDbClosed : (p : Process S) → p.db ≢ opened → IsDbClosed (with_db calls opt p)
    unfolding with_db
    with_db-IsDbClosed p h =
        elim (Bool-cases
          (opt.remote_addr == [] && contains opt.security_checks security_check_vulnerability)) [
            | inl t ↦
                rw (t, with_db)
                  (skipped-IsDbClosed (str "DB error")
                    (λ u. deferred close_db (scan_and_report calls opt)) (init_db calls opt p)
                    (init_db-IsDbKept p h)
                    (λ u q. IsDbClosed-close_db (scan_and_report calls opt q)))
            | inr f ↦
                rw (f, with_db)
                  (let same = (scan_and_report-Keeps calls opt).kept p in
                    IsDbClosed-unopened (scan_and_report calls opt p) (λ e. h (sym same.1 ∙ e)))
          ]

    init_cache-IsCacheReady :
        (p : Process S) → p.cache ≢ opened → p.db ≢ opened → IsCacheReady (init_cache calls opt p)
    unfolding init_cache
    init_cache-IsCacheReady p c d = elim (Bool-cases (not (opt.remote_addr == []))) [
      | inl r ↦ rw (r, init_cache) d
      | inr r ↦ elim (Result-cases (calls.new_cache p.files).1) [
        | inl (u, e) ↦
            let q : Process S = open_cache (record p { files = (calls.new_cache p.files).0 }) in
            elim (Bool-cases opt.reset) [
              | inl t ↦
                  rw (r, e, t, init_cache)
                    (let same = (reset_cache-Keeps calls opt).kept q in
                      after-IsCacheReady (reset_cache calls opt q) (λ x. d (sym same.1 ∙ x)))
              | inr f ↦ elim (Bool-cases opt.clear_cache) [
                | inl t ↦
                    rw (r, e, f, t, init_cache)
                      (let same = (clear_cache-Keeps calls opt).kept q in
                        after-IsCacheReady (clear_cache calls opt q) (λ x. d (sym same.1 ∙ x)))
                | inr g ↦ rw (r, e, f, g, init_cache) d
              ]
            ]
        | inr (inl (x, e)) ↦ rw (r, e, init_cache) (c, d)
        | inr (inr e) ↦ rw (r, e, init_cache) (c, d)
      ]
    ]

    -- A run that does not call os.Exit leaves neither the cache nor the database open, whatever fails.
    pub run_with_timeout-IsClosed :
        (p : Process S) → p.cache ≢ opened → p.db ≢ opened → IsClosed (run_with_timeout calls opt p)
    unfolding run_with_timeout
    run_with_timeout-IsClosed p c d = elim (Result-cases calls.init_logger) [
      | inl (u, e) ↦
          rw (e, run_with_timeout)
            (skipped-IsClosed (str "cache error") (λ v. deferred close_cache (with_db calls opt))
              (init_cache calls opt p) (init_cache-IsCacheReady p c d)
              (λ v q h. IsClosed-close_cache (with_db calls opt q) (with_db-IsDbClosed q h)))
      | inr (inl (x, e)) ↦ rw (e, run_with_timeout) (c, d)
      | inr (inr e) ↦ rw (e, run_with_timeout) (c, d)
    ]
