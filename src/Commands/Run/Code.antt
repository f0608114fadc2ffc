-- ===== src/Commands/Run/Code.antt =====
-- When a run of pkg/commands/artifact/run.go exits with a code.
use trivy.Base.{
  ℕ, ◌≡◌, ◌≢◌, refl, sym, ◌∙◌, inl, inr, true, ◌&&◌, List, [], eqb, eqb_iff, Bool-cases,
}
use trivy.Base.Text.{Str, str, ◌==◌, contains}
use trivy.Base.Result.{Result, ok, err, panicked, error_is, is_skip_scan, Result-cases, wrap}
use trivy.Types
use trivy.Types.{failed, security_check_vulnerability}
use trivy.Scanner.{Report}
use trivy.Commands.Action.{
  Done, Process, Action, Ended, finished, exited, next, unless_exited, skipped, close_cache,
  close_db, deferred, wrapped, within, on_files,
}
use trivy.Commands.Calls.{Calls, Options}
use trivy.Commands.Run.{
  init_cache, init_db, scan, filter, exit, filter_and_write, write_and_exit, scan_and_report,
  with_db, run_with_timeout,
}

module _ {S : Type 0} where
  unless_exited-exited :
      (close : Process S → Process S) (x : Process S × Result Ended) {n : ℕ}
      → (unless_exited close x).1 ≡ ok (exited n)
      → x.1 ≡ ok (exited n)
  unless_exited-exited close (q, ok (exited m)) e = e
  unless_exited-exited close (q, ok finished) e = absurd cc
  unless_exited-exited close (q, err x) e = absurd cc
  unless_exited-exited close (q, panicked) e = absurd cc

  skipped-exited :
      {A : Type 0} (text : Str) (k : A → Action S Ended) (x : Process S × Result A) {n : ℕ}
      → (skipped text k x).1 ≡ ok (exited n)
      → (a : A) × (q : Process S) × ((k a q).1 ≡ ok (exited n))
  skipped-exited text k (q, ok a) e = (a, q, e)
  skipped-exited text k (q, err x) {n} e = absurd (elim (Bool-cases (error_is is_skip_scan x)) [
    | inl t ↦ let e' : ok finished ≡ ok (exited n) = rw t at e in cc
    | inr f ↦ let e' : err (wrap text x) ≡ ok (exited n) = rw f at e in cc
  ])
  skipped-exited text k (q, panicked) e = absurd cc

  next-ok :
      {A B : Type 0} (k : A → Action S B) (x : Process S × Result A) {b : B}
      → (next k x).1 ≡ ok b
      → (a : A) × (x.1 ≡ ok a) × ((k a x.0).1 ≡ ok b)
  next-ok k (q, ok a) e = (a, refl, e)
  next-ok k (q, err x) e = absurd cc
  next-ok k (q, panicked) e = absurd cc

  wrapped-ok :
      {A : Type 0} (text : Str) (x : Process S × Result A) {a : A}
      → (wrapped text x).1 ≡ ok a
      → x.1 ≡ ok a
  wrapped-ok text (q, ok b) e = e
  wrapped-ok text (q, err x) e = absurd cc
  wrapped-ok text (q, panicked) e = absurd cc

  module _ (calls : Calls S) (opt : Options) where
    exit-exited :
        (results : List Types.Result) (p : Process S) {n : ℕ}
        → (exit calls opt results p).1 ≡ ok (exited n)
        → (n ≡ opt.exit_code) × (n ≢ 0) × (failed results ≡ true)
    unfolding exit
    exit-exited results p {n} e = elim (Bool-cases (eqb opt.exit_code 0)) [
      | inl z ↦ absurd (let e' : ok finished ≡ ok (exited n) = rw (z, exit) at e in cc)
      | inr z ↦ elim (Bool-cases (failed results)) [
        | inr f ↦ absurd (let e' : ok finished ≡ ok (exited n) = rw (z, f, exit) at e in cc)
        | inl t ↦
            let e' : ok (exited opt.exit_code) ≡ ok (exited n) = rw (z, t, exit) at e in
            let same : opt.exit_code ≡ n = cc in
            (
              sym same,
              λ zero.
                  let t' : eqb opt.exit_code 0 ≡ true = (eqb_iff opt.exit_code 0).1 (same ∙ zero) in
                  cc,
              t,
            )
      ]
    ]

    -- The program exits with the code of the options, which is not zero, after a filtered report in
    -- which something has failed.
    pub record IsFailure (n : ℕ) : Type 0 where
      pub code : n ≡ opt.exit_code
      pub nonzero : n ≢ 0
      pub scanned : Report
      pub report : Report
      pub at : Process S
      pub filtered : (filter calls opt scanned at).1 ≡ ok report
      pub failing : failed report.results ≡ true

    scan_and_report-exited :
        (p : Process S) {n : ℕ} → (scan_and_report calls opt p).1 ≡ ok (exited n) → IsFailure n
    unfolding scan_and_report
    scan_and_report-exited p e =
        let scanning = within (str "scan error") (scan calls opt) p in
        let (scanned, _, k) = next-ok (filter_and_write calls opt) scanning e in
        let filtering = within (str "filter error") (filter calls opt scanned) scanning.0 in
        let (report, f, k') = next-ok (write_and_exit calls opt) filtering k in
        let writing =
          within (str "unable to write results") (on_files (calls.write report)) filtering.0 in
        let (u, _, k'') = next-ok (λ v. exit calls opt report.results) writing k' in
        let (same, nonzero, failing) = exit-exited report.results writing.0 k'' in
        record {
          code = same;
          nonzero = nonzero;
          scanned = scanned;
          report = report;
          at = scanning.0;
          filtered = wrapped-ok (str "filter error") (filter calls opt scanned scanning.0) f;
          failing = failing;
        }

    with_db-exited : (p : Process S) {n : ℕ} → (with_db calls opt p).1 ≡ ok (exited n) → IsFailure n
    unfolding with_db
    with_db-exited p {n} e =
        elim (Bool-cases
          (opt.remote_addr == [] && contains opt.security_checks security_check_vulnerability)) [
            | inl t ↦
                let k : Done → Action S Ended =
                  λ u. deferred close_db (scan_and_report calls opt) in
                let (u, q, h) =
                  skipped-exited (str "DB error") k (init_db calls opt p) {n = n}
                    (rw (t, with_db) at e) in
                scan_and_report-exited q
                  (unless_exited-exited close_db (scan_and_report calls opt q) h)
            | inr f ↦ scan_and_report-exited p (rw (f, with_db) at e)
          ]

    -- A run exits with a code only if it is that of the options, not zero, and something has failed in
    -- a report that the filters have let through.
    pub run_with_timeout-exited :
        (p : Process S) {n : ℕ} → (run_with_timeout calls opt p).1 ≡ ok (exited n) → IsFailure n
    unfolding run_with_timeout
    run_with_timeout-exited p {n} e = elim (Result-cases calls.init_logger) [
      | inl (u, i) ↦
          let k : Done → Action S Ended = λ v. deferred close_cache (with_db calls opt) in
          let (v, q, h) =
            skipped-exited (str "cache error") k (init_cache calls opt p) {n = n}
              (rw (i, run_with_timeout) at e) in
          with_db-exited q (unless_exited-exited close_cache (with_db calls opt q) h)
      | inr (inl (x, i)) ↦
          absurd (let e' : err x ≡ ok (exited n) = rw (i, run_with_timeout) at e in cc)
      | inr (inr i) ↦
          absurd (let e' : panicked ≡ ok (exited n) = rw (i, run_with_timeout) at e in cc)
    ]
