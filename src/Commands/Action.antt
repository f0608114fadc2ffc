-- ===== src/Commands/Action.antt =====
-- Calls that change the files and the handles of a process and may fail, one after the other, with
-- deferred calls and os.Exit.
use trivy.Base.{ℕ, if◌then◌else◌}
use trivy.Base.Text.{Str}
pub use trivy.Base.State.{Done, done}
use trivy.Base.Result.{Result, ok, err, panicked, Error, wrap, error_is, is_skip_scan}

pub data Handle : Type 0 where
  unopened opened closed : Handle

-- The files, the cache and the database.
pub record Process (S : Type 0) : Type 0 where
  pub files : S
  pub cache : Handle
  pub db : Handle

abbrev pub Action : Type 0 → Type 0 → Type 0
Action S A = Process S → Process S × Result A

-- How a run ends that does not fail: it returns, or calls os.Exit with a code.
pub data Ended : Type 0 where
  finished : Ended
  exited : ℕ → Ended

module _ {S : Type 0} where
  abbrev pub pure : {A : Type 0} → A → Action S A
  pure a p = (p, ok a)

  abbrev pub fail : {A : Type 0} → Error → Action S A
  fail e p = (p, err e)

  -- What is done with the result of a call.
  abbrev pub next : {A B : Type 0} → (A → Action S B) → Process S × Result A → Process S × Result B
  next k (q, ok a) = k a q
  next k (q, err e) = (q, err e)
  next k (q, panicked) = (q, panicked)

  infixl 5 ◌>>=◌
  abbrev pub ◌>>=◌ : {A B : Type 0} → Action S A → (A → Action S B) → Action S B
  (m >>= k) p = next k (m p)

  abbrev pub wrapped : {A : Type 0} → Str → Process S × Result A → Process S × Result A
  wrapped text (q, ok a) = (q, ok a)
  wrapped text (q, err e) = (q, err (wrap text e))
  wrapped text (q, panicked) = (q, panicked)

  -- `if err != nil { return …, xerrors.Errorf("text: %w", err) }`
  abbrev pub within : {A : Type 0} → Str → Action S A → Action S A
  within text m p = wrapped text (m p)

  -- A call that changes only files.
  abbrev pub on_files : {A : Type 0} → (S → S × Result A) → Action S A
  on_files f p = let (s, r) = f p.files in (record p { files = s }, r)

  abbrev pub after :
      {A : Type 0} → (Process S → Process S) → Process S × Result A → Process S × Result A
  after close (q, r) = (close q, r)

  -- `defer close()` in a function that does not call os.Exit
  abbrev pub defer : {A : Type 0} → (Process S → Process S) → Action S A → Action S A
  defer close m p = after close (m p)

  abbrev pub unless_exited :
      (Process S → Process S) → Process S × Result Ended → Process S × Result Ended
  unless_exited close (q, ok (exited n)) = (q, ok (exited n))
  unless_exited close (q, ok finished) = (close q, ok finished)
  unless_exited close (q, err e) = (close q, err e)
  unless_exited close (q, panicked) = (close q, panicked)

  -- `defer close()` in one that may: os.Exit leaves out the deferred calls.
  abbrev pub deferred : (Process S → Process S) → Action S Ended → Action S Ended
  deferred close m p = unless_exited close (m p)

  abbrev pub skipped :
      {A : Type 0} → Str → (A → Action S Ended) → Process S × Result A → Process S × Result Ended
  skipped text k (q, ok a) = k a q
  skipped text k (q, err e) =
      if error_is is_skip_scan e then (q, ok finished) else (q, err (wrap text e))
  skipped text k (q, panicked) = (q, panicked)

  -- An errSkipScan of a call ends the run without an error.
  abbrev pub unless_skipped :
      {A : Type 0} → Str → Action S A → (A → Action S Ended) → Action S Ended
  unless_skipped text m k p = skipped text k (m p)

  abbrev pub open_cache : Process S → Process S
  open_cache p = record p { cache = opened }

  abbrev pub close_cache : Process S → Process S
  close_cache p = record p { cache = closed }

  abbrev pub open_db : Process S → Process S
  open_db p = record p { db = opened }

  abbrev pub close_db : Process S → Process S
  close_db p = record p { db = closed }
