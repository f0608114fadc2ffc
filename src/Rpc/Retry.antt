-- ===== src/Rpc/Retry.antt =====
-- pkg/rpc/retry.go: the retries of a call of the server.
pub mod Laws
mod Tests
use trivy.Base.{ℕ, zero, suc, ◌≡◌, ◌<◌, Bool, true, false, Option, none, some, if◌then◌else◌}
use trivy.Base.Text.{Str, ◌==◌}
use trivy.Base.Result.{Error}

-- How a call ends; an error of twirp has its code.
pub data Outcome : Type 0 where
  succeeded : Outcome
  failed : Option Str → Error → Outcome

-- What an operation of the package backoff returns: no error, an error, or a permanent one
pub data Attempt : Type 0 where
  passed : Attempt
  transient permanent : Error → Attempt

-- maxRetries
abbrev pub max_retries : ℕ
max_retries = 10

-- The code twirp.Unavailable, and of the package backoff, on a state S that has the time: Reset of an
-- exponential backoff, whether it has waited too long for another retry, its next wait, and RetryNotify
-- with WithMaxRetries of it
pub record Backoff (S : Type 0) : Type 0 where
  pub unavailable : Str
  pub reset : S → S
  pub expired : S → Bool
  pub pause : S → S
  pub retry_notify : (S → S × Attempt) → ℕ → S → S × Option Error

-- What backoff documents of RetryNotify with a maximum of retries that is not zero: it resets the
-- backoff and calls the operation; it ends with the operation's success, and with a permanent error;
-- after another error it ends if this many retries have been made or the backoff has waited too
-- long, and else waits and calls the operation again. `from` is RetryNotify after some retries.
pub record IsDocumented {S : Type 0} (b : Backoff S) : Type 0 where
  pub from : (S → S × Attempt) → ℕ → ℕ → S → S × Option Error
  pub starts :
      (op : S → S × Attempt) (max : ℕ) (s : S)
      → 0 < max
      → b.retry_notify op max s ≡ from op max 0 (b.reset s)
  pub passes :
      (op : S → S × Attempt) (max tries : ℕ) (s : S)
      → 0 < max
      → (op s).1 ≡ passed
      → from op max tries s ≡ ((op s).0, none)
  pub refuses :
      (op : S → S × Attempt) (max tries : ℕ) (s : S) (e : Error)
      → 0 < max
      → (op s).1 ≡ permanent e
      → from op max tries s ≡ ((op s).0, some e)
  pub exhausts :
      (op : S → S × Attempt) (max : ℕ) (s : S) (e : Error)
      → 0 < max
      → (op s).1 ≡ transient e
      → from op max max s ≡ ((op s).0, some e)
  pub expires :
      (op : S → S × Attempt) (max tries : ℕ) (s : S) (e : Error)
      → 0 < max
      → (op s).1 ≡ transient e
      → b.expired (op s).0 ≡ true
      → from op max tries s ≡ ((op s).0, some e)
  pub repeats :
      (op : S → S × Attempt) (max tries : ℕ) (s : S) (e : Error)
      → tries < max
      → (op s).1 ≡ transient e
      → b.expired (op s).0 ≡ false
      → from op max tries s ≡ from op max (suc tries) (b.pause (op s).0)

module _ {S : Type 0} (b : Backoff S) where
  -- What the operation of Retry makes of an outcome.
  abbrev pub attempt_of : S × Outcome → S × Attempt
  attempt_of (t, succeeded) = (t, passed)
  attempt_of (t, failed none e) = (t, permanent e)
  attempt_of (t, failed (some code) e) =
      (t, if code == b.unavailable then transient e else permanent e)

  -- The operation of Retry
  abbrev pub operation : (S → S × Outcome) → S → S × Attempt
  operation f s = attempt_of (f s)

  -- Retry
  unfoldable pub retry : (S → S × Outcome) → S → S × Option Error
  retry f = b.retry_notify (operation f) max_retries
