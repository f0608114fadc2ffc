-- ===== src/Rpc/Retry/Tests.antt =====
-- The theorem on retries at a server that is unavailable for two calls.
use trivy.Base.{ℕ, zero, suc, ◌-◌, ◌≡◌, refl, Option, none, some, if◌then◌else◌, ltb, arith, false}
use trivy.Base.Text.{str, ◌==◌}
use trivy.Base.Result.{Error, message}
use trivy.Rpc.Retry.{
  Outcome, succeeded, failed, Attempt, passed, transient, permanent, Backoff, IsDocumented, retry,
}
use trivy.Rpc.Retry.Laws.{IsRetried, retry-IsRetried}

-- The number of retries that are left; no wait is too long for this backoff. The state is the number
-- of calls.
abbrev notify : (ℕ → ℕ × Attempt) → ℕ → ℕ → ℕ × Option Error
notify op zero s = elim ((op s).1) [
  | passed ↦ ((op s).0, none)
  | transient e ↦ ((op s).0, some e)
  | permanent e ↦ ((op s).0, some e)
]
notify op (suc n) s = elim ((op s).1) [
  | passed ↦ ((op s).0, none)
  | transient e ↦ notify op n (op s).0
  | permanent e ↦ ((op s).0, some e)
]

notify-passed :
    (op : ℕ → ℕ × Attempt) (n s : ℕ) → (op s).1 ≡ passed → notify op n s ≡ ((op s).0, none)
notify-passed op zero s h = rw (h, notify) refl
notify-passed op (suc n) s h = rw (h, notify) refl

notify-permanent :
    (op : ℕ → ℕ × Attempt) (n s : ℕ) (e : Error)
    → (op s).1 ≡ permanent e
    → notify op n s ≡ ((op s).0, some e)
notify-permanent op zero s e h = rw (h, notify) refl
notify-permanent op (suc n) s e h = rw (h, notify) refl

abbrev backoff : Backoff ℕ
backoff = record {
  unavailable = str "unavailable";
  reset = λ s. s;
  expired = λ s. false;
  pause = λ s. s;
  retry_notify = notify;
}

backoff-IsDocumented : IsDocumented backoff
backoff-IsDocumented = record {
  from = λ op max tries s. notify op (max - tries) s;
  starts = λ op max s h. let e : max - 0 ≡ max = omega arith in rw e refl;
  passes = λ op max tries s h q. notify-passed op (max - tries) s q;
  refuses = λ op max tries s e h q. notify-permanent op (max - tries) s e q;
  exhausts = λ op max s e h q. let z : max - max ≡ 0 = omega arith in rw (z, q, notify) refl;
  expires = λ op max tries s e h q late. absurd (cc late);
  repeats = λ op max tries s e h q early.
      let n : max - tries ≡ suc (max - suc tries) = omega arith in rw (n, q, notify) refl;
}

abbrev flaky : ℕ → ℕ × Outcome
flaky s = (
  suc s,
  if ltb s 2 then failed (some (str "unavailable")) (message (str "refused")) else succeeded,
)

retry_lem : retry backoff flaky 0 ≡ (3, none)
unfolding retry ◌==◌
retry_lem = refl

retry-IsRetried_example : IsRetried backoff flaky 10 0 (retry backoff flaky 0)
retry-IsRetried_example = retry-IsRetried backoff flaky backoff-IsDocumented 0
