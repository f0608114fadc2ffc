-- ===== src/Rpc/Retry/Laws.antt =====
-- The calls of the server that pkg/rpc/retry.go repeats.
use trivy.Base.{
  ℕ, zero, suc, ◌+◌, ◌≤◌, ◌≡◌, ◌⊎◌, refl, inl, inr, Bool-cases, true, false, Option, none, some,
  arith, ap,
}
use trivy.Base.Text.{◌==◌, ==_cases, ==_refl}
use trivy.Base.Result.{Error}
use trivy.Rpc.Retry.{
  Outcome, succeeded, failed, Attempt, passed, transient, permanent, Backoff, IsDocumented,
  max_retries, operation, attempt_of, retry,
}

-- The error that an outcome is returned with.
abbrev pub error_of : Outcome → Option Error
error_of succeeded = none
error_of (failed code e) = some e

Attempt-cases :
    (a : Attempt)
    → (a ≡ passed) ⊎ ((e : Error) × (a ≡ transient e)) ⊎ ((e : Error) × (a ≡ permanent e))
Attempt-cases passed = inl refl
Attempt-cases (transient e) = inr (inl (e, refl))
Attempt-cases (permanent e) = inr (inr (e, refl))

module _ {S : Type 0} (b : Backoff S) (f : S → S × Outcome) where
  -- The first calls return that the server is unavailable, before the backoff has waited too long, and
  -- where they lead.
  abbrev pub Unavailable : ℕ → S → Type 0
  Unavailable zero s = Unit
  Unavailable (suc k) s =
      (e : Error) × ((f s).1 ≡ failed (some b.unavailable) e)
      × (b.expired (f s).0 ≡ false)
      × Unavailable k (b.pause (f s).0)

  abbrev pub after : ℕ → S → S
  after zero s = s
  after (suc k) s = after k (b.pause (f s).0)

  -- So many calls are repeated, each after the server was unavailable; the outcome is that of the last
  -- call, and where the server is unavailable then, no retry is left or the backoff has waited too long.
  pub record IsRetried (n : ℕ) (s : S) (out : S × Option Error) : Type 0 where
    pub repeated : ℕ
    pub bounded : repeated ≤ n
    pub unavailable : Unavailable repeated s
    pub last : out ≡ ((f (after repeated s)).0, error_of (f (after repeated s)).1)
    pub exhausted :
        (e : Error)
        → (f (after repeated s)).1 ≡ failed (some b.unavailable) e
        → (repeated ≡ n) ⊎ (b.expired (f (after repeated s)).0 ≡ true)

  attempt_of-state : (x : S × Outcome) → (attempt_of b x).0 ≡ x.0
  attempt_of-state (t, succeeded) = refl
  attempt_of-state (t, failed none e) = refl
  attempt_of-state (t, failed (some code) e) = refl

  attempt_of-passed : (x : S × Outcome) → (attempt_of b x).1 ≡ passed → error_of x.1 ≡ none
  attempt_of-passed (t, succeeded) h = refl
  attempt_of-passed (t, failed none e) h = cc
  attempt_of-passed (t, failed (some code) e) h = elim (Bool-cases (code == b.unavailable)) [
    | inl q ↦ let h' : transient e ≡ passed = rw q at h in cc
    | inr q ↦ let h' : permanent e ≡ passed = rw q at h in cc
  ]

  attempt_of-permanent :
      (x : S × Outcome) {e : Error} → (attempt_of b x).1 ≡ permanent e → error_of x.1 ≡ some e
  attempt_of-permanent (t, succeeded) h = cc
  attempt_of-permanent (t, failed none e) h = cc
  attempt_of-permanent (t, failed (some code) x) {e} h = elim (Bool-cases (code == b.unavailable)) [
    | inl q ↦ let h' : transient x ≡ permanent e = rw q at h in cc
    | inr q ↦ let h' : permanent x ≡ permanent e = rw q at h in cc
  ]

  attempt_of-transient :
      (x : S × Outcome) {e : Error}
      → (attempt_of b x).1 ≡ transient e
      → x.1 ≡ failed (some b.unavailable) e
  attempt_of-transient (t, succeeded) h = cc
  attempt_of-transient (t, failed none e) h = cc
  attempt_of-transient (t, failed (some code) x) {e} h = elim (==_cases code b.unavailable) [
    | inl (q, same) ↦ let h' : transient x ≡ transient e = rw q at h in cc
    | inr (q, _) ↦ let h' : permanent x ≡ transient e = rw q at h in cc
  ]

  attempt_of-unavailable :
      (x : S × Outcome) {e : Error}
      → x.1 ≡ failed (some b.unavailable) e
      → (attempt_of b x).1 ≡ transient e
  attempt_of-unavailable (t, o) {e} h = rw (h, ==_refl b.unavailable) refl

  -- A last call.
  ended :
      {n : ℕ} {s : S} {out : Option Error}
      → error_of (f s).1 ≡ out
      → ((e : Error)
          → (f s).1 ≡ failed (some b.unavailable) e
          → (0 ≡ n) ⊎ (b.expired (f s).0 ≡ true))
      → IsRetried n s ((operation b f s).0, out)
  ended {n} {s} h stop = record {
    repeated = 0;
    bounded = omega arith;
    unavailable = tt;
    last = rw (attempt_of-state (f s), h) refl;
    exhausted = stop;
  }

  module _ (d : IsDocumented b) where
    -- A call, where it is known what a retry leads to.
    called :
        (left tries : ℕ) (s : S)
        → ((x : Error)
            → (f s).1 ≡ failed (some b.unavailable) x
            → (operation b f s).1 ≡ transient x
            → b.expired (f s).0 ≡ false
            → IsRetried left s (d.from (operation b f) max_retries tries s))
        → IsRetried left s (d.from (operation b f) max_retries tries s)
    called left tries s retry_lem = elim (Attempt-cases (operation b f s).1) [
      | inl q ↦ rw (d.passes (operation b f) max_retries tries s (omega arith) q) (
          ended (attempt_of-passed (f s) q)
            (λ e u. absurd (let q' = attempt_of-unavailable (f s) u in cc)))
      | inr (inr (x, q)) ↦ rw (d.refuses (operation b f) max_retries tries s x (omega arith) q) (
          ended (attempt_of-permanent (f s) q)
            (λ e u. absurd (let q' = attempt_of-unavailable (f s) u in cc)))
      | inr (inl (x, q)) ↦
          let u = attempt_of-transient (f s) q in
          elim (Bool-cases (b.expired (f s).0)) [
            | inl late ↦
                let late' : b.expired (operation b f s).0 ≡ true =
                  rw (attempt_of-state (f s)) late in
                rw (d.expires (operation b f) max_retries tries s x (omega arith) q late')
                  (ended (ap error_of u) (λ _ _. inr late))
            | inr early ↦ retry_lem x u q early
          ]
    ]

    retried :
        (left tries : ℕ) (s : S)
        → left + tries ≡ max_retries
        → IsRetried left s (d.from (operation b f) max_retries tries s)
    retried zero tries s h = called 0 tries s (λ x u q early.
        let all_made : tries ≡ max_retries = omega arith in
        rw all_made (
          rw (d.exhausts (operation b f) max_retries s x (omega arith) q)
            (ended (ap error_of u) (λ _ _. inl refl))))
    retried (suc left) tries s h = called (suc left) tries s (λ x u q early.
        let early' : b.expired (operation b f s).0 ≡ false = rw (attempt_of-state (f s)) early in
        let w = retried left (suc tries) (b.pause (f s).0) (omega arith) in
        rw
          (
            d.repeats (operation b f) max_retries tries s x (omega arith) q early',
            attempt_of-state (f s),
          )
          (record {
            repeated = suc w.repeated;
            bounded = let le = w.bounded in omega arith;
            unavailable = (x, u, early, w.unavailable);
            last = w.last;
            exhausted = λ e v. elim (w.exhausted e v) [ inl k ↦ inl (omega arith) | inr k ↦ inr k ];
          }))

    -- Where RetryNotify is as backoff documents it, Retry ends after at most eleven calls. All calls
    -- before the last one return that the server is unavailable, before the backoff has waited too
    -- long; the error that is returned, or none, is that of the last one; and where the last one
    -- returns that the server is unavailable, it is the eleventh, or the backoff has waited too long.
    pub retry-IsRetried : (s : S) → IsRetried 10 (b.reset s) (retry b f s)
    unfolding retry
    retry-IsRetried s =
        rw (d.starts (operation b f) max_retries s (omega arith)) (retried 10 0 (b.reset s) refl)
