-- ===== src/Base/State.antt =====
-- Calls on a state that may fail, one after the other, with deferred calls.
use mathlib.Core.Path.{◌≡◌, refl}
use trivy.Base.Text.{Str}
use trivy.Base.Result.{Result, ok, err, panicked, Error, wrap}

-- Success without a value.
pub data Done : Type 0 where
  done : Done

abbrev pub Call : Type 0 → Type 0 → Type 0
Call S A = S → S × Result A

module _ {S : Type 0} where
  abbrev pub pure : {A : Type 0} → A → Call S A
  pure a s = (s, ok a)

  abbrev pub fail : {A : Type 0} → Error → Call S A
  fail e s = (s, err e)

  -- A call that only reads the state.
  abbrev pub read : {A : Type 0} → (S → Result A) → Call S A
  read f s = (s, f s)

  abbrev pub next : {A B : Type 0} → (A → Call S B) → S × Result A → S × Result B
  next k (s, ok a) = k a s
  next k (s, err e) = (s, err e)
  next k (s, panicked) = (s, panicked)

  infixl 5 ◌>>=◌
  abbrev pub ◌>>=◌ : {A B : Type 0} → Call S A → (A → Call S B) → Call S B
  (m >>= k) s = next k (m s)

  abbrev pub wrapped : {A : Type 0} → Str → S × Result A → S × Result A
  wrapped text (s, ok a) = (s, ok a)
  wrapped text (s, err e) = (s, err (wrap text e))
  wrapped text (s, panicked) = (s, panicked)

  -- `if err != nil { return …, xerrors.Errorf("text: %w", err) }`
  abbrev pub within : {A : Type 0} → Str → Call S A → Call S A
  within text m s = wrapped text (m s)

  abbrev pub after : {A B : Type 0} → Call S B → S × Result A → S × Result A
  after close (s, r) = ((close s).0, r)

  -- `defer close()`
  abbrev pub defer : {A B : Type 0} → Call S B → Call S A → Call S A
  defer close m s = after close (m s)

  -- A successful chain has a successful first step, and the second starts where that ends.
  pub next_ok :
      {A B : Type 0} (k : A → Call S B) (x : S × Result A) {b : B}
      → (next k x).1 ≡ ok b
      → (a : A) × (x.1 ≡ ok a) × ((k a x.0).1 ≡ ok b)
  next_ok k (s, ok a) e = (a, refl, e)
  next_ok k (s, err x) e = cc
  next_ok k (s, panicked) e = cc

  pub wrapped-ok :
      {A : Type 0} (text : Str) (x : S × Result A) {a : A} → (wrapped text x).1 ≡ ok a → x.1 ≡ ok a
  wrapped-ok text (s, ok b) e = e
  wrapped-ok text (s, err x) e = cc
  wrapped-ok text (s, panicked) e = cc
