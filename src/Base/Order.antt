-- ===== src/Base/Order.antt =====
-- Strict weak orders: of strings, of numbers, by a key, and one after another.
use mathlib.Core.Path.{◌≡◌}
use mathlib.Core.Logic.{inl, inr}
use mathlib.Core.Bool.{Bool, false, not, ◌&&◌, ◌||◌}
use native.Mathlib.Omega.{arith}
use trivy.Base.Tests.{ltb, Bool-cases}
use trivy.Base.Text.{Str}
use trivy.Base.TextOrder.{lt, lt_irrefl, lt_asymm, lt_trans, lt_connected}
use trivy.Base.Sort.{IsStrictWeak}

lt_cotrans : (s t u : Str) → lt s t ≡ false → lt t u ≡ false → lt s u ≡ false
lt_cotrans s t u h k = elim (Bool-cases (lt s u)) [
  | inl e ↦ elim (Bool-cases (lt t s)) [
    | inl p ↦ cc (lt_trans t s u p e)
    | inr p ↦ let same : s ≡ t = lt_connected s t h p in rw same k
  ]
  | inr e ↦ e
]

pub lt-IsStrictWeak : IsStrictWeak lt
lt-IsStrictWeak = record { irrefl = lt_irrefl; asymm = lt_asymm; cotrans = lt_cotrans }

pub ltb-IsStrictWeak : IsStrictWeak ltb
ltb-IsStrictWeak = record {
  irrefl = λ a. ground arith;
  asymm = λ a b h. ground arith;
  cotrans = λ a b c h k. ground arith;
}

pub swap-IsStrictWeak {ℓ} :
    {A : Type ℓ} {less : A → A → Bool} → IsStrictWeak less → IsStrictWeak (λ a b. less b a)
swap-IsStrictWeak s = record {
  irrefl = s.irrefl;
  asymm = λ a b. s.asymm b a;
  cotrans = λ a b c h k. s.cotrans c b a k h;
}

pub key-IsStrictWeak {ℓ κ} :
    {A : Type ℓ} {B : Type κ} {less : B → B → Bool} (f : A → B)
    → IsStrictWeak less
    → IsStrictWeak (λ a b. less (f a) (f b))
key-IsStrictWeak f s = record {
  irrefl = λ a. s.irrefl (f a);
  asymm = λ a b. s.asymm (f a) (f b);
  cotrans = λ a b c. s.cotrans (f a) (f b) (f c);
}

-- The second order decides where the first does not.
abbrev pub lex {ℓ} : {A : Type ℓ} → (A → A → Bool) → (A → A → Bool) → A → A → Bool
lex first second a b = first a b || (not (first b a) && second a b)

pub lex-IsStrictWeak {ℓ} :
    {A : Type ℓ} {first second : A → A → Bool}
    → IsStrictWeak first
    → IsStrictWeak second
    → IsStrictWeak (lex first second)
lex-IsStrictWeak {first} {second} s t = record {
  irrefl = λ a. ground (arith, s.irrefl a, t.irrefl a);
  asymm = λ a b h. ground (arith, s.asymm a b, t.asymm a b);
  cotrans = λ a b c h k. ground (
    arith,
    s.cotrans a b c,
    s.cotrans c a b,
    s.cotrans b c a,
    s.asymm a b,
    s.asymm b c,
    s.asymm c a,
    t.cotrans a b c,
  );
}
