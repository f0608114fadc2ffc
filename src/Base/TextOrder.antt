-- ===== src/Base/TextOrder.antt =====
-- The order of Go's strings: lexicographic, total and strict.
use mathlib.Core.Path.{◌≡◌, refl}
use mathlib.Core.Bool.{Bool, true, false, ◌&&◌, ◌||◌}
use mathlib.Core.List.{[], ◌∷◌}
use native.Mathlib.Omega.{arith}
use trivy.Base.Tests.{eqb, ltb}
use trivy.Base.Text.{Str}

-- s < t
unfoldable pub lt : Str → Str → Bool
lt [] [] = false
lt [] (y ∷ t) = true
lt (x ∷ s) [] = false
lt (x ∷ s) (y ∷ t) = ltb x y || (eqb x y && lt s t)

pub lt_irrefl : (s : Str) → lt s s ≡ false
unfolding lt
lt_irrefl [] = refl
lt_irrefl (x ∷ s) = ground (arith, lt_irrefl s)

pub lt_trans : (s t u : Str) → lt s t ≡ true → lt t u ≡ true → lt s u ≡ true
unfolding lt
lt_trans [] [] u h k = cc
lt_trans [] (y ∷ t) [] h k = cc
lt_trans [] (y ∷ t) (z ∷ u) h k = refl
lt_trans (x ∷ s) [] u h k = cc
lt_trans (x ∷ s) (y ∷ t) [] h k = cc
lt_trans (x ∷ s) (y ∷ t) (z ∷ u) h k = ground (arith, lt_trans s t u)

pub lt_asymm : (s t : Str) → lt s t ≡ true → lt t s ≡ false
unfolding lt
lt_asymm [] [] h = cc
lt_asymm [] (y ∷ t) h = refl
lt_asymm (x ∷ s) [] h = cc
lt_asymm (x ∷ s) (y ∷ t) h = ground (arith, lt_asymm s t)

-- Two strings of which neither is smaller are equal.
pub lt_connected : (s t : Str) → lt s t ≡ false → lt t s ≡ false → s ≡ t
unfolding lt
lt_connected [] [] h k = refl
lt_connected [] (y ∷ t) h k = cc
lt_connected (x ∷ s) [] h k = cc
lt_connected (x ∷ s) (y ∷ t) h k = ground (arith, lt_connected s t)
