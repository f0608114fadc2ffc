-- ===== src/Base/Dict.antt =====
-- Go's maps with string keys, as association lists in the order of first insertion.
use mathlib.Core.Path.{◌≡◌, refl, sym, subst, ◌∙◌}
use mathlib.Core.Logic.{inl, inr}
use mathlib.Core.Option.{Option, none, some}
use mathlib.Core.List.{List, [], ◌∷◌, Memᴰ, map}
use mathlib.Core.List.Memᴰ
use native.Mathlib.Omega.{arith}
use trivy.Base.Tests.{if◌then◌else◌}
use trivy.Base.Text.{Str, ◌==◌, ==_iff, ==_cases}

abbrev pub Dict {ℓ} : Type ℓ → Type ℓ
Dict V = List (Str × V)

module _ {ℓ} {V : Type ℓ} where
  -- v, ok := m[k]
  unfoldable pub lookup : Str → Dict V → Option V
  lookup k [] = none
  lookup k ((j, v) ∷ m) = if j == k then some v else lookup k m

  -- m[k] = v
  unfoldable pub store : Str → V → Dict V → Dict V
  store k v [] = (k, v) ∷ []
  store k v ((j, w) ∷ m) = if j == k then (j, v) ∷ m else (j, w) ∷ store k v m

  -- maps.Values
  abbrev pub values : Dict V → List V
  values = map (λ e. e.1)

  pub lookup-store :
      (k j : Str) (v : V) (m : Dict V)
      → lookup j (store k v m) ≡ (if k == j then some v else lookup j m)
  unfolding lookup store
  lookup-store k j v [] = refl
  lookup-store k j v ((i, w) ∷ m) =
      ground (arith, ==_iff k j, ==_iff i k, ==_iff i j, lookup-store k j v m)

  -- A property of all entries.
  abbrev pub Entries {κ} : (Str → V → Type κ) → Dict V → Type κ
  Entries P [] = Unit
  Entries P ((k, v) ∷ m) = P k v × Entries P m

  pub lookup-Entries {κ} :
      (P : Str → V → Type κ) (k : Str) (m : Dict V) {v : V}
      → Entries P m
      → lookup k m ≡ some v
      → P k v
  unfolding lookup
  lookup-Entries P k [] h e = absurd (cc)
  lookup-Entries P k ((j, w) ∷ m) {v} h e = elim (==_cases j k) [
    | inl (t, same) ↦
        let found : w ≡ v = ground arith in subst (λ x. P x v) same (subst (P j) found h.0)
    | inr (f, other) ↦ lookup-Entries P k m h.1 (ground arith)
  ]

  pub store-Entries {κ} :
      (P : Str → V → Type κ) (k : Str) (v : V) (m : Dict V)
      → P k v
      → Entries P m
      → Entries P (store k v m)
  unfolding store
  store-Entries P k v [] p h = (p, tt)
  store-Entries P k v ((j, w) ∷ m) p h = elim (==_cases j k) [
    | inl (t, same) ↦ rw t (subst (λ x. P x v) (sym same) p, h.1)
    | inr (f, other) ↦ rw f (h.0, store-Entries P k v m p h.1)
  ]

  pub Entries-values {κ} :
      (P : Str → V → Type κ) (m : Dict V) {v : V}
      → Entries P m
      → Memᴰ v (values m)
      → (k : Str) × P k v
  Entries-values P [] h i = absurd (Memᴰ.not-nil i)
  Entries-values P ((k, w) ∷ m) h (Memᴰ.head e) = (k, subst (P k) (sym e) h.0)
  Entries-values P ((k, w) ∷ m) h (Memᴰ.tail i) = Entries-values P m h.1 i

  -- The keys are distinct.
  abbrev pub IsMap : Dict V → Type ℓ
  IsMap [] = Unit
  IsMap ((k, v) ∷ m) = (lookup k m ≡ none) × IsMap m

  pub store-IsMap : (k : Str) (v : V) (m : Dict V) → IsMap m → IsMap (store k v m)
  unfolding store lookup
  store-IsMap k v [] h = (refl, tt)
  store-IsMap k v ((j, w) ∷ m) h = elim (==_cases j k) [
    | inl (t, same) ↦ rw t (h.0, h.1)
    | inr (f, other) ↦
        rw f (lookup-store k j v m ∙ ground (arith, ==_iff k j, h.0), store-IsMap k v m h.1)
  ]

  pub mem-lookup : (k : Str) (m : Dict V) {v : V} → lookup k m ≡ some v → Memᴰ v (values m)
  unfolding lookup
  mem-lookup k [] e = absurd (cc)
  mem-lookup k ((j, w) ∷ m) e = elim (==_cases j k) [
    | inl (t, same) ↦ Memᴰ.head (ground arith)
    | inr (f, other) ↦ Memᴰ.tail (mem-lookup k m (ground arith))
  ]

  -- Where each value stands under its own key, a value of the map is found there.
  pub values-lookup :
      (f : V → Str) (m : Dict V) {v : V}
      → IsMap m
      → Entries (λ k w. k ≡ f w) m
      → Memᴰ v (values m)
      → lookup (f v) m ≡ some v
  unfolding lookup
  values-lookup f [] h own i = absurd (Memᴰ.not-nil i)
  values-lookup f ((k, w) ∷ m) h own (Memᴰ.head e) = ground (arith, ==_iff k (f w), own.0, e)
  values-lookup f ((k, w) ∷ m) {v} h own (Memᴰ.tail i) =
      let found = values-lookup f m h.1 own.1 i in ground (arith, ==_iff k (f v), found, h.0)
