-- ===== src/Base/Sort.antt =====
-- Sorting by a `less` function, as sort.Sort and sort.Slice do it, and when the result is unique.
use mathlib.Core.Path.{◌≡◌, sym, subst, subst₂}
use mathlib.Core.Logic.Or
use mathlib.Core.Logic.{inl, inr, ∥∥₁_elim}
use mathlib.Core.Bool.{Bool, true, false}
use mathlib.Core.List.{
  List, [], ◌∷◌, Mem, Perm, Permᴰ, Perm-prop, Mem-prop, not-mem-nil, mem-cons, mem-cons_self,
  mem-cons_of_mem,
}
use mathlib.Core.List.Perm
use trivy.Base.Tests.{if◌then◌else◌, Bool-cases}
use trivy.Base.Lists.{keep}

pub Bool-set : IsSet Bool
Bool-set = hlevel

-- What Go's package sort asks of a `less` function.
pub record IsStrictWeak {ℓ} {A : Type ℓ} (less : A → A → Bool) : Type ℓ where
  pub irrefl : (a : A) → less a a ≡ false
  pub asymm : (a b : A) → less a b ≡ true → less b a ≡ false
  pub cotrans : (a b c : A) → less a b ≡ false → less b c ≡ false → less a c ≡ false

module _ {ℓ} {A : Type ℓ} (less : A → A → Bool) where
  insert : A → List A → List A
  insert x [] = x ∷ []
  insert x (y ∷ ys) = let rest = insert x ys in if less y x then y ∷ rest else x ∷ y ∷ ys

  unfoldable pub sort : List A → List A
  unfolding insert
  sort [] = []
  sort (x ∷ xs) = insert x (sort xs)

  -- No later element is smaller than an earlier one.
  abbrev pub IsSorted : List A → Type ℓ
  IsSorted [] = Unit
  IsSorted (x ∷ xs) = ((y : A) → Mem y xs → less y x ≡ false) × IsSorted xs

  insert-perm : (x : A) (xs : List A) → Perm (insert x xs) (x ∷ xs)
  unfolding insert
  insert-perm x [] = Perm.rfl
  insert-perm x (y ∷ ys) = elim (Bool-cases (less y x)) [
    | inl e ↦ rw e (Perm.trans (Perm.cons y (insert-perm x ys)) (Perm.swap x y ys))
    | inr e ↦ rw e Perm.rfl
  ]

  pub sort-perm : (xs : List A) → Perm (sort xs) xs
  unfolding sort
  sort-perm [] = Perm.rfl
  sort-perm (x ∷ xs) = Perm.trans (insert-perm x (sort xs)) (Perm.cons x (sort-perm xs))

  mem-insert :
      {P : A → Type 0} (pP : (a : A) → IsProp (P a)) (x : A) (xs : List A)
      → P x
      → ((a : A) → Mem a xs → P a)
      → (a : A) → Mem a (insert x xs)
      → P a
  mem-insert {P} pP x xs px h a m =
      Or.elim (pP a) (mem-cons.0 ((Perm.mem_iff (insert-perm x xs)).0 m)) (λ e. subst P (sym e) px)
        (h a)

  module _ (strict : IsStrictWeak less) where
    insert-IsSorted : (x : A) (xs : List A) → IsSorted xs → IsSorted (insert x xs)
    unfolding insert
    insert-IsSorted x [] s = (λ y m. absurd (not-mem-nil m), tt)
    insert-IsSorted x (y ∷ ys) s = elim (Bool-cases (less y x)) [
      | inl e ↦
          rw e
            (mem-insert (λ a. Bool-set _ _) x ys (strict.asymm y x e) s.0, insert-IsSorted x ys s.1)
      | inr e ↦ rw e (
        (λ z m.
            Or.elim (Bool-set _ _) (mem-cons.0 m) (λ p. rw p e)
              (λ k. strict.cotrans z y x (s.0 z k) e)),
        s,
      )
    ]

    pub sort-IsSorted : (xs : List A) → IsSorted (sort xs)
    unfolding sort
    sort-IsSorted [] = tt
    sort-IsSorted (x ∷ xs) = insert-IsSorted x (sort xs) (sort-IsSorted xs)

    not-less-head : (x y : A) (ys : List A) → Mem x (y ∷ ys) → IsSorted (y ∷ ys) → less x y ≡ false
    not-less-head x y ys m s =
        Or.elim (Bool-set _ _) (mem-cons.0 m) (λ e. rw e (strict.irrefl y)) (s.0 x)

    -- Where incomparable elements are equal, a list has one sorted arrangement.
    pub IsSorted-unique :
        (xs ys : List A)
        → Perm xs ys
        → IsSorted xs
        → IsSorted ys
        → ((a b : A) → Mem a xs → Mem b xs → less a b ≡ false → less b a ≡ false → a ≡ b)
        → xs ≡ ys
    IsSorted-unique [] ys p s t conn = sym (Perm.eq-nil (Perm.symm p))
    IsSorted-unique (x ∷ xs) [] p s t conn = Perm.eq-nil p
    IsSorted-unique (x ∷ xs) (y ∷ ys) p s t conn =
        let y_in : Mem y (x ∷ xs) = (Perm.mem_iff p).1 mem-cons_self in
        let same : x ≡ y =
          conn x y mem-cons_self y_in (not-less-head x y ys ((Perm.mem_iff p).0 mem-cons_self) t)
            (not-less-head y x xs y_in s) in
        let q : Perm xs ys = Perm.cons_inv (subst (λ z. Perm (x ∷ xs) (z ∷ ys)) (sym same) p) in
        let rest : xs ≡ ys =
          IsSorted-unique xs ys q s.1 t.1
            (λ a b ma mb. conn a b (mem-cons_of_mem x ma) (mem-cons_of_mem x mb)) in
        cc

module _ {ℓ} {A : Type ℓ} (p : A → Bool) where
  keep-cons-perm :
      (x : A) (xs ys : List A)
      → Perm (keep p xs) (keep p ys)
      → Perm (keep p (x ∷ xs)) (keep p (x ∷ ys))
  keep-cons-perm x xs ys h = elim (Bool-cases (p x)) [
    | inl t ↦ rw t (Perm.cons x h)
    | inr f ↦ rw f h
  ]

  keep-swap-perm : (x y : A) (l : List A) → Perm (keep p (x ∷ y ∷ l)) (keep p (y ∷ x ∷ l))
  keep-swap-perm x y l = elim (Bool-cases (p x)) [
    | inl t ↦ elim (Bool-cases (p y)) [
      | inl u ↦ rw (t, u) (Perm.swap y x (keep p l))
      | inr g ↦ rw (t, g) Perm.rfl
    ]
    | inr f ↦ elim (Bool-cases (p y)) [ inl u ↦ rw (f, u) Perm.rfl | inr g ↦ rw (f, g) Perm.rfl ]
  ]

  keep-Permᴰ : {xs ys : List A} → Permᴰ xs ys → Perm (keep p xs) (keep p ys)
  keep-Permᴰ Permᴰ.nil = Perm.rfl
  keep-Permᴰ (Permᴰ.cons {a} {b} {l₁} {l₂} e h) =
      subst (λ z. Perm (keep p (a ∷ l₁)) (keep p (z ∷ l₂))) e
        (keep-cons-perm a l₁ l₂ (keep-Permᴰ h))
  keep-Permᴰ (Permᴰ.swap {a} {b} {a'} {b'} {l} e f) =
      subst₂ (λ y z. Perm (keep p (a ∷ b ∷ l)) (keep p (y ∷ z ∷ l))) f e (keep-swap-perm a b l)
  keep-Permᴰ (Permᴰ.trans h k) = Perm.trans (keep-Permᴰ h) (keep-Permᴰ k)

  -- A filter of a rearrangement is a rearrangement of the filtered list.
  pub keep-perm : {xs ys : List A} → Perm xs ys → Perm (keep p xs) (keep p ys)
  keep-perm h = ∥∥₁_elim h Perm-prop keep-Permᴰ

  pub mem-keep : (x : A) (xs : List A) → Mem x (keep p xs) → Mem x xs
  mem-keep x [] m = m
  mem-keep x (y ∷ ys) m = elim (Bool-cases (p y)) [
    | inl t ↦
        Or.elim Mem-prop (mem-cons.0 (rw t at m)) (λ e. rw e mem-cons_self)
          (λ k. mem-cons_of_mem y (mem-keep x ys k))
    | inr f ↦ mem-cons_of_mem y (mem-keep x ys (rw f at m))
  ]
