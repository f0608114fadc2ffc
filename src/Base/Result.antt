-- ===== src/Base/Result.antt =====
-- Go's results with an error, panics, and the loops that append to a slice.
use mathlib.Core.Path.{◌≡◌, refl}
use mathlib.Core.Logic.{◌⊎◌, inl, inr}
use mathlib.Core.Bool.{Bool, true, false}
use mathlib.Core.Option.{Option, none, some}
use mathlib.Core.List.{List, [], ◌∷◌, ◌++◌, Memᴰ}
use mathlib.Core.List.Memᴰ
use trivy.Base.Tests.{if◌then◌else◌, Option-cases}
use trivy.Base.Text.{Str}

-- The sentinel errors that the program compares with, errors of the packages it calls, and its own
-- errors, with the error that they wrap (%w) or without one.
pub data Error : Type 0 where
  unsupported_os unknown_os no_pkgs_detected skip_scan : Error
  external message : Str → Error
  wrap : Str → Error → Error

-- errors.Is for a test of sentinels: the error, or what it wraps, passes.
unfoldable pub error_is : (Error → Bool) → Error → Bool
error_is test (wrap s e) = if test (wrap s e) then true else error_is test e
error_is test e = test e

abbrev pub is_unsupported_os : Error → Bool
is_unsupported_os unsupported_os = true
is_unsupported_os _ = false

abbrev pub is_unknown_os : Error → Bool
is_unknown_os unknown_os = true
is_unknown_os _ = false

abbrev pub is_no_pkgs_detected : Error → Bool
is_no_pkgs_detected no_pkgs_detected = true
is_no_pkgs_detected _ = false

abbrev pub is_skip_scan : Error → Bool
is_skip_scan skip_scan = true
is_skip_scan _ = false

pub data Result {ℓ} (A : Type ℓ) : Type ℓ where
  ok : A → Result A
  err : Error → Result A
  panicked : Result A

infixl 5 ◌>>=◌
abbrev pub ◌>>=◌ {ℓ κ} : {A : Type ℓ} {B : Type κ} → Result A → (A → Result B) → Result B
ok a >>= f = f a
err e >>= f = err e
panicked >>= f = panicked

-- `if err != nil { return …, xerrors.Errorf("context: %w", err) }`
abbrev pub context {ℓ} : {A : Type ℓ} → Str → Result A → Result A
context s (ok a) = ok a
context s (err e) = err (wrap s e)
context s panicked = panicked

pub Result-cases {ℓ} :
    {A : Type ℓ} (r : Result A)
    → ((a : A) × (r ≡ ok a)) ⊎ ((e : Error) × (r ≡ err e)) ⊎ (r ≡ panicked)
Result-cases (ok a) = inl (a, refl)
Result-cases (err e) = inr (inl (e, refl))
Result-cases panicked = inr (inr refl)

-- A successful chain has a successful first step.
pub bind_ok {ℓ κ} :
    {A : Type ℓ} {B : Type κ} (r : Result A) (k : A → Result B) {out : B}
    → (r >>= k) ≡ ok out
    → (a : A) × (r ≡ ok a) × (k a ≡ ok out)
bind_ok (ok a) k e = (a, refl, e)
bind_ok (err x) k e = cc
bind_ok panicked k e = cc

pub context-ok {ℓ} : {A : Type ℓ} (s : Str) (r : Result A) {a : A} → context s r ≡ ok a → r ≡ ok a
context-ok s (ok b) e = e
context-ok s (err x) e = cc
context-ok s panicked e = cc

module _ {ℓ κ} {A : Type ℓ} {B : Type κ} where
  -- A loop whose body may append a value to a slice, or pass on.
  unfoldable pub choose : (A → Option B) → List A → List B
  choose f [] = []
  choose f (x ∷ xs) = let rest = choose f xs in elim (f x) [ none ↦ rest | some b ↦ b ∷ rest ]

  -- A loop whose body may return an error or append to a slice.
  unfoldable pub collect : (A → Result (List B)) → List B → List A → Result (List B)
  collect f acc [] = ok acc
  collect f acc (x ∷ xs) = do ys ← f x; collect f (acc ++ ys) xs

  pub mem-choose :
      (f : A → Option B) (x : A) (xs : List A) {b : B}
      → Memᴰ x xs
      → f x ≡ some b
      → Memᴰ b (choose f xs)
  unfolding choose
  mem-choose f x [] m h = elim m [ ]
  mem-choose f x (y ∷ ys) (Memᴰ.head e) h = rw (← e, h, choose) (Memᴰ.head refl)
  mem-choose f x (y ∷ ys) (Memᴰ.tail m) h = elim (Option-cases (f y)) [
    | inl e ↦ rw (e, choose) (mem-choose f x ys m h)
    | inr (c, e) ↦ rw (e, choose) (Memᴰ.tail (mem-choose f x ys m h))
  ]

  pub choose-mem :
      (f : A → Option B) (xs : List A) {b : B}
      → Memᴰ b (choose f xs)
      → (x : A) × Memᴰ x xs × (f x ≡ some b)
  unfolding choose
  choose-mem f [] m = absurd (Memᴰ.not-nil m)
  choose-mem f (y ∷ ys) {b} m = elim (Option-cases (f y)) [
    | inl e ↦ let (x, i, h) = choose-mem f ys (rw (e, choose) at m) in (x, Memᴰ.tail i, h)
    | inr (c, e) ↦
        let m' : Memᴰ b (c ∷ choose f ys) = rw (e, choose) at m in
        elim (Memᴰ.cases_cons m') [
          | inl same ↦ (y, Memᴰ.head refl, rw same e)
          | inr later ↦ let (x, i, h) = choose-mem f ys later in (x, Memᴰ.tail i, h)
        ]
  ]

  -- What the loop appended, one list for each element.
  pub record FromLoop (f : A → Result (List B)) (xs : List A) (b : B) : Type (ℓ ⊔ κ) where
    pub element : A
    pub listed : Memᴰ element xs
    pub appended : List B
    pub returned : f element ≡ ok appended
    pub member : Memᴰ b appended

  FromLoop-cons :
      {f : A → Result (List B)} {x : A} {xs : List A} {b : B}
      → FromLoop f xs b
      → FromLoop f (x ∷ xs) b
  FromLoop-cons w = record {
    element = w.element;
    listed = Memᴰ.tail w.listed;
    appended = w.appended;
    returned = w.returned;
    member = w.member;
  }

  -- The result holds what stood there before and what the rounds appended, and nothing else.
  pub collect-mem :
      (f : A → Result (List B)) (acc : List B) (xs : List A) {out : List B} {b : B}
      → collect f acc xs ≡ ok out
      → Memᴰ b out
      → Memᴰ b acc ⊎ FromLoop f xs b
  unfolding collect
  collect-mem f acc [] {b = b} e m = inl (let p : acc ≡ _ = cc in rw p m)
  collect-mem f acc (x ∷ xs) e m =
      let (ys, r, k) = bind_ok (f x) (λ ys. collect f (acc ++ ys) xs) e in
      elim (collect-mem f (acc ++ ys) xs k m) [
        | inl early ↦ elim (Memᴰ.append_cases acc early) [
          | inl old ↦ inl old
          | inr new ↦ inr (record {
            element = x;
            listed = Memᴰ.head refl;
            appended = ys;
            returned = r;
            member = new;
          })
        ]
        | inr w ↦ inr (FromLoop-cons w)
      ]

  -- What the loop held before a round is in its result.
  pub mem-collect_acc :
      (f : A → Result (List B)) (acc : List B) (xs : List A) {out : List B} {b : B}
      → collect f acc xs ≡ ok out
      → Memᴰ b acc
      → Memᴰ b out
  unfolding collect
  mem-collect_acc f acc [] {out} e m = let p : acc ≡ out = cc in rw p at m
  mem-collect_acc f acc (x ∷ xs) e m =
      let (ys, r, k) = bind_ok (f x) (λ ys. collect f (acc ++ ys) xs) e in
      mem-collect_acc f (acc ++ ys) xs k (Memᴰ.append_left ys m)

  -- So is all that a round appended, and every round succeeded.
  pub mem-collect :
      (f : A → Result (List B)) (acc : List B) (x : A) (xs : List A) {out : List B}
      → collect f acc xs ≡ ok out
      → Memᴰ x xs
      → (ys : List B) × (f x ≡ ok ys) × ((b : B) → Memᴰ b ys → Memᴰ b out)
  unfolding collect
  mem-collect f acc x [] e m = elim m [ ]
  mem-collect f acc x (z ∷ xs) e (Memᴰ.head same) =
      let (ys, r, k) = bind_ok (f z) (λ ys. collect f (acc ++ ys) xs) e in
      (ys, rw same r, λ b m. mem-collect_acc f (acc ++ ys) xs k (Memᴰ.append_right acc m))
  mem-collect f acc x (z ∷ xs) e (Memᴰ.tail m) =
      let (ys, r, k) = bind_ok (f z) (λ ys. collect f (acc ++ ys) xs) e in
      mem-collect f (acc ++ ys) x xs k m

  -- Where every round succeeds the loop does.
  pub collect_total :
      (f : A → Result (List B)) (acc : List B) (xs : List A)
      → ((x : A) → Memᴰ x xs → (ys : List B) × (f x ≡ ok ys))
      → (out : List B) × (collect f acc xs ≡ ok out)
  unfolding collect
  collect_total f acc [] h = (acc, refl)
  collect_total f acc (x ∷ xs) h =
      let (ys, e) = h x (Memᴰ.head refl) in
      rw e (collect_total f (acc ++ ys) xs (λ z m. h z (Memᴰ.tail m)))

  -- The loop stops at the first round that fails, with its error.
  pub collect_first_err :
      (f : A → Result (List B)) (acc : List B) (before : List A) (x : A) (after : List A)
      {e : Error}
      → ((z : A) → Memᴰ z before → (ys : List B) × (f z ≡ ok ys))
      → f x ≡ err e
      → collect f acc (before ++ x ∷ after) ≡ err e
  unfolding collect
  collect_first_err f acc [] x after h e = rw e
  collect_first_err f acc (z ∷ before) x after h e =
      let (ys, k) = h z (Memᴰ.head refl) in
      rw k (collect_first_err f (acc ++ ys) before x after (λ w m. h w (Memᴰ.tail m)) e)
