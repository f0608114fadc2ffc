-- ===== src/Base/Text.antt =====
-- Go's strings as lists of code points, and what the program uses of the package strings.
-- A valid UTF-8 string compares, splits and joins by code points as it does by bytes.
use Prim.Native.Char.{code}
use Prim.Native.Nat.{ℕ, zero, suc, ◌+◌, ◌/◌, ◌%◌}
use Prim.Native.String.{String}
use mathlib.Core.Path.{◌≡◌, refl, ap, sym}
use mathlib.Core.Logic.{◌≢◌, ◌↔◌, ◌⊎◌, inl, inr}
use mathlib.Core.Bool.{Bool, true, false, ◌&&◌, ◌||◌}
use mathlib.Core.Option.{Option, none, some}
use mathlib.Core.List.{List, [], ◌∷◌, ◌++◌, map, reverse, Memᴰ}
use native.Mathlib.Omega.{arith}
use trivy.Base.Tests.{eqb, ltb, leb, if◌then◌else◌, Bool-cases}
use trivy.Base.Lists.{take}

abbrev pub Str : Type 0
Str = List ℕ

-- The code points of a literal.
abbrev pub str : String → Str
str String.[] = []
str (String.◌∷◌ c s) = code c ∷ str s

infix 50 ◌==◌
unfoldable pub ◌==◌ : Str → Str → Bool
[] == [] = true
[] == (y ∷ ys) = false
(x ∷ xs) == [] = false
(x ∷ xs) == (y ∷ ys) = eqb x y && xs == ys

eq_of_== : (s t : Str) → (s == t) ≡ true → s ≡ t
unfolding ◌==◌
eq_of_== [] [] h = refl
eq_of_== [] (y ∷ ys) h = cc
eq_of_== (x ∷ xs) [] h = cc
eq_of_== (x ∷ xs) (y ∷ ys) h = ground (arith, eq_of_== xs ys)

pub ==_refl : (s : Str) → (s == s) ≡ true
unfolding ◌==◌
==_refl [] = refl
==_refl (x ∷ xs) = ground (arith, ==_refl xs)

pub ==_iff : (s t : Str) → ((s == t) ≡ true) ↔ (s ≡ t)
==_iff s t = (eq_of_== s t, λ e. cc (==_refl s, ap (◌==◌ s) e))

-- A comparison of two strings, with what it says of them.
pub ==_cases : (s t : Str) → ((s == t) ≡ true) × (s ≡ t) ⊎ ((s == t) ≡ false) × (s ≢ t)
==_cases s t = elim (Bool-cases (s == t)) [
  | inl e ↦ inl (e, eq_of_== s t e)
  | inr n ↦ inr (n, λ e. cc (n, (==_iff s t).1 e))
]

-- slices.Contains
unfoldable pub contains : List Str → Str → Bool
contains [] s = false
contains (x ∷ xs) s = x == s || contains xs s

-- strings.HasPrefix
unfoldable pub has_prefix : Str → Str → Bool
has_prefix s [] = true
has_prefix [] (p ∷ ps) = false
has_prefix (c ∷ s) (p ∷ ps) = eqb c p && has_prefix s ps

-- strings.HasSuffix
unfoldable pub has_suffix : Str → Str → Bool
unfolding has_prefix
has_suffix s p = has_prefix (reverse s) (reverse p)

-- strings.Contains
unfoldable pub contains_text : Str → Str → Bool
unfolding has_prefix
contains_text [] p = has_prefix [] p
contains_text (c ∷ s) p = has_prefix (c ∷ s) p || contains_text s p

-- strings.TrimPrefix
unfoldable pub trim_prefix : Str → Str → Str
trim_prefix s [] = s
trim_prefix [] (p ∷ ps) = []
trim_prefix (c ∷ s) (p ∷ ps) = let rest = trim_prefix s ps in if eqb c p then rest else c ∷ s

-- unicode.IsSpace
abbrev pub is_space : ℕ → Bool
is_space c =
    (leb 0x09 c && leb c 0x0d)
    || eqb c 0x20
    || eqb c 0x85
    || eqb c 0xa0
    || eqb c 0x1680
    || (leb 0x2000 c && leb c 0x200a)
    || eqb c 0x2028
    || eqb c 0x2029
    || eqb c 0x202f
    || eqb c 0x205f
    || eqb c 0x3000

-- strings.ToLower on ASCII
abbrev pub to_lower : Str → Str
to_lower = map (λ c. if leb b'A' c && leb c b'Z' then c + 32 else c)

unfoldable pub trim_left : Str → Str
trim_left [] = []
trim_left (c ∷ s) = let rest = trim_left s in if is_space c then rest else c ∷ s

-- strings.TrimSpace
unfoldable pub trim_space : Str → Str
unfolding trim_left
trim_space s = reverse (trim_left (reverse (trim_left s)))

-- strings.Count of one character
unfoldable pub count : ℕ → Str → ℕ
count c [] = 0
count c (d ∷ s) = (if eqb d c then 1 else 0) + count c s

-- strings.Index of one character, `none` for -1
unfoldable pub index : ℕ → Str → Option ℕ
index c [] = none
index c (d ∷ s) =
    let rest = index c s in
    if eqb d c then some 0 else elim rest [ none ↦ none | some i ↦ some (suc i) ]

-- strings.LastIndex of one character, `none` for -1
unfoldable pub last_index : ℕ → Str → Option ℕ
last_index c [] = none
last_index c (d ∷ s) = elim (last_index c s) [
  | none ↦ if eqb d c then some 0 else none
  | some i ↦ some (suc i)
]

-- s[:i] for an index that was found
unfoldable pub slice_to : Str → Option ℕ → Str
slice_to s none = s
slice_to s (some i) = take i s

cons_first : ℕ → List Str → List Str
cons_first c [] = (c ∷ []) ∷ []
cons_first c (p ∷ ps) = (c ∷ p) ∷ ps

-- strings.Split at one character
unfoldable pub split : ℕ → Str → List Str
unfolding cons_first
split c [] = [] ∷ []
split c (d ∷ s) = let rest = split c s in if eqb d c then [] ∷ rest else cons_first d rest

-- strings.Join
unfoldable pub join : Str → List Str → Str
join sep [] = []
join sep (p ∷ []) = p
join sep (p ∷ q ∷ ps) = p ++ (sep ++ join sep (q ∷ ps))

unfoldable pub push_word : Str → List Str → List Str
push_word [] ws = ws
push_word (c ∷ w) ws = (c ∷ w) ∷ ws

-- The words of `s`, the first of which begins with `w`.
unfoldable pub fields_from : Str → Str → List Str
unfolding push_word
fields_from w [] = push_word w []
fields_from w (c ∷ s) =
    let cut = push_word w (fields_from [] s) in
    let go_on = fields_from (w ++ c ∷ []) s in if is_space c then cut else go_on

-- strings.Fields
unfoldable pub fields : Str → List Str
unfolding fields_from
fields s = fields_from [] s

digits_from : ℕ → ℕ → Str
digits_from zero n = []
digits_from (suc fuel) n =
    let rest = digits_from fuel (n / 10) in
    if ltb n 10 then (n + 48) ∷ [] else rest ++ (n % 10 + 48) ∷ []

-- The decimal digits of a number, %d. A number has at most as many digits as its successor says.
unfoldable pub decimal : ℕ → Str
unfolding digits_from
decimal n = digits_from (suc n) n

text_tests :
    (split b',' (str "a,,b") ≡ str "a" ∷ [] ∷ str "b" ∷ [])
    × (join (str ", ") (str "a" ∷ str "b" ∷ []) ≡ str "a, b")
    × (trim_space (str " x y ") ≡ str "x y")
    × (fields (str " 2 (Karoo) ") ≡ str "2" ∷ str "(Karoo)" ∷ [])
    × (decimal 1203 ≡ str "1203")
    × (last_index b'.' (str "3.1.2") ≡ some 3)
    × (index b'.' (str "3.1.2") ≡ some 1)
    × (has_suffix (str "1.remi") (str ".remi") ≡ true)
unfolding split join trim_space fields decimal last_index index has_suffix
text_tests = (refl, refl, refl, refl, refl, refl, refl, refl)

-- A list contains a text exactly when it is a member.
pub contains_mem : (xs : List Str) (s : Str) → contains xs s ≡ true → Memᴰ s xs
unfolding contains
contains_mem [] s h = absurd (cc)
contains_mem (x ∷ xs) s h = elim (==_cases x s) [
  | inl (e, same) ↦ Memᴰ.head (sym same)
  | inr (n, other) ↦ Memᴰ.tail (contains_mem xs s (ground (arith, n)))
]

pub mem-contains : (xs : List Str) (s : Str) → Memᴰ s xs → contains xs s ≡ true
unfolding contains
mem-contains [] s m = elim m [ ]
mem-contains (x ∷ xs) s (Memᴰ.head e) = ground (arith, ==_iff x s, e)
mem-contains (x ∷ xs) s (Memᴰ.tail m) = ground (arith, mem-contains xs s m)
