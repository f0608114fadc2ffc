-- ===== src/Purl/Laws.antt =====
-- What pkg/purl/purl.go does with a name and with a missing operating system.
use trivy.Base.{
  ℕ, suc, sym, ◌+◌, ◌≡◌, refl, ap, ◌⊎◌, inl, inr, [], ◌∷◌, ◌++◌, none, some, take, drop, eqb,
  eqb_iff, Option-cases, Bool-cases, true, arith, ◌≢◌, Option, ◌↔◌, List-cases,
}
use trivy.Base.Text.{Str, last_index, ==_cases}
use trivy.Base.Result.{Result, ok, err, panicked, Result-cases, ◌>>=◌}
use trivy.External.{Os, Package}
use trivy.Scanner.{Metadata}
use trivy.Purl.{parse_pkg_name, new_package_url, Libraries, parts_of, with_os, parse_oci, purl_type}
use mathlib.Core.List.{Memᴰ}
use mathlib.Core.List.Memᴰ

last_index-none : (c : ℕ) (s : Str) → last_index c s ≡ none → ¬ Memᴰ c s
unfolding last_index
last_index-none c [] e = λ m. absurd (Memᴰ.not-nil m)
last_index-none c (d ∷ s) e = elim (Option-cases (last_index c s)) [
  | inr (i, h) ↦ absurd (let e' : some (suc i) ≡ none = rw (h, last_index) at e in cc)
  | inl h ↦ elim (Bool-cases (eqb d c)) [
    | inl t ↦ absurd (let e' : some 0 ≡ none = rw (h, t, last_index) at e in cc)
    | inr f ↦ λ m. elim (Memᴰ.cases_cons m) [
      | inl same ↦ absurd (let t : eqb d c ≡ true = (eqb_iff d c).1 (sym same) in cc)
      | inr later ↦ last_index-none c s h later
    ]
  ]
]

-- What a last occurrence is.
last_index-some :
    (c : ℕ) (s : Str) {i : ℕ}
    → last_index c s ≡ some i
    → (s ≡ take i s ++ c ∷ drop (i + 1) s) × ¬ Memᴰ c (drop (i + 1) s)
unfolding last_index
last_index-some c [] e = absurd cc
last_index-some c (d ∷ s) {i} e = elim (Option-cases (last_index c s)) [
  | inr (j, h) ↦
      let e' : some (suc j) ≡ some i = rw (h, last_index) at e in
      let same : suc j ≡ i = cc in
      let (p, q) = last_index-some c s h in
      let one : suc j + 1 ≡ suc (j + 1) = omega arith in rw (← same, one) (ap (◌∷◌ d) p, q)
  | inl h ↦ elim (Bool-cases (eqb d c)) [
    | inl t ↦
        let e' : some 0 ≡ some i = rw (h, t, last_index) at e in
        let same : 0 ≡ i = cc in
        let dc : d ≡ c = (eqb_iff d c).0 t in rw (← same, dc) (refl, last_index-none c s h)
    | inr f ↦ absurd (let e' : none ≡ some i = rw (h, f, last_index) at e in cc)
  ]
]

-- parsePkgName splits the text that it is given at its last slash: the second part has no slash, and
-- either it is all of the text and the first part is empty, or the text is the first part, a slash,
-- and the second part.
pub parse_pkg_name_lem :
    (s : Str)
    → ¬ Memᴰ b'/' (parse_pkg_name s).1
      × ((parse_pkg_name s ≡ ([], s)) ⊎ (s ≡ (parse_pkg_name s).0 ++ b'/' ∷ (parse_pkg_name s).1))
unfolding parse_pkg_name
parse_pkg_name_lem s = elim (Option-cases (last_index b'/' s)) [
  | inl n ↦ rw (n, parse_pkg_name) (last_index-none b'/' s n, inl refl)
  | inr (i, h) ↦ let (p, q) = last_index-some b'/' s h in rw (h, parse_pkg_name) (q, inr p)
]

module _ (l : Libraries) where
  -- The types that read the operating system.
  abbrev pub IsDistribution : Str → Type 0
  IsDistribution ptype = (ptype ≡ l.rpm) ⊎ (ptype ≡ l.debian) ⊎ (ptype ≡ l.apk)

  with_os-panicked :
      {A : Type 0} (f : Os → A) (fos : Option Os) → (with_os l f fos ≡ panicked) ↔ (fos ≡ none)
  with_os-panicked f none = (λ _. refl, λ _. refl)
  with_os-panicked f (some fos) = (λ e. absurd cc, λ e. absurd cc)

  of_IsDistribution :
      {P : Type 0} {ptype : Str} {fos : Option Os}
      → IsDistribution ptype
      → P ↔ (fos ≡ none)
      → P ↔ (IsDistribution ptype × (fos ≡ none))
  of_IsDistribution d e = (λ p. (d, e.0 p), λ q. e.1 q.1)

  parts_of-panicked :
      (ptype : Str) (fos : Option Os) (pkg : Package)
      → (parts_of l ptype fos pkg ≡ panicked) ↔ (IsDistribution ptype × (fos ≡ none))
  unfolding parts_of
  parts_of-panicked ptype fos pkg = elim (==_cases ptype l.rpm) [
    | inl (r, h) ↦ rw (r, parts_of) (of_IsDistribution (inl h) (with_os-panicked _ fos))
    | inr (r, h) ↦ elim (==_cases ptype l.debian) [
      | inl (d, i) ↦ rw (r, d, parts_of) (of_IsDistribution (inr (inl i)) (with_os-panicked _ fos))
      | inr (d, i) ↦ elim (==_cases ptype l.apk) [
        | inl (a, j) ↦
            rw (r, d, a, parts_of) (of_IsDistribution (inr (inr j)) (with_os-panicked _ fos))
        | inr (a, j) ↦
            rw (r, d, a, parts_of)
              (
                λ e. absurd cc,
                λ p. elim (p.0) [
                  | inl x ↦ absurd (h x)
                  | inr (inl x) ↦ absurd (i x)
                  | inr (inr x) ↦ absurd (j x)
                ],
              )
      ]
    ]
  ]

  parse_oci-panicked :
      ((digest : Str) → l.new_digest digest ≢ panicked)
      → (metadata : Metadata) (architecture : Str) → parse_oci l metadata architecture ≢ panicked
  unfolding parse_oci
  parse_oci-panicked law metadata architecture e = elim (List-cases metadata.repo_digests) [
    | inl n ↦ let e' : ok _ ≡ panicked = rw (n, parse_oci) at e in cc
    | inr (first, _, n) ↦ elim (Result-cases (l.new_digest first)) [
      | inl (d, h) ↦ let e' : ok _ ≡ panicked = rw (n, h, parse_oci) at e in cc
      | inr (inl (x, h)) ↦ let e' : err _ ≡ panicked = rw (n, h, parse_oci) at e in cc
      | inr (inr h) ↦ absurd (law first h)
    ]
  ]

  bind-panicked {ℓ κ} :
      {A : Type ℓ} {B : Type κ} (r : Result A) (f : A → B)
      → ((do a ← r; ok (f a)) ≡ panicked) ↔ (r ≡ panicked)
  bind-panicked (ok a) f = (λ e. absurd cc, λ e. absurd cc)
  bind-panicked (err x) f = (λ e. absurd cc, λ e. absurd cc)
  bind-panicked panicked f = (λ _. refl, λ _. refl)

  -- A package of a distribution has no package URL, but a panic, where the metadata has no operating
  -- system; nothing else panics, if the digests of images parse without a panic.
  pub new_package_url-panicked :
      ((digest : Str) → l.new_digest digest ≢ panicked)
      → (t : Str) (metadata : Metadata) (architecture : Str) (pkg : Package)
      → (new_package_url l t metadata architecture pkg ≡ panicked)
        ↔ ((purl_type l t ≢ l.oci) × (IsDistribution (purl_type l t) × (metadata.os ≡ none)))
  unfolding new_package_url
  new_package_url-panicked law t metadata architecture pkg = elim (==_cases (purl_type l t) l.oci) [
    | inl (o, h) ↦
        rw (o, new_package_url)
          (
            λ e. absurd (parse_oci-panicked law metadata architecture ((bind-panicked _ _).0 e)),
            λ p. absurd (p.0 h),
          )
    | inr (o, h) ↦
        let whole = bind-panicked (parts_of l (purl_type l t) metadata.os pkg) _ in
        let parts = parts_of-panicked (purl_type l t) metadata.os pkg in
        rw (o, new_package_url) (λ e. (h, parts.0 (whole.0 e)), λ p. whole.1 (parts.1 p.1))
  ]
