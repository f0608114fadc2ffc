-- ===== src/Report/Cyclonedx/Unique.antt =====
-- The references of the components of a BOM of pkg/report/cyclonedx/cyclonedx.go, one beside another.
use trivy.Base.{
  ℕ, suc, ◌<◌, ◌≡◌, ◌≢◌, ◌⊎◌, refl, sym, ◌∙◌, inl, inr, true, List, [], ◌∷◌, ◌++◌, All, Bool-cases,
  Option, Option-cases, arith,
}
use trivy.Base.Text.{Str, contains, contains_mem, mem-contains, ==_cases}
use trivy.External.{Os}
use trivy.Purl.{Url}
use trivy.Types
use trivy.Types.{class_os_pkg, class_lang_pkg, class_config}
use trivy.Report.Cyclonedx.{Component, Libraries, result_to_component, library_component, Bom}
use trivy.Scanner.{Report, Metadata}
use trivy.Base.Result.{ok}
use trivy.Report.Cyclonedx.Rounds.{add_results-keeps, convert_to_bom-IsConverted}
use trivy.Report.Cyclonedx.Convert.{
  Parsed, add_component, add_dependencies, convert_to_bom, is_individual, no_components,
}
use trivy.Report.Cyclonedx.Refs.{refs, refs-append, All-mem}
use mathlib.Core.List.{Memᴰ}
use mathlib.Core.List.Memᴰ

-- No element occurs twice.
abbrev pub IsDistinct : List Str → Type 0
IsDistinct [] = Unit
IsDistinct (x ∷ xs) = ¬ Memᴰ x xs × IsDistinct xs

IsDistinct-append :
    (xs : List Str) (x : Str) → IsDistinct xs → ¬ Memᴰ x xs → IsDistinct (xs ++ x ∷ [])
IsDistinct-append [] x h n = (λ m. Memᴰ.not-nil m, tt)
IsDistinct-append (y ∷ ys) x h n = (
  λ m. elim (Memᴰ.append_cases ys m) [
    | inl old ↦ h.0 old
    | inr new ↦ elim (Memᴰ.cases_cons new) [
      | inl e ↦ n (Memᴰ.head (sym e))
      | inr i ↦ Memᴰ.not-nil i
    ]
  ],
  IsDistinct-append ys x h.1 (λ m. n (Memᴰ.tail m)),
)

-- A class for which resultToComponent makes an identifier.
abbrev pub HasClass : Types.Result → Type 0
HasClass r = contains (class_os_pkg ∷ class_lang_pkg ∷ class_config ∷ []) r.class ≡ true

not_three : {s a b c : Str} → s ≢ a → s ≢ b → s ≢ c → ¬ Memᴰ s (a ∷ b ∷ c ∷ [])
not_three n m k (Memᴰ.head e) = n e
not_three n m k (Memᴰ.tail (Memᴰ.head e)) = m e
not_three n m k (Memᴰ.tail (Memᴰ.tail (Memᴰ.head e))) = k e
not_three n m k (Memᴰ.tail (Memᴰ.tail (Memᴰ.tail i))) = Memᴰ.not-nil i

result_to_component-HasClass :
    (l : Libraries) (r : Types.Result) (os : Option Os) (n : ℕ)
    → HasClass r
    → ((result_to_component l r os n).0.bom_ref ≡ (l.new_uuid n).string)
      × ((result_to_component l r os n).1 ≡ suc n)
unfolding result_to_component contains
result_to_component-HasClass l r os n h = elim (==_cases r.class class_os_pkg) [
  | inl (a, _) ↦ elim (Option-cases os) [
    | inl e ↦ rw (a, e, result_to_component) (refl, refl)
    | inr (o, e) ↦ rw (a, e, result_to_component) (refl, refl)
  ]
  | inr (a, a') ↦ elim (==_cases r.class class_lang_pkg) [
    | inl (b, _) ↦ rw (a, b, result_to_component) (refl, refl)
    | inr (b, b') ↦ elim (==_cases r.class class_config) [
      | inl (c, _) ↦ rw (a, b, c, result_to_component) (refl, refl)
      | inr (c, c') ↦ absurd (not_three a' b' c' (contains_mem _ r.class h))
    ]
  ]
]

module _ (l : Libraries) where
  abbrev IsPrinted : Str → Type 0
  IsPrinted s = (u : Url) × (s ≡ l.to_string u)

  abbrev IsIdentifier : ℕ → Str → Type 0
  IsIdentifier n s = (i : ℕ) × (i < n) × (s ≡ (l.new_uuid i).string)

  -- The references so far are printed URLs that the map holds, or identifiers that have been made.
  record IsFresh (deps : List Str) (parsed : Parsed) : Type 0 where
    printed : All IsPrinted parsed.library_uniq_map
    known :
        (s : Str)
        → Memᴰ s (refs parsed.components)
        → Memᴰ s parsed.library_uniq_map ⊎ IsIdentifier parsed.uuids s
    distinct : IsDistinct (refs parsed.components)

  -- newUUID never returns an identifier twice, and no URL is printed as one.
  module _ (fresh : (i j : ℕ) → (l.new_uuid i).string ≡ (l.new_uuid j).string → i ≡ j)
      (other : (u : Url) (i : ℕ) → l.to_string u ≢ (l.new_uuid i).string) where
    add_component-IsFresh :
        (deps more : List Str) (parsed : Parsed) (c : Component)
        → IsPrinted c.bom_ref
        → IsFresh deps parsed
        → IsFresh more (add_component l c parsed)
    unfolding add_component
    add_component-IsFresh deps more parsed c (u, p) h =
        elim (Bool-cases (contains parsed.library_uniq_map c.bom_ref)) [
          | inl t ↦
              rw (t, add_component)
                (record { printed = h.printed; known = h.known; distinct = h.distinct })
          | inr f ↦
              let new : ¬ Memᴰ c.bom_ref (refs parsed.components) = λ m.
                elim (h.known c.bom_ref m) [
                  | inl i ↦ cc (f, mem-contains parsed.library_uniq_map c.bom_ref i)
                  | inr (i, _, e) ↦ other u i (sym p ∙ e)
                ] in
              rw (f, add_component)
                (record {
                  printed = ((u, p), h.printed);
                  known = λ s m.
                      elim (Memᴰ.append_cases (refs parsed.components)
                        (rw (refs-append parsed.components c) at m)) [
                          | inl old ↦ elim (h.known s old) [
                            | inl i ↦ inl (Memᴰ.tail i)
                            | inr i ↦ inr i
                          ]
                          | inr last ↦ elim (Memᴰ.cases_cons last) [
                            | inl e ↦ inl (Memᴰ.head e)
                            | inr i ↦ absurd (Memᴰ.not-nil i)
                          ]
                        ];
                  distinct =
                      rw (refs-append parsed.components c)
                        (IsDistinct-append (refs parsed.components) c.bom_ref h.distinct new);
                })
        ]

    add_dependencies-IsFresh :
        (deps : List Str) (parsed : Parsed) (meta : Metadata) (r : Types.Result)
        → HasClass r
        → IsFresh deps parsed
        → IsFresh [] (add_dependencies l meta r deps parsed)
    unfolding add_dependencies
    add_dependencies-IsFresh deps parsed meta r class h =
        elim (Bool-cases (is_individual l r.type)) [
          | inl t ↦
              rw (t, add_dependencies)
                (record { printed = h.printed; known = h.known; distinct = h.distinct })
          | inr f ↦
              let c = (result_to_component l r meta.os parsed.uuids).0 in
              let (id, next) = result_to_component-HasClass l r meta.os parsed.uuids class in
              let new : ¬ Memᴰ c.bom_ref (refs parsed.components) = λ m.
                elim (h.known c.bom_ref m) [
                  | inl i ↦
                      let (u, p) = All-mem IsPrinted parsed.library_uniq_map h.printed i in
                      other u parsed.uuids (sym p ∙ id)
                  | inr (i, less, e) ↦
                      let same : i ≡ parsed.uuids = fresh i parsed.uuids (sym e ∙ id) in omega arith
                ] in
              rw (f, add_dependencies)
                (record {
                  printed = h.printed;
                  known = λ s m.
                      elim (Memᴰ.append_cases (refs parsed.components)
                        (rw (refs-append parsed.components c) at m)) [
                          | inl old ↦ elim (h.known s old) [
                            | inl i ↦ inl i
                            | inr (i, less, e) ↦ inr (i, rw next (omega arith), e)
                          ]
                          | inr last ↦ elim (Memᴰ.cases_cons last) [
                            | inl e ↦ inr (parsed.uuids, rw next (omega arith), e ∙ id)
                            | inr i ↦ absurd (Memᴰ.not-nil i)
                          ]
                        ];
                  distinct =
                      rw (refs-append parsed.components c)
                        (IsDistinct-append (refs parsed.components) c.bom_ref h.distinct new);
                })
        ]

    -- Where newUUID never returns an identifier twice, no URL is printed as an identifier, and the
    -- results have the classes of packages and configuration files, the references of the components
    -- of a BOM are distinct.
    pub convert_to_bom-IsDistinct :
        (r : Report) (architecture version : Str) {bom : Bom}
        → All HasClass r.results
        → convert_to_bom l r architecture version ≡ ok bom
        → IsDistinct (refs bom.components)
    unfolding library_component
    convert_to_bom-IsDistinct r architecture version classes e =
        let w = convert_to_bom-IsConverted l r architecture version e in
        let h =
          add_results-keeps l IsFresh HasClass
            (λ deps parsed pkg pu q.
              add_component-IsFresh deps _ parsed (library_component l pkg pu) (_, refl) q)
            add_dependencies-IsFresh r.metadata architecture r.results (no_components l w.typed.1)
            classes (record { printed = tt; known = λ s m. absurd (Memᴰ.not-nil m); distinct = tt })
            w.looped in
        rw w.made h.distinct
