-- ===== src/Report/Cyclonedx/Refs.antt =====
-- The references in the dependencies of a BOM of pkg/report/cyclonedx/cyclonedx.go.
use trivy.Base.{◌≡◌, refl, ap, inl, inr, List, [], ◌∷◌, ◌++◌, map, All, All-append, Bool-cases}
use trivy.Base.Text.{Str, contains, contains_mem}
use trivy.Base.Result.{ok}
use trivy.Types
use trivy.Scanner.{Metadata, Report}
use trivy.Report.Cyclonedx.{
  Component, Dependency, Bom, Libraries, library_component, result_to_component,
}
use trivy.Report.Cyclonedx.Convert.{
  Parsed, add_component, add_dependencies, is_individual, convert_to_bom, no_components,
}
use trivy.Report.Cyclonedx.Rounds.{add_results-keeps, convert_to_bom-IsConverted}
use mathlib.Core.List.{Memᴰ}
use mathlib.Core.List.Memᴰ

abbrev pub refs : List Component → List Str
refs = map (λ c. c.bom_ref)

-- A dependency and all it depends on are among the references.
abbrev pub IsResolved : List Str → Dependency → Type 0
IsResolved known d = Memᴰ d.ref known × All (λ s. Memᴰ s known) d.dependencies

pub refs-append :
    (cs : List Component) (c : Component) → refs (cs ++ c ∷ []) ≡ refs cs ++ c.bom_ref ∷ []
refs-append [] c = refl
refs-append (x ∷ cs) c = ap (◌∷◌ x.bom_ref) (refs-append cs c)

mem-refs_append :
    (cs : List Component) (c : Component) (s : Str)
    → Memᴰ s (refs cs)
    → Memᴰ s (refs (cs ++ c ∷ []))
mem-refs_append [] c s m = absurd (Memᴰ.not-nil m)
mem-refs_append (x ∷ cs) c s (Memᴰ.head e) = Memᴰ.head e
mem-refs_append (x ∷ cs) c s (Memᴰ.tail m) = Memᴰ.tail (mem-refs_append cs c s m)

mem-refs_last : (cs : List Component) (c : Component) → Memᴰ c.bom_ref (refs (cs ++ c ∷ []))
mem-refs_last [] c = Memᴰ.head refl
mem-refs_last (x ∷ cs) c = Memᴰ.tail (mem-refs_last cs c)

module _ {known more : List Str} (f : (s : Str) → Memᴰ s known → Memᴰ s more) where
  All-more : (xs : List Str) → All (λ s. Memᴰ s known) xs → All (λ s. Memᴰ s more) xs
  All-more [] h = tt
  All-more (x ∷ xs) h = (f x h.0, All-more xs h.1)

  All-IsResolved : (ds : List Dependency) → All (IsResolved known) ds → All (IsResolved more) ds
  All-IsResolved [] h = tt
  All-IsResolved (d ∷ ds) h =
      ((f d.ref h.0.0, All-more d.dependencies h.0.1), All-IsResolved ds h.1)

-- The references of the loop so far are those of components.
record IsClosed (deps : List Str) (parsed : Parsed) : Type 0 where
  unique : All (λ s. Memᴰ s (refs parsed.components)) parsed.library_uniq_map
  current : All (λ s. Memᴰ s (refs parsed.components)) deps
  metadata : All (λ s. Memᴰ s (refs parsed.components)) parsed.metadata_dependencies
  resolved : All (IsResolved (refs parsed.components)) parsed.dependencies

pub All-mem : (P : Str → Type 0) {s : Str} (xs : List Str) → All P xs → Memᴰ s xs → P s
All-mem P [] h m = absurd (Memᴰ.not-nil m)
All-mem P (x ∷ xs) h (Memᴰ.head e) = rw e h.0
All-mem P (x ∷ xs) h (Memᴰ.tail m) = All-mem P xs h.1 m

All-Unit : (rs : List Types.Result) → All {0, 0} (λ _. Unit) rs
All-Unit [] = tt
All-Unit (r ∷ rs) = (tt, All-Unit rs)

module _ (l : Libraries) where
  add_component-IsClosed :
      (deps : List Str) (parsed : Parsed) (c : Component)
      → IsClosed deps parsed
      → IsClosed (deps ++ c.bom_ref ∷ []) (add_component l c parsed)
  unfolding add_component
  add_component-IsClosed deps parsed c h =
      elim (Bool-cases (contains parsed.library_uniq_map c.bom_ref)) [
        | inl t ↦
            let there =
              All-mem _ parsed.library_uniq_map h.unique
                (contains_mem parsed.library_uniq_map c.bom_ref t) in
            rw (t, add_component)
              (record {
                unique = h.unique;
                metadata = h.metadata;
                resolved = h.resolved;
                current = All-append _ deps (c.bom_ref ∷ []) h.current (there, tt);
              })
        | inr f ↦
            let more = mem-refs_append parsed.components c in
            let last = mem-refs_last parsed.components c in
            rw (f, add_component)
              (record {
                unique = (last, All-more more parsed.library_uniq_map h.unique);
                current =
                    All-append _ deps (c.bom_ref ∷ []) (All-more more deps h.current) (last, tt);
                metadata = All-more more parsed.metadata_dependencies h.metadata;
                resolved = All-IsResolved more parsed.dependencies h.resolved;
              })
      ]

  add_dependencies-IsClosed :
      (deps : List Str) (parsed : Parsed) (meta : Metadata) (result : Types.Result)
      → IsClosed deps parsed
      → IsClosed [] (add_dependencies l meta result deps parsed)
  unfolding add_dependencies
  add_dependencies-IsClosed deps parsed meta result h =
      elim (Bool-cases (is_individual l result.type)) [
        | inl t ↦
            rw (t, add_dependencies)
              (record {
                unique = h.unique;
                resolved = h.resolved;
                current = tt;
                metadata = All-append _ parsed.metadata_dependencies deps h.metadata h.current;
              })
        | inr f ↦
            let c = (result_to_component l result meta.os parsed.uuids).0 in
            let more = mem-refs_append parsed.components c in
            let last = mem-refs_last parsed.components c in
            rw (f, add_dependencies)
              (record {
                unique = All-more more parsed.library_uniq_map h.unique;
                current = tt;
                metadata =
                    All-append _ parsed.metadata_dependencies (c.bom_ref ∷ [])
                      (All-more more parsed.metadata_dependencies h.metadata) (last, tt);
                resolved =
                    All-append _ parsed.dependencies
                      (record { ref = c.bom_ref; dependencies = deps } ∷ [])
                      (All-IsResolved more parsed.dependencies h.resolved)
                      ((last, All-more more deps h.current), tt);
              })
      ]

  -- Every reference of the dependencies of a BOM is that of a component of it, or of its metadata's.
  pub convert_to_bom-IsResolved :
      (r : Report) (architecture version : Str) {bom : Bom}
      → convert_to_bom l r architecture version ≡ ok bom
      → All (IsResolved (refs (bom.component ∷ bom.components))) bom.dependencies
  convert_to_bom-IsResolved r architecture version {bom} e =
      let w = convert_to_bom-IsConverted l r architecture version e in
      let h =
        add_results-keeps l IsClosed (λ _. Unit)
          (λ deps parsed pkg pu. add_component-IsClosed deps parsed (library_component l pkg pu))
          (λ deps parsed meta result _. add_dependencies-IsClosed deps parsed meta result)
          r.metadata architecture r.results (no_components l w.typed.1) (All-Unit r.results)
          (record { unique = tt; current = tt; metadata = tt; resolved = tt }) w.looped in
      rw w.made (
        All-append _ w.parsed.dependencies _
          (All-IsResolved (λ s m. Memᴰ.tail m) w.parsed.dependencies h.resolved)
          ((Memᴰ.head refl, All-more (λ s m. Memᴰ.tail m) _ h.metadata), tt))
