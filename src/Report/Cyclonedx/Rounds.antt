-- ===== src/Report/Cyclonedx/Rounds.antt =====
-- What the rounds of parseComponents keep, in pkg/report/cyclonedx/cyclonedx.go.
use trivy.Base.{◌≡◌, sym, ap, ◌∙◌, ℕ, List, [], ◌∷◌, ◌++◌, All}
use trivy.Base.Text.{Str, str}
use trivy.Base.Result.{ok, context, context-ok, bind_ok, ◌>>=◌}
use trivy.External.{Package}
use trivy.Types
use trivy.Scanner.{Metadata, Report}
use trivy.Purl.{PackageUrl, new_package_url}
use trivy.Report.Cyclonedx.{
  Dependency, Bom, Component, Libraries, library_component, pkg_to_component,
}
use trivy.Report.Cyclonedx.Convert.{
  report_to_component, parse_components, convert_to_bom, no_components, with_metadata, bom_of,
  Parsed, add_component, add_packages, add_dependencies, add_results,
}

pkg_to_component-library :
    (l : Libraries) (t : Str) (meta : Metadata) (architecture : Str) (pkg : Package)
    {component : Component}
    → pkg_to_component l t meta architecture pkg ≡ ok component
    → (pu : PackageUrl) × (component ≡ library_component l pkg pu)
unfolding pkg_to_component
pkg_to_component-library l t meta architecture pkg e =
    let (pu, _, k) =
      bind_ok
        (context (str "failed to new package purl")
          (new_package_url l.purl t meta architecture pkg))
        (λ pu. ok (library_component l pkg pu)) e in
    (pu, cc)

-- `Q` is of the dependencies of the result's component and of the variables.
module _ (l : Libraries) (Q : List Str → Parsed → Type 0) (H : Types.Result → Type 0) where
  abbrev pub KeptByPackages : Type 0
  KeptByPackages =
      (deps : List Str) (parsed : Parsed) (pkg : Package) (pu : PackageUrl)
      → Q deps parsed
      → Q (deps ++ (library_component l pkg pu).bom_ref ∷ [])
          (add_component l (library_component l pkg pu) parsed)

  abbrev pub KeptByResults : Type 0
  KeptByResults =
      (deps : List Str) (parsed : Parsed) (meta : Metadata) (result : Types.Result)
      → H result
      → Q deps parsed
      → Q [] (add_dependencies l meta result deps parsed)

  add_packages-keeps :
      KeptByPackages
      → (t : Str) (meta : Metadata) (architecture : Str) (pkgs : List Package) (deps : List Str)
        (parsed : Parsed) {out : List Str × Parsed}
      → Q deps parsed
      → add_packages l t meta architecture pkgs deps parsed ≡ ok out
      → Q out.0 out.1
  unfolding add_packages
  add_packages-keeps keep t meta architecture [] deps parsed {out} q e =
      let a : deps ≡ out.0 = cc in let b : parsed ≡ out.1 = cc in rw (← a, ← b) q
  add_packages-keeps keep t meta architecture (pkg ∷ pkgs) deps parsed q e =
      let (component, r, k) =
        bind_ok (context (str "failed to parse pkg") (pkg_to_component l t meta architecture pkg))
          (λ c.
            add_packages l t meta architecture pkgs (deps ++ c.bom_ref ∷ [])
              (add_component l c parsed))
          e in
      let (pu, same) = pkg_to_component-library l t meta architecture pkg (context-ok _ _ r) in
      add_packages-keeps keep t meta architecture pkgs _ _ (rw same (keep deps parsed pkg pu q)) k

  pub add_results-keeps :
      KeptByPackages
      → KeptByResults
      → (meta : Metadata) (architecture : Str) (results : List Types.Result) (parsed : Parsed)
        {out : Parsed}
      → All H results
      → Q [] parsed
      → add_results l meta architecture results parsed ≡ ok out
      → Q [] out
  unfolding add_results
  add_results-keeps keep fold meta architecture [] parsed {out} h q e =
      let same : parsed ≡ out = cc in rw (← same) q
  add_results-keeps keep fold meta architecture (result ∷ results) parsed h q e =
      let (added, r, k) =
        bind_ok (add_packages l result.type meta architecture result.packages [] parsed)
          (λ added.
            add_results l meta architecture results
              (add_dependencies l meta result added.0 added.1))
          e in
      add_results-keeps keep fold meta architecture results _ h.1
        (fold added.0 added.1 meta result h.0
          (add_packages-keeps keep result.type meta architecture result.packages [] parsed q r))
        k

-- What convert_to_bom has done: the metadata's component, the variables that the loop left, and the
-- BOM that is made of them.
pub record IsConverted (l : Libraries) (r : Report) (architecture version : Str) (bom : Bom)
    : Type 0 where
  pub typed : Component × ℕ
  pub parsed : Parsed
  pub looped : add_results l r.metadata architecture r.results (no_components l typed.1) ≡ ok parsed
  pub made : bom ≡ bom_of l version typed.0 (with_metadata l typed.0.bom_ref parsed)

parse_components-loop :
    (l : Libraries) (r : Report) (architecture bom_ref : Str) (n : ℕ)
    {pair : List Component × List Dependency}
    → parse_components l r architecture bom_ref n ≡ ok pair
    → (parsed : Parsed) × (add_results l r.metadata architecture r.results (no_components l n)
        ≡ ok parsed)
      × (pair ≡ with_metadata l bom_ref parsed)
unfolding parse_components
parse_components-loop l r architecture bom_ref n e =
    let (parsed, q, k) =
      bind_ok (add_results l r.metadata architecture r.results (no_components l n))
        (λ parsed. ok (with_metadata l bom_ref parsed)) e in
    (parsed, q, cc)

with_pair :
    (l : Libraries) (r : Report) (architecture version : Str) (typed : Component × ℕ)
    (pair : List Component × List Dependency) {bom : Bom}
    → parse_components l r architecture typed.0.bom_ref typed.1 ≡ ok pair
    → ok (bom_of l version typed.0 pair) ≡ ok bom
    → IsConverted l r architecture version bom
with_pair l r architecture version typed pair {bom} p k =
    let (parsed, q, same) = parse_components-loop l r architecture typed.0.bom_ref typed.1 p in
    let of_pair : bom_of l version typed.0 pair ≡ bom = cc in
    record {
      typed = typed;
      parsed = parsed;
      looped = q;
      made = sym of_pair ∙ ap (bom_of l version typed.0) same;
    }

with_parsed :
    (l : Libraries) (r : Report) (architecture version : Str) (typed : Component × ℕ) {bom : Bom}
    → (context
          (str "failed to parse components")
          (parse_components l r architecture typed.0.bom_ref typed.1)
        >>= (λ parsed. ok (bom_of l version typed.0 parsed)))
      ≡ ok bom
    → IsConverted l r architecture version bom
with_parsed l r architecture version typed e =
    let (pair, p, k) =
      bind_ok
        (context (str "failed to parse components")
          (parse_components l r architecture typed.0.bom_ref typed.1))
        (λ parsed. ok (bom_of l version typed.0 parsed)) e in
    with_pair l r architecture version typed pair (context-ok _ _ p) k

pub convert_to_bom-IsConverted :
    (l : Libraries) (r : Report) (architecture version : Str) {bom : Bom}
    → convert_to_bom l r architecture version ≡ ok bom
    → IsConverted l r architecture version bom
unfolding convert_to_bom
convert_to_bom-IsConverted l r architecture version e =
    let (typed, _, k) =
      bind_ok
        (context (str "failed to parse metadata component")
          (report_to_component l r architecture 1))
        (λ c.
          context (str "failed to parse components")
            (parse_components l r architecture c.0.bom_ref c.1)
          >>= (λ parsed. ok (bom_of l version c.0 parsed)))
        e in
    with_parsed l r architecture version typed k
