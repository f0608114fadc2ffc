-- ===== src/Report/Cyclonedx/Tests.antt =====
-- The theorems on CycloneDX at a concrete report.
use trivy.Base.{ℕ, zero, suc, true, false, eqb, ◌≡◌, ◌≢◌, refl, ap, [], ◌∷◌, ◌++◌, none, some, All}
use trivy.Base.Text.{Str, str, last_index, contains, ◌==◌}
use trivy.Base.Result.{Result, ok, err, panicked}
use trivy.Types
use trivy.Scanner.{Report}
use trivy.Purl
use trivy.Detector.Version.{format_version}
use trivy.Purl.{new_package_url, purl_type, parts_of, name_parts, parse_npm, parse_pkg_name}
use trivy.Samples.{installed_package, purl_libraries}
use trivy.Report.Cyclonedx.{Bom, Libraries, no_component, pkg_to_component, result_to_component}
use trivy.Report.Cyclonedx.Convert.{
  add_component, add_packages, add_results, is_individual, add_dependencies, typed_component,
  report_to_component, parse_components, convert_to_bom,
}
use trivy.Report.Cyclonedx.Refs.{refs, IsResolved, convert_to_bom-IsResolved}
use trivy.Report.Cyclonedx.Unique.{IsDistinct, convert_to_bom-IsDistinct}

abbrev unary : ℕ → Str
unary zero = []
unary (suc n) = b'u' ∷ unary n

unary_inj : (i j : ℕ) → unary i ≡ unary j → i ≡ j
unary_inj zero zero e = refl
unary_inj zero (suc j) e = cc
unary_inj (suc i) zero e = cc
unary_inj (suc i) (suc j) e = ap suc (unary_inj i j cc)

abbrev pub libraries : Libraries
libraries = record {
  new_uuid = λ n. record { string = unary n; urn = str "urn:uuid:" ++ unary n };
  now = str "2022-03-01T00:00:00Z";
  encode = λ bom. ok bom.serial_number;
  to_string = λ u. b'p' ∷ (u.name ++ (str "@" ++ u.version));
  purl = purl_libraries;
  component_type_library = str "library";
  component_type_container = str "container";
  component_type_application = str "application";
  component_type_os = str "operating-system";
  component_type_file = str "file";
  artifact_container_image = str "container_image";
  artifact_filesystem = str "filesystem";
  artifact_remote_repository = str "repository";
  node_pkg = str "node-pkg";
  python_pkg = str "python-pkg";
  go_binary = str "gobinary";
  gem_spec = str "gemspec";
  jar = str "jar";
}

abbrev first : Str → ℕ
first [] = 0
first (c ∷ s) = c

printed : (u : Purl.Url) (i : ℕ) → libraries.to_string u ≢ unary i
printed u zero e = cc
printed u (suc i) e = let e' : true ≡ false = ap (λ s. eqb (first s) b'p') e in cc

abbrev result : Str → Str → Str → Types.Result
result target class type = record {
  target = target;
  class = class;
  type = type;
  packages =
      installed_package (str "a") (str "1") [] ∷ installed_package (str "b") (str "2") [] ∷ [];
  vulnerabilities = [];
  misconf_summary = none;
  misconfigurations = [];
  custom_resources = [];
}

abbrev pub report : Report
report = record {
  schema_version = 2;
  artifact_name = str "app";
  artifact_type = str "filesystem";
  metadata = record {
    size = 0;
    os = some (record { family = str "debian"; name = str "11"; eosl = false });
    image_id = [];
    diff_ids = [];
    repo_tags = [];
    repo_digests = [];
  };
  results =
      result (str "app") (str "os-pkgs") (str "debian")
      ∷ result (str "app/package-lock.json") (str "lang-pkgs") (str "npm")
      ∷ result [] (str "lang-pkgs") (str "jar")
      ∷ [];
}

abbrev empty : Bom
empty = record {
  serial_number = [];
  timestamp = [];
  tools = [];
  component = no_component;
  components = [];
  dependencies = [];
}

abbrev value_of : Result Bom → Bom
value_of (ok bom) = bom
value_of (err e) = empty
value_of panicked = empty

abbrev bom : Bom
bom = value_of (convert_to_bom libraries report [] (str "0.24.0"))

bom_lem : convert_to_bom libraries report [] (str "0.24.0") ≡ ok bom
unfolding convert_to_bom report_to_component typed_component parse_components add_results
    add_packages add_component add_dependencies is_individual pkg_to_component result_to_component
    new_package_url purl_type parts_of name_parts parse_npm parse_pkg_name contains ◌==◌
bom_lem = refl

bom_refs : refs bom.components ≡ str "pa@1" ∷ str "pb@2" ∷ str "uu" ∷ str "uuu" ∷ []
unfolding convert_to_bom report_to_component typed_component parse_components add_results
    add_packages add_component add_dependencies is_individual pkg_to_component result_to_component
    new_package_url purl_type parts_of name_parts parse_npm parse_pkg_name contains ◌==◌
    Purl.bom_ref last_index format_version
bom_refs = refl

convert_to_bom-IsResolved_example :
    All (IsResolved (refs (bom.component ∷ bom.components))) bom.dependencies
convert_to_bom-IsResolved_example =
    convert_to_bom-IsResolved libraries report [] (str "0.24.0") bom_lem

convert_to_bom-IsDistinct_example : IsDistinct (refs bom.components)
unfolding contains ◌==◌
convert_to_bom-IsDistinct_example =
    convert_to_bom-IsDistinct libraries unary_inj printed report [] (str "0.24.0")
      (refl, (refl, (refl, tt))) bom_lem
