-- ===== src/Report/Cyclonedx/Convert.antt =====
-- pkg/report/cyclonedx/cyclonedx.go: reportToComponent, parseComponents and convertToBom.
use trivy.Base.{ℕ, suc, Bool, not, ◌||◌, List, [], ◌∷◌, ◌++◌, none, if◌then◌else◌, eqb}
use trivy.Base.Text.{Str, str, ◌==◌, contains, decimal}
use trivy.Base.Result.{Result, ok, context, ◌>>=◌}
use trivy.External.{Package}
use trivy.Types
use trivy.Scanner.{Metadata, Report}
use trivy.Purl.{PackageUrl, new_package_url}
use trivy.Report.Cyclonedx.{
  Property, Component, Dependency, Bom, Libraries, no_component, property, append_properties,
  append_each, pkg_to_component, result_to_component,
}

-- Package{}
abbrev no_package : Package
no_package = record {
  name = [];
  version = [];
  release = [];
  epoch = 0;
  arch = [];
  src_name = [];
  src_version = [];
  src_release = [];
  src_epoch = 0;
  modularitylabel = [];
  build_info = none;
  license = [];
  layer = record { digest = []; diff_id = [] };
  file_path = [];
}

-- The variables of parseComponents, and the number of identifiers that newUUID has returned.
pub record Parsed : Type 0 where
  pub components : List Component
  pub dependencies : List Dependency
  pub metadata_dependencies : List Str
  pub library_uniq_map : List Str
  pub uuids : ℕ

module _ (l : Libraries) where
  -- The component of an image, with its identifier and properties.
  abbrev pub image_component : PackageUrl → List Property → ℕ → Component → Component × ℕ
  image_component p properties n component =
      if p.url.type == []
      then (record component { bom_ref = (l.new_uuid n).string; properties = properties }, suc n)
      else (
        record component {
          bom_ref = l.to_string p.url;
          package_url = l.to_string p.url;
          properties = properties;
        },
        n,
      )

  -- The switch of reportToComponent.
  unfoldable pub typed_component : Report → Str → List Property → ℕ → Result (Component × ℕ)
  unfolding append_properties
  typed_component r architecture properties n =
      let component : Component = record no_component {
        name = r.artifact_name;
        properties = properties;
      } in
      let of_image : Result (Component × ℕ) = do
        p ←
            context (str "failed to new package url for oci")
              (new_package_url l.purl (str "oci") r.metadata architecture no_package)
        ok (
            image_component p (append_properties properties (str "ImageID") r.metadata.image_id) n
              (record component { type = l.component_type_container }))
      in if r.artifact_type == l.artifact_container_image
        then of_image
        else if r.artifact_type == l.artifact_filesystem
            || r.artifact_type == l.artifact_remote_repository
        then ok (
          record component { type = l.component_type_application; bom_ref = (l.new_uuid n).string },
          suc n,
        )
        else ok (component, n)

  -- The properties of reportToComponent before the switch, and what it appends after it.
  unfoldable pub first_properties : Report → List Property
  unfolding append_properties property
  first_properties r =
      let properties : List Property =
        property (str "SchemaVersion") (decimal r.schema_version) ∷ [] in
      if not (eqb r.metadata.size 0)
      then append_properties properties (str "Size") (decimal r.metadata.size)
      else properties

  unfoldable pub last_properties : Metadata → List Property → List Property
  unfolding append_each
  last_properties metadata properties =
      append_each (str "RepoTag")
        (append_each (str "DiffID")
          (append_each (str "RepoDigest") properties metadata.repo_digests) metadata.diff_ids)
        metadata.repo_tags

  -- reportToComponent
  unfoldable pub report_to_component : Report → Str → ℕ → Result (Component × ℕ)
  unfolding typed_component first_properties last_properties
  report_to_component r architecture n = do
    typed ← typed_component r architecture (first_properties r) n
    ok (record (typed.0) { properties = last_properties r.metadata typed.0.properties }, typed.1)

  -- The body of the inner loop of parseComponents.
  unfoldable pub add_component : Component → Parsed → Parsed
  add_component component parsed =
      if contains parsed.library_uniq_map component.bom_ref then parsed else record parsed {
        library_uniq_map = component.bom_ref ∷ parsed.library_uniq_map;
        components = parsed.components ++ component ∷ [];
      }

  -- The inner loop of parseComponents, with the dependencies of the result's component.
  unfoldable pub add_packages :
      Str → Metadata → Str → List Package → List Str → Parsed → Result (List Str × Parsed)
  unfolding pkg_to_component add_component
  add_packages t meta architecture [] component_dependencies parsed =
      ok (component_dependencies, parsed)
  add_packages t meta architecture (pkg ∷ pkgs) component_dependencies parsed = do
    component ← context (str "failed to parse pkg") (pkg_to_component l t meta architecture pkg)
    add_packages t meta architecture pkgs (component_dependencies ++ component.bom_ref ∷ [])
        (add_component component parsed)

  -- The types of packages that belong to no lock file.
  unfoldable pub is_individual : Str → Bool
  is_individual t =
      t == l.node_pkg || t == l.python_pkg || t == l.go_binary || t == l.gem_spec || t == l.jar

  -- The end of a round of parseComponents.
  unfoldable pub add_dependencies : Metadata → Types.Result → List Str → Parsed → Parsed
  unfolding is_individual result_to_component
  add_dependencies meta result component_dependencies parsed =
      if is_individual result.type
      then record parsed {
        metadata_dependencies = parsed.metadata_dependencies ++ component_dependencies;
      }
      else let (component, uuids) = result_to_component l result meta.os parsed.uuids in
        record parsed {
          components = parsed.components ++ component ∷ [];
          dependencies =
              parsed.dependencies
              ++ record { ref = component.bom_ref; dependencies = component_dependencies } ∷ [];
          metadata_dependencies = parsed.metadata_dependencies ++ component.bom_ref ∷ [];
          uuids = uuids;
        }

  -- The outer loop of parseComponents.
  unfoldable pub add_results : Metadata → Str → List Types.Result → Parsed → Result Parsed
  unfolding add_packages add_dependencies
  add_results meta architecture [] parsed = ok parsed
  add_results meta architecture (result ∷ results) parsed = do
    added ← add_packages result.type meta architecture result.packages [] parsed
    add_results meta architecture results (add_dependencies meta result added.0 added.1)

  abbrev pub no_components : ℕ → Parsed
  no_components n = record {
    components = [];
    dependencies = [];
    metadata_dependencies = [];
    library_uniq_map = [];
    uuids = n;
  }

  abbrev pub with_metadata : Str → Parsed → List Component × List Dependency
  with_metadata bom_ref parsed = (
    parsed.components,
    parsed.dependencies
        ++ record { ref = bom_ref; dependencies = parsed.metadata_dependencies } ∷ [],
  )

  -- parseComponents
  unfoldable pub parse_components :
      Report → Str → Str → ℕ → Result (List Component × List Dependency)
  unfolding add_results
  parse_components r architecture bom_ref n = do
    parsed ← add_results r.metadata architecture r.results (no_components n)
    ok (with_metadata bom_ref parsed)

  abbrev pub bom_of : Str → Component → List Component × List Dependency → Bom
  bom_of version metadata_component (components, dependencies) = record {
    serial_number = (l.new_uuid 0).urn;
    timestamp = l.now;
    tools = record { vendor = str "aquasecurity"; name = str "trivy"; version = version } ∷ [];
    component = metadata_component;
    components = components;
    dependencies = dependencies;
  }

  -- Writer.convertToBom
  unfoldable pub convert_to_bom : Report → Str → Str → Result Bom
  unfolding report_to_component parse_components
  convert_to_bom r architecture version = do
    metadata_component ←
        context (str "failed to parse metadata component") (report_to_component r architecture 1)
    parsed ←
        context (str "failed to parse components")
          (parse_components r architecture metadata_component.0.bom_ref metadata_component.1)
    ok (bom_of version metadata_component.0 parsed)

  -- Writer.Write: the text that is written
  unfoldable pub write : Report → Str → Str → Result Str
  unfolding convert_to_bom
  write r architecture version = do
    bom ← context (str "failed to convert bom") (convert_to_bom r architecture version)
    context (str "failed to encode bom") (l.encode bom)
