-- ===== src/Report/Cyclonedx.antt =====
-- pkg/report/cyclonedx/cyclonedx.go: the components, their properties and the dependencies of a
-- report in CycloneDX, and Write.
pub mod Convert
pub mod Rounds
pub mod Refs
pub mod Unique
pub mod Tests
use trivy.Base.{
  ℕ, suc, Bool, true, false, not, ◌&&◌, ◌||◌, List, [], ◌∷◌, ◌++◌, Option, none, some,
  if◌then◌else◌, eqb,
}
use trivy.Base.Text.{Str, str, ◌==◌, decimal}
use trivy.Base.Result.{Result, ok, context, ◌>>=◌}
use trivy.External.{Package, Os}
use trivy.Types
use trivy.Types.{class_os_pkg, class_lang_pkg, class_config}
use trivy.Scanner.{Metadata, Report}
use trivy.Purl
use trivy.Purl.{PackageUrl, Url, new_package_url, bom_ref}

-- cyclonedx-go's Property, Component, Dependency and BOM. The dependencies inside a dependency have
-- nothing but a reference, which stands for them.
pub record Property : Type 0 where
  pub name : Str
  pub value : Str

pub record Component : Type 0 where
  pub type : Str
  pub name : Str
  pub version : Str
  pub bom_ref : Str
  pub package_url : Str
  pub properties : List Property
  pub licenses : List Str

-- Component{}
abbrev pub no_component : Component
no_component = record {
  type = [];
  name = [];
  version = [];
  bom_ref = [];
  package_url = [];
  properties = [];
  licenses = [];
}

pub record Dependency : Type 0 where
  pub ref : Str
  pub dependencies : List Str

pub record Tool : Type 0 where
  pub vendor : Str
  pub name : Str
  pub version : Str

pub record Bom : Type 0 where
  pub serial_number : Str
  pub timestamp : Str
  pub tools : List Tool
  pub component : Component
  pub components : List Component
  pub dependencies : List Dependency

-- uuid.UUID, by its String and URN
pub record Uuid : Type 0 where
  pub string : Str
  pub urn : Str

-- What Writer's options and the libraries give: the identifiers in the order in which newUUID returns
-- them, the instant as a text, the encoder's text of a BOM, packageurl-go's ToString, and the
-- constants of cyclonedx-go and fanal
pub record Libraries : Type 0 where
  pub new_uuid : ℕ → Uuid
  pub now : Str
  pub encode : Bom → Result Str
  pub to_string : Url → Str
  pub purl : Purl.Libraries
  pub component_type_library : Str
  pub component_type_container : Str
  pub component_type_application : Str
  pub component_type_os : Str
  pub component_type_file : Str
  pub artifact_container_image : Str
  pub artifact_filesystem : Str
  pub artifact_remote_repository : Str
  pub node_pkg : Str
  pub python_pkg : Str
  pub go_binary : Str
  pub gem_spec : Str
  pub jar : Str

-- property
unfoldable pub property : Str → Str → Property
property key value = record { name = str "aquasecurity:trivy:" ++ key; value = value }

-- appendProperties
unfoldable pub append_properties : List Property → Str → Str → List Property
unfolding property
append_properties properties key value =
    if value == [] || (key == str "SrcEpoch" && value == str "0")
    then properties
    else properties ++ property key value ∷ []

-- A loop of appendProperties.
unfoldable pub append_all : List Property → List (Str × Str) → List Property
unfolding append_properties
append_all properties [] = properties
append_all properties ((key, value) ∷ props) =
    append_all (append_properties properties key value) props

-- A loop of appendProperties with one key.
unfoldable pub append_each : Str → List Property → List Str → List Property
unfolding append_properties
append_each key properties [] = properties
append_each key properties (value ∷ values) =
    append_each key (append_properties properties key value) values

-- parseProperties
unfoldable pub parse_properties : Package → List Property
unfolding append_all
parse_properties pkg = append_all [] (
    (str "FilePath", pkg.file_path)
    ∷ (str "SrcName", pkg.src_name)
    ∷ (str "SrcVersion", pkg.src_version)
    ∷ (str "SrcRelease", pkg.src_release)
    ∷ (str "SrcEpoch", decimal pkg.src_epoch)
    ∷ (str "Modularitylabel", pkg.modularitylabel)
    ∷ (str "LayerDigest", pkg.layer.digest)
    ∷ (str "LayerDiffID", pkg.layer.diff_id)
    ∷ [])

-- The component of a package with its package URL.
abbrev pub library_component : Libraries → Package → PackageUrl → Component
unfolding parse_properties
library_component l pkg pu = record {
  type = l.component_type_library;
  name = pkg.name;
  version = pu.url.version;
  bom_ref = l.to_string (bom_ref pu);
  package_url = l.to_string pu.url;
  properties = parse_properties pkg;
  licenses = if not (pkg.license == []) then pkg.license ∷ [] else [];
}

-- pkgToComponent
unfoldable pub pkg_to_component : Libraries → Str → Metadata → Str → Package → Result Component
unfolding library_component
pkg_to_component l t meta architecture pkg = do
  pu ← context (str "failed to new package purl") (new_package_url l.purl t meta architecture pkg)
  ok (library_component l pkg pu)

-- The name and the version of an operating system that was found.
abbrev pub with_os : Option Os → Component → Component
with_os none component = component
with_os (some os_found) component = record component {
  name = os_found.family;
  version = os_found.name;
}

-- resultToComponent, with the number of identifiers that newUUID has returned before
unfoldable pub result_to_component : Libraries → Types.Result → Option Os → ℕ → Component × ℕ
unfolding property
result_to_component l r os_found n =
    let component : Component = record no_component {
      name = r.target;
      properties = property (str "Type") r.type ∷ property (str "Class") r.class ∷ [];
    } in
    let id = (l.new_uuid n).string in
    if r.class == class_os_pkg
    then (
      record (with_os os_found (record component { bom_ref = id })) { type = l.component_type_os },
      suc n,
    )
    else if r.class == class_lang_pkg
    then (record component { bom_ref = id; type = l.component_type_application }, suc n)
    else if r.class == class_config
    then (record component { bom_ref = id; type = l.component_type_file }, suc n)
    else (component, n)
