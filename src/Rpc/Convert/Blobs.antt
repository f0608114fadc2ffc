-- ===== src/Rpc/Convert/Blobs.antt =====
-- What the requests of pkg/rpc/convert.go keep of an artifact and of a blob.
use trivy.Base.{◌<◌, arith, ℕ, ◌≡◌, refl, List, [], ◌∷◌, map, All}
use trivy.Base.Text.{Str}
use trivy.Base.Result.{ok, choose}
use trivy.External
use trivy.External.{no_layer, Any, message}
use trivy.Rpc.Convert.{
  from_int32, no_package, no_misconf_result, to_misconf_result, from_misconf_result, to_library,
  from_library, to_application, from_application, to_package_info, from_package_info,
  to_misconfiguration, from_misconfiguration, convert_from_rpc_package_infos,
  convert_from_rpc_applications, convert_from_rpc_misconfigurations, convert_from_rpc_libraries,
  convert_to_misconf_results, convert_from_rpc_misconf_results,
}
use trivy.Rpc.Convert.Results.{Protobuf, convert_from_rpc_custom_resources, from_custom_resource}
use trivy.Rpc.Convert.Requests.{
  to_custom_resource, convert_to_rpc_blob_info, convert_from_rpc_put_blob_request,
}
use trivy.Rpc.Convert.Laws.{
  HasInt32, sent_pkg, map-map-All, convert_from_rpc_pkgs-convert_to_rpc_pkgs, os_lem,
}

abbrev pub sent_library : External.Package → External.Package
sent_library l = record no_package { name = l.name; version = l.version; license = l.license }

abbrev pub sent_application : External.Application → External.Application
sent_application app = record app { libraries = map sent_library app.libraries }

abbrev pub sent_misconf_result : External.MisconfResult → External.MisconfResult
sent_misconf_result r = record no_misconf_result {
  namespace = r.namespace;
  message = r.message;
  id = r.id;
  type = r.type;
  title = r.title;
  severity = r.severity;
}

abbrev pub sent_misconfiguration : External.Misconfiguration → External.Misconfiguration
sent_misconfiguration m = record m {
  successes = map sent_misconf_result m.successes;
  warnings = map sent_misconf_result m.warnings;
  failures = map sent_misconf_result m.failures;
  exceptions = map sent_misconf_result m.exceptions;
  layer = no_layer;
}

abbrev pub sent_package_info : External.PackageInfo → External.PackageInfo
sent_package_info info = record info { packages = map sent_pkg info.packages }

map-map_each {ℓ κ μ} :
    {A : Type ℓ} {B : Type κ} {C : Type μ} (f : B → C) (g : A → B) (h : A → C)
    → ((a : A) → f (g a) ≡ h a)
    → (xs : List A) → map f (map g xs) ≡ map h xs
map-map_each f g h e [] = refl
map-map_each f g h e (x ∷ xs) = rw (e x, map-map_each f g h e xs) refl

misconf_results_lem :
    (rs : List External.MisconfResult)
    → convert_from_rpc_misconf_results (convert_to_misconf_results rs) ≡ map sent_misconf_result rs
unfolding convert_from_rpc_misconf_results convert_to_misconf_results
misconf_results_lem rs =
    map-map_each from_misconf_result to_misconf_result sent_misconf_result (λ r. refl) rs

misconfiguration_lem :
    (m : External.Misconfiguration)
    → from_misconfiguration (to_misconfiguration m) ≡ sent_misconfiguration m
unfolding to_misconfiguration
misconfiguration_lem m =
    rw
      (
        misconf_results_lem m.successes,
        misconf_results_lem m.warnings,
        misconf_results_lem m.failures,
        misconf_results_lem m.exceptions,
      )
      refl

application_lem :
    (app : External.Application) → from_application (to_application app) ≡ sent_application app
unfolding to_application convert_from_rpc_libraries
application_lem app =
    rw (map-map_each from_library to_library sent_library (λ l. refl) app.libraries) refl

package_info_lem :
    (info : External.PackageInfo)
    → All HasInt32 info.packages
    → from_package_info (to_package_info info) ≡ sent_package_info info
package_info_lem info h = rw (convert_from_rpc_pkgs-convert_to_rpc_pkgs info.packages h) refl

small_lem : (n : ℕ) → n < 2_147_483_648 → from_int32 n ≡ n
unfolding from_int32
small_lem n h = ground arith

module _ {T W : Type 0} (pb : Protobuf T W) (schema : ℕ) where
  -- A resource whose data is no value of protobuf is lost, and the data of another comes back as the
  -- message.
  abbrev pub sent_resources : List External.CustomResource → List External.CustomResource
  sent_resources rs = map (from_custom_resource pb) (choose (to_custom_resource pb) rs)

  -- What a blob keeps on its way through the request.
  abbrev pub sent_blob : External.BlobInfo → External.BlobInfo
  sent_blob b = record b {
    schema_version = schema;
    package_infos = map sent_package_info b.package_infos;
    applications = map sent_application b.applications;
    misconfigurations = map sent_misconfiguration b.misconfigurations;
    custom_resources = sent_resources b.custom_resources;
  }

  -- The version of the schema is an int32 that is not negative, and the epochs of the packages are those of int32.
  abbrev pub IsSentBlob : External.BlobInfo → Type 0
  IsSentBlob b = (schema < 2_147_483_648) × All (λ i. All HasInt32 i.packages) b.package_infos

  -- A blob that is sent to the server arrives with the schema's version, with packages that have no
  -- module, build or path, with libraries of a name, a version and a license, and with
  -- misconfigurations that have lost their details and their layer.
  pub put_blob_request_lem :
      (diff_id : Str) (b : External.BlobInfo)
      → IsSentBlob b
      → convert_from_rpc_put_blob_request pb (convert_to_rpc_blob_info pb schema diff_id b)
        ≡ ok (sent_blob b)
  unfolding convert_from_rpc_put_blob_request convert_to_rpc_blob_info
      convert_from_rpc_package_infos convert_from_rpc_applications
      convert_from_rpc_misconfigurations convert_from_rpc_custom_resources
  put_blob_request_lem diff_id b (v, h) =
      rw
        (
          small_lem schema v,
          os_lem b.os,
          map-map-All from_package_info to_package_info sent_package_info
              (λ i. All HasInt32 i.packages) package_info_lem b.package_infos h,
          map-map_each from_application to_application sent_application application_lem
              b.applications,
          map-map_each from_misconfiguration to_misconfiguration sent_misconfiguration
              misconfiguration_lem b.misconfigurations,
        )
        refl
