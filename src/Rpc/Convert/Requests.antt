-- ===== src/Rpc/Convert/Requests.antt =====
-- pkg/rpc/convert.go: the requests that put artifacts and blobs into the cache.
use trivy.Base.{ℕ, Option, none, some, map}
use trivy.Base.Text.{Str}
use trivy.Base.Result.{Result, ok, panicked, choose}
use trivy.External
use trivy.External.{Any}
use trivy.Rpc.Messages
use trivy.Rpc.Convert.{
  to_int32, from_int32, convert_to_rpc_os, convert_from_rpc_os, convert_to_rpc_pkgs,
  convert_from_rpc_pkgs, to_package_info, to_application, to_misconfiguration,
  convert_from_rpc_package_infos, convert_from_rpc_applications, convert_from_rpc_misconfigurations,
}
use trivy.Rpc.Convert.Results.{Protobuf, convert_from_rpc_custom_resources}

module _ {T W : Type 0} (pb : Protobuf T W) where
  unfoldable pub convert_to_rpc_artifact_info :
      Str → External.ArtifactInfo → Messages.PutArtifactRequest T
  unfolding convert_to_rpc_pkgs to_int32
  convert_to_rpc_artifact_info image_id info = record {
    artifact_id = image_id;
    artifact_info = some (record {
      schema_version = to_int32 info.schema_version;
      architecture = info.architecture;
      created = pb.timestamp_proto info.created;
      docker_version = info.docker_version;
      os = info.os;
      history_packages = convert_to_rpc_pkgs info.history_packages;
    });
  }

  -- A request without the information panics.
  unfoldable pub convert_from_rpc_put_artifact_request :
      Messages.PutArtifactRequest T → Result External.ArtifactInfo
  unfolding convert_from_rpc_pkgs from_int32
  convert_from_rpc_put_artifact_request req = elim (req.artifact_info) [
    | none ↦ panicked
    | some info ↦ ok (record {
      schema_version = from_int32 info.schema_version;
      architecture = info.architecture;
      created = pb.timestamp info.created;
      docker_version = info.docker_version;
      os = info.os;
      history_packages = convert_from_rpc_pkgs info.history_packages;
    })
  ]

  -- The body of the loop over the resources: one whose data is no value of protobuf is left out.
  unfoldable pub to_custom_resource : External.CustomResource → Option (Messages.CustomResource W)
  to_custom_resource res = elim (pb.new_any res.resource_data) [
    | none ↦ none
    | some w ↦ some (record {
      type = res.type;
      file_path = res.file_path;
      layer = record { digest = res.layer.digest; diff_id = res.layer.diff_id };
      resource_data = w;
    })
  ]

  module _ (schema : ℕ) where
    -- `schema` is fanal's BlobJSONSchemaVersion.
    unfoldable pub convert_to_rpc_blob_info : Str → External.BlobInfo → Messages.PutBlobRequest W
    unfolding to_application to_misconfiguration to_custom_resource convert_to_rpc_os
        convert_to_rpc_pkgs
    convert_to_rpc_blob_info diff_id blob = record {
      diff_id = diff_id;
      blob_info = some (record {
        schema_version = schema;
        digest = blob.digest;
        diff_id = blob.diff_id;
        os = convert_to_rpc_os blob.os;
        package_infos = map to_package_info blob.package_infos;
        applications = map to_application blob.applications;
        misconfigurations = map to_misconfiguration blob.misconfigurations;
        opaque_dirs = blob.opaque_dirs;
        whiteout_files = blob.whiteout_files;
        custom_resources = choose to_custom_resource blob.custom_resources;
      });
    }

  -- A request without the information panics.
  unfoldable pub convert_from_rpc_put_blob_request :
      Messages.PutBlobRequest W → Result External.BlobInfo
  unfolding convert_from_rpc_package_infos convert_from_rpc_applications
      convert_from_rpc_misconfigurations convert_from_rpc_custom_resources convert_from_rpc_os
      from_int32
  convert_from_rpc_put_blob_request req = elim (req.blob_info) [
    | none ↦ panicked
    | some info ↦ ok (record {
      schema_version = from_int32 info.schema_version;
      digest = info.digest;
      diff_id = info.diff_id;
      os = convert_from_rpc_os info.os;
      package_infos = convert_from_rpc_package_infos info.package_infos;
      applications = convert_from_rpc_applications info.applications;
      misconfigurations = convert_from_rpc_misconfigurations info.misconfigurations;
      opaque_dirs = info.opaque_dirs;
      whiteout_files = info.whiteout_files;
      custom_resources = convert_from_rpc_custom_resources pb info.custom_resources;
    })
  ]
