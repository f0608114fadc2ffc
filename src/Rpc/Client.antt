-- ===== src/Rpc/Client.antt =====
-- pkg/rpc/client/client.go and pkg/cache/remote.go: the client of a scan, and the cache that stands
-- on the server.
use trivy.Base.{ℕ, Bool, List, Option}
use trivy.Base.Text.{Str, str}
use trivy.Base.Result.{Result, ok, context, ◌>>=◌}
use trivy.External
use trivy.External.{Os}
use trivy.Types
use trivy.Rpc.Messages
use trivy.Rpc.Convert.{convert_from_rpc_os, convert_to_missing_blobs_request}
use trivy.Rpc.Convert.Results.{Protobuf, convert_from_rpc_results}
use trivy.Rpc.Convert.Requests.{convert_to_rpc_artifact_info, convert_to_rpc_blob_info}

-- The request of a scan.
abbrev pub scan_request : Str → Str → List Str → Types.ScanOptions → Messages.ScanRequest
scan_request target artifact_key blob_keys options = record {
  target = target;
  artifact_id = artifact_key;
  blob_ids = blob_keys;
  options = record {
    vuln_type = options.vuln_type;
    security_checks = options.security_checks;
    list_all_packages = options.list_all_packages;
  };
}

module _ {T W : Type 0} (pb : Protobuf T W) where
  -- Scanner.Scan; `call` sends a request by twirp, again and again while the server is unavailable
  unfoldable pub scan :
      (Messages.ScanRequest → Result (Messages.ScanResponse T W))
      → Str
      → Str
      → List Str
      → Types.ScanOptions
      → Result (List Types.Result × Option Os)
  scan call target artifact_key blob_keys options = do
    res ←
        context (str "failed to detect vulnerabilities via RPC")
          (call (scan_request target artifact_key blob_keys options))
    let out : List Types.Result × Option Os =
        (convert_from_rpc_results pb res.results, convert_from_rpc_os res.os)
    ok out

  module _ {S : Type 0} where
    -- RemoteCache.PutArtifact; `call` sends a request by twirp, S is the state of the server
    unfoldable pub put_artifact :
        (Messages.PutArtifactRequest T → S → Result S) → Str → External.ArtifactInfo → S → Result S
    put_artifact call image_id info s =
        context (str "unable to store cache on the server")
          (call (convert_to_rpc_artifact_info pb image_id info) s)

    -- RemoteCache.PutBlob; `schema` is fanal's BlobJSONSchemaVersion
    unfoldable pub put_blob :
        ℕ → (Messages.PutBlobRequest W → S → Result S) → Str → External.BlobInfo → S → Result S
    put_blob schema call diff_id info s =
        context (str "unable to store cache on the server")
          (call (convert_to_rpc_blob_info pb schema diff_id info) s)

    -- RemoteCache.MissingBlobs
    unfoldable pub missing_blobs :
        (Messages.MissingBlobsRequest → S → Result Messages.MissingBlobsResponse)
        → Str
        → List Str
        → S
        → Result (Bool × List Str)
    missing_blobs call image_id layer_ids s = do
      layers ←
          context (str "unable to fetch missing layers")
            (call (convert_to_missing_blobs_request image_id layer_ids) s)
      let out : Bool × List Str = (layers.missing_artifact, layers.missing_blob_ids)
      ok out
