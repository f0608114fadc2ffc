-- ===== src/Rpc/Server.antt =====
-- pkg/rpc/server/server.go: the handlers of the server.
use trivy.Base.{Bool, false, List, ◌++◌, Option, none, some, map}
use trivy.Base.Text.{Str, str}
use trivy.Base.Result.{Result, ok, err, message, context, ◌>>=◌}
use trivy.External
use trivy.External.{Os}
use trivy.Types
use trivy.Types.{DetectedVulnerability}
use trivy.Rpc.Messages
use trivy.Rpc.Convert.Results.{Protobuf, convert_to_rpc_scan_response}
use trivy.Rpc.Convert.Requests.{
  convert_from_rpc_put_artifact_request, convert_from_rpc_put_blob_request,
}

-- scanner.Driver's Scan
abbrev pub Scan : Type 0
Scan = Str → Str → List Str → Types.ScanOptions → Result (List Types.Result × Option Os)

-- ScanServer: its scanner, and FillVulnerabilityInfo of its result client, which takes the
-- vulnerabilities and the type of a result
pub record ScanServer : Type 0 where
  pub local_scan : Scan
  pub fill : List DetectedVulnerability → Str → List DetectedVulnerability

-- The cache of fanal, on a state S of its own
pub record Cache (S : Type 0) : Type 0 where
  pub put_artifact : Str → External.ArtifactInfo → S → Result S
  pub put_blob : Str → External.BlobInfo → S → Result S
  pub missing_blobs : Str → List Str → S → Result (Bool × List Str)

-- The options that a request carries: those on removed packages are not among them.
abbrev pub options_of : Messages.ScanOptions → Types.ScanOptions
options_of o = record {
  vuln_type = o.vuln_type;
  security_checks = o.security_checks;
  scan_removed_packages = false;
  list_all_packages = o.list_all_packages;
}

module _ {T W : Type 0} (pb : Protobuf T W) where
  -- The body of the loop of Scan.
  abbrev pub fill_result : ScanServer → Types.Result → Types.Result
  fill_result s result = record result {
    vulnerabilities = s.fill result.vulnerabilities result.type;
  }

  -- ScanServer.Scan
  unfoldable pub scan : ScanServer → Messages.ScanRequest → Result (Messages.ScanResponse T W)
  scan s req = do
    found ←
        context (str "failed scan, " ++ req.target)
          (s.local_scan req.target req.artifact_id req.blob_ids (options_of req.options))
    ok (convert_to_rpc_scan_response pb (map (fill_result s) found.0) found.1)

  module _ {S : Type 0} (cache : Cache S) where
    -- CacheServer.PutArtifact
    unfoldable pub put_artifact : Messages.PutArtifactRequest T → S → Result S
    put_artifact req s = elim (req.artifact_info) [
      | none ↦ err (message (str "empty image info"))
      | some _ ↦ do
        info ← convert_from_rpc_put_artifact_request pb req
        context (str "unable to store image info in cache")
            (cache.put_artifact req.artifact_id info s)
    ]

    -- CacheServer.PutBlob
    unfoldable pub put_blob : Messages.PutBlobRequest W → S → Result S
    put_blob req s = elim (req.blob_info) [
      | none ↦ err (message (str "empty layer info"))
      | some _ ↦ do
        info ← convert_from_rpc_put_blob_request pb req
        context (str "unable to store layer info in cache") (cache.put_blob req.diff_id info s)
    ]

    abbrev pub to_missing : Bool × List Str → Messages.MissingBlobsResponse
    to_missing (artifact, blobs) = record { missing_artifact = artifact; missing_blob_ids = blobs }

    -- CacheServer.MissingBlobs
    unfoldable pub missing_blobs :
        Messages.MissingBlobsRequest → S → Result Messages.MissingBlobsResponse
    missing_blobs req s = do
      found ←
          context (str "failed to get missing blobs")
            (cache.missing_blobs req.artifact_id req.blob_ids s)
      ok (to_missing found)
