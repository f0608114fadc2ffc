-- ===== src/Rpc/Remote.antt =====
-- A scan by the client of pkg/rpc/client and the server of pkg/rpc/server, and the cache between
-- them, beside a scan and a cache without a server.
use trivy.Base.{ℕ, ◌≡◌, refl, ap, Bool, false, List, [], ◌∷◌, Option, map, All}
use trivy.Base.Text.{Str, str}
use trivy.Base.Result.{Result, ok, err, panicked, Error, context}
use trivy.External
use trivy.External.{Os}
use trivy.Types
use trivy.Rpc.Server
use trivy.Rpc.Server.{ScanServer, Cache, fill_result}
use trivy.Rpc.Client
use trivy.Rpc.Convert
use trivy.Rpc.Convert.{convert_from_rpc_os, convert_to_rpc_os}
use trivy.Rpc.Convert.Results.{
  Protobuf, convert_from_rpc_results, convert_to_rpc_scan_response, to_result,
}
use trivy.Rpc.Convert.Requests.{convert_to_rpc_blob_info}
use trivy.Rpc.Convert.Laws.{IsFaithful, IsSentResult, sent_result, from_result-to_result, os_lem}
use trivy.Rpc.Convert.Blobs.{IsSentBlob, sent_blob, put_blob_request_lem}

-- What twirp makes of the end of a handler for its client: errors of its own, also where the handler
-- panics.
pub record Twirp : Type 0 where
  pub client_error : Error → Error
  pub panic_error : Error

abbrev pub over : {A : Type 0} → Twirp → Result A → Result A
over tw (ok a) = ok a
over tw (err e) = err (tw.client_error e)
over tw panicked = err tw.panic_error

module _ {T W : Type 0} (pb : Protobuf T W) (tw : Twirp) (faithful : IsFaithful pb)
    (s : ScanServer) where
  abbrev with_os : Option Os → List Types.Result → Result (List Types.Result × Option Os)
  with_os os results = ok (results, os)

  results_lem :
      (rs : List Types.Result)
      → All (λ r. IsSentResult pb (fill_result pb s r)) rs
      → convert_from_rpc_results pb (map (to_result pb) (map (fill_result pb s) rs))
        ≡ map (λ r. sent_result pb (fill_result pb s r)) rs
  unfolding convert_from_rpc_results
  results_lem [] h = refl
  results_lem (r ∷ rs) h =
      rw (from_result-to_result pb faithful (fill_result pb s r) h.0, results_lem rs h.1) refl

  -- The scan of the server's scanner, without the removed packages.
  abbrev pub local_found :
      Str → Str → List Str → Types.ScanOptions → Result (List Types.Result × Option Os)
  local_found target key blobs options =
      s.local_scan target key blobs (record options { scan_removed_packages = false })

  -- Where the call reaches the server and its scan succeeds with results that can be sent, the client
  -- returns the results with their vulnerabilities filled in, less what the messages have no field for,
  -- and less the custom resources, whose field the server leaves empty though the client reads it. The
  -- option to scan removed packages has no effect.
  pub scan-sent_result :
      (target key : Str) (blobs : List Str) (options : Types.ScanOptions)
      {results : List Types.Result} {os : Option Os}
      → local_found target key blobs options ≡ ok (results, os)
      → All (λ r. IsSentResult pb (fill_result pb s r)) results
      → Client.scan pb (λ req. over tw (Server.scan pb s req)) target key blobs options
        ≡ ok (map (λ r. sent_result pb (fill_result pb s r)) results, os)
  unfolding Client.scan Server.scan convert_from_rpc_results convert_to_rpc_scan_response
  scan-sent_result target key blobs options {results} {os} e h =
      rw (e, os_lem os) (ap (with_os os) (results_lem results h))

module _ {T W : Type 0} (pb : Protobuf T W) (tw : Twirp) {S : Type 0} (cache : Cache S) where
  -- A blob that is put into the remote cache, where the call reaches the server, is put into the
  -- server's cache, as far as the request carries it: with the version of the schema of the client,
  -- packages without module, build and path, libraries with name, version and license, and the results
  -- and the custom resources as they are converted. An error of the server's cache, with the words of the server, is returned as twirp reports it to the
  -- client, with the words of the client; so is a panic.
  pub put_blob-sent_blob :
      (schema : ℕ) (diff_id : Str) (b : External.BlobInfo) (state : S)
      → IsSentBlob pb schema b
      → Client.put_blob pb schema
          (λ req t. over tw (Server.put_blob pb cache req t))
          diff_id
          b
          state
        ≡ context (str "unable to store cache on the server") (
            over tw (
              context
                (str "unable to store layer info in cache")
                (cache.put_blob diff_id (sent_blob pb schema b) state)))
  unfolding Client.put_blob Server.put_blob convert_to_rpc_blob_info
  put_blob-sent_blob schema diff_id b state h = rw (put_blob_request_lem pb schema diff_id b h) refl

  -- The remote cache answers which blobs are missing as the server's cache does, if that succeeds.
  pub missing_blobs_lem :
      (artifact : Str) (blobs : List Str) (state : S) {missing : Bool} {ids : List Str}
      → cache.missing_blobs artifact blobs state ≡ ok (missing, ids)
      → Client.missing_blobs pb
          (λ req t. over tw (Server.missing_blobs pb cache req t))
          artifact
          blobs
          state
        ≡ ok (missing, ids)
  unfolding Client.missing_blobs Server.missing_blobs Convert.convert_to_missing_blobs_request
  missing_blobs_lem artifact blobs state e = rw e refl
