-- ===== src/Rpc/Tests.antt =====
-- The theorems on the client and the server at concrete messages and states.
use trivy.Base.{ℕ, ◌≡◌, refl, inl, inr, [], ◌∷◌, none, some, true, false, map, arith, sym}
use trivy.Base.Text.{Str, str, ◌==◌}
use trivy.Base.Result.{ok, err, wrap, message, context}
use trivy.External
use trivy.External.{no_layer, no_vulnerability}
use trivy.Types
use trivy.Samples.{installed_package, severities, severity_name, bash_high, misconf}
use trivy.Rpc.Client
use trivy.Rpc.Server
use trivy.Rpc.Server.{ScanServer, Cache, fill_result}
use trivy.Rpc.Convert.Results.{Protobuf, to_result, from_result}
use trivy.Rpc.Convert.Laws.{
  HasInt32, IsFaithful, IsSeverity, IsSentResult, sent_result, from_result-to_result, IsSent,
}
use trivy.Rpc.Remote.{Twirp, over, scan-sent_result, put_blob-sent_blob}
use trivy.Rpc.Listen.{World, Operations, hot_update}
use trivy.Rpc.Listen.Laws.{Outcome, hot_update-Outcome}
use trivy.Rpc.Listen.Steps
use trivy.Rpc.Listen.Steps.{
  drained, start, closed, suspended, arrive, suspend, drain, close, Reaches, here, further, Run,
  stay, on, IsQuiet, Run-IsQuiet,
}
use trivy.Rpc.Listen.Race.{closed_while_serving, Drained, suspended_drains}

abbrev pb : Protobuf ℕ Str
pb = record {
  timestamp_proto = λ t. some t;
  timestamp = λ t. elim t [ none ↦ 0 | some n ↦ n ];
  new_value = λ v. some v;
  new_any = λ v. elim v [ External.plain s ↦ some s | External.message s ↦ none ];
  as_interface = λ v. v;
  value_text = λ w. w;
  severity_string = severity_name;
  db = severities;
}

pb-IsFaithful : IsFaithful pb
pb-IsFaithful = record { timestamp_lem = λ t ts e. cc; value_lem = λ v w e. sym e; nil_lem = refl }

high-IsSeverity : IsSeverity pb (str "HIGH")
unfolding ◌==◌
high-IsSeverity = record { number = 3; named = refl; printed = refl; enumerated = refl }

abbrev scanned : Types.Result
scanned = record {
  target = str "alpine:3.15";
  class = str "os-pkgs";
  type = str "alpine";
  packages = installed_package (str "bash") (str "5.0") [] ∷ [];
  vulnerabilities = bash_high ∷ [];
  misconf_summary = none;
  misconfigurations = misconf (str "DS001") (str "HIGH") (str "FAIL") ∷ [];
  custom_resources = [];
}

bash_high-IsSent : IsSent pb bash_high
bash_high-IsSent = record {
  severity = high-IsSeverity;
  modified = tt;
  published = tt;
  advisory_data = tt;
  details = tt;
}

bash-HasInt32 : HasInt32 (installed_package (str "bash") (str "5.0") [])
unfolding HasInt32
bash-HasInt32 = (inl (omega arith), inl (omega arith))

scanned-IsSentResult : IsSentResult pb scanned
scanned-IsSentResult = record {
  packages = (bash-HasInt32, tt);
  vulnerabilities = (bash_high-IsSent, tt);
  misconfigurations = (high-IsSeverity, tt);
}

from_result-to_result_example : from_result pb (to_result pb scanned) ≡ sent_result pb scanned
from_result-to_result_example = from_result-to_result pb pb-IsFaithful scanned scanned-IsSentResult

abbrev twirp : Twirp
twirp = record {
  client_error = λ e. wrap (str "twirp error internal") e;
  panic_error = message (str "twirp error internal: Internal service panic");
}

abbrev scan_server : ScanServer
scan_server = record {
  local_scan = λ target key blobs options. ok (scanned ∷ [], none);
  fill = λ vulns type. vulns;
}

abbrev options : Types.ScanOptions
options = record {
  vuln_type = str "os" ∷ [];
  security_checks = str "vuln" ∷ [];
  scan_removed_packages = true;
  list_all_packages = true;
}

scan-sent_result_example :
    Client.scan pb
      (λ req. over twirp (Server.scan pb scan_server req))
      (str "alpine:3.15")
      (str "sha256:1")
      (str "sha256:2" ∷ [])
      options
    ≡ ok (map (λ r. sent_result pb (fill_result pb scan_server r)) (scanned ∷ []), none)
scan-sent_result_example =
    scan-sent_result pb twirp pb-IsFaithful scan_server (str "alpine:3.15") (str "sha256:1")
      (str "sha256:2" ∷ []) options refl (scanned-IsSentResult, tt)

-- A cache that takes no blob.
abbrev full_cache : Cache ℕ
full_cache = record {
  put_artifact = λ key info s. ok s;
  put_blob = λ key info s. err (message (str "disk full"));
  missing_blobs = λ key blobs s. ok (true, blobs);
}

abbrev blob : External.BlobInfo
blob = record {
  schema_version = 1;
  digest = str "sha256:1";
  diff_id = str "sha256:2";
  os = none;
  package_infos =
      record {
        file_path = str "lib/apk/db/installed";
        packages = installed_package (str "bash") (str "5.0") [] ∷ [];
      }
      ∷ [];
  applications = [];
  misconfigurations = [];
  opaque_dirs = [];
  whiteout_files = [];
  custom_resources =
      record {
        type = str "test";
        file_path = [];
        layer = no_layer;
        resource_data = External.plain (str "data");
      }
      ∷ [];
}

put_blob-sent_blob_example :
    Client.put_blob pb 2
      (λ req t. over twirp (Server.put_blob pb full_cache req t))
      (str "sha256:2")
      blob
      7
    ≡ context (str "unable to store cache on the server") (
        over twirp
          (context (str "unable to store layer info in cache") (err (message (str "disk full")))))
put_blob-sent_blob_example =
    put_blob-sent_blob pb twirp full_cache 2 (str "sha256:2") blob 7
      (omega arith, ((bash-HasInt32, tt), tt))

abbrev world : World
world = record { db_update = 0; db_open = true; db_file = str "old"; metadata_file = str "1" }

-- The copy of the metadata fails.
abbrev operations : Operations
operations = record {
  needs_update = some true;
  mkdir_temp = none;
  download = none;
  downloaded_db = str "new";
  downloaded_metadata = str "2";
  close = none;
  copy_db = none;
  copy_metadata = some (message (str "disk full"), str "half");
  init = none;
}

hot_update-Outcome_example : Outcome operations world (hot_update operations world)
hot_update-Outcome_example = hot_update-Outcome operations world

-- The worker has its turn before a request arrives.
abbrev replacing : Steps.Server
replacing = record start { worker = drained; db_update = 1 }

replacing-reached : Reaches start replacing
replacing-reached = further (further here (suspend refl)) (drain refl refl)

abbrev one_waits : Steps.Server
one_waits = record replacing { worker = closed; db_open = false; waiting = 1 }

Run-IsQuiet_example : IsQuiet one_waits
Run-IsQuiet_example =
    Run-IsQuiet replacing-reached (inl refl, refl, refl)
      (on (on stay (close refl) (inr refl)) arrive (inr refl))

closed_while_serving_example :
    (s : Steps.Server) × Reaches start s
    × (s.worker ≡ closed)
    × (s.db_open ≡ false)
    × (s.serving ≡ 2)
closed_while_serving_example = closed_while_serving 2

-- Two requests are served and one is about to be.
abbrev busy : Steps.Server
busy = record start { worker = suspended; db_update = 1; passed = 1; serving = 2 }

suspended_drains_example : Drained busy busy
suspended_drains_example = suspended_drains busy refl
