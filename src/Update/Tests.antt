-- ===== src/Update/Tests.antt =====
-- The theorems on the database and the policies at concrete files and instants.
use trivy.Base.{◌+◌, ◌≡◌, refl, ◌↔◌, [], none, some, true, false, Option}
use trivy.Base.Text.{Str, str}
use trivy.Base.Result.{ok, err, message}
use trivy.Update.Db
use trivy.Update.Db.{hour, needs_update}
use trivy.Update.Db.Laws
use trivy.Update.Db.Laws.{IsOutdated, needs_update-IsOutdated, needs_update-download}
use trivy.Update.Policy
use trivy.Update.Policy.{update_interval}
use trivy.Update.Policy.Laws.{IsKept, IsStale, needs_update-true}
use trivy.Update.Operation.{download_db}
use trivy.Update.Operation.Laws.{download_db_idem}

-- The files are the metadata.
abbrev metadata_files : Db.MetadataFiles (Option Db.Metadata)
metadata_files = record {
  get = λ dir s. elim s [ none ↦ err (message (str "no metadata")) | some meta ↦ ok meta ];
  update = λ dir meta s. ok (some meta);
  delete = λ dir s. none;
}

abbrev old : Db.Metadata
old = record { version = 1; next_update = 0; updated_at = 0; downloaded_at = 0 }

-- Two hours after the year 0 began.
abbrev db_client : Db.Client (Option Db.Metadata) Str
db_client = record {
  schema_version = 2;
  now = hour + hour;
  cache_dir = str "cache";
  metadata = metadata_files;
  artifact = none;
  new_artifact = ok (str "artifact");
  download = λ artifact dir s. ok (some (record old { version = 2 }));
  db_dir = λ dir. dir;
}

db_client-Lawful : Laws.Lawful db_client
db_client-Lawful = record {
  get_update = λ dir meta s e. cc;
  get_download = λ artifact dir s e. (record old { version = 2 }, cc, refl);
}

needs_update-IsOutdated_example :
    (needs_update db_client false (some old) ≡ ok true) ↔ IsOutdated 2 (hour + hour) old
needs_update-IsOutdated_example = needs_update-IsOutdated db_client (some old) old refl

-- The database that the download leaves.
abbrev new : Option Db.Metadata
new = some (record old { version = 2; downloaded_at = hour + hour })

download_db_idem_example : download_db db_client false new ≡ ok new
unfolding download_db needs_update Db.download
download_db_idem_example = download_db_idem db_client db_client-Lawful false (some old) refl

abbrev policy_files : Policy.PolicyFiles (Option Policy.Metadata)
policy_files = record {
  get = λ s. s;
  create = λ s. ok none;
  encode = λ meta s. ok (some meta);
  open_manifest = λ s. ok [];
  decode_roots = λ content. ok none;
  manifest_path = str "content/.manifest";
  content_dir = str "content";
  join = λ dir name. name;
}

abbrev policy_client : Policy.Client (Option Policy.Metadata) Str
policy_client = record {
  clock_now = 5;
  time_now = 5;
  files = policy_files;
  artifact = none;
  new_artifact = ok (str "bundle");
  download = λ artifact dir s. ok s;
  digest = λ artifact. ok (str "sha256:1");
}

policy_files-IsKept : IsKept policy_client
policy_files-IsKept = λ meta s t e. cc

abbrev day_old : Option Policy.Metadata
day_old = some (record { digest = str "sha256:0"; downloaded_at = 0 })

abbrev next_day : Policy.Client (Option Policy.Metadata) Str
next_day = record policy_client { clock_now = update_interval }

needs_update-true_example :
    (Policy.needs_update next_day day_old ≡ ok (true, day_old))
    ↔ (IsStale next_day day_old × (day_old ≡ day_old))
needs_update-true_example = needs_update-true next_day day_old day_old
