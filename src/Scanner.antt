-- ===== src/Scanner.antt =====
-- pkg/scanner/scan.go: a scan of an artifact, and its report.
pub mod Local
pub mod Layers
mod Tests
use trivy.Base.{ℕ, List, [], ◌∷◌, Option, none, some, map, not, if◌then◌else◌}
use trivy.Base.Text.{Str, str, ◌==◌}
use trivy.Base.Result.{Result, ok, err, context, ◌>>=◌}
use trivy.External.{Layer, no_layer, Package, Os}
use trivy.Types
use trivy.Types.{DetectedVulnerability, DetectedMisconfiguration, ScanOptions}

-- fanal's types.ArtifactReference
pub record ArtifactReference : Type 0 where
  pub name : Str
  pub type : Str
  pub id : Str
  pub blob_ids : List Str
  pub image_id : Str
  pub diff_ids : List Str
  pub repo_tags : List Str
  pub repo_digests : List Str

-- pkg/types/report.go, without the image's configuration file, which is only passed on. The size is
-- an int64 that is not negative.
pub record Metadata : Type 0 where
  pub size : ℕ
  pub os : Option Os
  pub image_id : Str
  pub diff_ids : List Str
  pub repo_tags : List Str
  pub repo_digests : List Str

pub record Report : Type 0 where
  pub schema_version : ℕ
  pub artifact_name : Str
  pub artifact_type : Str
  pub metadata : Metadata
  pub results : List Types.Result

-- Scanner: its artifact's Inspect and its driver's Scan, and fanal's ArtifactContainerImage
pub record Scanner : Type 0 where
  pub inspect : Result ArtifactReference
  pub scan : Str → Str → List Str → ScanOptions → Result (List Types.Result × Option Os)
  pub container_image : Str

abbrev pub unlayer_package : Package → Package
unlayer_package p = record p { layer = no_layer }

abbrev pub unlayer_vulnerability : DetectedVulnerability → DetectedVulnerability
unlayer_vulnerability v = record v { layer = no_layer }

abbrev pub unlayer_misconfiguration : DetectedMisconfiguration → DetectedMisconfiguration
unlayer_misconfiguration m = record m { layer = no_layer }

abbrev pub without_layer : Types.Result → Types.Result
without_layer result = record result {
  packages = map unlayer_package result.packages;
  vulnerabilities = map unlayer_vulnerability result.vulnerabilities;
  misconfigurations = map unlayer_misconfiguration result.misconfigurations;
}

-- removeLayer
unfoldable pub remove_layer : List Types.Result → List Types.Result
remove_layer results = map without_layer results

-- report.SchemaVersion
abbrev pub schema_version : ℕ
schema_version = 2

-- Scanner.ScanArtifact
unfoldable pub scan_artifact : Scanner → ScanOptions → Result Report
unfolding remove_layer
scan_artifact s options = do
  info ← context (str "failed analysis") s.inspect
  found ← context (str "scan failed") (s.scan info.name info.id info.blob_ids options)
  let results = if not (info.type == s.container_image) then remove_layer found.0 else found.0
  ok (record {
    schema_version = schema_version;
    artifact_name = info.name;
    artifact_type = info.type;
    metadata = record {
      size = 0;
      os = found.1;
      image_id = info.image_id;
      diff_ids = info.diff_ids;
      repo_tags = info.repo_tags;
      repo_digests = info.repo_digests;
    };
    results = results;
  })
