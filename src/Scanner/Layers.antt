-- ===== src/Scanner/Layers.antt =====
-- The report of a scan of pkg/scanner/scan.go names layers only for container images.
use trivy.Base.{mem-map, ap, ◌≡◌, inl, inr, false, List, Option, map, ap}
use trivy.Base.Text.{str, ◌==◌}
use trivy.Base.Result.{ok, err, wrap, panicked, Result-cases}
use trivy.External.{no_layer, Package, Os}
use trivy.Types
use trivy.Types.{DetectedVulnerability, DetectedMisconfiguration, ScanOptions}
use trivy.Scanner.{
  Scanner, Report, remove_layer, without_layer, unlayer_package, unlayer_vulnerability,
  unlayer_misconfiguration, scan_artifact, ArtifactReference, schema_version,
}
use mathlib.Core.List.{Memᴰ}

-- No package, vulnerability or misconfiguration of the result is in a layer.
pub record HasNoLayer (r : Types.Result) : Type 0 where
  pub packages : (p : Package) → Memᴰ p r.packages → p.layer ≡ no_layer
  pub vulnerabilities : (v : DetectedVulnerability) → Memᴰ v r.vulnerabilities → v.layer ≡ no_layer
  pub misconfigurations :
      (m : DetectedMisconfiguration) → Memᴰ m r.misconfigurations → m.layer ≡ no_layer

without_layer-HasNoLayer : (r : Types.Result) → HasNoLayer (without_layer r)
without_layer-HasNoLayer r = record {
  packages = λ p m. let (a, _, e) = mem-map unlayer_package r.packages m in ap (λ x. x.layer) e;
  vulnerabilities = λ v m.
      let (a, _, e) = mem-map unlayer_vulnerability r.vulnerabilities m in ap (λ x. x.layer) e;
  misconfigurations = λ v m.
      let (a, _, e) = mem-map unlayer_misconfiguration r.misconfigurations m in ap (λ x. x.layer) e;
}

abbrev pub report_of : ArtifactReference → Option Os → List Types.Result → Report
report_of info os results = record {
  schema_version = schema_version;
  artifact_name = info.name;
  artifact_type = info.type;
  metadata = record {
    size = 0;
    os = os;
    image_id = info.image_id;
    diff_ids = info.diff_ids;
    repo_tags = info.repo_tags;
    repo_digests = info.repo_digests;
  };
  results = results;
}

-- The report of an artifact that is no container image names no layer, whatever the driver found.
pub scan_artifact-HasNoLayer :
    (s : Scanner) (options : ScanOptions) (info : ArtifactReference) {report : Report}
    → s.inspect ≡ ok info
    → (info.type == s.container_image) ≡ false
    → scan_artifact s options ≡ ok report
    → (r : Types.Result) → Memᴰ r report.results
    → HasNoLayer r
unfolding scan_artifact remove_layer
scan_artifact-HasNoLayer s options info {report} i n e r m =
    elim (Result-cases (s.scan info.name info.id info.blob_ids options)) [
      | inl (found, g) ↦
          let e' : ok (report_of info found.1 (map without_layer found.0)) ≡ ok report =
            rw (i, g, n) at e in
          let same : report.results ≡ map without_layer found.0 = cc in
          let (a, _, k) = mem-map without_layer found.0 (rw same at m) in
          rw k (without_layer-HasNoLayer a)
      | inr (inl (x, g)) ↦
          absurd (let e' : err (wrap (str "scan failed") x) ≡ ok report = rw (i, g) at e in cc)
      | inr (inr g) ↦ absurd (let e' : panicked ≡ ok report = rw (i, g) at e in cc)
    ]
