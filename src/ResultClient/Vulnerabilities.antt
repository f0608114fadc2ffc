-- ===== src/ResultClient/Vulnerabilities.antt =====
-- filterVulnerabilities and shouldOverwrite: which vulnerabilities are reported, once for each
-- identifier, package and version.
pub mod Step
pub mod Laws
pub mod Complete
use trivy.Base.{Bool, not, ◌&&◌, List, [], ◌∷◌, ◌++◌, Option, none, some, if◌then◌else◌}
use trivy.Base.Text.{Str, str, ◌==◌, contains}
use trivy.Base.TextOrder.{lt}
use trivy.Base.Dict.{Dict, lookup, store, values}
use trivy.External.{Severities, Severity}
use trivy.Types.{DetectedVulnerability, with_severity}

unfoldable pub should_overwrite : DetectedVulnerability → DetectedVulnerability → Bool
should_overwrite old new = lt old.fixed_version new.fixed_version

-- fmt.Sprintf("%s/%s/%s", vuln.VulnerabilityID, vuln.PkgName, vuln.InstalledVersion)
unfoldable pub key : DetectedVulnerability → Str
key v = v.vulnerability_id ++ (str "/" ++ (v.pkg_name ++ (str "/" ++ v.installed_version)))

module _ (db : Severities) where
  unfoldable pub default_severity : DetectedVulnerability → DetectedVulnerability
  default_severity v = if v.severity == [] then with_severity v (db.to_string db.unknown) else v

  module _ (ignore_unfixed : Bool) (ignored_ids : List Str) where
    -- The inner loop, over the severities. `rest` is the next round (`continue`), and a result
    -- without it leaves the loop (`break`).
    unfoldable pub try_severities :
        Dict DetectedVulnerability
        → DetectedVulnerability
        → List Severity
        → Dict DetectedVulnerability
    unfolding should_overwrite
    try_severities uniq v [] = uniq
    try_severities uniq v (s ∷ ss) =
        let rest = try_severities uniq v ss in
        if not (db.to_string s == v.severity)
        then rest
        else if ignore_unfixed && v.fixed_version == []
        then rest
        else if contains ignored_ids v.vulnerability_id
        then rest
        else elim (lookup (key v) uniq) [
          | none ↦ store (key v) v uniq
          | some old ↦ if not (should_overwrite old v) then rest else store (key v) v uniq
        ]

    module _ (severities : List Severity) where
      -- The outer loop, over the vulnerabilities.
      unfoldable pub filter_loop :
          Dict DetectedVulnerability → List DetectedVulnerability → Dict DetectedVulnerability
      unfolding try_severities
      filter_loop uniq [] = uniq
      filter_loop uniq (v ∷ vs) =
          filter_loop (try_severities uniq (default_severity v) severities) vs

      -- The values of the map, in the order of their first insertion: Go's order is any other.
      unfoldable pub filter_vulnerabilities :
          List DetectedVulnerability → List DetectedVulnerability
      unfolding filter_loop default_severity
      filter_vulnerabilities vs = values (filter_loop [] vs)
