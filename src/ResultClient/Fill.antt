-- ===== src/ResultClient/Fill.antt =====
-- FillVulnerabilityInfo: details from the database, the severity and the primary URL.
pub mod Laws
use trivy.Base.{ℕ, Bool, List, [], ◌∷◌, ◌++◌, Option, none, some, if◌then◌else◌, map, not}
use trivy.Base.Text.{Str, str, ◌==◌, has_prefix, to_lower}
use trivy.Base.Dict.{Dict, lookup}
use trivy.External.{Vulnerability, Severities, SourceIds, DataSource}
use trivy.Types.{DetectedVulnerability}

unfoldable pub primary_url_prefixes : SourceIds → Dict (List Str)
primary_url_prefixes ids =
    (ids.debian, str "http://www.debian.org" ∷ str "https://www.debian.org" ∷ [])
    ∷ (ids.ubuntu, str "http://www.ubuntu.com" ∷ str "https://usn.ubuntu.com" ∷ [])
    ∷ (ids.red_hat, str "https://access.redhat.com" ∷ [])
    ∷ (ids.suse_cvrf, str "http://lists.opensuse.org" ∷ str "https://lists.opensuse.org" ∷ [])
    ∷ (
      ids.oracle_oval,
      str "http://linux.oracle.com/errata" ∷ str "https://linux.oracle.com/errata" ∷ [],
    )
    ∷ (ids.nodejs_security_wg, str "https://www.npmjs.com" ∷ str "https://hackerone.com" ∷ [])
    ∷ (ids.ruby_sec, str "https://groups.google.com" ∷ [])
    ∷ []

-- The inner loop: the first reference with the prefix.
unfoldable pub first_ref : Str → List Str → Option Str
first_ref pre [] = none
first_ref pre (ref ∷ refs) =
    let rest = first_ref pre refs in if has_prefix ref pre then some ref else rest

-- The outer loop, over the prefixes.
unfoldable pub first_url : List Str → List Str → Str
unfolding first_ref
first_url [] refs = []
first_url (pre ∷ prefixes) refs = elim (first_ref pre refs) [
  | some ref ↦ ref
  | none ↦ first_url prefixes refs
]

-- A missing key of the map gives the empty list.
abbrev pub prefixes_of : SourceIds → Str → List Str
prefixes_of ids source = elim (lookup source (primary_url_prefixes ids)) [
  | none ↦ []
  | some prefixes ↦ prefixes
]

unfoldable pub get_primary_url : SourceIds → Str → List Str → Str → Str
unfolding primary_url_prefixes first_url
get_primary_url ids vuln_id refs source =
    if has_prefix vuln_id (str "CVE-")
    then str "https://avd.aquasec.com/nvd/" ++ to_lower vuln_id
    else if has_prefix vuln_id (str "RUSTSEC-")
    then str "https://osv.dev/vulnerability/" ++ vuln_id
    else if has_prefix vuln_id (str "GHSA-")
    then str "https://github.com/advisories/" ++ vuln_id
    else if has_prefix vuln_id (str "TEMP-")
    then str "https://security-tracker.debian.org/tracker/" ++ vuln_id
    else first_url (prefixes_of ids source) refs

-- The severity and the source that it comes from.
unfoldable pub get_vendor_severity : Severities → SourceIds → Vulnerability → Str → Str × Str
get_vendor_severity db ids vuln source = elim (lookup source vuln.vendor_severity) [
  | some vs ↦ (db.to_string vs, source)
  | none ↦ elim (lookup ids.nvd vuln.vendor_severity) [
    | some vs ↦ (db.to_string vs, ids.nvd)
    | none ↦ if vuln.severity == [] then (db.to_string db.unknown, []) else (vuln.severity, [])
  ]
]

abbrev pub source_of : DetectedVulnerability → Str
source_of v = elim v.data_source [ none ↦ [] | some source ↦ source.id ]

-- The severity to report: a package-specific one stays.
unfoldable pub select_severity :
    Severities → SourceIds → Vulnerability → DetectedVulnerability → Str × Str
unfolding get_vendor_severity
select_severity db ids vuln v =
    if not (v.severity_source == [])
    then (v.severity, v.severity_source)
    else get_vendor_severity db ids vuln (source_of v)

-- The body of the loop of FillVulnerabilityInfo. `get_vulnerability` is the database's
-- GetVulnerability, `none` on an error.
unfoldable pub fill_one :
    Severities
    → SourceIds
    → (Str → Option Vulnerability)
    → DetectedVulnerability
    → DetectedVulnerability
unfolding select_severity get_primary_url
fill_one db ids get_vulnerability v = elim (get_vulnerability v.vulnerability_id) [
  | none ↦ v
  | some vuln ↦
      let chosen = select_severity db ids vuln v in
      record v {
        severity_source = chosen.1;
        primary_url = get_primary_url ids v.vulnerability_id vuln.references (source_of v);
        vulnerability = record vuln { severity = chosen.0; vendor_severity = [] };
      }
]

-- FillVulnerabilityInfo
unfoldable pub fill_vulnerability_info :
    Severities
    → SourceIds
    → (Str → Option Vulnerability)
    → List DetectedVulnerability
    → List DetectedVulnerability
unfolding fill_one
fill_vulnerability_info db ids get_vulnerability = map (fill_one db ids get_vulnerability)
