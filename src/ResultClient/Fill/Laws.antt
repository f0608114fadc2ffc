-- ===== src/ResultClient/Fill/Laws.antt =====
-- Which severity and which URL FillVulnerabilityInfo chooses.
use mathlib.Core.List.{Memᴰ}
use mathlib.Core.List.Memᴰ
use trivy.Base.{
  ◌≡◌, refl, ◌⊎◌, inl, inr, List, [], ◌∷◌, Option, none, some, true, false, if◌then◌else◌, arith,
  Option-cases, Bool-cases,
}
use trivy.Base.Text.{Str, str, ◌==◌, ==_cases, has_prefix}
use trivy.Base.Dict.{lookup}
use trivy.External.{Vulnerability, Severities, SourceIds}
use trivy.Types.{DetectedVulnerability}
use trivy.ResultClient.Fill.{
  first_ref, first_url, prefixes_of, get_primary_url, source_of, select_severity, fill_one,
  fill_vulnerability_info,
}

-- The first candidate that is there.
pub first_present : List (Option (Str × Str)) → Str × Str → Str × Str
first_present [] default = default
first_present (none ∷ cs) default = first_present cs default
first_present (some c ∷ cs) default = c

-- A severity with the name of its source, unless the text is empty.
abbrev pub unless_empty : Str → Str × Str → Option (Str × Str)
unless_empty s c = if s == [] then none else some c

abbrev pub by_vendor : Severities → Vulnerability → Str → Option (Str × Str)
by_vendor db vuln source = elim (lookup source vuln.vendor_severity) [
  | none ↦ none
  | some vs ↦ some (db.to_string vs, source)
]

-- What the detector chose for the package, else the vendor's severity, else NVD's, else that of the
-- details, which names no source, and else the unknown severity.
abbrev pub severity_candidates :
    Severities → SourceIds → Vulnerability → DetectedVulnerability → List (Option (Str × Str))
severity_candidates db ids vuln v =
    unless_empty v.severity_source (v.severity, v.severity_source)
    ∷ by_vendor db vuln (source_of v)
    ∷ by_vendor db vuln ids.nvd
    ∷ unless_empty vuln.severity (vuln.severity, [])
    ∷ []

select_severity-first_present :
    (db : Severities) (ids : SourceIds) (vuln : Vulnerability) (v : DetectedVulnerability)
    → select_severity db ids vuln v
      ≡ first_present (severity_candidates db ids vuln v) (db.to_string db.unknown, [])
unfolding select_severity first_present
select_severity-first_present db ids vuln v = ground arith

-- The details that the database has of a vulnerability replace those of the detector, and the
-- reported severity, with its source, is the first of the candidates that is there.
pub fill_one-first_present :
    (db : Severities) (ids : SourceIds) (get_vulnerability : Str → Option Vulnerability)
    (v : DetectedVulnerability) (vuln : Vulnerability)
    → get_vulnerability v.vulnerability_id ≡ some vuln
    → let w = fill_one db ids get_vulnerability v in
      (◌≡◌ {A = Str × Str}
        (w.severity, w.severity_source)
        (first_present (severity_candidates db ids vuln v) (db.to_string db.unknown, [])))
      × (w.vulnerability ≡ record vuln { severity = w.severity; vendor_severity = [] })
unfolding fill_one
fill_one-first_present db ids get_vulnerability v vuln e =
    (rw (e, fill_one) (select_severity-first_present db ids vuln v), rw (e, fill_one) refl)

-- A second choice, from the results of the first, is the same.
select_again :
    (db : Severities) (ids : SourceIds) (vuln : Vulnerability) (v w : DetectedVulnerability)
    → w.severity ≡ (select_severity db ids vuln v).0
    → w.severity_source ≡ (select_severity db ids vuln v).1
    → source_of w ≡ source_of v
    → select_severity db ids vuln w ≡ select_severity db ids vuln v
unfolding select_severity
select_again db ids vuln v w es ess eso = elim (==_cases v.severity_source []) [
  | inl (t, same) ↦ elim (==_cases w.severity_source []) [
    | inl (t', same') ↦ ground (arith, t, t')
    | inr (n, other) ↦ ground (arith, t, n)
  ]
  | inr (n, other) ↦ ground (arith, n)
]

fill_one_idem :
    (db : Severities) (ids : SourceIds) (get_vulnerability : Str → Option Vulnerability)
    (v : DetectedVulnerability)
    → fill_one db ids get_vulnerability (fill_one db ids get_vulnerability v)
      ≡ fill_one db ids get_vulnerability v
unfolding fill_one
fill_one_idem db ids get_vulnerability v =
    elim (Option-cases (get_vulnerability v.vulnerability_id)) [
      | inl e ↦
          let same : fill_one db ids get_vulnerability v ≡ v = rw (e, fill_one) in rw same same
      | inr (vuln, e) ↦
          let w = fill_one db ids get_vulnerability v in
          ground (arith, e, select_again db ids vuln v w)
    ]

-- Filling in twice is filling in once, from the same database.
pub fill_vulnerability_info_idem :
    (db : Severities) (ids : SourceIds) (get_vulnerability : Str → Option Vulnerability)
    (vs : List DetectedVulnerability)
    → fill_vulnerability_info db ids get_vulnerability
        (fill_vulnerability_info db ids get_vulnerability vs)
      ≡ fill_vulnerability_info db ids get_vulnerability vs
unfolding fill_vulnerability_info
fill_vulnerability_info_idem db ids get_vulnerability [] = refl
fill_vulnerability_info_idem db ids get_vulnerability (v ∷ vs) = cc (
  fill_one_idem db ids get_vulnerability v,
  fill_vulnerability_info_idem db ids get_vulnerability vs,
)

first_ref-none :
    (pre : Str) (refs : List Str) (ref : Str)
    → first_ref pre refs ≡ none
    → Memᴰ ref refs
    → has_prefix ref pre ≡ false
unfolding first_ref
first_ref-none pre [] ref e m = elim m [ ]
first_ref-none pre (r ∷ refs) ref e (Memᴰ.head same) = rw same (ground arith)
first_ref-none pre (r ∷ refs) ref e (Memᴰ.tail m) = first_ref-none pre refs ref (ground arith) m

first_ref-some :
    (pre : Str) (refs : List Str) {ref : Str}
    → first_ref pre refs ≡ some ref
    → Memᴰ ref refs × (has_prefix ref pre ≡ true)
unfolding first_ref
first_ref-some pre [] e = absurd (cc)
first_ref-some pre (r ∷ refs) {ref} e = elim (Bool-cases (has_prefix r pre)) [
  | inl t ↦ let same : ref ≡ r = ground arith in (Memᴰ.head same, rw same t)
  | inr f ↦ let (m, h) = first_ref-some pre refs (ground arith) in (Memᴰ.tail m, h)
]

-- A URL that begins with one of the prefixes, from the references; or none of them does.
abbrev pub FirstUrl : List Str → List Str → Str → Type 0
FirstUrl prefixes refs url =
    (url ≡ []) × ((pre ref : Str) → Memᴰ pre prefixes → Memᴰ ref refs → has_prefix ref pre ≡ false)
    ⊎ ((pre : Str) × Memᴰ pre prefixes × Memᴰ url refs × (has_prefix url pre ≡ true))

FirstUrl-cons :
    (p : Str) (ps refs : List Str) (url : Str)
    → ((ref : Str) → Memᴰ ref refs → has_prefix ref p ≡ false)
    → FirstUrl ps refs url
    → FirstUrl (p ∷ ps) refs url
FirstUrl-cons p ps refs url h (inl (e, none_fits)) = inl (
  e,
  λ pre ref m n. elim (Memᴰ.cases_cons m) [
    | inl same ↦ rw same (h ref n)
    | inr later ↦ none_fits pre ref later n
  ],
)
FirstUrl-cons p ps refs url h (inr (pre, m, n, fits)) = inr (pre, Memᴰ.tail m, n, fits)

first_url-FirstUrl : (prefixes refs : List Str) → FirstUrl prefixes refs (first_url prefixes refs)
unfolding first_url
first_url-FirstUrl [] refs = inl (refl, λ pre ref m n. absurd (Memᴰ.not-nil m))
first_url-FirstUrl (p ∷ ps) refs = elim (Option-cases (first_ref p refs)) [
  | inr (ref, e) ↦
      let (m, h) = first_ref-some p refs e in rw (e, first_url) (inr (p, Memᴰ.head refl, m, h))
  | inl e ↦
      rw (e, first_url)
        (FirstUrl-cons p ps refs _ (λ ref. first_ref-none p refs ref e)
          (first_url-FirstUrl ps refs))
]

-- Where the identifier has none of the four known prefixes, the URL is empty, and no reference
-- begins with a prefix of the source, or it is a reference that does.
pub get_primary_url-FirstUrl :
    (ids : SourceIds) (vuln_id : Str) (refs : List Str) (source : Str)
    → has_prefix vuln_id (str "CVE-") ≡ false
    → has_prefix vuln_id (str "RUSTSEC-") ≡ false
    → has_prefix vuln_id (str "GHSA-") ≡ false
    → has_prefix vuln_id (str "TEMP-") ≡ false
    → FirstUrl (prefixes_of ids source) refs (get_primary_url ids vuln_id refs source)
unfolding get_primary_url
get_primary_url-FirstUrl ids vuln_id refs source c r g t =
    rw (c, r, g, t) (first_url-FirstUrl (prefixes_of ids source) refs)
