-- ===== src/Rpc/Convert/Laws.antt =====
-- What the conversions of pkg/rpc/convert.go keep of a package, a vulnerability and a result.
use trivy.Base.{ℕ, ◌<◌, ◌≤◌, ◌≡◌, refl, ap, ◌⊎◌, List, [], ◌∷◌, Option, none, some, map, arith, All}
use trivy.Base.Text.{Str}
use trivy.Base.Dict.{Dict}
use trivy.External
use trivy.External.{Layer, Os, Cvss, DataSource, Custom}
use trivy.Types
use trivy.Types.{DetectedVulnerability}
use trivy.Rpc.Convert.{
  to_int32, from_int32, convert_to_rpc_layer, convert_from_rpc_layer, convert_to_rpc_os,
  convert_from_rpc_os, convert_to_rpc_data_source, convert_from_rpc_data_source, to_pkg, from_pkg,
  convert_to_rpc_pkgs, convert_from_rpc_pkgs,
}
use trivy.Rpc.Convert.Results.{
  Protobuf, to_severity, to_date, from_date, to_custom, convert_cvss, to_vuln, from_vuln,
  to_misconf, from_misconf, convert_to_rpc_vulns, convert_from_rpc_vulns, convert_to_rpc_misconfs,
  convert_from_rpc_misconfs, convert_from_rpc_custom_resources, to_result, from_result,
  no_iac_metadata,
}

-- An int, by the pattern of its 64 bits, that is an int32.
abbrev pub IsInt32 : ℕ → Type 0
IsInt32 n =
    (n < 2_147_483_648) ⊎ (18_446_744_071_562_067_968 ≤ n) × (n < 18_446_744_073_709_551_616)

pub int32_lem : (n : ℕ) → IsInt32 n → from_int32 (to_int32 n) ≡ n
unfolding from_int32 to_int32
int32_lem n h = ground arith

-- What a package keeps on its way through a message.
abbrev pub sent_pkg : External.Package → External.Package
sent_pkg p = record p { modularitylabel = []; build_info = none; file_path = [] }

unfoldable pub HasInt32 : External.Package → Type 0
HasInt32 p = IsInt32 p.epoch × IsInt32 p.src_epoch

from_pkg-to_pkg : (p : External.Package) → HasInt32 p → from_pkg (to_pkg p) ≡ sent_pkg p
unfolding from_pkg to_pkg convert_from_rpc_layer convert_to_rpc_layer HasInt32
from_pkg-to_pkg p (e, s) = rw (int32_lem p.epoch e, int32_lem p.src_epoch s) refl

-- A map after a map, where the elements are known to go round.
pub map-map-All {ℓ κ μ} :
    {A : Type ℓ} {B : Type κ} {C : Type κ} (f : B → C) (g : A → B) (h : A → C) (P : A → Type μ)
    → ((a : A) → P a → f (g a) ≡ h a)
    → (xs : List A) → All P xs
    → map f (map g xs) ≡ map h xs
map-map-All f g h P e [] ps = refl
map-map-All f g h P e (x ∷ xs) ps = rw (e x ps.0, map-map-All f g h P e xs ps.1) refl

-- Packages that go through a message keep all but the module, the build and the path.
pub convert_from_rpc_pkgs-convert_to_rpc_pkgs :
    (pkgs : List External.Package)
    → All HasInt32 pkgs
    → convert_from_rpc_pkgs (convert_to_rpc_pkgs pkgs) ≡ map sent_pkg pkgs
unfolding convert_from_rpc_pkgs convert_to_rpc_pkgs
convert_from_rpc_pkgs-convert_to_rpc_pkgs pkgs h =
    map-map-All from_pkg to_pkg sent_pkg HasInt32 from_pkg-to_pkg pkgs h

layer_lem : (l : Layer) → convert_from_rpc_layer (convert_to_rpc_layer l) ≡ l
unfolding convert_from_rpc_layer convert_to_rpc_layer
layer_lem l = refl

pub os_lem : (os : Option Os) → convert_from_rpc_os (convert_to_rpc_os os) ≡ os
unfolding convert_from_rpc_os convert_to_rpc_os
os_lem none = refl
os_lem (some os) = refl

data_source_lem :
    (ds : Option DataSource) → convert_from_rpc_data_source (convert_to_rpc_data_source ds) ≡ ds
unfolding convert_from_rpc_data_source convert_to_rpc_data_source
data_source_lem none = refl
data_source_lem (some ds) = refl

module _ {T W : Type 0} (pb : Protobuf T W) where
  -- What the documentation of protobuf says: what converts converts back.
  pub record IsFaithful : Type 0 where
    pub timestamp_lem :
        (t : ℕ) (ts : T) → pb.timestamp_proto t ≡ some ts → pb.timestamp (some ts) ≡ t
    pub value_lem : (v : Str) (w : W) → pb.new_value v ≡ some w → pb.as_interface (some w) ≡ some v
    pub nil_lem : pb.as_interface none ≡ none

  abbrev pub IsSentDate : Option ℕ → Type 0
  IsSentDate none = Unit
  IsSentDate (some t) = (ts : T) × (pb.timestamp_proto t ≡ some ts)

  abbrev pub IsSentCustom : Custom → Type 0
  IsSentCustom none = Unit
  IsSentCustom (some v) = (w : W) × (pb.new_value v ≡ some w)

  -- The name of a severity, for trivy-db and for the messages.
  pub record IsSeverity (s : Str) : Type 0 where
    pub number : ℕ
    pub named : pb.db.new_severity s ≡ some number
    pub printed : pb.db.to_string number ≡ s
    pub enumerated : pb.severity_string number ≡ s

  -- The dates and the custom data of the vulnerability convert, and its severity is a name.
  pub record IsSent (v : DetectedVulnerability) : Type 0 where
    pub severity : IsSeverity v.severity
    pub modified : IsSentDate v.vulnerability.last_modified_date
    pub published : IsSentDate v.vulnerability.published_date
    pub advisory_data : IsSentCustom v.custom
    pub details : IsSentCustom v.vulnerability.custom

  -- What a vulnerability keeps on its way through a message.
  abbrev pub sent_vuln : DetectedVulnerability → DetectedVulnerability
  sent_vuln v = record v {
    pkg_path = [];
    vulnerability = record (v.vulnerability) { vendor_severity = [] };
  }

  -- What a misconfiguration keeps.
  abbrev pub sent_misconf : Types.DetectedMisconfiguration → Types.DetectedMisconfiguration
  sent_misconf m = record m { query = []; iac_metadata = no_iac_metadata pb; traces = [] }

  to_severity_lem : (s : Str) (h : IsSeverity s) → to_severity pb s ≡ h.number
  unfolding to_severity
  to_severity_lem s h = rw (h.named, to_severity) refl

  cvss_lem : (xs : Dict Cvss) → map (convert_cvss pb) (map (convert_cvss pb) xs) ≡ xs
  cvss_lem [] = refl
  cvss_lem (x ∷ xs) = ap (◌∷◌ x) (cvss_lem xs)

  module _ (faithful : IsFaithful) where
    date_lem : (d : Option ℕ) → IsSentDate d → from_date pb (to_date pb d) ≡ d
    date_lem none h = refl
    date_lem (some t) (ts, e) = rw e (ap some (faithful.timestamp_lem t ts e))

    custom_lem : (c : Custom) → IsSentCustom c → pb.as_interface (to_custom pb c) ≡ c
    custom_lem none h = faithful.nil_lem
    custom_lem (some v) (w, e) = rw e (faithful.value_lem v w e)

    from_vuln-to_vuln :
        (v : DetectedVulnerability) → IsSent v → from_vuln pb (to_vuln pb v) ≡ sent_vuln v
    unfolding from_vuln to_vuln convert_from_rpc_layer convert_to_rpc_layer
    from_vuln-to_vuln v h =
        rw
          (
            to_severity_lem v.severity h.severity,
            h.severity.printed,
            cvss_lem v.vulnerability.cvss,
            date_lem v.vulnerability.last_modified_date h.modified,
            date_lem v.vulnerability.published_date h.published,
            custom_lem v.custom h.advisory_data,
            custom_lem v.vulnerability.custom h.details,
            data_source_lem v.data_source,
          )
          refl

    from_misconf-to_misconf :
        (m : Types.DetectedMisconfiguration)
        → IsSeverity m.severity
        → from_misconf pb (to_misconf pb m) ≡ sent_misconf m
    unfolding from_misconf to_misconf convert_from_rpc_layer convert_to_rpc_layer
    from_misconf-to_misconf m h = rw (to_severity_lem m.severity h, h.enumerated) refl

  -- The packages, vulnerabilities and misconfigurations of the result can be sent.
  pub record IsSentResult (r : Types.Result) : Type 0 where
    pub packages : All HasInt32 r.packages
    pub vulnerabilities : All IsSent r.vulnerabilities
    pub misconfigurations : All (λ m. IsSeverity m.severity) r.misconfigurations

  -- What a result keeps on its way through a message: the server does not fill the field for custom
  -- resources.
  abbrev pub sent_result : Types.Result → Types.Result
  sent_result r = record r {
    packages = map sent_pkg r.packages;
    vulnerabilities = map sent_vuln r.vulnerabilities;
    misconfigurations = map sent_misconf r.misconfigurations;
    misconf_summary = none;
    custom_resources = [];
  }

  -- A result of a scan comes back from its message without what the messages have no field for, the
  -- paths, modules and builds of packages, the path and the severities of vendors of a vulnerability,
  -- the queries, traces and places of misconfigurations and the summary, and without the custom
  -- resources: the message has a field for them, which the client reads, but the server leaves it
  -- empty.
  pub from_result-to_result :
      IsFaithful
      → (r : Types.Result) → IsSentResult r
      → from_result pb (to_result pb r) ≡ sent_result r
  unfolding from_result to_result convert_from_rpc_vulns convert_to_rpc_vulns
      convert_from_rpc_misconfs convert_to_rpc_misconfs convert_from_rpc_custom_resources
  from_result-to_result faithful r h =
      rw
        (
          convert_from_rpc_pkgs-convert_to_rpc_pkgs r.packages h.packages,
          map-map-All (from_vuln pb) (to_vuln pb) sent_vuln IsSent (from_vuln-to_vuln faithful)
              r.vulnerabilities h.vulnerabilities,
          map-map-All (from_misconf pb) (to_misconf pb) sent_misconf (λ m. IsSeverity m.severity)
              (from_misconf-to_misconf faithful) r.misconfigurations h.misconfigurations,
        )
        refl
