-- ===== src/Report/Sarif.antt =====
-- pkg/report/sarif.go: the rules and the results of a report in the format SARIF.
pub mod Write
pub mod Laws
use trivy.Base.{
  ℕ, Bool, not, List, [], ◌∷◌, ◌++◌, Option, none, some, if◌then◌else◌, length, map, eqb,
}
use trivy.Base.Text.{Str, str, ◌==◌, join}
use trivy.Base.Dict.{Dict, lookup, store}
use trivy.External.{Cvss}
use trivy.Types
use trivy.Types.{
  DetectedVulnerability, DetectedMisconfiguration, class_os_pkg, class_lang_pkg, class_config,
}

pub record SarifData : Type 0 where
  pub title : Str
  pub vulnerability_id : Str
  pub full_description : Str
  pub help_text : Str
  pub help_markdown : Str
  pub resource_class : Str
  pub severity : Str
  pub url : Str
  pub result_index : ℕ
  pub artifact_location : Str
  pub message : Str
  pub cvss_score : Str

-- go-sarif's ReportingDescriptor and Result, with the fields that are set here
pub record Rule : Type 0 where
  pub id : Str
  pub name : Str
  pub description : Str
  pub full_description : Str
  pub help_text : Str
  pub help_markdown : Str
  pub level : Str
  pub tags : List Str
  pub security_severity : Str
  pub help_uri : Str

pub record RuleResult : Type 0 where
  pub rule_id : Str
  pub rule_index : ℕ
  pub message : Str
  pub level : Str
  pub location : Str

pub record Run : Type 0 where
  pub rules : List Rule
  pub results : List RuleResult

-- go-sarif's AddRule with what is set on the rule that it returns; the path that pathRegex finds;
-- html.EscapeString; and a score with one decimal, %.1f
pub record Libraries : Type 0 where
  pub add_rule : Str → (Rule → Rule) → List Rule → List Rule
  pub find_path : Str → Option Str
  pub escape_string : Str → Str
  pub one_decimal : Str → Str

-- toSarifRuleName
unfoldable pub to_sarif_rule_name : Str → Str
to_sarif_rule_name class =
    if class == class_os_pkg
    then str "OsPackageVulnerability"
    else if class == class_lang_pkg
    then str "LanguageSpecificPackageVulnerability"
    else if class == class_config
    then str "Misconfiguration"
    else str "UnknownIssue"

-- toSarifErrorLevel
unfoldable pub to_sarif_error_level : Str → Str
to_sarif_error_level severity =
    if severity == str "CRITICAL"
    then str "error"
    else if severity == str "HIGH"
    then str "error"
    else if severity == str "MEDIUM"
    then str "warning"
    else if severity == str "LOW"
    then str "note"
    else if severity == str "UNKNOWN"
    then str "note"
    else str "none"

-- severityToScore
unfoldable pub severity_to_score : Str → Str
severity_to_score severity =
    if severity == str "CRITICAL"
    then str "9.5"
    else if severity == str "HIGH"
    then str "8.0"
    else if severity == str "MEDIUM"
    then str "5.5"
    else if severity == str "LOW"
    then str "2.0"
    else str "0.0"

-- getRuleIndex: the index, and the map
unfoldable pub get_rule_index : Str → Dict ℕ → ℕ × Dict ℕ
get_rule_index id indexes = elim (lookup id indexes) [
  | some i ↦ (i, indexes)
  | none ↦ (length indexes, store id (length indexes) indexes)
]

-- The fields that addSarifRule sets.
abbrev pub fill_rule : SarifData → Rule → Rule
fill_rule rule_data r = record r {
  name = to_sarif_rule_name rule_data.resource_class;
  description = rule_data.vulnerability_id;
  full_description = rule_data.full_description;
  help_text = rule_data.help_text;
  help_markdown = rule_data.help_markdown;
  level = to_sarif_error_level rule_data.severity;
  tags = rule_data.title ∷ str "security" ∷ rule_data.severity ∷ [];
  security_severity = rule_data.cvss_score;
  help_uri = if not (rule_data.url == []) then rule_data.url else r.help_uri;
}

module _ (l : Libraries) where
  -- SarifWriter.addSarifRule
  unfoldable pub add_sarif_rule : SarifData → Run → Run
  add_sarif_rule rule_data run = record run {
    rules = l.add_rule rule_data.vulnerability_id (fill_rule rule_data) run.rules;
  }

  -- SarifWriter.addSarifResult
  unfoldable pub add_sarif_result : SarifData → Run → Run
  unfolding add_sarif_rule
  add_sarif_result rule_data run =
      let added = add_sarif_rule rule_data run in
      record added {
        results =
            added.results
            ++ record {
              rule_id = rule_data.vulnerability_id;
              rule_index = rule_data.result_index;
              message = rule_data.message;
              level = to_sarif_error_level rule_data.severity;
              location = rule_data.artifact_location;
            }
              ∷ [];
      }

  -- toPathUri
  unfoldable pub to_path_uri : Str → Str
  to_path_uri input =
      let path : Str = elim (l.find_path input) [ none ↦ input | some p ↦ p ] in
      map (λ c. if eqb c b'\\' then b'/' else c) path

  -- getCVSSScore
  unfoldable pub get_cvss_score : DetectedVulnerability → Str
  unfolding severity_to_score
  get_cvss_score vuln = elim (lookup vuln.severity_source vuln.vulnerability.cvss) [
    | some cvss ↦ l.one_decimal cvss.v3_score
    | none ↦ severity_to_score vuln.vulnerability.severity
  ]
