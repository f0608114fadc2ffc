-- ===== src/ResultClient/Filter.antt =====
-- Client.Filter and getIgnoredIDs: the filters, the policy and the order of the report.
pub mod Order
use trivy.Base.{
  Bool, ◌||◌, List, [], ◌∷◌, Option, none, some, if◌then◌else◌, take, length, ◌-◌, map,
}
use trivy.Base.Text.{Str, str, ◌==◌, has_prefix, has_suffix, split, trim_space}
use trivy.Base.Result.{Result, ok, err, panicked, ◌>>=◌, context, choose}
use trivy.Base.Sort.{sort}
use trivy.External.{Severities, Severity}
use trivy.Types.{DetectedVulnerability, DetectedMisconfiguration, MisconfSummary, by_severity_less}
use trivy.ResultClient.Vulnerabilities.{filter_vulnerabilities}
use trivy.ResultClient.Misconfigurations.{filter_misconfigurations}
use trivy.ResultClient.Policy.{Engine, apply_policy}

-- bufio.ScanLines: no line follows the last newline, and a carriage return at a line's end is cut.
drop_last_empty : List Str → List Str
drop_last_empty [] = []
drop_last_empty ([] ∷ []) = []
drop_last_empty (l ∷ ls) = l ∷ drop_last_empty ls

abbrev drop_cr : Str → Str
drop_cr l = if has_suffix l (0x0d ∷ []) then take (length l - 1) l else l

unfoldable pub scan_lines : Str → List Str
unfolding drop_last_empty split has_suffix
scan_lines s = map drop_cr (drop_last_empty (split 0x0a s))

-- The identifier in a line, if there is one.
unfoldable pub line_id : Str → Option Str
unfolding has_prefix trim_space
line_id line =
    let trimmed = trim_space line in
    if has_prefix trimmed (str "#") || trimmed == [] then none else some trimmed

-- getIgnoredIDs, of the contents of the ignore file, `none` if it cannot be opened. The lines are
-- shorter than the 64 KiB at which bufio.Scanner stops.
unfoldable pub get_ignored_ids : Option Str → List Str
unfolding scan_lines line_id
get_ignored_ids none = []
get_ignored_ids (some contents) = choose line_id (scan_lines contents)

-- What Filter is called with, besides what it filters.
pub record FilterOptions : Type 0 where
  pub severities : List Severity
  pub ignore_unfixed : Bool
  pub include_non_failures : Bool
  pub ignore_file : Option Str
  pub policy_file : Str

pub record Filtered : Type 0 where
  pub vulnerabilities : List DetectedVulnerability
  pub misconf_summary : Option MisconfSummary
  pub misconfigurations : List DetectedMisconfiguration

-- The order in which maps.Values returns the values of the map is not specified: it is an argument.
abbrev pub MapOrder : Type 0
MapOrder = List DetectedVulnerability → List DetectedVulnerability

-- `if policyFile != "" { … applyPolicy … }`
unfoldable pub policy_applied :
    Engine
    → Str
    → List DetectedVulnerability
    → List DetectedMisconfiguration
    → Result (List DetectedVulnerability × List DetectedMisconfiguration)
policy_applied engine policy_file vulns misconfs =
    if policy_file == []
    then ok (vulns, misconfs)
    else context (str "failed to apply the policy") (apply_policy engine vulns misconfs policy_file)

unfoldable pub filter :
    Severities
    → Engine
    → MapOrder
    → FilterOptions
    → List DetectedVulnerability
    → List DetectedMisconfiguration
    → Result Filtered
filter db engine order options vulns misconfs =
    let ignored_ids = get_ignored_ids options.ignore_file in
    let filtered_vulns =
      order
        (filter_vulnerabilities db options.ignore_unfixed ignored_ids options.severities vulns) in
    let (summary, filtered_misconfs) =
      filter_misconfigurations db options.include_non_failures ignored_ids options.severities
        misconfs in
    policy_applied engine options.policy_file filtered_vulns filtered_misconfs >>= λ (vs, ms).
    ok (record {
      vulnerabilities = sort (by_severity_less db) vs;
      misconf_summary = summary;
      misconfigurations = ms;
    })
