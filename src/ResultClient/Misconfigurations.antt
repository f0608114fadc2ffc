-- ===== src/ResultClient/Misconfigurations.antt =====
-- filterMisconfigurations and summarize: which misconfigurations are reported, and how many checks
-- passed, failed and were excepted.
pub mod Laws
use trivy.Base.{Bool, not, ◌&&◌, List, [], ◌∷◌, ◌++◌, Option, none, some, if◌then◌else◌, ◌+◌}
use trivy.Base.Text.{Str, ◌==◌, contains}
use trivy.External.{Severities, Severity}
use trivy.Types.{
  DetectedMisconfiguration, MisconfStatus, MisconfSummary, is_empty, status_failure, status_passed,
  status_exception,
}

-- *summary = …
unfoldable pub summarize : MisconfStatus → MisconfSummary → MisconfSummary
summarize status summary =
    if status == status_failure
    then record summary { failures = summary.failures + 1 }
    else if status == status_passed
    then record summary { successes = summary.successes + 1 }
    else if status == status_exception
    then record summary { exceptions = summary.exceptions + 1 }
    else summary

abbrev pub empty_summary : MisconfSummary
empty_summary = record { successes = 0; failures = 0; exceptions = 0 }

-- The summary and the slice of results.
abbrev pub State : Type 0
State = MisconfSummary × List DetectedMisconfiguration

module _ (db : Severities) (include_non_failures : Bool) (ignored_ids : List Str) where
  -- The inner loop, over the severities.
  unfoldable pub try_severities : State → DetectedMisconfiguration → List Severity → State
  unfolding summarize
  try_severities st m [] = st
  try_severities (summary, filtered) m (s ∷ ss) =
      let rest = try_severities (summary, filtered) m ss in
      let counted = summarize m.status summary in
      let rest_counted = try_severities (counted, filtered) m ss in
      if db.to_string s == m.severity
      then if contains ignored_ids m.id
        then rest
        else if not (m.status == status_failure) && not include_non_failures
        then rest_counted
        else (counted, filtered ++ m ∷ [])
      else rest

  module _ (severities : List Severity) where
    -- The outer loop, over the misconfigurations.
    unfoldable pub filter_loop : State → List DetectedMisconfiguration → State
    unfolding try_severities
    filter_loop st [] = st
    filter_loop st (m ∷ ms) = filter_loop (try_severities st m severities) ms

    unfoldable pub filter_misconfigurations :
        List DetectedMisconfiguration → Option MisconfSummary × List DetectedMisconfiguration
    unfolding filter_loop
    filter_misconfigurations ms =
        let st = filter_loop (empty_summary, []) ms in
        if is_empty st.0 then (none, []) else (some st.0, st.1)
