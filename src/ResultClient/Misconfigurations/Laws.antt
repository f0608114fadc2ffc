-- ===== src/ResultClient/Misconfigurations/Laws.antt =====
-- The report of misconfigurations against its specification, by filtering and counting.
use mathlib.Core.List.{append_assoc, append-nil}
use trivy.Base.{
  ℕ, ◌+◌, ◌≡◌, refl, Bool, true, false, not, ◌&&◌, ◌||◌, List, [], ◌∷◌, ◌++◌, none, some,
  if◌then◌else◌, any, keep, arith, inl, inr,
}
use trivy.Base.Text.{Str, ◌==◌, ==_iff, ==_cases, contains}
use trivy.External.{Severities, Severity}
use trivy.Types.{
  DetectedMisconfiguration, MisconfStatus, MisconfSummary, is_empty, status_failure, status_passed,
  status_exception,
}
use trivy.ResultClient.Misconfigurations.{
  State, summarize, empty_summary, try_severities, filter_loop, filter_misconfigurations,
}

-- How many have the status.
pub count_status : MisconfStatus → List DetectedMisconfiguration → ℕ
count_status status [] = 0
count_status status (m ∷ ms) = (if m.status == status then 1 else 0) + count_status status ms

-- The summary of a list, added to another one.
abbrev pub add_counts : MisconfSummary → List DetectedMisconfiguration → MisconfSummary
add_counts s ms = record {
  successes = s.successes + count_status status_passed ms;
  failures = s.failures + count_status status_failure ms;
  exceptions = s.exceptions + count_status status_exception ms;
}

nil_counts :
    (s : MisconfSummary) (filtered : List DetectedMisconfiguration)
    → ◌≡◌ {A = State} (s, filtered) (add_counts s [], filtered ++ [])
unfolding count_status
nil_counts s filtered = ground (arith, append-nil filtered)

-- A status is at most one of the three.
==_excl : (s a b : Str) → (a == b) ≡ false → (s == a) ≡ true → (s == b) ≡ false
==_excl s a b n e = let same : s ≡ a = (==_iff s a).0 e in rw same n

statuses_differ :
    ((status_failure == status_passed) ≡ false)
    × ((status_failure == status_exception) ≡ false)
    × ((status_passed == status_exception) ≡ false)
unfolding ◌==◌
statuses_differ = (refl, refl, refl)

summarize-add_counts :
    (m : DetectedMisconfiguration) (ms : List DetectedMisconfiguration) (s : MisconfSummary)
    → add_counts (summarize m.status s) ms ≡ add_counts s (m ∷ ms)
unfolding summarize count_status
summarize-add_counts m ms s = ground (
  arith,
  ==_excl m.status status_failure status_passed statuses_differ.0,
  ==_excl m.status status_failure status_exception statuses_differ.1,
  ==_excl m.status status_passed status_exception statuses_differ.2,
)

-- No two severities have one name.
abbrev pub Distinct : Severities → List Severity → Type 0
Distinct db [] = Unit
Distinct db (s ∷ ss) = (any (λ t. db.to_string t == db.to_string s) ss ≡ false) × Distinct db ss

module _ (db : Severities) (include_non_failures : Bool) (ignored_ids : List Str) where
  -- A check whose severity is asked for, and that is not ignored.
  abbrev pub is_listed : List Severity → DetectedMisconfiguration → Bool
  is_listed ss m = any (λ s. db.to_string s == m.severity) ss && not (contains ignored_ids m.id)

  -- Of those, the failures, or all of them.
  abbrev pub is_reported : List Severity → DetectedMisconfiguration → Bool
  is_reported ss m = is_listed ss m && (m.status == status_failure || include_non_failures)

  try_severities_unlisted :
      (st : State) (m : DetectedMisconfiguration) (ss : List Severity)
      → any (λ s. db.to_string s == m.severity) ss ≡ false
      → try_severities db include_non_failures ignored_ids st m ss ≡ st
  unfolding try_severities
  try_severities_unlisted st m [] h = refl
  try_severities_unlisted (summary, filtered) m (s ∷ ss) h =
      ground (arith, try_severities_unlisted (summary, filtered) m ss)

  try_severities-is_listed :
      (summary : MisconfSummary) (filtered : List DetectedMisconfiguration)
      (m : DetectedMisconfiguration) (ss : List Severity)
      → Distinct db ss
      → try_severities db include_non_failures ignored_ids (summary, filtered) m ss ≡ (
        if is_listed ss m then summarize m.status summary else summary,
        if is_reported ss m then filtered ++ m ∷ [] else filtered,
      )
  unfolding try_severities
  try_severities-is_listed summary filtered m [] d = refl
  try_severities-is_listed summary filtered m (s ∷ ss) d =
      elim (==_cases (db.to_string s) m.severity) [
        | inl (e, same) ↦
            let none_left : any (λ t. db.to_string t == m.severity) ss ≡ false = rw same at (d.0) in
            ground (
              arith,
              e,
              none_left,
              try_severities_unlisted (summary, filtered) m ss,
              try_severities_unlisted (summarize m.status summary, filtered) m ss,
            )
        | inr (n, other) ↦ ground (arith, n, try_severities-is_listed summary filtered m ss d.1)
      ]

  module _ (severities : List Severity) (d : Distinct db severities) where
    -- What a round adds, by the two tests.
    add_round :
        (summary : MisconfSummary) (filtered ms : List DetectedMisconfiguration)
        (m : DetectedMisconfiguration) (listed reported : Bool)
        (rest shown : List DetectedMisconfiguration)
        → ((s : MisconfSummary) (f : List DetectedMisconfiguration)
            → filter_loop db include_non_failures ignored_ids severities (s, f) ms
              ≡ (add_counts s rest, f ++ shown))
        → filter_loop db include_non_failures ignored_ids severities
            (
              if listed then summarize m.status summary else summary,
              if reported then filtered ++ m ∷ [] else filtered,
            )
            ms
          ≡ (
            add_counts summary (if listed then m ∷ rest else rest),
            filtered ++ (if reported then m ∷ shown else shown),
          )
    add_round summary filtered ms m true true rest shown ih = cc (
      ih (summarize m.status summary) (filtered ++ m ∷ []),
      summarize-add_counts m rest summary,
      append_assoc filtered (m ∷ []) shown,
    )
    add_round summary filtered ms m true false rest shown ih =
        cc (ih (summarize m.status summary) filtered, summarize-add_counts m rest summary)
    add_round summary filtered ms m false true rest shown ih =
        cc (ih summary (filtered ++ m ∷ []), append_assoc filtered (m ∷ []) shown)
    add_round summary filtered ms m false false rest shown ih = ih summary filtered

    filter_loop-add_counts :
        (summary : MisconfSummary) (filtered ms : List DetectedMisconfiguration)
        → filter_loop db include_non_failures ignored_ids severities (summary, filtered) ms ≡ (
          add_counts summary (keep (is_listed severities) ms),
          filtered ++ keep (is_reported severities) ms,
        )
    unfolding filter_loop
    filter_loop-add_counts summary filtered [] = nil_counts summary filtered
    filter_loop-add_counts summary filtered (m ∷ ms) =
        rw (try_severities-is_listed summary filtered m severities d) (
          add_round summary filtered ms m (is_listed severities m) (is_reported severities m)
            (keep (is_listed severities) ms) (keep (is_reported severities) ms)
            (λ s f. filter_loop-add_counts s f ms))

    -- Where no two severities asked for have one name, the summary counts each check whose severity
    -- is asked for and that is not ignored, once, by its status; the failures among them are
    -- reported, or all of them if non-failures are included; and nothing is reported if all three
    -- counts are zero.
    pub filter_misconfigurations-keep :
        (ms : List DetectedMisconfiguration)
        → filter_misconfigurations db include_non_failures ignored_ids severities ms ≡ (
            let counts = add_counts empty_summary (keep (is_listed severities) ms) in
            if is_empty counts then (none, []) else (some counts, keep (is_reported severities) ms))
    unfolding filter_misconfigurations
    filter_misconfigurations-keep ms = rw (filter_loop-add_counts empty_summary [] ms) refl
