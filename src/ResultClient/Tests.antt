-- ===== src/ResultClient/Tests.antt =====
-- The client on small inputs.
use mathlib.Core.List.{Memᴰ, Perm, reverse, reverse_perm}
use mathlib.Core.List.Memᴰ
use mathlib.Core.List.Perm
use trivy.ResultClient.Vulnerabilities.Complete.{
  IsPlain, SameFinding, filter_vulnerabilities_complete,
}
use trivy.Base.{
  any, ◌≡◌, refl, false, List, [], ◌∷◌, Option, none, some, if◌then◌else◌, keep, ℕ, eqb, arith,
  eqb_iff,
}
use trivy.Base.Text.{Str, str, ◌==◌, contains}
use trivy.Base.TextOrder.{lt}
use trivy.Base.Dict.{lookup, store}
use trivy.Base.Result.{ok, choose}
use trivy.Base.Sort.{sort, IsSorted}
use trivy.External.{Vulnerability, no_vulnerability}
use trivy.Types.{
  DetectedVulnerability, DetectedMisconfiguration, is_empty, by_severity_less, status_passed,
  status_failure,
}
use trivy.Samples.{
  severities, severities-IsRanked, source_ids, bash_high, bash_better, apt_blank, misconf,
}
use trivy.ResultClient.Fill.{fill_one, fill_vulnerability_info}
use trivy.ResultClient.Fill.Laws.{fill_one-first_present, first_present, severity_candidates}
use trivy.ResultClient.Vulnerabilities.{filter_vulnerabilities, default_severity, key}
use trivy.ResultClient.Vulnerabilities.Step.{Admissible}
use trivy.ResultClient.Vulnerabilities.Laws.{filter_vulnerabilities_sound}
use trivy.ResultClient.Misconfigurations.{filter_misconfigurations, empty_summary}
use trivy.ResultClient.Misconfigurations.Laws.{
  filter_misconfigurations-keep, add_counts, is_listed, is_reported,
}
use trivy.ResultClient.Policy.{
  Engine, RegoValue, apply_policy, apply_query, prepare_query, evaluate, policy_loop,
}
use trivy.ResultClient.Filter.{filter, FilterOptions, Filtered, get_ignored_ids, policy_applied}
use trivy.ResultClient.Filter.Order.{filter_deterministic, filter-IsSorted}

program : Unit {0}
unfolding choose filter_vulnerabilities filter_misconfigurations is_empty filter get_ignored_ids
    policy_applied apply_policy apply_query prepare_query evaluate policy_loop sort by_severity_less
    lt ◌==◌ contains lookup store key fill_vulnerability_info
program = tt

abbrev vulns : List DetectedVulnerability
vulns = bash_high ∷ bash_better ∷ apt_blank ∷ []

-- The better fix is kept, and the blank severity is unknown.
filter_vulnerabilities_test :
    filter_vulnerabilities severities false [] (0 ∷ 3 ∷ []) vulns
    ≡ bash_better ∷ default_severity severities apt_blank ∷ []
unfolding program
filter_vulnerabilities_test = refl

abbrev options : FilterOptions
options = record {
  severities = 0 ∷ 3 ∷ [];
  ignore_unfixed = false;
  include_non_failures = false;
  ignore_file = some (str "# none\n\n");
  policy_file = str "policy.rego";
}

-- A policy that ignores nothing.
abbrev engine : Engine
engine = record {
  read_file = λ name. ok (str "package trivy");
  prepare_for_eval = λ policy. ok (λ input. ok ((RegoValue.boolean false ∷ []) ∷ []));
}

abbrev report : Filtered
report = record {
  vulnerabilities = default_severity severities apt_blank ∷ bash_better ∷ [];
  misconf_summary = none;
  misconfigurations = [];
}

filter_test : filter severities engine (λ vs. vs) options vulns [] ≡ ok report
unfolding program
filter_test = refl

-- A database with one vulnerability for every identifier.
abbrev details : Vulnerability
details = record no_vulnerability {
  vendor_severity = (str "nvd", 4) ∷ [];
  references = str "https://example.com" ∷ str "https://www.debian.org/1" ∷ [];
}

abbrev get_vulnerability : Str → Option Vulnerability
get_vulnerability id = some details

abbrev filled : DetectedVulnerability
filled = fill_one severities source_ids get_vulnerability bash_high

fill_one-first_present_example :
    (◌≡◌ {A = Str × Str}
      (filled.severity, filled.severity_source)
      (first_present
        (severity_candidates severities source_ids details bash_high)
        (str "UNKNOWN", [])))
    × (filled.vulnerability ≡ record details { severity = filled.severity; vendor_severity = [] })
fill_one-first_present_example =
    fill_one-first_present severities source_ids get_vulnerability bash_high details refl

abbrev Admitted : DetectedVulnerability → Type 0
Admitted = Admissible severities false [] (0 ∷ 3 ∷ [])

-- Its severity is the second of those asked for.
bash_high-Admissible : Admitted (default_severity severities bash_high)
unfolding default_severity ◌==◌
bash_high-Admissible = record {
  severity = 3;
  listed = Memᴰ.tail (Memᴰ.head refl);
  named = refl;
  fixed = λ e. cc;
  not_ignored = Memᴰ.not-nil;
}

filter_vulnerabilities_sound_example :
    Admitted bash_better
    × ((v : DetectedVulnerability) × Memᴰ v vulns × (bash_better ≡ default_severity severities v))
filter_vulnerabilities_sound_example =
    filter_vulnerabilities_sound severities false [] (0 ∷ 3 ∷ []) vulns bash_better
      (rw filter_vulnerabilities_test (Memᴰ.head refl))

any-mem : (c : ℕ) (s : Str) → any (eqb c) s ≡ false → ¬ Memᴰ c s
any-mem c [] h m = Memᴰ.not-nil m
any-mem c (d ∷ s) h (Memᴰ.head e) = ground (arith, eqb_iff c d, e)
any-mem c (d ∷ s) h (Memᴰ.tail m) = any-mem c s (ground arith) m

vulns-IsPlain : (w : DetectedVulnerability) → Memᴰ w vulns → IsPlain w
vulns-IsPlain w (Memᴰ.head e) = rw e (any-mem _ _ refl, any-mem _ _ refl)
vulns-IsPlain w (Memᴰ.tail (Memᴰ.head e)) = rw e (any-mem _ _ refl, any-mem _ _ refl)
vulns-IsPlain w (Memᴰ.tail (Memᴰ.tail (Memᴰ.head e))) = rw e (any-mem _ _ refl, any-mem _ _ refl)
vulns-IsPlain w (Memᴰ.tail (Memᴰ.tail (Memᴰ.tail i))) = absurd (Memᴰ.not-nil i)

filter_vulnerabilities_complete_example :
    (o : DetectedVulnerability) × Memᴰ o
      (filter_vulnerabilities severities false [] (0 ∷ 3 ∷ []) vulns)
    × SameFinding o bash_high
    × (lt o.fixed_version bash_high.fixed_version ≡ false)
filter_vulnerabilities_complete_example =
    filter_vulnerabilities_complete severities false [] (0 ∷ 3 ∷ []) vulns vulns-IsPlain bash_high
      (Memᴰ.head refl) bash_high-Admissible

abbrev misconfs : List DetectedMisconfiguration
misconfs =
    misconf (str "DS001") (str "HIGH") status_failure
    ∷ misconf (str "DS002") (str "HIGH") status_passed
    ∷ misconf (str "DS003") (str "LOW") status_failure
    ∷ []

filter_misconfigurations-keep_example :
    filter_misconfigurations severities false [] (3 ∷ 4 ∷ []) misconfs ≡ (
      let counts =
        add_counts empty_summary (keep (is_listed severities false [] (3 ∷ 4 ∷ [])) misconfs) in
      if is_empty counts
      then (none, [])
      else (some counts, keep (is_reported severities false [] (3 ∷ 4 ∷ [])) misconfs))
unfolding ◌==◌
filter_misconfigurations-keep_example =
    filter_misconfigurations-keep severities false [] (3 ∷ 4 ∷ []) (refl, (refl, tt)) misconfs

abbrev as_is : List DetectedVulnerability → List DetectedVulnerability
as_is vs = vs

abbrev backwards : List DetectedVulnerability → List DetectedVulnerability
backwards vs = reverse vs

filter_deterministic_example : filter severities engine backwards options vulns [] ≡ ok report
filter_deterministic_example =
    filter_deterministic severities severities-IsRanked engine options vulns [] as_is backwards
      (λ vs. Perm.rfl) reverse_perm filter_test

filter-IsSorted_example :
    IsSorted (by_severity_less severities) report.vulnerabilities
    × ((other : List DetectedVulnerability)
        → Perm other report.vulnerabilities
        → IsSorted (by_severity_less severities) other
        → other ≡ report.vulnerabilities)
filter-IsSorted_example =
    filter-IsSorted severities severities-IsRanked engine options vulns [] as_is (λ vs. Perm.rfl)
      filter_test
