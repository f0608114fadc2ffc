-- ===== src/ResultClient/Policy.antt =====
-- applyPolicy and evaluate: a Rego policy decides what else is ignored. The policy engine is a
-- parameter: it reads the file, prepares the query `data.trivy.ignore` together with the built-in
-- library of module.go, and evaluates the query on an input.
pub mod Laws
use trivy.Base.{Bool, true, false, List, [], ◌∷◌, ◌++◌, if◌then◌else◌}
use trivy.Base.Text.{Str, str}
use trivy.Base.Result.{Result, ok, err, panicked, ◌>>=◌, context, Error}
use trivy.Types.{DetectedVulnerability, DetectedMisconfiguration}

pub data RegoValue : Type 0 where
  boolean : Bool → RegoValue
  other : RegoValue

-- The results of a query, each with the values of its expressions.
abbrev pub ResultSet : Type 0
ResultSet = List (List RegoValue)

pub data Input : Type 0 where
  vulnerability : DetectedVulnerability → Input
  misconfiguration : DetectedMisconfiguration → Input

abbrev pub Query : Type 0
Query = Input → Result ResultSet

pub record Engine : Type 0 where
  pub read_file : Str → Result Str
  pub prepare_for_eval : Str → Result Query

-- results[0].Expressions[0].Value.(bool)
unfoldable pub ignore_of : ResultSet → Result Bool
ignore_of [] = ok false
ignore_of ([] ∷ results) = panicked
ignore_of ((boolean b ∷ values) ∷ results) = ok b
ignore_of ((other ∷ values) ∷ results) = err (Error.message (str "the policy must return boolean"))

unfoldable pub evaluate : Query → Input → Result Bool
unfolding ignore_of
evaluate query input = do
  results ← context (str "unable to evaluate the policy") (query input)
  ignore_of results

-- The two loops of applyPolicy.
unfoldable pub policy_loop : {A : Type 0} → (A → Result Bool) → List A → List A → Result (List A)
policy_loop ignores filtered [] = ok filtered
policy_loop ignores filtered (x ∷ xs) = do
  ignored ← ignores x
  policy_loop ignores (if ignored then filtered else filtered ++ x ∷ []) xs

-- The query of a policy file.
unfoldable pub prepare_query : Engine → Str → Result Query
prepare_query engine policy_file = do
  policy ← context (str "unable to read the policy file") (engine.read_file policy_file)
  context (str "unable to prepare for eval") (engine.prepare_for_eval policy)

-- The loops over the vulnerabilities and over the misconfigurations.
unfoldable pub apply_query :
    Query
    → List DetectedVulnerability
    → List DetectedMisconfiguration
    → Result (List DetectedVulnerability × List DetectedMisconfiguration)
apply_query query vulns misconfs = do
  filtered_vulns ← policy_loop (λ v. evaluate query (vulnerability v)) [] vulns
  filtered_misconfs ← policy_loop (λ m. evaluate query (misconfiguration m)) [] misconfs
  ok (filtered_vulns, filtered_misconfs)

unfoldable pub apply_policy :
    Engine
    → List DetectedVulnerability
    → List DetectedMisconfiguration
    → Str
    → Result (List DetectedVulnerability × List DetectedMisconfiguration)
apply_policy engine vulns misconfs policy_file = do
  query ← prepare_query engine policy_file
  apply_query query vulns misconfs
