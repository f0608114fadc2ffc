-- ===== src/Report/Tests.antt =====
-- The theorems on the writers at concrete results.
use trivy.Base.{
  ap, inl, inr, Bool-cases, List, ◌≡◌, ◌↔◌, true, ◌++◌, refl, [], ◌∷◌, none, false, All,
  if◌then◌else◌, List, ap, Bool-cases, inl, inr,
}
use trivy.Base.Text.{Str, str, contains, ◌==◌}
use trivy.Types
use trivy.Samples.{severities, bash_high, apt_blank, misconf}
use trivy.Report.Sarif.{Run}
use trivy.Report.Sarif.Write.{write}
use trivy.Report.Sarif
use trivy.Report.Sarif.Laws.{ids, IsLawful, IsIndexed, write-IsIndexed}
use trivy.Base.Result.{ok, err, message, Error}
use trivy.Base.State.{done}
use trivy.Report.Cyclonedx.Tests.{libraries, report}
use trivy.Report.Writer
use trivy.Report.Writer.Laws.{formats, HasContext, write-unknown}
use mathlib.Core.List.{Memᴰ}
use trivy.Report.Table
use trivy.Report.Table.{new_table, summary, write_vulnerabilities}
use trivy.Report.Table.Laws.{summary-tally}

abbrev no_rule : Sarif.Rule
no_rule = record {
  id = [];
  name = [];
  description = [];
  full_description = [];
  help_text = [];
  help_markdown = [];
  level = [];
  tags = [];
  security_severity = [];
  help_uri = [];
}

add_rule : Str → (Sarif.Rule → Sarif.Rule) → List Sarif.Rule → List Sarif.Rule
add_rule id fill [] = fill (record no_rule { id = id }) ∷ []
add_rule id fill (r ∷ rules) =
    let rest = add_rule id fill rules in if r.id == id then fill r ∷ rules else r ∷ rest

abbrev sarif : Sarif.Libraries
unfolding add_rule
sarif = record {
  add_rule = add_rule;
  find_path = λ s. none;
  escape_string = λ s. s;
  one_decimal = λ s. s;
}

sarif-IsLawful : IsLawful sarif
unfolding add_rule contains
sarif-IsLawful id fill [] h = ap (λ x. x ∷ []) (h (record no_rule { id = id }))
sarif-IsLawful id fill (r ∷ rules) h = elim (Bool-cases (r.id == id)) [
  | inl t ↦ rw t (ap (λ x. x ∷ ids rules) (h r))
  | inr f ↦
      let rest = sarif-IsLawful id fill rules h in
      elim (Bool-cases (contains (ids rules) id)) [
        | inl g ↦ rw (f, g) (ap (◌∷◌ r.id) (rw g at rest))
        | inr g ↦ rw (f, g) (ap (◌∷◌ r.id) (rw g at rest))
      ]
]

abbrev result : Types.Result
result = record {
  target = str "alpine:3.15";
  class = str "os-pkgs";
  type = str "alpine";
  packages = [];
  vulnerabilities = bash_high ∷ apt_blank ∷ bash_high ∷ [];
  misconf_summary = none;
  misconfigurations = misconf (str "DS001") (str "HIGH") (str "FAIL") ∷ [];
  custom_resources = [];
}

write-IsIndexed_example :
    All
      (IsIndexed (ids (write sarif (result ∷ result ∷ [])).rules))
      (write sarif (result ∷ result ∷ [])).results
write-IsIndexed_example = write-IsIndexed sarif sarif-IsLawful (result ∷ result ∷ [])

abbrev colors : Table.Libraries
colors = record {
  severities = severities;
  severity_names = str "UNKNOWN" ∷ str "LOW" ∷ str "MEDIUM" ∷ str "HIGH" ∷ str "CRITICAL" ∷ [];
  colorize_severity = λ s. s;
  green = λ s. s;
  magenta = λ s. s;
  red = λ s. s;
  blue = λ s. s;
}

abbrev table_writer : Table.TableWriter
table_writer = record {
  severities = 3 ∷ 4 ∷ [];
  is_stdout = false;
  include_non_failures = false;
  trace = false;
}

summary-tally_example :
    (summary colors table_writer
      (write_vulnerabilities colors table_writer result.vulnerabilities new_table).0).0
    ≡ 2
unfolding contains ◌==◌
summary-tally_example =
    summary-tally colors table_writer result.vulnerabilities new_table
      (refl, (refl, (refl, (refl, (refl, tt)))))

abbrev writers : Writer.Libraries Unit
writers = record {
  table = colors;
  sarif = sarif;
  cyclonedx = libraries;
  marshal_indent = λ r. ok r.artifact_name;
  read_file = λ path. ok path;
  base = λ path. path;
  parse_template = λ content. ok tt;
  execute = λ template results. ok [];
  new_sarif = ok done;
  pretty_write = λ run. ok [];
  fprintln = λ s. ok s;
}

abbrev xml : Writer.Option
xml = record {
  format = str "xml";
  is_stdout = true;
  severities = 3 ∷ [];
  output_template = [];
  app_version = [];
  include_non_failures = false;
  trace = false;
}

write-unknown_example :
    ((Writer.write writers [] xml report ≡ err (message (str "unknown format: " ++ xml.format)))
      ↔ ¬ Memᴰ xml.format formats)
    × ((e : Error)
        → Memᴰ xml.format formats
        → Writer.write writers [] xml report ≡ err e
        → HasContext writers xml e)
write-unknown_example = write-unknown writers [] xml report
