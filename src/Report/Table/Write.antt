-- ===== src/Report/Table/Write.antt =====
-- pkg/report/table.go: what is written of a result, to the standard output and to the output.
use trivy.Base.{
  ℕ, zero, suc, ◌+◌, not, ◌&&◌, List, [], ◌∷◌, ◌++◌, Option, none, some, if◌then◌else◌, length, map,
  ltb, eqb,
}
use trivy.Base.Text.{Str, str, ◌==◌, join, decimal}
use trivy.Base.Dict.{Dict}
use trivy.Types
use trivy.Types.{MisconfSummary, DetectedMisconfiguration, status_failure, class_os_pkg}
use trivy.Report.Table.{
  Libraries, TableWriter, Table, new_table, write_vulnerabilities, write_misconfigurations, summary,
}

-- What fmt prints to the standard output, the table that is rendered to the output (with merged cells
-- and lines between the rows), and the traces that follow it there.
pub record Written : Type 0 where
  pub printed : Str
  pub rendered : Option Table
  pub traces : Str

-- The number of bytes of a string.
unfoldable pub byte_length : Str → ℕ
byte_length [] = 0
byte_length (c ∷ s) =
    (if ltb c 0x80 then 1 else if ltb c 0x800 then 2 else if ltb c 0x10000 then 3 else 4)
    + byte_length s

-- strings.Repeat
unfoldable pub repeat : Str → ℕ → Str
repeat s zero = []
repeat s (suc n) = s ++ repeat s n

module _ (l : Libraries) (tw : TableWriter) where
  -- The severities that are counted, and the table.
  unfoldable pub count_severities : Types.Result → Dict ℕ × Table
  unfolding write_vulnerabilities write_misconfigurations
  count_severities result =
      if not (eqb (length result.vulnerabilities) 0)
      then write_vulnerabilities l tw result.vulnerabilities new_table
      else if not (eqb (length result.misconfigurations) 0)
      then write_misconfigurations l tw result.misconfigurations new_table
      else ([], new_table)

  abbrev pub title_of : Types.Result → Str
  title_of result =
      if not (result.class == class_os_pkg)
      then result.target ++ (str " (" ++ (result.type ++ str ")"))
      else result.target

  abbrev pub totals : Option MisconfSummary → ℕ → List Str → Str
  totals none total summaries =
      join []
        (str "Total: " ∷ decimal total ∷ str " (" ∷ join (str ", ") summaries ∷ str ")\n\n" ∷ [])
  totals (some s) total summaries = join [] (
      str "Tests: "
      ∷ decimal (s.successes + s.failures + s.exceptions)
      ∷ str " (SUCCESSES: "
      ∷ decimal s.successes
      ∷ str ", FAILURES: "
      ∷ decimal s.failures
      ∷ str ", EXCEPTIONS: "
      ∷ decimal s.exceptions
      ∷ str ")\nFailures: "
      ∷ decimal total
      ∷ str " ("
      ∷ join (str ", ") summaries
      ∷ str ")\n\n"
      ∷ [])

  -- The body of the loop of outputTrace.
  unfoldable pub trace_of : Types.Result → DetectedMisconfiguration → Str
  trace_of result m =
      let c : Str → Str = if m.status == status_failure then l.red else l.green in
      if eqb (length m.traces) 0
      then []
      else join [] (
          c (str "\nID: " ++ m.id)
          ∷ str "\n"
          ∷ c (str "File: " ++ result.target)
          ∷ str "\n"
          ∷ c (str "Namespace: " ++ m.namespace)
          ∷ str "\n"
          ∷ c (str "Query: " ++ m.query)
          ∷ str "\n"
          ∷ c (str "Message: " ++ m.message)
          ∷ str "\n"
          ∷ join [] (map (λ t. l.blue (str "TRACE ") ++ (str " " ++ (t ++ str "\n"))) m.traces)
          ∷ str "\n"
          ∷ [])

  -- TableWriter.outputTrace
  unfoldable pub output_trace : Types.Result → Str
  unfolding trace_of
  output_trace result = join [] (map (trace_of result) result.misconfigurations)

  -- TableWriter.write
  unfoldable pub write : Types.Result → Written
  unfolding count_severities summary byte_length repeat output_trace
  write result =
      let (counts, table) = count_severities result in
      let (total, summaries) = summary l tw counts in
      let title = title_of result in
      let printed = join [] (
        str "\n"
        ∷ title
        ∷ str "\n"
        ∷ repeat (str "=") (byte_length title)
        ∷ str "\n"
        ∷ totals result.misconf_summary total summaries
        ∷ []) in
      if eqb (length result.vulnerabilities) 0 && eqb (length result.misconfigurations) 0
      then record { printed = printed; rendered = none; traces = [] }
      else record {
        printed = printed;
        rendered = some table;
        traces = if tw.trace then output_trace result else [];
      }
