-- ===== src/Report/Table.antt =====
-- pkg/report/table.go: the rows and the summary of a result as a table.
pub mod Write
pub mod Laws
pub mod Rows
use trivy.Base.{
  ℕ, zero, suc, ◌+◌, Bool, true, false, not, ◌&&◌, List, [], ◌∷◌, ◌++◌, Option, none, some,
  if◌then◌else◌, length, map, leb, ltb, take, drop,
}
use trivy.Base.Text.{
  Str, str, ◌==◌, join, split, trim_space, trim_prefix, has_prefix, contains, decimal,
}
use trivy.Base.Dict.{Dict, lookup, store}
use trivy.External.{Severities}
use trivy.Types
use trivy.Types.{
  DetectedVulnerability, DetectedMisconfiguration, status_passed, status_failure, status_exception,
  class_os_pkg,
}

-- trivy-db's SeverityNames and ColorizeSeverity, and fatih/color's Sprint of a foreground color
pub record Libraries : Type 0 where
  pub severities : Severities
  pub severity_names : List Str
  pub colorize_severity : Str → Str
  pub green : Str → Str
  pub magenta : Str → Str
  pub red : Str → Str
  pub blue : Str → Str

-- TableWriter; of its output only, is it os.Stdout
pub record TableWriter : Type 0 where
  pub severities : List ℕ
  pub is_stdout : Bool
  pub include_non_failures : Bool
  pub trace : Bool

-- tablewriter's ALIGN_CENTER and ALIGN_LEFT
pub data Alignment : Type 0 where
  center left : Alignment

-- What is set on a table of tablewriter; no width or alignments are its defaults.
pub record Table : Type 0 where
  pub col_width : Option ℕ
  pub column_alignment : List Alignment
  pub header : List Str
  pub rows : List (List Str)

abbrev pub new_table : Table
new_table = record { col_width = none; column_alignment = []; header = []; rows = [] }

abbrev pub or_zero : Option ℕ → ℕ
or_zero none = 0
or_zero (some n) = n

-- severityCount[s], zero where there is no entry
abbrev pub count_of : Dict ℕ → Str → ℕ
count_of counts s = or_zero (lookup s counts)

-- severityCount[s]++
abbrev pub increment : Str → Dict ℕ → Dict ℕ
increment s counts = store s (suc (count_of counts s)) counts

abbrev pub append_row : List Str → Table → Table
append_row row table = record table { rows = table.rows ++ row ∷ [] }

-- strings.NewReplacer("https://", "", "http://", ""), with the number of characters to leave out
unfoldable pub without_schemes : ℕ → Str → Str
without_schemes n [] = []
without_schemes (suc n) (c ∷ s) = without_schemes n s
without_schemes zero (c ∷ s) = elim (has_prefix (c ∷ s) (str "https://")) [
  | true ↦ without_schemes 7 s
  | false ↦ elim (has_prefix (c ∷ s) (str "http://")) [
    | true ↦ without_schemes 6 s
    | false ↦ c ∷ without_schemes 0 s
  ]
]

-- The title of a row.
unfoldable pub row_title : DetectedVulnerability → Str
unfolding without_schemes
row_title v =
    let title =
      if v.vulnerability.title == [] then v.vulnerability.description else v.vulnerability.title in
    let split_title = split b' ' title in
    let short =
      if leb 12 (length split_title)
      then join (str " ") (take 12 split_title) ++ str "..."
      else title in
    if ltb 0 (length v.primary_url)
    then short ++ (str " -->" ++ without_schemes 0 v.primary_url)
    else short

module _ (l : Libraries) (tw : TableWriter) where
  abbrev pub vulnerability_row : DetectedVulnerability → List Str
  vulnerability_row v =
      v.pkg_name
      ∷ v.vulnerability_id
      ∷ (if tw.is_stdout then l.colorize_severity v.severity else v.severity)
      ∷ v.installed_version
      ∷ v.fixed_version
      ∷ trim_space (row_title v)
      ∷ []

  -- TableWriter.setVulnerabilityRows, from the counts and the table before the loop
  unfoldable pub set_vulnerability_rows :
      List DetectedVulnerability → Dict ℕ → Table → Dict ℕ × Table
  set_vulnerability_rows [] counts table = (counts, table)
  set_vulnerability_rows (v ∷ vulns) counts table =
      set_vulnerability_rows vulns (increment v.severity counts)
        (append_row (vulnerability_row v) table)

  abbrev pub row_message : DetectedMisconfiguration → Str
  row_message m =
      if m.status == status_failure && not (m.primary_url == [])
      then m.message ++ (str " -->" ++ trim_prefix m.primary_url (str "https://"))
      else m.message

  -- The severity and the status of a row, in colors on the standard output.
  abbrev pub row_status : DetectedMisconfiguration → Str × Str
  row_status m =
      if not tw.is_stdout
      then (m.severity, m.status)
      else if m.status == status_passed
      then (l.green m.severity, l.green m.status)
      else if m.status == status_exception
      then (l.magenta m.severity, l.magenta m.status)
      else if m.status == status_failure
      then (l.colorize_severity m.severity, l.red m.status)
      else (m.severity, m.status)

  -- row[:4] with row[5:], unless the status is shown
  abbrev pub remove_status {ℓ} : {A : Type ℓ} → List A → List A
  remove_status row = if not tw.include_non_failures then take 4 row ++ drop 5 row else row

  abbrev pub misconf_row : DetectedMisconfiguration → List Str
  misconf_row m =
      let (severity, status) = row_status m in
      remove_status (m.type ∷ m.id ∷ m.title ∷ severity ∷ status ∷ row_message m ∷ [])

  -- TableWriter.setMisconfRows, from the counts and the table before the loop
  unfoldable pub set_misconf_rows : List DetectedMisconfiguration → Dict ℕ → Table → Dict ℕ × Table
  set_misconf_rows [] counts table = (counts, table)
  set_misconf_rows (m ∷ misconfs) counts table =
      set_misconf_rows misconfs
        (if m.status == status_failure then increment m.severity counts else counts)
        (append_row (misconf_row m) table)

  -- TableWriter.writeVulnerabilities
  unfoldable pub write_vulnerabilities : List DetectedVulnerability → Table → Dict ℕ × Table
  unfolding set_vulnerability_rows
  write_vulnerabilities vulns table = set_vulnerability_rows vulns [] (record table {
    header =
        str "Library"
        ∷ str "Vulnerability ID"
        ∷ str "Severity"
        ∷ str "Installed Version"
        ∷ str "Fixed Version"
        ∷ str "Title"
        ∷ [];
  })

  abbrev pub misconf_header : List Str
  misconf_header = remove_status (
      str "Type"
      ∷ str "Misconf ID"
      ∷ str "Check"
      ∷ str "Severity"
      ∷ str "Status"
      ∷ str "Message"
      ∷ [])

  -- TableWriter.writeMisconfigurations
  unfoldable pub write_misconfigurations : List DetectedMisconfiguration → Table → Dict ℕ × Table
  unfolding set_misconf_rows
  write_misconfigurations misconfs table = set_misconf_rows misconfs [] (record table {
    col_width = some 40;
    column_alignment = remove_status (center ∷ center ∷ left ∷ center ∷ center ∷ left ∷ []);
    header = misconf_header;
  })

  -- The loop of summary over the names of severities.
  unfoldable pub summarize_names : List Str → List Str → Dict ℕ → ℕ × List Str
  summarize_names severities [] counts = (0, [])
  summarize_names severities (s ∷ names) counts =
      let (total, summaries) = summarize_names severities names counts in
      if not (contains severities s)
      then (total, summaries)
      else (count_of counts s + total, (s ++ (str ": " ++ decimal (count_of counts s))) ∷ summaries)

  -- TableWriter.summary
  unfoldable pub summary : Dict ℕ → ℕ × List Str
  unfolding summarize_names
  summary counts =
      summarize_names (map l.severities.to_string tw.severities) l.severity_names counts
