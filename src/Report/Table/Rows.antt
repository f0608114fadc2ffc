-- ===== src/Report/Table/Rows.antt =====
-- The rows of the tables of pkg/report/table.go.
use trivy.Base.{ℕ, ◌≡◌, refl, List, [], ◌∷◌, length, All, All-append, Bool-cases, eqb, inl, inr}
use trivy.Base.Text.{Str}
use trivy.Base.Dict.{Dict}
use trivy.Types
use trivy.Types.{DetectedVulnerability, DetectedMisconfiguration}
use trivy.Report.Table.{
  misconf_header, Libraries, TableWriter, Table, increment, vulnerability_row, misconf_row,
  set_vulnerability_rows, set_misconf_rows, write_vulnerabilities, write_misconfigurations,
  new_table,
}
use trivy.Report.Table.Write.{count_severities}

module _ (l : Libraries) (tw : TableWriter) where
  set_vulnerability_rows-All :
      (P : List Str → Type 0)
      → ((v : DetectedVulnerability) → P (vulnerability_row l tw v))
      → (vulns : List DetectedVulnerability) (counts : Dict ℕ) (table : Table) → All P table.rows
      → All P (set_vulnerability_rows l tw vulns counts table).1.rows
  unfolding set_vulnerability_rows
  set_vulnerability_rows-All P f [] counts table h = h
  set_vulnerability_rows-All P f (v ∷ vulns) counts table h =
      set_vulnerability_rows-All P f vulns (increment v.severity counts) _
        (All-append P table.rows _ h (f v, tt))

  set_misconf_rows-All :
      (P : List Str → Type 0)
      → ((m : DetectedMisconfiguration) → P (misconf_row l tw m))
      → (misconfs : List DetectedMisconfiguration) (counts : Dict ℕ) (table : Table)
      → All P table.rows
      → All P (set_misconf_rows l tw misconfs counts table).1.rows
  unfolding set_misconf_rows
  set_misconf_rows-All P f [] counts table h = h
  set_misconf_rows-All P f (m ∷ misconfs) counts table h =
      set_misconf_rows-All P f misconfs _ _ (All-append P table.rows _ h (f m, tt))

  set_vulnerability_rows-header :
      (vulns : List DetectedVulnerability) (counts : Dict ℕ) (table : Table)
      → (set_vulnerability_rows l tw vulns counts table).1.header ≡ table.header
  unfolding set_vulnerability_rows
  set_vulnerability_rows-header [] counts table = refl
  set_vulnerability_rows-header (v ∷ vulns) counts table =
      set_vulnerability_rows-header vulns (increment v.severity counts) _

  set_misconf_rows-header :
      (misconfs : List DetectedMisconfiguration) (counts : Dict ℕ) (table : Table)
      → (set_misconf_rows l tw misconfs counts table).1.header ≡ table.header
  unfolding set_misconf_rows
  set_misconf_rows-header [] counts table = refl
  set_misconf_rows-header (m ∷ misconfs) counts table = set_misconf_rows-header misconfs _ _

  -- Each row of the table has as many cells as its header.
  abbrev pub IsAligned : Table → Type 0
  IsAligned table = All (λ row. length row ≡ length table.header) table.rows

  write_vulnerabilities-IsAligned :
      (vulns : List DetectedVulnerability)
      → IsAligned (write_vulnerabilities l tw vulns new_table).1
  unfolding write_vulnerabilities
  write_vulnerabilities-IsAligned vulns =
      rw (set_vulnerability_rows-header vulns [] _)
        (set_vulnerability_rows-All (λ row. length row ≡ 6) (λ v. refl) vulns [] _ tt)

  misconf_row-length :
      (m : DetectedMisconfiguration) → length (misconf_row l tw m) ≡ length (misconf_header l tw)
  misconf_row-length m = elim (Bool-cases tw.include_non_failures) [
    | inl t ↦ rw t refl
    | inr f ↦ rw f refl
  ]

  write_misconfigurations-IsAligned :
      (misconfs : List DetectedMisconfiguration)
      → IsAligned (write_misconfigurations l tw misconfs new_table).1
  unfolding write_misconfigurations
  write_misconfigurations-IsAligned misconfs = rw (set_misconf_rows-header misconfs [] _) (
      set_misconf_rows-All (λ row. length row ≡ length (misconf_header l tw)) misconf_row-length
        misconfs [] _ tt)

  -- Each row of the table of a result has as many cells as the header.
  pub count_severities-IsAligned :
      (result : Types.Result) → IsAligned (count_severities l tw result).1
  unfolding count_severities
  count_severities-IsAligned result = elim (Bool-cases (eqb (length result.vulnerabilities) 0)) [
    | inr v ↦ rw (v, count_severities) (write_vulnerabilities-IsAligned result.vulnerabilities)
    | inl v ↦ elim (Bool-cases (eqb (length result.misconfigurations) 0)) [
      | inr m ↦
          rw (v, m, count_severities) (write_misconfigurations-IsAligned result.misconfigurations)
      | inl m ↦ rw (v, m, count_severities) tt
    ]
  ]
