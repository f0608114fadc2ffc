-- ===== src/Report/Sarif/Write.antt =====
-- pkg/report/sarif.go: the data of a vulnerability and of a misconfiguration, and Write.
use trivy.Base.{ℕ, List, [], ◌∷◌, ◌++◌, if◌then◌else◌}
use trivy.Base.Text.{Str, str, ◌==◌, join}
use trivy.Base.Dict.{Dict}
use trivy.Types
use trivy.Types.{DetectedVulnerability, DetectedMisconfiguration}
use trivy.Report.Sarif.{
  Libraries, SarifData, Run, to_path_uri, get_cvss_score, severity_to_score, get_rule_index,
  add_sarif_result,
}

module _ (l : Libraries) where
  abbrev link : Str → Str → Str
  link id url = join [] (str "[" ∷ id ∷ str "](" ∷ url ∷ str ")" ∷ [])

  -- A text for each line, with \n between them.
  abbrev lines : List Str → Str
  lines = join (b'\n' ∷ [])

  -- The data of a vulnerability, in Write.
  unfoldable pub vulnerability_data : Types.Result → DetectedVulnerability → ℕ → SarifData
  unfolding to_path_uri get_cvss_score
  vulnerability_data res vuln index =
      let details = vuln.vulnerability in
      let path = if vuln.pkg_path == [] then res.target else vuln.pkg_path in
      let url = link vuln.vulnerability_id vuln.primary_url in
      record {
        title = str "vulnerability";
        vulnerability_id = vuln.vulnerability_id;
        severity = vuln.severity;
        cvss_score = get_cvss_score l vuln;
        url = vuln.primary_url;
        resource_class = res.class;
        artifact_location = to_path_uri l path;
        result_index = index;
        full_description =
            l.escape_string
              (if details.description == [] then details.title else details.description);
        help_text = lines (
            (str "Vulnerability " ++ vuln.vulnerability_id)
            ∷ (str "Severity: " ++ vuln.severity)
            ∷ (str "Package: " ++ vuln.pkg_name)
            ∷ (str "Fixed Version: " ++ vuln.fixed_version)
            ∷ (str "Link: " ++ url)
            ∷ details.description
            ∷ []);
        help_markdown = lines (
            join [] (str "**Vulnerability " ∷ vuln.vulnerability_id ∷ str "**" ∷ [])
            ∷ str "| Severity | Package | Fixed Version | Link |"
            ∷ str "| --- | --- | --- | --- |"
            ∷ join [] (
                str "|"
                ∷ join (str "|") (vuln.severity ∷ vuln.pkg_name ∷ vuln.fixed_version ∷ url ∷ [])
                ∷ str "|"
                ∷ [])
            ∷ []
            ∷ details.description
            ∷ []);
        message = lines (
            (str "Package: " ++ vuln.pkg_name)
            ∷ (str "Installed Version: " ++ vuln.installed_version)
            ∷ (str "Vulnerability " ++ vuln.vulnerability_id)
            ∷ (str "Severity: " ++ vuln.severity)
            ∷ (str "Fixed Version: " ++ vuln.fixed_version)
            ∷ (str "Link: " ++ url)
            ∷ []);
      }

  -- The data of a misconfiguration, in Write.
  unfoldable pub misconfiguration_data : Types.Result → DetectedMisconfiguration → ℕ → SarifData
  unfolding to_path_uri severity_to_score
  misconfiguration_data res misconf index =
      let url = link misconf.id misconf.primary_url in
      record {
        title = str "misconfiguration";
        vulnerability_id = misconf.id;
        severity = misconf.severity;
        cvss_score = severity_to_score misconf.severity;
        url = misconf.primary_url;
        resource_class = res.class;
        artifact_location = to_path_uri l res.target;
        result_index = index;
        full_description = l.escape_string misconf.description;
        help_text = lines (
            (str "Misconfiguration " ++ misconf.id)
            ∷ (str "Type: " ++ misconf.type)
            ∷ (str "Severity: " ++ misconf.severity)
            ∷ (str "Check: " ++ misconf.title)
            ∷ (str "Message: " ++ misconf.message)
            ∷ (str "Link: " ++ url)
            ∷ misconf.description
            ∷ []);
        help_markdown = lines (
            join [] (str "**Misconfiguration " ∷ misconf.id ∷ str "**" ∷ [])
            ∷ str "| Type | Severity | Check | Message | Link |"
            ∷ str "| --- | --- | --- | --- | --- |"
            ∷ join [] (
                str "|"
                ∷ join (str "|")
                    (misconf.type ∷ misconf.severity ∷ misconf.title ∷ misconf.message ∷ url ∷ [])
                ∷ str "|"
                ∷ [])
            ∷ []
            ∷ misconf.description
            ∷ []);
        message = lines (
            (str "Artifact: " ++ res.target)
            ∷ (str "Type: " ++ res.type)
            ∷ (str "Vulnerability " ++ misconf.id)
            ∷ (str "Severity: " ++ misconf.severity)
            ∷ (str "Message: " ++ misconf.message)
            ∷ (str "Link: " ++ url)
            ∷ []);
      }

  -- The body of a loop of Write: the index of the rule is taken before the rule is added.
  unfoldable pub add_indexed : (ℕ → SarifData) → Str → Dict ℕ × Run → Dict ℕ × Run
  unfolding get_rule_index add_sarif_result
  add_indexed rule_data id (indexes, run) =
      let (i, indexed) = get_rule_index id indexes in
      (indexed, add_sarif_result l (rule_data i) run)

  -- The two inner loops of Write.
  unfoldable pub add_vulnerabilities :
      Types.Result → List DetectedVulnerability → Dict ℕ × Run → Dict ℕ × Run
  unfolding vulnerability_data add_indexed
  add_vulnerabilities res [] state = state
  add_vulnerabilities res (vuln ∷ vulns) state =
      add_vulnerabilities res vulns
        (add_indexed (vulnerability_data res vuln) vuln.vulnerability_id state)

  unfoldable pub add_misconfigurations :
      Types.Result → List DetectedMisconfiguration → Dict ℕ × Run → Dict ℕ × Run
  unfolding misconfiguration_data add_indexed
  add_misconfigurations res [] state = state
  add_misconfigurations res (misconf ∷ misconfs) state =
      add_misconfigurations res misconfs
        (add_indexed (misconfiguration_data res misconf) misconf.id state)

  unfoldable pub add_results : List Types.Result → Dict ℕ × Run → Dict ℕ × Run
  unfolding add_vulnerabilities add_misconfigurations
  add_results [] state = state
  add_results (res ∷ results) state = add_results results (
      add_misconfigurations res res.misconfigurations
        (add_vulnerabilities res res.vulnerabilities state))

  -- SarifWriter.Write, of the results of a report: the rules and the results of the run
  unfoldable pub write : List Types.Result → Run
  unfolding add_results
  write results = (add_results results ([], record { rules = []; results = [] })).1
