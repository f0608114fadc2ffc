-- ===== src/Report/Writer.antt =====
-- pkg/report/{writer,json,template}.go: the choice of a writer, and the writers of JSON and templates,
-- with the Write methods of pkg/report/table.go and pkg/report/sarif.go.
pub mod Laws
use trivy.Base.{ℕ, Bool, true, false, not, ◌&&◌, List, [], ◌∷◌, ◌++◌, if◌then◌else◌, map}
use trivy.Base.Text.{Str, str, ◌==◌, has_prefix, trim_prefix}
use trivy.Base.Result.{Result, ok, err, message, context, ◌>>=◌}
use trivy.Base.State.{Done}
use trivy.Types
use trivy.Scanner.{Report}
use trivy.Report.Sarif
use trivy.Report.Table
use trivy.Report.Table.{TableWriter}
use trivy.Report.Cyclonedx
use trivy.Report.Sarif.Write as SarifWrite
use trivy.Report.Table.Write as TableWrite
use trivy.Report.Cyclonedx.Convert as CyclonedxConvert

-- Option; of the output only, is it os.Stdout
pub record Option : Type 0 where
  pub format : Str
  pub is_stdout : Bool
  pub severities : List ℕ
  pub output_template : Str
  pub app_version : Str
  pub include_non_failures : Bool
  pub trace : Bool

-- What a report is written as: the tables of its results, or a text
pub data Output : Type 0 where
  tables : List TableWrite.Written → Output
  text : Str → Output

-- What the writers call, where T are the templates of text/template: json.MarshalIndent, os.ReadFile,
-- filepath.Base, the parsing of a template, its execution on the results, sarif.New and PrettyWrite,
-- and the writing of a text to the output, which returns what it has written
pub record Libraries (T : Type 0) : Type 0 where
  pub table : Table.Libraries
  pub sarif : Sarif.Libraries
  pub cyclonedx : Cyclonedx.Libraries
  pub marshal_indent : Report → Result Str
  pub read_file : Str → Result Str
  pub base : Str → Str
  pub parse_template : Str → Result T
  pub execute : T → List Types.Result → Result Str
  pub new_sarif : Result Done
  pub pretty_write : Sarif.Run → Result Str
  pub fprintln : Str → Result Str

module _ {T : Type 0} (l : Libraries T) where
  -- TableWriter.Write
  unfoldable pub write_table : TableWriter → Report → Result Output
  write_table tw report = ok (tables (map (TableWrite.write l.table tw) report.results))

  -- JSONWriter.Write
  unfoldable pub write_json : Report → Result Output
  write_json report = do
    output ← context (str "failed to marshal json") (l.marshal_indent report)
    written ← context (str "failed to write json") (l.fprintln output)
    ok (text written)

  -- NewTemplateWriter
  unfoldable pub new_template_writer : Str → Result T
  new_template_writer output_template = do
    content ←
        (if has_prefix output_template (str "@")
          then context (str "error retrieving template from path")
              (l.read_file (trim_prefix output_template (str "@")))
          else ok output_template)
    context (str "error parsing template") (l.parse_template content)

  -- TemplateWriter.Write
  unfoldable pub write_template : T → Report → Result Output
  write_template template report = do
    written ← context (str "failed to write with template") (l.execute template report.results)
    ok (text written)

  -- SarifWriter.Write
  unfoldable pub write_sarif : Report → Result Output
  write_sarif report = do
    d ← context (str "error creating a new sarif template") l.new_sarif
    written ← l.pretty_write (SarifWrite.write l.sarif report.results)
    ok (text written)

  -- cyclonedx.Writer.Write
  abbrev pub write_cyclonedx : Str → Str → Report → Result Output
  write_cyclonedx architecture version report = do
    written ← CyclonedxConvert.write l.cyclonedx report architecture version
    ok (text written)

  abbrev pub table_writer : Option → TableWriter
  table_writer option = record {
    severities = option.severities;
    is_stdout = option.is_stdout;
    include_non_failures = option.include_non_failures;
    trace = option.trace;
  }

  -- The call of a writer's Write.
  abbrev pub written : Result Output → Result Output
  written = context (str "failed to write results")

  -- Write of the format template: the template sarif.tpl stands for the format sarif.
  unfoldable pub write_by_template : Option → Report → Result Output
  unfolding write_sarif new_template_writer write_template
  write_by_template option report =
      let by_template : Result Output = do
        writer ←
            context (str "failed to initialize template writer")
              (new_template_writer option.output_template)
        written (write_template writer report)
      in if has_prefix option.output_template (str "@")
          && l.base option.output_template == str "sarif.tpl"
        then written (write_sarif report)
        else by_template

  -- Write, with the architecture of the image's configuration file
  unfoldable pub write : Str → Option → Report → Result Output
  unfolding write_table write_json write_sarif write_by_template
  write architecture option report =
      if option.format == str "table"
      then written (write_table (table_writer option) report)
      else if option.format == str "json"
      then written (write_json report)
      else if option.format == str "cyclonedx"
      then written (write_cyclonedx architecture option.app_version report)
      else if option.format == str "template"
      then write_by_template option report
      else if option.format == str "sarif"
      then written (write_sarif report)
      else err (message (str "unknown format: " ++ option.format))
