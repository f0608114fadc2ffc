-- ===== src/Report/Writer/Laws.antt =====
-- The formats that pkg/report/writer.go knows.
use trivy.Base.{◌≡◌, ◌≢◌, ◌↔◌, List, refl, inl, inr, [], ◌∷◌, ◌++◌, ◌&&◌, Bool-cases, false, ◌⊎◌}
use trivy.Base.Text.{Str, str, ◌==◌, has_prefix, ==_cases}
use trivy.Base.Result.{Result, ok, err, panicked, message, wrap, Result-cases, Error}
use mathlib.Core.List.{Memᴰ}
use mathlib.Core.List.Memᴰ
use trivy.Base.Result.{context}
use trivy.Scanner.{Report}
use trivy.Report.Writer.{
  Option, Libraries, write, write_by_template, write_table, write_json, write_sarif,
  write_cyclonedx, new_template_writer, table_writer, write_template, Output, written,
}

-- The context of an error of a writer.
abbrev pub results_context : Str
results_context = str "failed to write results"

abbrev pub template_context : Str
template_context = str "failed to initialize template writer"

context-err :
    {A : Type 0} (s : Str) (r : Result A) {e : Error}
    → context s r ≡ err e
    → (x : Error) × (r ≡ err x) × (e ≡ wrap s x)
context-err s (ok a) h = cc
context-err s (err x) h = (x, refl, cc)
context-err s panicked h = cc

-- The formats that Write knows.
abbrev pub formats : List Str
formats = str "table" ∷ str "json" ∷ str "cyclonedx" ∷ str "template" ∷ str "sarif" ∷ []

module _ {T : Type 0} (l : Libraries T) where
  -- An error of a writer has the context of its call of Write, or, for the format template, the one
  -- of NewTemplateWriter, if that returns the error.
  abbrev pub HasContext : Option → Error → Type 0
  HasContext option e =
      ((x : Error) × (e ≡ wrap results_context x))
      ⊎ (option.format ≡ str "template")
        × (x : Error) × (new_template_writer l option.output_template ≡ err x)
        × (e ≡ wrap template_context x)

  written-HasContext :
      (option : Option) (r : Result Output) {e : Error} → written l r ≡ err e → HasContext option e
  written-HasContext option r h = let (x, _, w) = context-err results_context r h in inl (x, w)

  write_by_template-HasContext :
      (option : Option) (report : Report) {e : Error}
      → option.format ≡ str "template"
      → write_by_template l option report ≡ err e
      → HasContext option e
  unfolding write_by_template
  write_by_template-HasContext option report {e} t h =
      elim (Bool-cases (
        has_prefix option.output_template (str "@")
        && l.base option.output_template == str "sarif.tpl")) [
          | inl b ↦ written-HasContext option (write_sarif l report) (rw b at h)
          | inr b ↦ elim (Result-cases (new_template_writer l option.output_template)) [
            | inl (writer, r) ↦
                written-HasContext option (write_template l writer report) (rw (b, r) at h)
            | inr (inl (x, r)) ↦
                let h' : err (wrap template_context x) ≡ err e = rw (b, r) at h in inr (t, x, r, cc)
            | inr (inr r) ↦ absurd (let h' : panicked ≡ err e = rw (b, r) at h in cc)
          ]
        ]

  write-HasContext :
      (architecture : Str) (option : Option) (report : Report) {e : Error}
      → Memᴰ option.format formats
      → write l architecture option report ≡ err e
      → HasContext option e
  unfolding write ◌==◌
  write-HasContext architecture option report (Memᴰ.head f) h =
      written-HasContext option (write_table l (table_writer l option) report) (rw f at h)
  write-HasContext architecture option report (Memᴰ.tail (Memᴰ.head f)) h =
      written-HasContext option (write_json l report) (rw f at h)
  write-HasContext architecture option report (Memᴰ.tail (Memᴰ.tail (Memᴰ.head f))) h =
      written-HasContext option (write_cyclonedx l architecture option.app_version report)
        (rw f at h)
  write-HasContext architecture option report (Memᴰ.tail (Memᴰ.tail (Memᴰ.tail (Memᴰ.head f)))) h =
      write_by_template-HasContext option report f (rw f at h)
  write-HasContext architecture option report
        (Memᴰ.tail (Memᴰ.tail (Memᴰ.tail (Memᴰ.tail (Memᴰ.head f))))) h =
      written-HasContext option (write_sarif l report) (rw f at h)
  write-HasContext architecture option report
        (Memᴰ.tail (Memᴰ.tail (Memᴰ.tail (Memᴰ.tail (Memᴰ.tail i))))) h =
      absurd (Memᴰ.not-nil i)

  other_format : (s t : Str) → s ≢ t → (s == t) ≡ false
  other_format s t n = elim (==_cases s t) [ inl (_, e) ↦ absurd (n e) | inr (f, _) ↦ f ]

  -- Write returns the error of an unknown format exactly for the formats that are none of the five. For
  -- each of the five, an error that it returns has the context "failed to write results", or the format
  -- is template, NewTemplateWriter fails, and it is that error with the context "failed to initialize
  -- template writer".
  pub write-unknown :
      (architecture : Str) (option : Option) (report : Report)
      → ((write l architecture option report
            ≡ err (message (str "unknown format: " ++ option.format)))
          ↔ ¬ Memᴰ option.format formats)
        × ((e : Error)
            → Memᴰ option.format formats
            → write l architecture option report ≡ err e
            → HasContext option e)
  unfolding write
  write-unknown architecture option report = (
    (
      λ h m. elim (write-HasContext architecture option report m h) [
        | inl (x, w) ↦ cc
        | inr (_, x, _, w) ↦ cc
      ],
      λ n.
          let f1 = other_format option.format (str "table") (λ e. n (Memᴰ.head e)) in
          let f2 = other_format option.format (str "json") (λ e. n (Memᴰ.tail (Memᴰ.head e))) in
          let f3 =
            other_format option.format (str "cyclonedx")
              (λ e. n (Memᴰ.tail (Memᴰ.tail (Memᴰ.head e)))) in
          let f4 =
            other_format option.format (str "template")
              (λ e. n (Memᴰ.tail (Memᴰ.tail (Memᴰ.tail (Memᴰ.head e))))) in
          let f5 =
            other_format option.format (str "sarif")
              (λ e. n (Memᴰ.tail (Memᴰ.tail (Memᴰ.tail (Memᴰ.tail (Memᴰ.head e)))))) in
          rw (f1, f2, f3, f4, f5, write) refl,
    ),
    λ e m h. write-HasContext architecture option report m h,
  )
