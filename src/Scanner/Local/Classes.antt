-- ===== src/Scanner/Local/Classes.antt =====
-- The results of a scan of pkg/scanner/local/scan.go are of the kinds that its options ask for.
use trivy.Base.{
  mem-map, List-cases, ◌≡◌, ap, sym, ◌∙◌, ◌⊎◌, inl, inr, Bool, true, false, List, [], ◌∷◌, ◌++◌,
  Option, none, some, if◌then◌else◌, map, Bool-cases, Option-cases,
}
use trivy.Base.Text.{Str, str, ==_cases, contains}
use trivy.Base.Result.{
  Result, wrap, ok, err, panicked, context, ◌>>=◌, bind_ok, context-ok, collect, collect-mem,
  Result-cases, is_unsupported_os,
}
use trivy.External.{Package, Application, ArtifactDetail, Os, Misconfiguration, Package}
use trivy.Types
use trivy.Types.{
  DetectedVulnerability, ScanOptions, class_os_pkg, class_lang_pkg, class_config, vuln_type_os,
  vuln_type_library, security_check_vulnerability, security_check_config,
}
use trivy.Scanner.Local.{
  Scanner, library_result, os_result, scan_app, scan_library, detect_vulns_in_os_pkgs, scan_os_pkgs,
  scanned_packages, check_vulnerabilities, check_packages, unchecked, to_results, misconf_result,
  misconfs_to_results, with_eosl, applied, scan,
}
use mathlib.Core.List.{Memᴰ}
use mathlib.Core.List.Memᴰ

module _ (s : Scanner) where
  scan_app-class :
      (options : ScanOptions) (app : Application) {rs : List Types.Result} {r : Types.Result}
      → scan_app s options app ≡ ok rs
      → Memᴰ r rs
      → r.class ≡ class_lang_pkg
  unfolding scan_app
  scan_app-class options app {rs} {r} e m = elim (List-cases app.libraries) [
    | inl n ↦
        let none_listed : [] ≡ rs = (let e' : ok [] ≡ ok rs = rw (n, scan_app) at e in cc) in
        absurd (Memᴰ.not-nil (rw (← none_listed) at m))
    | inr (x, xs, l) ↦ elim (Result-cases (s.detect_library app.type app.libraries)) [
      | inl (vs, k) ↦
          let e' : ok (library_result s options app vs ∷ []) ≡ ok rs = rw (l, scan_app, k) at e in
          let same : library_result s options app vs ∷ [] ≡ rs = cc in
          elim (Memᴰ.cases_cons (rw (← same) at m)) [
            | inl first ↦ ap (λ z. z.class) first
            | inr later ↦ absurd (Memᴰ.not-nil later)
          ]
      | inr (inl (y, k)) ↦ absurd (
          let e' : err (wrap (str "failed vulnerability detection of libraries") y) ≡ ok rs =
            rw (l, scan_app, k) at e in
          cc)
      | inr (inr k) ↦ absurd (let e' : panicked ≡ ok rs = rw (l, scan_app, k) at e in cc)
    ]
  ]

  detect_vulns_in_os_pkgs-class :
      (target os_family os_name : Str) (pkgs : List Package) {r : Types.Result} {eosl : Bool}
      → detect_vulns_in_os_pkgs s target os_family os_name pkgs ≡ ok (some r, eosl)
      → r.class ≡ class_os_pkg
  unfolding detect_vulns_in_os_pkgs
  detect_vulns_in_os_pkgs-class target os_family os_name pkgs {r} {eosl} e =
      elim (==_cases os_family []) [
        | inl (t, _) ↦ absurd (
            let e' : ok (none, false) ≡ ok (some r, eosl) = rw (t, detect_vulns_in_os_pkgs) at e in
            cc)
        | inr (f, _) ↦ elim (Result-cases (s.detect_os os_family os_name pkgs)) [
          | inl ((vs, b), k) ↦
              let e' : ok (some (os_result s target os_family os_name vs), b) ≡ ok (some r, eosl) =
                rw (f, detect_vulns_in_os_pkgs, k) at e in
              let same : os_result s target os_family os_name vs ≡ r = cc in
              sym (ap (λ z. z.class) same)
          | inr (inl (x, k)) ↦ elim (Bool-cases (is_unsupported_os x)) [
            | inl u ↦ absurd (
                let e' : ok (none, false) ≡ ok (some r, eosl) =
                  rw (f, detect_vulns_in_os_pkgs, k, u) at e in
                cc)
            | inr u ↦ absurd (
                let e' : err (wrap (str "failed vulnerability detection of OS packages") x)
                    ≡ ok (some r, eosl) =
                  rw (f, detect_vulns_in_os_pkgs, k, u) at e in
                cc)
          ]
          | inr (inr k) ↦ absurd (
              let e' : panicked ≡ ok (some r, eosl) = rw (f, detect_vulns_in_os_pkgs, k) at e in cc)
        ]
      ]

  scan_os_pkgs-class :
      (target : Str) (detail : ArtifactDetail) (options : ScanOptions) {r : Types.Result}
      {eosl : Bool}
      → scan_os_pkgs s target detail options ≡ ok (some r, eosl)
      → r.class ≡ class_os_pkg
  unfolding scan_os_pkgs
  scan_os_pkgs-class target detail options {r} {eosl} e = elim (Option-cases detail.os) [
    | inl n ↦
        absurd (let e' : ok (none, false) ≡ ok (some r, eosl) = rw (n, scan_os_pkgs) at e in cc)
    | inr (os, o) ↦ elim (Result-cases (found os)) [
      | inl ((none, b), k) ↦
          absurd (let e' : ok (none, b) ≡ ok (some r, eosl) = rw (o, scan_os_pkgs, k) at e in cc)
      | inl ((some x, b), k) ↦
          let is_os =
            detect_vulns_in_os_pkgs-class target os.family os.name
              (scanned_packages s detail options) k in
          elim (Bool-cases options.list_all_packages) [
            | inl t ↦
                let e' : ok (
                  some
                      (record x { packages = s.sort_packages (scanned_packages s detail options) }),
                  b,
                )
                    ≡ ok (some r, eosl) =
                  rw (o, scan_os_pkgs, k, t) at e in
                let same : record x {
                  packages = s.sort_packages (scanned_packages s detail options);
                }
                    ≡ r =
                  cc in
                sym (ap (λ z. z.class) same) ∙ is_os
            | inr f ↦
                let e' : ok (some x, b) ≡ ok (some r, eosl) = rw (o, scan_os_pkgs, k, f) at e in
                let same : x ≡ r = cc in sym (ap (λ z. z.class) same) ∙ is_os
          ]
      | inr (inl (x, k)) ↦ absurd (
          let e' : err (wrap (str "failed to scan OS packages") x) ≡ ok (some r, eosl) =
            rw (o, scan_os_pkgs, k) at e in
          cc)
      | inr (inr k) ↦
          absurd (let e' : panicked ≡ ok (some r, eosl) = rw (o, scan_os_pkgs, k) at e in cc)
    ]
  ]
    where
      found : Os → Result (Option Types.Result × Bool)
      found os =
          detect_vulns_in_os_pkgs s target os.family os.name (scanned_packages s detail options)

  -- The options ask for results of this kind.
  abbrev pub IsRequested : ScanOptions → Types.Result → Type 0
  IsRequested options r =
      ((r.class ≡ class_os_pkg)
        × (contains options.security_checks security_check_vulnerability ≡ true)
        × (contains options.vuln_type vuln_type_os ≡ true))
      ⊎ ((r.class ≡ class_lang_pkg)
          × (contains options.security_checks security_check_vulnerability ≡ true)
          × (contains options.vuln_type vuln_type_library ≡ true))
      ⊎ ((r.class ≡ class_config) × (contains options.security_checks security_check_config ≡ true))

  -- The sort of the results adds none.
  abbrev pub AddsNoResult : Type 0
  AddsNoResult =
      (rs : List Types.Result) (r : Types.Result) → Memᴰ r (s.sort_results rs) → Memᴰ r rs

  module _ (no_result : AddsNoResult) where
    scan_library-class :
        (options : ScanOptions) (apps : List Application) {rs : List Types.Result}
        {r : Types.Result}
        → scan_library s options apps ≡ ok rs
        → Memᴰ r rs
        → r.class ≡ class_lang_pkg
    unfolding scan_library
    scan_library-class options [] {rs} e m =
        let none_listed : [] ≡ rs = cc in absurd (Memᴰ.not-nil (rw (← none_listed) at m))
    scan_library-class options (app ∷ apps) {rs} {r} e m =
        let (out, c, k) =
          bind_ok (collect (scan_app s options) [] (app ∷ apps)) (λ rs. ok (s.sort_results rs)) e in
        let same : s.sort_results out ≡ rs = cc in
        elim (collect-mem (scan_app s options) [] (app ∷ apps) c
          (no_result out r (rw (← same) at m))) [
            | inl i ↦ absurd (Memᴰ.not-nil i)
            | inr w ↦ scan_app-class options w.element w.returned w.member
          ]

    abbrev os_part : Str → ArtifactDetail → ScanOptions → Result (Option Types.Result × Bool)
    os_part target detail options =
        if contains options.vuln_type vuln_type_os
        then context (str "unable to scan OS packages") (scan_os_pkgs s target detail options)
        else ok (none, false)

    abbrev library_part : ArtifactDetail → ScanOptions → Result (List Types.Result)
    library_part detail options =
        if contains options.vuln_type vuln_type_library
        then context (str "failed to scan application libraries")
            (scan_library s options detail.applications)
        else ok []

    os_part-class :
        (target : Str) (detail : ArtifactDetail) (options : ScanOptions) {r : Types.Result}
        {eosl : Bool}
        → os_part target detail options ≡ ok (some r, eosl)
        → (r.class ≡ class_os_pkg) × (contains options.vuln_type vuln_type_os ≡ true)
    os_part-class target detail options {r} {eosl} e =
        elim (Bool-cases (contains options.vuln_type vuln_type_os)) [
          | inl t ↦ (
            scan_os_pkgs-class target detail options (
                context-ok (str "unable to scan OS packages") (scan_os_pkgs s target detail options)
                  (rw t at e)),
            t,
          )
          | inr f ↦ absurd (let e' : ok (none, false) ≡ ok (some r, eosl) = rw f at e in cc)
        ]

    library_part-class :
        (detail : ArtifactDetail) (options : ScanOptions) {rs : List Types.Result}
        {r : Types.Result}
        → library_part detail options ≡ ok rs
        → Memᴰ r rs
        → (r.class ≡ class_lang_pkg) × (contains options.vuln_type vuln_type_library ≡ true)
    library_part-class detail options {rs} {r} e m =
        elim (Bool-cases (contains options.vuln_type vuln_type_library)) [
          | inl t ↦ (
            scan_library-class options detail.applications
                (context-ok (str "failed to scan application libraries")
                  (scan_library s options detail.applications) (rw t at e))
                m,
            t,
          )
          | inr f ↦
              let e' : ok [] ≡ ok rs = rw f at e in
              let none_listed : [] ≡ rs = cc in absurd (Memᴰ.not-nil (rw (← none_listed) at m))
        ]

    check_vulnerabilities-IsRequested :
        (target : Str) (detail : ArtifactDetail) (options : ScanOptions) {rs : List Types.Result}
        {eosl : Bool} {r : Types.Result}
        → contains options.security_checks security_check_vulnerability ≡ true
        → check_vulnerabilities s target detail options ≡ ok (rs, eosl)
        → Memᴰ r rs
        → IsRequested options r
    unfolding check_vulnerabilities
    check_vulnerabilities-IsRequested target detail options {rs} {eosl} {r} asked e m =
        let ((first, b), f, k) =
          bind_ok (os_part target detail options)
            (λ found.
              library_part detail options >>= λ libs. ok (to_results s found.0 ++ libs, found.1))
            e in
        let (libs, g, l) =
          bind_ok (library_part detail options) (λ libs. ok (to_results s first ++ libs, b)) k in
        let same : to_results s first ++ libs ≡ rs = cc in
        elim (Memᴰ.append_cases (to_results s first) (rw (← same) at m)) [
          | inl i ↦ of_os first f i
          | inr i ↦ let (c, t) = library_part-class detail options g i in inr (inl (c, asked, t))
        ]
      where
        of_os :
            (first : Option Types.Result) {b : Bool}
            → os_part target detail options ≡ ok (first, b)
            → Memᴰ r (to_results s first)
            → IsRequested options r
        of_os none f i = absurd (Memᴰ.not-nil i)
        of_os (some x) f i =
            let (c, t) = os_part-class target detail options f in
            elim (Memᴰ.cases_cons i) [
              | inl here ↦ inl (ap (λ z. z.class) here ∙ c, asked, t)
              | inr later ↦ absurd (Memᴰ.not-nil later)
            ]

    misconfs_to_results-class :
        (misconfs : List Misconfiguration) {r : Types.Result}
        → Memᴰ r (misconfs_to_results s misconfs)
        → r.class ≡ class_config
    unfolding misconfs_to_results misconf_result
    misconfs_to_results-class misconfs {r} m =
        let (a, _, e) =
          mem-map (misconf_result s.db) misconfs
            (no_result (map (misconf_result s.db) misconfs) r m) in
        ap (λ z. z.class) e

    abbrev checked_part :
        Str → ArtifactDetail → ScanOptions → Result (List Types.Result × Option Os)
    checked_part target detail options =
        if contains options.security_checks security_check_vulnerability
        then check_packages s target detail options
        else unchecked s detail

    checked_part-IsRequested :
        (target : Str) (detail : ArtifactDetail) (options : ScanOptions) {rs : List Types.Result}
        {os : Option Os} {r : Types.Result}
        → checked_part target detail options ≡ ok (rs, os)
        → Memᴰ r rs
        → IsRequested options r
    checked_part-IsRequested target detail options {rs} {os} {r} e m =
        elim (Bool-cases (contains options.security_checks security_check_vulnerability)) [
          | inl t ↦
              let packages : check_packages s target detail options ≡ ok (rs, os) = rw t at e in
              let ((found, b), c, k) =
                bind_ok
                  (context (str "failed to detect vulnerabilities")
                    (check_vulnerabilities s target detail options))
                  (λ checked.
                    let out : List Types.Result × Option Os =
                      (checked.0, with_eosl s detail.os checked.1) in
                    ok out)
                  packages in
              let same : found ≡ rs = cc in
              check_vulnerabilities-IsRequested target detail options t
                (context-ok (str "failed to detect vulnerabilities")
                  (check_vulnerabilities s target detail options) c)
                (rw (← same) at m)
          | inr f ↦
              let e' : ok ([], detail.os) ≡ ok (rs, os) = rw f at e in
              let none_listed : [] ≡ rs = cc in absurd (Memᴰ.not-nil (rw (← none_listed) at m))
        ]

    abbrev configs_of : ScanOptions → ArtifactDetail → List Types.Result
    configs_of options detail =
        if contains options.security_checks security_check_config
        then misconfs_to_results s detail.misconfigurations
        else []

    -- Where the sort adds no result, each result of a scan that succeeds is of a kind that the
    -- options ask for: of packages of the operating system or of a language only if vulnerabilities
    -- and this type of them are asked for, and of configuration files only if these are.
    pub scan-IsRequested :
        (target artifact_key : Str) (blob_keys : List Str) (options : ScanOptions)
        {rs : List Types.Result} {os : Option Os}
        → scan s target artifact_key blob_keys options ≡ ok (rs, os)
        → (r : Types.Result) → Memᴰ r rs
        → IsRequested options r
    unfolding scan
    scan-IsRequested target artifact_key blob_keys options {rs} {os} e r m =
        let (detail, _, k) =
          bind_ok (applied s artifact_key blob_keys)
            (λ detail. checked_part target detail options >>= λ found.
              ok (found.0 ++ configs_of options detail, found.1))
            e in
        let ((found, o), c, l) =
          bind_ok (checked_part target detail options)
            (λ found. ok (found.0 ++ configs_of options detail, found.1)) k in
        let same : found ++ configs_of options detail ≡ rs = cc in
        elim (Memᴰ.append_cases found (rw (← same) at m)) [
          | inl i ↦ checked_part-IsRequested target detail options c i
          | inr i ↦ elim (Bool-cases (contains options.security_checks security_check_config)) [
            | inl t ↦ inr (inr (misconfs_to_results-class detail.misconfigurations (rw t at i), t))
            | inr f ↦ absurd (Memᴰ.not-nil (rw f at i))
          ]
        ]
