-- ===== src/Commands/Option/Laws.antt =====
-- What the options are that pkg/commands/artifact/option.go lets through.
use trivy.Base.{
  subst, none, some, ◌≡◌, ◌⊎◌, inl, inr, true, List, [], ◌∷◌, ◌++◌, All, All-append, Bool-cases,
}
use trivy.Base.Text.{Str, str, ◌==◌, ==_refl, split, contains, contains_mem}
use trivy.Base.Result.{Result, ok, err, context, context-ok, collect, bind_ok}
use trivy.External.{Severities}
use trivy.Types.{
  new_vuln_type, new_security_check, vuln_type_os, vuln_type_library, vuln_type_unknown,
  security_check_vulnerability, security_check_config, security_check_unknown,
}
use trivy.Commands.Option.{
  ReportOption, known_vuln_type, known_security_check, populate_vuln_types,
  populate_security_checks, with_severities, with_output, init_report,
}
use mathlib.Core.List.{Memᴰ}
use mathlib.Core.List.Memᴰ

-- A loop keeps to a property that its body's results have.
collect-All {ℓ κ μ} :
    {A : Type ℓ} {B : Type κ} (P : B → Type μ) (f : A → Result (List B))
    → ((a : A) (bs : List B) → f a ≡ ok bs → All P bs)
    → (acc : List B) (xs : List A) {out : List B} → All P acc
    → collect f acc xs ≡ ok out
    → All P out
unfolding collect
collect-All P f h acc [] {out} p e = let same : acc ≡ out = cc in rw same at p
collect-All P f h acc (x ∷ xs) p e =
    let (ys, r, k) = bind_ok (f x) (λ ys. collect f (acc ++ ys) xs) e in
    collect-All P f h (acc ++ ys) xs (All-append P acc ys p (h x ys r)) k

abbrev pub IsVulnType : Str → Type 0
IsVulnType v = (v ≡ vuln_type_os) ⊎ (v ≡ vuln_type_library)

abbrev pub IsSecurityCheck : Str → Type 0
IsSecurityCheck v = (v ≡ security_check_vulnerability) ⊎ (v ≡ security_check_config)

two_cases : (a b s : Str) → contains (a ∷ b ∷ []) s ≡ true → (s ≡ a) ⊎ (s ≡ b)
two_cases a b s h = elim (contains_mem (a ∷ b ∷ []) s h) [
  | Memᴰ.head e ↦ inl e
  | Memᴰ.tail m ↦ elim m [ Memᴰ.head e ↦ inr e | Memᴰ.tail n ↦ absurd (Memᴰ.not-nil n) ]
]

known_vuln_type-All : (v : Str) (vs : List Str) → known_vuln_type v ≡ ok vs → All IsVulnType vs
unfolding known_vuln_type new_vuln_type
known_vuln_type-All v vs e =
    elim (Bool-cases (contains (vuln_type_os ∷ vuln_type_library ∷ []) v)) [
      | inl t ↦ elim (Bool-cases (v == vuln_type_unknown)) [
        | inl u ↦
            absurd (let e' : err _ ≡ ok vs = rw (t, u, known_vuln_type, new_vuln_type) at e in cc)
        | inr u ↦
            let e' : ok (v ∷ []) ≡ ok vs = rw (t, u, known_vuln_type, new_vuln_type) at e in
            let same : v ∷ [] ≡ vs = cc in
            let known : All IsVulnType (v ∷ []) =
              (two_cases vuln_type_os vuln_type_library v t, tt) in
            subst (All IsVulnType) same known
      ]
      | inr f ↦ absurd (
          let r = ==_refl vuln_type_unknown in
          let e' : err _ ≡ ok vs = rw (f, r, known_vuln_type, new_vuln_type) at e in cc)
    ]

known_security_check-All :
    (v : Str) (vs : List Str) → known_security_check v ≡ ok vs → All IsSecurityCheck vs
unfolding known_security_check new_security_check
known_security_check-All v vs e =
    elim (Bool-cases (contains (security_check_vulnerability ∷ security_check_config ∷ []) v)) [
      | inl t ↦ elim (Bool-cases (v == security_check_unknown)) [
        | inl u ↦ absurd (
            let e' : err _ ≡ ok vs = rw (t, u, known_security_check, new_security_check) at e in cc)
        | inr u ↦
            let e' : ok (v ∷ []) ≡ ok vs =
              rw (t, u, known_security_check, new_security_check) at e in
            let same : v ∷ [] ≡ vs = cc in
            let known : All IsSecurityCheck (v ∷ []) =
              (two_cases security_check_vulnerability security_check_config v t, tt) in
            subst (All IsSecurityCheck) same known
      ]
      | inr f ↦ absurd (
          let r = ==_refl security_check_unknown in
          let e' : err _ ≡ ok vs = rw (f, r, known_security_check, new_security_check) at e in cc)
    ]

-- The types of vulnerabilities and the checks that the options ask for are known ones.
abbrev pub IsKnown : ReportOption → Type 0
IsKnown c = All IsVulnType c.vuln_type × All IsSecurityCheck c.security_checks

populate_vuln_types-IsKnown :
    (c : ReportOption) {out : ReportOption}
    → IsKnown c
    → populate_vuln_types c ≡ ok out
    → IsKnown out
unfolding populate_vuln_types
populate_vuln_types-IsKnown c {out} h e = elim (Bool-cases (c.vuln_type_flag == [])) [
  | inl t ↦
      let e' : ok c ≡ ok out = rw (t, populate_vuln_types) at e in
      let same : c ≡ out = cc in subst IsKnown same h
  | inr f ↦
      let (types, r, k) =
        bind_ok (collect known_vuln_type c.vuln_type (split b',' c.vuln_type_flag))
          (λ types. ok (record c { vuln_type = types })) {out = out}
          (rw (f, populate_vuln_types) at e) in
      let same : record c { vuln_type = types } ≡ out = cc in
      let known : IsKnown (record c { vuln_type = types }) =
        (collect-All IsVulnType known_vuln_type known_vuln_type-All c.vuln_type _ h.0 r, h.1) in
      subst IsKnown same known
]

populate_security_checks-IsKnown :
    (c : ReportOption) {out : ReportOption}
    → IsKnown c
    → populate_security_checks c ≡ ok out
    → IsKnown out
unfolding populate_security_checks
populate_security_checks-IsKnown c {out} h e = elim (Bool-cases (c.security_checks_flag == [])) [
  | inl t ↦
      let e' : ok c ≡ ok out = rw (t, populate_security_checks) at e in
      let same : c ≡ out = cc in subst IsKnown same h
  | inr f ↦
      let (checks, r, k) =
        bind_ok (collect known_security_check c.security_checks (split b',' c.security_checks_flag))
          (λ checks. ok (record c { security_checks = checks })) {out = out}
          (rw (f, populate_security_checks) at e) in
      let same : record c { security_checks = checks } ≡ out = cc in
      let known : IsKnown (record c { security_checks = checks }) = (
        h.0,
        collect-All IsSecurityCheck known_security_check known_security_check-All c.security_checks
            _ h.1 r,
      ) in
      subst IsKnown same known
]

with_output-IsKnown :
    (create : Str → Result Str) (c : ReportOption) {out : ReportOption}
    → IsKnown c
    → with_output create c ≡ ok out
    → IsKnown out
with_output-IsKnown create c {out} h e =
    let cleared = record c {
      severities_flag = [];
      vuln_type_flag = [];
      security_checks_flag = [];
    } in
    elim (Bool-cases (c.output_flag == [])) [
      | inl t ↦
          let e' : ok (record cleared { output = none }) ≡ ok out = rw t at e in
          let same : record cleared { output = none } ≡ out = cc in subst IsKnown same h
      | inr f ↦
          let (file, _, k) =
            bind_ok (context _ (create c.output_flag))
              (λ file. ok (record cleared { output = some file })) {out = out} (rw f at e) in
          let same : record cleared { output = some file } ≡ out = cc in subst IsKnown same h
    ]

-- Where Init of the report's options succeeds, the types of vulnerabilities and the checks are known
-- ones, if those that are there before are.
pub init_report-IsKnown :
    (db : Severities) (create : Str → Result Str) (c : ReportOption) {out : ReportOption}
    → IsKnown c
    → init_report db create c ≡ ok out
    → IsKnown out
unfolding init_report
init_report-IsKnown db create c {out} h e =
    let (typed, t, k) =
      bind_ok (context (str "vuln type") (populate_vuln_types (with_severities db c))) _ e in
    let (checked, s, k') =
      bind_ok (context (str "security checks") (populate_security_checks typed)) _ k in
    with_output-IsKnown create checked
      (populate_security_checks-IsKnown typed
        (populate_vuln_types-IsKnown (with_severities db c) h (context-ok _ _ t))
        (context-ok _ _ s))
      k'
