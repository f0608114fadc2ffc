-- ===== src/Detector/Version.antt =====
-- Versions as texts: pkg/scanner/utils/utils.go, and how the detectors shorten the version of an
-- operating system. The libraries that parse and compare versions are parameters.
use trivy.Base.{
  ℕ, ◌+◌, Bool, not, [], ◌∷◌, ◌++◌, Option, none, some, if◌then◌else◌, eqb, ltb, ◌≡◌, refl,
}
use trivy.Base.Text.{Str, str, ◌==◌, count, index, last_index, slice_to, decimal}
use trivy.External.{Package}

-- go-apk-version and go-deb-version: NewVersion (`none` on an error), LessThan and GreaterThan
pub record Versions (V : Type 0) : Type 0 where
  pub new_version : Str → Option V
  pub less_than : V → V → Bool
  pub greater_than : V → V → Bool

-- go-rpm-version: NewVersion, LessThan and String
pub record RpmVersions (V : Type 0) : Type 0 where
  pub new_version : Str → V
  pub less_than : V → V → Bool
  pub to_string : V → Str

-- fmt.Sprintf("%s-%s", v, release) and fmt.Sprintf("%d:%s", epoch, v), where there is one
unfoldable pub format : ℕ → Str → Str → Str
format epoch version release =
    let v = if not (release == []) then version ++ (str "-" ++ release) else version in
    if not (eqb epoch 0) then decimal epoch ++ (str ":" ++ v) else v

unfoldable pub format_version : Package → Str
unfolding format
format_version pkg = format pkg.epoch pkg.version pkg.release

unfoldable pub format_src_version : Package → Str
unfolding format
format_src_version pkg = format pkg.src_epoch pkg.src_version pkg.src_release

-- if strings.Count(osVer, ".") > 0 { osVer = osVer[:strings.Index(osVer, ".")] }
unfoldable pub major : Str → Str
major os_ver = if ltb 0 (count b'.' os_ver) then slice_to os_ver (index b'.' os_ver) else os_ver

-- if strings.Count(osVer, ".") > 1 { osVer = osVer[:strings.LastIndex(osVer, ".")] }
unfoldable pub minor : Str → Str
minor os_ver =
    if ltb 1 (count b'.' os_ver) then slice_to os_ver (last_index b'.' os_ver) else os_ver

-- The loop of addModularNamespace: what stands before the second colon of the label.
unfoldable pub before_second_colon : ℕ → Str → Option Str
before_second_colon colons [] = none
before_second_colon colons (r ∷ label) =
    let colons' = if eqb r b':' then colons + 1 else colons in
    let rest = before_second_colon colons' label in
    if eqb colons' 2 then some [] else elim rest [ none ↦ none | some l ↦ some (r ∷ l) ]

-- e.g. npm, nodejs:12:8030020201124152102:229f0a1c => nodejs:12::npm
unfoldable pub add_modular_namespace : Str → Str → Str
unfolding before_second_colon
add_modular_namespace name label = elim (before_second_colon 0 label) [
  | none ↦ name
  | some stream ↦ stream ++ (str "::" ++ name)
]

version_tests :
    (major (str "7.9.2009") ≡ str "7")
    × (minor (str "3.10.2") ≡ str "3.10")
    × (minor (str "3.10") ≡ str "3.10")
    × (format 2 (str "1.0") (str "r1") ≡ str "2:1.0-r1")
    × (add_modular_namespace (str "npm") (str "nodejs:12:8030:229f") ≡ str "nodejs:12::npm")
    × (add_modular_namespace (str "npm") (str "nodejs:12") ≡ str "npm")
unfolding major minor format add_modular_namespace count index last_index slice_to decimal ◌==◌
version_tests = (refl, refl, refl, refl, refl, refl)
