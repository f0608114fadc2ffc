-- ===== src/Detector/Library.antt =====
-- pkg/detector/library: the detector of vulnerabilities in language-specific packages.
pub mod Compare
use trivy.Base.{
  Bool, true, false, not, ◌&&◌, List, [], ◌∷◌, ◌++◌, Option, none, some, if◌then◌else◌, map,
}
use trivy.Base.Text.{Str, str, join, split, trim_space, trim_prefix, has_prefix, contains}
use trivy.Base.Result.{Result, ok, err, message, context, choose, collect, ◌>>=◌}
use trivy.External.{Package, Advisory}
use trivy.Types.{DetectedVulnerability, no_detected}

-- The constants of fanal's types for the types of applications.
pub record AppTypes : Type 0 where
  pub bundler : Str
  pub gem_spec : Str
  pub cargo : Str
  pub composer : Str
  pub go_binary : Str
  pub go_mod : Str
  pub jar : Str
  pub pom : Str
  pub npm : Str
  pub yarn : Str
  pub node_pkg : Str
  pub java_script : Str
  pub nu_get : Str
  pub pipenv : Str
  pub poetry : Str
  pub pip : Str
  pub python_pkg : Str

-- The constants of trivy-db for the ecosystems.
pub record Ecosystems : Type 0 where
  pub ruby_gems : Str
  pub cargo : Str
  pub composer : Str
  pub go : Str
  pub maven : Str
  pub npm : Str
  pub nu_get : Str
  pub pip : Str

-- The comparers, by the library of versions that they use.
pub record Comparers : Type 0 where
  pub generic : Compare.MatchVersion
  pub maven : Compare.MatchVersion
  pub npm : Compare.MatchVersion
  pub pep440 : Compare.MatchVersion
  pub rubygems : Compare.MatchVersion

module _ {G GC M MC N NC P PC R RC : Type 0} where
  -- The comparers with their libraries: go-version, go-mvn-version, go-npm-version,
  -- go-pep440-version (pre-releases included) and go-gem-version.
  abbrev comparers_of :
      Compare.Versioning G GC
      → Compare.Versioning M MC
      → Compare.Versioning N NC
      → Compare.Versioning P PC
      → Compare.Versioning R RC
      → Comparers
  comparers_of go_version mvn npm pep440 gem = record {
    generic = Compare.match_version go_version;
    maven = Compare.maven_match_version mvn;
    npm = Compare.npm_match_version npm;
    pep440 = Compare.pep440_match_version pep440;
    rubygems = Compare.rubygems_match_version gem;
  }

-- trivy-db: GetAdvisories of a bucket and a name, and NormalizePkgName of an ecosystem and a name.
pub record LibraryDb : Type 0 where
  pub app_types : AppTypes
  pub ecosystems : Ecosystems
  pub comparers : Comparers
  pub get_advisories : Str → Str → Result (List Advisory)
  pub normalize_pkg_name : Str → Str → Str

pub record Driver : Type 0 where
  pub ecosystem : Str
  pub comparer : Compare.MatchVersion

-- The parts of the versions between commas.
unfoldable pub split_all : List Str → List Str
split_all [] = []
split_all (v ∷ vs) = split b',' v ++ split_all vs

-- The fixed versions that an advisory's vulnerable versions imply: the loop of createFixedVersions.
unfoldable pub fixed_versions : List Str → List Str
unfolding split_all
fixed_versions vulnerable =
    choose
      (λ part.
        let s = trim_space part in
        if not (has_prefix s (str "<=")) && has_prefix s (str "<")
        then some (trim_space (trim_prefix s (str "<")))
        else none)
      (split_all vulnerable)

-- createFixedVersions
unfoldable pub create_fixed_versions : Advisory → Str
unfolding fixed_versions
create_fixed_versions advisory = elim (advisory.patched_versions) [
  | [] ↦ join (str ", ") (fixed_versions advisory.vulnerable_versions)
  | v ∷ vs ↦ join (str ", ") (v ∷ vs)
]

module _ (db : LibraryDb) where
  -- NewDriver
  unfoldable pub new_driver : Str → Result Driver
  new_driver lib_type =
      let t = db.app_types in
      let e = db.ecosystems in
      let c = db.comparers in
      if contains (t.bundler ∷ t.gem_spec ∷ []) lib_type
      then ok (record { ecosystem = e.ruby_gems; comparer = c.rubygems })
      else if contains (t.cargo ∷ []) lib_type
      then ok (record { ecosystem = e.cargo; comparer = c.generic })
      else if contains (t.composer ∷ []) lib_type
      then ok (record { ecosystem = e.composer; comparer = c.generic })
      else if contains (t.go_binary ∷ t.go_mod ∷ []) lib_type
      then ok (record { ecosystem = e.go; comparer = c.generic })
      else if contains (t.jar ∷ t.pom ∷ []) lib_type
      then ok (record { ecosystem = e.maven; comparer = c.maven })
      else if contains (t.npm ∷ t.yarn ∷ t.node_pkg ∷ t.java_script ∷ []) lib_type
      then ok (record { ecosystem = e.npm; comparer = c.npm })
      else if contains (t.nu_get ∷ []) lib_type
      then ok (record { ecosystem = e.nu_get; comparer = c.generic })
      else if contains (t.pipenv ∷ t.poetry ∷ t.pip ∷ t.python_pkg ∷ []) lib_type
      then ok (record { ecosystem = e.pip; comparer = c.pep440 })
      else err (message (str "unsupported type " ++ lib_type))

  -- The vulnerability that DetectVulnerabilities reports for an advisory.
  unfoldable pub report : Str → Str → Advisory → DetectedVulnerability
  report pkg_name pkg_ver adv = record no_detected {
    vulnerability_id = adv.vulnerability_id;
    pkg_name = pkg_name;
    installed_version = pkg_ver;
    fixed_version = create_fixed_versions adv;
    data_source = adv.data_source;
  }

  -- Driver.DetectVulnerabilities
  unfoldable pub detect_vulnerabilities : Driver → Str → Str → Result (List DetectedVulnerability)
  unfolding report
  detect_vulnerabilities d pkg_name pkg_ver = do
    advisories ←
        context (str "failed to get " ++ (d.ecosystem ++ str " advisories"))
          (db.get_advisories (d.ecosystem ++ str "::") (db.normalize_pkg_name d.ecosystem pkg_name))
    ok (
        choose
          (λ adv.
            if not (Compare.is_vulnerable d.comparer pkg_ver adv)
            then none
            else some (report pkg_name pkg_ver adv))
          advisories)

  -- vulns[i].Layer = lib.Layer; vulns[i].PkgPath = lib.FilePath
  abbrev pub locate : Package → DetectedVulnerability → DetectedVulnerability
  locate lib v = record v { layer = lib.layer; pkg_path = lib.file_path }

  -- The body of the loop of detect.
  unfoldable pub detect_lib : Driver → Package → Result (List DetectedVulnerability)
  unfolding detect_vulnerabilities
  detect_lib driver lib = do
    vulns ←
        context (str "failed to detect " ++ (driver.ecosystem ++ str " vulnerabilities"))
          (detect_vulnerabilities driver lib.name lib.version)
    ok (map (locate lib) vulns)

  -- detect
  unfoldable pub detect_libs : Driver → List Package → Result (List DetectedVulnerability)
  unfolding detect_lib
  detect_libs driver libs = collect (detect_lib driver) [] libs

  -- Detect
  unfoldable pub detect : Str → List Package → Result (List DetectedVulnerability)
  unfolding new_driver detect_libs
  detect lib_type pkgs = do
    driver ← context (str "failed to new driver") (new_driver lib_type)
    context (str "failed to scan " ++ (driver.ecosystem ++ str " vulnerabilities"))
        (detect_libs driver pkgs)
