-- ===== src/Detector/Library/Compare.antt =====
-- pkg/detector/library/compare: is a version of a package vulnerable to an advisory?
pub mod Laws
use trivy.Base.{Bool, true, false, not, List, [], ◌∷◌, ◌++◌, Option, none, some, if◌then◌else◌, any}
use trivy.Base.Text.{Str, str, ◌==◌, join}
use trivy.External.{Advisory}

-- A library of versions: Parse or NewVersion, NewConstraints, NewComparer or NewSpecifiers (`none`
-- on an error), and Check.
pub record Versioning (V C : Type 0) : Type 0 where
  pub new_version : Str → Option V
  pub new_constraints : Str → Option C
  pub check : C → V → Bool

-- matchVersion, with `none` for an error
abbrev pub MatchVersion : Type 0
MatchVersion = Str → Str → Option Bool

module _ {V C : Type 0} (lib : Versioning V C) where
  -- GenericComparer.matchVersion
  unfoldable pub match_version : MatchVersion
  match_version current_version constraint = elim (lib.new_version current_version) [
    | none ↦ none
    | some ver ↦ elim (lib.new_constraints constraint) [
      | none ↦ none
      | some c ↦ some (lib.check c ver)
    ]
  ]

  -- maven.Comparer.matchVersion
  unfoldable pub maven_match_version : MatchVersion
  maven_match_version current_version constraint = elim (lib.new_version current_version) [
    | none ↦ none
    | some ver ↦ elim (lib.new_constraints constraint) [
      | none ↦ none
      | some c ↦ some (lib.check c ver)
    ]
  ]

  -- npm.Comparer.matchVersion
  unfoldable pub npm_match_version : MatchVersion
  npm_match_version current_version constraint = elim (lib.new_version current_version) [
    | none ↦ none
    | some ver ↦ elim (lib.new_constraints constraint) [
      | none ↦ none
      | some c ↦ some (lib.check c ver)
    ]
  ]

  -- pep440.Comparer.matchVersion, whose library takes pre-releases too
  unfoldable pub pep440_match_version : MatchVersion
  pep440_match_version current_version constraint = elim (lib.new_version current_version) [
    | none ↦ none
    | some ver ↦ elim (lib.new_constraints constraint) [
      | none ↦ none
      | some c ↦ some (lib.check c ver)
    ]
  ]

  -- rubygems.Comparer.matchVersion
  unfoldable pub rubygems_match_version : MatchVersion
  rubygems_match_version current_version constraint = elim (lib.new_version current_version) [
    | none ↦ none
    | some ver ↦ elim (lib.new_constraints constraint) [
      | none ↦ none
      | some c ↦ some (lib.check c ver)
    ]
  ]

abbrev pub is_blank : Str → Bool
is_blank v = v == []

-- What IsVulnerable does after the vulnerable versions have matched, or have not been tested.
unfoldable pub check_secure : MatchVersion → Str → List Str → Bool → Bool
check_secure match_ver pkg_ver [] matched = matched
check_secure match_ver pkg_ver (v ∷ vs) matched =
    elim (match_ver pkg_ver (join (str " || ") (v ∷ vs))) [ none ↦ false | some m ↦ not m ]

-- IsVulnerable
unfoldable pub is_vulnerable : MatchVersion → Str → Advisory → Bool
unfolding check_secure
is_vulnerable match_ver pkg_ver advisory =
    let secure_versions = advisory.patched_versions ++ advisory.unaffected_versions in
    if any is_blank (advisory.vulnerable_versions ++ advisory.patched_versions)
    then true
    else elim (advisory.vulnerable_versions) [
      | [] ↦ check_secure match_ver pkg_ver secure_versions false
      | v ∷ vs ↦ elim (match_ver pkg_ver (join (str " || ") (v ∷ vs))) [
        | none ↦ false
        | some matched ↦
            let secure = check_secure match_ver pkg_ver secure_versions matched in
            if not matched then false else secure
      ]
    ]
