-- ===== src/Purl.antt =====
-- pkg/purl/purl.go: the package URL of a package.
pub mod Laws
mod Tests
use trivy.Base.{
  ℕ, ◌+◌, Bool, true, not, ◌||◌, List, [], ◌∷◌, ◌++◌, Option, none, some, if◌then◌else◌, take, drop,
  map, eqb,
}
use trivy.Base.Text.{Str, str, ◌==◌, contains, last_index}
use trivy.Base.Result.{Result, ok, err, panicked, context, ◌>>=◌}
use trivy.External.{Package, Os}
use trivy.Scanner.{Metadata}
use trivy.Detector.Version.{format_version}

-- packageurl-go's Qualifier and PackageURL
pub record Qualifier : Type 0 where
  pub key : Str
  pub value : Str

pub record Url : Type 0 where
  pub type : Str
  pub namespace : Str
  pub name : Str
  pub version : Str
  pub qualifiers : List Qualifier
  pub subpath : Str

-- PackageURL
pub record PackageUrl : Type 0 where
  pub url : Url
  pub file_path : Str

-- A digest of go-containerregistry's package name: RepositoryStr, Repository.Name and DigestStr
pub record Digest : Type 0 where
  pub repository_str : Str
  pub repository_name : Str
  pub digest_str : Str

-- The constants of packageurl-go for types, those of fanal for the types of applications and for the
-- families that NewPackageURL sorts by type, NewDigest, and strings.ToLower
pub record Libraries : Type 0 where
  pub maven : Str
  pub gem : Str
  pub pypi : Str
  pub golang : Str
  pub npm : Str
  pub debian : Str
  pub rpm : Str
  pub composer : Str
  pub oci : Str
  pub apk : Str
  pub jar : Str
  pub pom : Str
  pub bundler : Str
  pub gem_spec : Str
  pub python_pkg : Str
  pub pip : Str
  pub pipenv : Str
  pub poetry : Str
  pub go_binary : Str
  pub go_mod : Str
  pub npm_pkg_lock : Str
  pub node_pkg : Str
  pub yarn : Str
  pub alpine : Str
  pub debian_family : Str
  pub ubuntu : Str
  pub redhat : Str
  pub centos : Str
  pub rocky : Str
  pub alma : Str
  pub amazon : Str
  pub fedora : Str
  pub oracle : Str
  pub opensuse : Str
  pub opensuse_leap : Str
  pub opensuse_tumbleweed : Str
  pub sles : Str
  pub photon : Str
  pub new_digest : Str → Result Digest
  pub to_lower : Str → Str

-- packageurl.NewPackageURL
abbrev pub url_of : Str → Str → Str → Str → List Qualifier → Url
url_of type namespace name version qualifiers = record {
  type = type;
  namespace = namespace;
  name = name;
  version = version;
  qualifiers = qualifiers;
  subpath = [];
}

-- PackageURL.BOMRef, before it is printed
unfoldable pub bom_ref : PackageUrl → Url
bom_ref purl =
    if not (purl.file_path == [])
    then record (purl.url) {
      qualifiers =
          purl.url.qualifiers ++ record { key = str "file_path"; value = purl.file_path } ∷ [];
    }
    else purl.url

-- parsePkgName: the namespace and the name
unfoldable pub parse_pkg_name : Str → Str × Str
parse_pkg_name name = elim (last_index b'/' name) [
  | none ↦ ([], name)
  | some i ↦ (take i name, drop (i + 1) name)
]

-- strings.ReplaceAll of one character
abbrev pub replace_all : ℕ → ℕ → Str → Str
replace_all c d = map (λ r. if eqb r c then d else r)

-- parseMaven
unfoldable pub parse_maven : Str → Str × Str
unfolding parse_pkg_name
parse_maven pkg_name = parse_pkg_name (replace_all b':' b'/' pkg_name)

-- parseComposer
unfoldable pub parse_composer : Str → Str × Str
unfolding parse_pkg_name
parse_composer pkg_name = parse_pkg_name pkg_name

-- parseQualifier
unfoldable pub parse_qualifier : Package → List Qualifier
parse_qualifier pkg =
    if not (pkg.arch == []) then record { key = str "arch"; value = pkg.arch } ∷ [] else []

-- parseApk
abbrev pub parse_apk : Os → List Qualifier
parse_apk fos = record { key = str "distro"; value = fos.name } ∷ []

-- parseDeb
abbrev pub parse_deb : Os → List Qualifier
parse_deb fos = record { key = str "distro"; value = fos.family ++ (str "-" ++ fos.name) } ∷ []

module _ (l : Libraries) where
  -- parseGolang and parseNpm
  unfoldable pub parse_golang : Str → Str × Str
  unfolding parse_pkg_name
  parse_golang pkg_name = parse_pkg_name (l.to_lower pkg_name)

  unfoldable pub parse_npm : Str → Str × Str
  unfolding parse_pkg_name
  parse_npm pkg_name = parse_pkg_name (l.to_lower pkg_name)

  -- parsePyPI
  unfoldable pub parse_pypi : Str → Str
  parse_pypi pkg_name = l.to_lower (replace_all b'_' b'-' pkg_name)

  -- parseRPM: the namespace and the qualifiers
  unfoldable pub parse_rpm : Os → Str → Str × List Qualifier
  parse_rpm fos modularity_label =
      let family = if fos.family == l.sles then str "sles" else fos.family in
      let distro : List Qualifier =
        record { key = str "distro"; value = family ++ (str "-" ++ fos.name) } ∷ [] in
      if not (modularity_label == [])
      then (family, distro ++ record { key = str "modularitylabel"; value = modularity_label } ∷ [])
      else (family, distro)

  -- purlType
  unfoldable pub purl_type : Str → Str
  purl_type t =
      if contains (l.jar ∷ l.pom ∷ []) t
      then l.maven
      else if contains (l.bundler ∷ l.gem_spec ∷ []) t
      then l.gem
      else if contains (l.python_pkg ∷ l.pip ∷ l.pipenv ∷ l.poetry ∷ []) t
      then l.pypi
      else if contains (l.go_binary ∷ l.go_mod ∷ []) t
      then l.golang
      else if contains (l.npm_pkg_lock ∷ l.node_pkg ∷ l.yarn ∷ []) t
      then l.npm
      else if t == l.alpine
      then l.apk
      else if contains (l.debian_family ∷ l.ubuntu ∷ []) t
      then l.debian
      else if contains
          (l.redhat ∷ l.centos ∷ l.rocky ∷ l.alma ∷ l.amazon ∷ l.fedora ∷ l.oracle ∷ l.opensuse
            ∷ l.opensuse_leap ∷ l.opensuse_tumbleweed ∷ l.sles ∷ l.photon ∷ [])
          t
      then l.rpm
      else if t == str "oci"
      then l.oci
      else t

  -- parseOCI, with the architecture of the image's configuration file
  unfoldable pub parse_oci : Metadata → Str → Result Url
  unfolding parse_pkg_name
  parse_oci metadata architecture = elim (metadata.repo_digests) [
    | [] ↦ ok (url_of [] [] [] [] [])
    | first ∷ _ ↦ do
      digest ← context (str "failed to parse digest") (l.new_digest first)
      let name = (parse_pkg_name (l.to_lower digest.repository_str)).1
      ok (
          url_of l.oci [] name digest.digest_str (
            record { key = str "repository_url"; value = digest.repository_name }
            ∷ record { key = str "arch"; value = architecture }
            ∷ []))
  ]

  -- The qualifiers that the package has before those of its type.
  abbrev pub first_qualifiers : Metadata → Package → List Qualifier
  first_qualifiers metadata pkg = elim (metadata.os) [ none ↦ [] | some _ ↦ parse_qualifier pkg ]

  abbrev pub with_file : Package → Url → PackageUrl
  with_file pkg url = record { url = url; file_path = pkg.file_path }

  -- The namespace and the name of the other types.
  unfoldable pub name_parts : Str → Str → Str × Str
  unfolding parse_maven parse_pypi parse_composer parse_golang parse_npm
  name_parts ptype name =
      if ptype == l.maven
      then parse_maven name
      else if ptype == l.pypi
      then ([], parse_pypi name)
      else if ptype == l.composer
      then parse_composer name
      else if ptype == l.golang
      then parse_golang name
      else if ptype == l.npm
      then parse_npm name
      else ([], name)

  abbrev pub no_qualifiers : Str × Str → Str × Str × List Qualifier
  no_qualifiers (namespace, name) = (namespace, name, [])

  abbrev pub rpm_parts : Package → Os → Str × Str × List Qualifier
  rpm_parts pkg fos =
      let (namespace, qualifiers) = parse_rpm fos pkg.modularitylabel in
      (namespace, pkg.name, qualifiers)

  -- What reads the operating system panics where there is none.
  abbrev pub with_os {ℓ} : {A : Type ℓ} → (Os → A) → Option Os → Result A
  with_os f none = panicked
  with_os f (some fos) = ok (f fos)

  -- The namespace, the name and the further qualifiers that a type has.
  unfoldable pub parts_of : Str → Option Os → Package → Result (Str × Str × List Qualifier)
  parts_of ptype fos pkg =
      if ptype == l.rpm
      then with_os (rpm_parts pkg) fos
      else if ptype == l.debian
      then with_os (λ os. (os.family, pkg.name, parse_deb os)) fos
      else if ptype == l.apk
      then with_os (λ os. (os.family, pkg.name, parse_apk os)) fos
      else ok (no_qualifiers (name_parts ptype pkg.name))

  abbrev pub package_url : Metadata → Package → Str → Str × Str × List Qualifier → PackageUrl
  package_url metadata pkg ptype (namespace, name, qualifiers) = with_file pkg (
      url_of ptype namespace name (format_version pkg)
        (first_qualifiers metadata pkg ++ qualifiers))

  -- NewPackageURL
  unfoldable pub new_package_url : Str → Metadata → Str → Package → Result PackageUrl
  unfolding purl_type parse_oci parts_of
  new_package_url t metadata architecture pkg =
      let ptype = purl_type t in
      let of_image : Result PackageUrl = do
        url ← parse_oci metadata architecture
        let out : PackageUrl = record { url = url; file_path = [] }
        ok out
      in let of_package : Result PackageUrl = do
        parts ← parts_of ptype metadata.os pkg
        ok (package_url metadata pkg ptype parts)
        in if ptype == l.oci then of_image else of_package
