-- ===== src/Plugin.antt =====
-- pkg/plugin/plugin.go: the metadata of plugins, their platforms and the installed ones.
pub mod Install
pub mod Laws
mod Tests
use trivy.Base.{
  Bool, true, false, not, ◌&&◌, ◌||◌, List, [], ◌∷◌, ◌++◌, Option, none, some, if◌then◌else◌, ℕ,
}
use trivy.Base.Text.{Str, str, ◌==◌}
use trivy.Base.Result.{Result, ok, err, panicked, Error, message, context, ◌>>=◌}
use trivy.Base.State.{Call, Done}

-- Selector, Platform and Plugin
pub record Selector : Type 0 where
  pub os : Str
  pub arch : Str

pub record Platform : Type 0 where
  pub selector : Option Selector
  pub uri : Str
  pub bin : Str

pub record Plugin : Type 0 where
  pub name : Str
  pub repository : Str
  pub version : Str
  pub usage : Str
  pub description : Str
  pub platforms : List Platform
  pub goos : Str
  pub goarch : Str

-- os.DirEntry
pub record DirEntry : Type 0 where
  pub name : Str
  pub is_dir : Bool

-- What os.Stat says of a path: whether it is a regular file, or an error, one of os.IsNotExist or not
pub data Stat : Type 0 where
  stated : Bool → Stat
  not_exist stat_failed : Error → Stat

-- How a command ends: well, with an error of type *exec.ExitError, or with another error
pub data Exit : Type 0 where
  exited_well : Exit
  exit_error not_run : Error → Exit

-- The calls of the operating system, of the getter and of the decoder on a state S, with the
-- environment: os.Stat, os.ReadDir, os.Open with the reading of the file, the decoder of YAML,
-- os.RemoveAll, os.MkdirTemp, os.Getwd, the getter's Get (source, destination and directory),
-- os.Create, io.Copy of a content to a path, the run of a command, filepath.Join of two elements,
-- XDG_DATA_HOME, the home directory (empty on an error), and runtime.GOOS and GOARCH.
pub record System (S : Type 0) : Type 0 where
  pub stat : S → Str → Stat
  pub read_dir : S → Str → Result (List DirEntry)
  pub open_file : S → Str → Result Str
  pub decode : Str → Result Plugin
  pub remove_all : Str → Call S Done
  pub mkdir_temp : Str → Call S Str
  pub getwd : S → Result Str
  pub get : Str → Str → Str → Call S Done
  pub create : Str → Call S Done
  pub copy : Str → Str → Call S ℕ
  pub run : Str → List Str → S → S × Exit
  pub join : Str → Str → Str
  pub data_home : Str
  pub home_dir : Str
  pub goos : Str
  pub goarch : Str

abbrev pub config_file : Str
config_file = str "plugin.yaml"

-- The short names of officialPlugins
unfoldable pub official_plugin : Str → Str
official_plugin url =
    if url == str "kubectl"
    then str "github.com/aquasecurity/trivy-plugin-kubectl"
    else if url == str "aqua"
    then str "github.com/aquasecurity/trivy-plugin-aqua"
    else url

-- Whether a platform is for an environment.
abbrev pub is_selected : Str → Str → Platform → Bool
is_selected goos goarch platform = elim (platform.selector) [
  | none ↦ true
  | some selector ↦
      (selector.os == [] || goos == selector.os) && (selector.arch == [] || goarch == selector.arch)
]

-- The loop of selectPlatform.
unfoldable pub select_from : Str → Str → List Platform → Result Platform
select_from goos goarch [] = err (message (str "platform not found"))
select_from goos goarch (platform ∷ platforms) =
    let rest = select_from goos goarch platforms in
    if is_selected goos goarch platform then ok platform else rest

-- The loop of isInstalled.
unfoldable pub find_repository : Str → List Plugin → Option Plugin
find_repository url [] = none
find_repository url (plugin ∷ plugins) =
    let rest = find_repository url plugins in if plugin.repository == url then some plugin else rest

module _ {S : Type 0} (sys : System S) where
  -- Plugin.selectPlatform
  unfoldable pub select_platform : Plugin → Result Platform
  unfolding select_from
  select_platform p =
      select_from (if p.goos == [] then sys.goos else p.goos)
        (if p.goarch == [] then sys.goarch else p.goarch) p.platforms

  -- dir
  unfoldable pub plugins_dir : Str
  plugins_dir =
      let relative = sys.join (str ".trivy") (str "plugins") in
      if not (sys.data_home == [])
      then sys.join sys.data_home relative
      else sys.join sys.home_dir relative

  -- Plugin.dir
  unfoldable pub plugin_dir : Plugin → Result Str
  unfolding plugins_dir
  plugin_dir p =
      if p.name == []
      then err (message (str "'name' is empty"))
      else ok (sys.join plugins_dir p.name)

  -- loadMetadata
  unfoldable pub load_metadata : Str → S → Result Plugin
  load_metadata dir s = do
    content ← context (str "file open error") (sys.open_file s (sys.join dir config_file))
    context (str "yaml decode error") (sys.decode content)

  -- The loop of LoadAll: a directory whose metadata does not load is left out.
  unfoldable pub load_from : Str → List DirEntry → S → Result (List Plugin)
  unfolding load_metadata
  load_from dir [] s = ok []
  load_from dir (d ∷ dirs) s =
      let rest = load_from dir dirs s in
      if not d.is_dir then rest else elim (load_metadata (sys.join dir d.name) s) [
        | ok plugin ↦ rest >>= (λ plugins. ok (plugin ∷ plugins))
        | err e ↦ rest
        | panicked ↦ panicked
      ]

  -- LoadAll
  unfoldable pub load_all : S → Result (List Plugin)
  unfolding plugins_dir load_from
  load_all s = do
    dirs ← context (str "failed to read " ++ plugins_dir) (sys.read_dir s plugins_dir)
    load_from plugins_dir dirs s

  -- isInstalled, where a panic of the decoder passes through
  unfoldable pub is_installed : Str → S → Result (Option Plugin)
  unfolding load_all find_repository
  is_installed url s = elim (load_all s) [
    | ok plugins ↦ ok (find_repository url plugins)
    | err e ↦ ok none
    | panicked ↦ panicked
  ]
