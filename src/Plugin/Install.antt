-- ===== src/Plugin/Install.antt =====
-- pkg/plugin/plugin.go: the operations on plugins, with pkg/downloader and CopyFile of pkg/utils.
use trivy.Base.{ℕ, Bool, true, false, not, List, [], ◌∷◌, ◌++◌, none, some, if◌then◌else◌, map}
use trivy.Base.Text.{Str, str, join}
use trivy.Base.Result.{Result, ok, err, panicked, message, wrap}
use trivy.Base.State.{Call, Done, done, pure, read, within, defer, ◌>>=◌}
use trivy.Plugin.{
  Plugin, Platform, System, stated, not_exist, stat_failed, exited_well, exit_error, not_run,
  config_file, official_plugin, select_platform, plugins_dir, plugin_dir, load_metadata, load_all,
  is_installed,
}

module _ {S : Type 0} (sys : System S) where
  -- downloader.Download, which does not test the error of os.RemoveAll
  unfoldable pub download : Str → Str → Str → Call S Done
  download src dst pwd s =
      within (str "failed to download") (sys.get src dst pwd) (sys.remove_all dst s).0

  -- downloader.DownloadToTempDir
  unfoldable pub download_to_temp_dir : Str → Call S Str
  unfolding download
  download_to_temp_dir url = do
    temp_dir ← within (str "failed to create a temp dir") (sys.mkdir_temp (str "trivy-plugin"))
    pwd ← within (str "unable to get the current dir") (read sys.getwd)
    d ← within (str "download error") (download url temp_dir pwd)
    pure temp_dir

  -- utils.CopyFile
  unfoldable pub copy_file : Str → Str → Call S ℕ
  copy_file src dst s =
      let copied : Call S ℕ = do
        source ← read (λ t. sys.open_file t src)
        destination ← sys.create dst
        sys.copy dst source
      in elim (sys.stat s src) [
        | stated true ↦ copied s
        | stated false ↦ (s, err (message (src ++ str " is not a regular file")))
        | not_exist e ↦ (s, err (wrap (str "file (" ++ src ++ str ") stat error") e))
        | stat_failed e ↦ (s, err (wrap (str "file (" ++ src ++ str ") stat error") e))
      ]

  -- Plugin.Run
  unfoldable pub run : Plugin → List Str → Call S Done
  unfolding select_platform plugins_dir
  run p args =
      let executed : Platform → Call S Done = λ platform s.
        let (t, exit) =
          sys.run (sys.join (sys.join (plugins_dir sys) p.name) platform.bin) args s in
        elim exit [
          | exited_well ↦ (t, ok done)
          | exit_error e ↦ (t, err (wrap (str "plugin exec") e))
          | not_run e ↦ (t, err (wrap (str "exit") e))
        ] in
      do
        platform ← within (str "platform selection error") (read (λ _. select_platform sys p))
        executed platform

  -- Plugin.install
  unfoldable pub install_files : Plugin → Str → Str → Call S Done
  unfolding select_platform download
  install_files p dst pwd = do
    platform ← within (str "platform selection error") (read (λ _. select_platform sys p))
    within (str "unable to download the execution file (" ++ platform.uri ++ str ")")
        (download platform.uri dst pwd)

  -- The steps of Install on the files in the temporary directory: plugin.yaml is copied last.
  unfoldable pub copy_config : Str → Plugin → Str → Call S Plugin
  unfolding copy_file
  copy_config temp_dir plugin dir = do
    n ←
        within (str "failed to copy plugin.yaml")
          (copy_file (sys.join temp_dir config_file) (sys.join dir config_file))
    pure plugin

  unfoldable pub install_into : Str → Plugin → Str → Call S Plugin
  unfolding install_files copy_config
  install_into temp_dir plugin dir = do
    d ← within (str "failed to install the plugin") (install_files plugin dir temp_dir)
    copy_config temp_dir plugin dir

  unfoldable pub install_plugin : Str → Plugin → Call S Plugin
  unfolding plugin_dir install_into
  install_plugin temp_dir plugin = do
    dir ← within (str "failed to determine the plugin dir") (read (λ _. plugin_dir sys plugin))
    install_into temp_dir plugin dir

  unfoldable pub install_from : Str → Call S Plugin
  unfolding load_metadata install_plugin
  install_from temp_dir = do
    plugin ← within (str "failed to load the plugin metadata") (read (load_metadata sys temp_dir))
    install_plugin temp_dir plugin

  -- What Install does where the plugin is not installed, or is to be installed again.
  unfoldable pub fetch : Str → Call S Plugin
  unfolding download_to_temp_dir install_from
  fetch url = do
    temp_dir ← within (str "download failed") (download_to_temp_dir url)
    defer (sys.remove_all temp_dir) (install_from temp_dir)

  -- Install
  unfoldable pub install : Str → Bool → Call S Plugin
  unfolding official_plugin is_installed fetch
  install url force s =
      let name = official_plugin url in
      let fetched = fetch name s in
      if not force
      then elim (is_installed sys name s) [
        | ok (some p) ↦ (s, ok p)
        | ok none ↦ fetched
        | err e ↦ (s, err e)
        | panicked ↦ (s, panicked)
      ]
      else fetched

  -- Uninstall
  unfoldable pub uninstall : Str → Call S Done
  unfolding plugins_dir
  uninstall name = sys.remove_all (sys.join (plugins_dir sys) name)

  -- Information
  unfoldable pub information : Str → S → Result Str
  unfolding plugins_dir load_metadata
  information name s =
      let dir = sys.join (plugins_dir sys) name in
      let loaded : Result Plugin = elim (load_metadata sys dir s) [
        | ok plugin ↦ ok plugin
        | err e ↦ err (wrap (str "unable to load metadata") e)
        | panicked ↦ panicked
      ] in
      elim (sys.stat s dir) [
        | stated _ ↦ elim loaded [
          | ok plugin ↦ ok (
              join (b'\n' ∷ []) (
                []
                ∷ (str "Plugin: " ++ plugin.name)
                ∷ (str "  Description: " ++ plugin.description)
                ∷ (str "  Version:     " ++ plugin.version)
                ∷ (str "  Usage:       " ++ plugin.usage)
                ∷ []
                ∷ []))
          | err e ↦ err e
          | panicked ↦ panicked
        ]
        | not_exist e ↦ err (
            message
              (str "could not find a plugin called '" ++ name ++ str "', did you install it?"))
        | stat_failed e ↦ err (wrap (str "stat error") e)
      ]

  -- An entry of List.
  abbrev pub listed : Plugin → Str
  listed plugin =
      (str "  Name:    " ++ plugin.name ++ b'\n' ∷ [])
      ++ (str "  Version: " ++ plugin.version ++ b'\n' ∷ [])

  -- List
  unfoldable pub list_plugins : S → Result Str
  unfolding plugins_dir load_all
  list_plugins s = elim (sys.stat s (plugins_dir sys)) [
    | stated _ ↦ elim (load_all sys s) [
      | ok plugins ↦ ok (join (b'\n' ∷ []) (str "Installed Plugins:" ∷ map listed plugins))
      | err e ↦ err (wrap (str "unable to load plugins") e)
      | panicked ↦ panicked
    ]
    | not_exist e ↦ ok (str "No Installed Plugins" ++ b'\n' ∷ [])
    | stat_failed e ↦ err (wrap (str "stat error") e)
  ]

  -- Update
  unfoldable pub update : Str → Call S Done
  unfolding plugins_dir load_metadata install
  update name s =
      let dir = sys.join (plugins_dir sys) name in
      let installed : Call S Done = do
        plugin ← read (load_metadata sys dir)
        updated ←
            within (str "unable to perform an update installation") (install plugin.repository true)
        pure done
      in elim (sys.stat s dir) [
        | stated _ ↦ installed s
        | not_exist e ↦
            (s, err (wrap (str "could not find a plugin called '" ++ name ++ str "' to update") e))
        | stat_failed e ↦ (s, err e)
      ]
