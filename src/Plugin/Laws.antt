-- ===== src/Plugin/Laws.antt =====
-- What an installation of pkg/plugin/plugin.go says of the plugin it returns.
use trivy.Base.{
  Bool, true, false, ◌&&◌, ◌||◌, ◌≡◌, ◌≢◌, ◌⊎◌, refl, inl, inr, List, [], ◌∷◌, ◌++◌, All,
  Bool-cases, none, some, if◌then◌else◌,
}
use trivy.Base.Text.{Str, str, ◌==◌, ==_cases, ==_refl}
use trivy.Base.Result.{ok, err, message}
use trivy.Base.State.{Done, pure, read, within, defer, next_ok, wrapped-ok, after}
use trivy.Plugin.{
  Plugin, Platform, Selector, System, is_selected, select_from, select_platform, plugin_dir,
  load_metadata, load_all, is_installed, find_repository, official_plugin, config_file,
}
use trivy.Plugin.Install.{
  install_files, copy_config, install_into, install_plugin, download, install_from, fetch, install,
  copy_file, download_to_temp_dir,
}
use mathlib.Core.List.{Memᴰ}

-- A selector that is there leaves a field empty or names the environment's.
abbrev pub IsSelected : Str → Str → Platform → Type 0
IsSelected goos goarch platform =
    (selector : Selector)
    → platform.selector ≡ some selector
    → ((selector.os ≡ []) ⊎ (goos ≡ selector.os))
      × ((selector.arch ≡ []) ⊎ (goarch ≡ selector.arch))

either : (s t : Str) → (s == [] || t == s) ≡ true → (s ≡ []) ⊎ (t ≡ s)
either s t h = elim (==_cases s []) [
  | inl (_, e) ↦ inl e
  | inr (f, _) ↦ elim (==_cases t s) [
    | inl (_, e) ↦ inr e
    | inr (g, _) ↦ absurd (let h' : false ≡ true = rw (f, g) at h in cc)
  ]
]

both : (a b : Bool) → (a && b) ≡ true → (a ≡ true) × (b ≡ true)
both true true h = (refl, refl)
both true false h = cc
both false b h = cc

is_selected-IsSelected :
    (goos goarch : Str) (platform : Platform)
    → is_selected goos goarch platform ≡ true
    → IsSelected goos goarch platform
is_selected-IsSelected goos goarch platform h selector e =
    let (a, b) =
      both (selector.os == [] || goos == selector.os)
        (selector.arch == [] || goarch == selector.arch) (rw e at h) in
    (either selector.os goos a, either selector.arch goarch b)

select_from-mem :
    (goos goarch : Str) (platforms : List Platform) {platform : Platform}
    → select_from goos goarch platforms ≡ ok platform
    → Memᴰ platform platforms × IsSelected goos goarch platform
unfolding select_from
select_from-mem goos goarch [] e = cc
select_from-mem goos goarch (p ∷ platforms) {platform} e =
    elim (Bool-cases (is_selected goos goarch p)) [
      | inl t ↦
          let e' : ok p ≡ ok platform = rw t at e in
          let same : platform ≡ p = cc in
          (Memᴰ.head same, rw same (is_selected-IsSelected goos goarch p t))
      | inr f ↦
          let e' : select_from goos goarch platforms ≡ ok platform = rw f at e in
          let (m, s) = select_from-mem goos goarch platforms e' in (Memᴰ.tail m, s)
    ]

module _ {S : Type 0} (sys : System S) where
  -- The environment for which a plugin selects its platform.
  abbrev pub goos_of : Plugin → Str
  goos_of p = if p.goos == [] then sys.goos else p.goos

  abbrev pub goarch_of : Plugin → Str
  goarch_of p = if p.goarch == [] then sys.goarch else p.goarch

  -- A plugin with a name, and with a platform that is selected and is for the environment.
  pub record IsRunnable (p : Plugin) : Type 0 where
    pub named : p.name ≢ []
    pub platform : Platform
    pub selected : select_platform sys p ≡ ok platform
    pub listed : Memᴰ platform p.platforms
    pub suited : IsSelected (goos_of p) (goarch_of p) platform

  plugin_dir-named : (p : Plugin) {dir : Str} → plugin_dir sys p ≡ ok dir → p.name ≢ []
  unfolding plugin_dir ◌==◌
  plugin_dir-named p {dir} e n =
      let e' : err (message (str "'name' is empty")) ≡ ok dir = rw n at e in cc

  select_platform-IsRunnable :
      (p : Plugin) {platform : Platform}
      → p.name ≢ []
      → select_platform sys p ≡ ok platform
      → IsRunnable p
  unfolding select_platform
  select_platform-IsRunnable p {platform} n e =
      let (m, s) = select_from-mem (goos_of p) (goarch_of p) p.platforms e in
      record { named = n; platform = platform; selected = e; listed = m; suited = s }

  install_files-selects :
      (p : Plugin) (dst pwd : Str) (s : S) {d : Done}
      → (install_files sys p dst pwd s).1 ≡ ok d
      → (platform : Platform) × (select_platform sys p ≡ ok platform)
  unfolding install_files
  install_files-selects p dst pwd s e =
      let (platform, r, _) =
        next_ok
          (λ platform.
            within (str "unable to download the execution file (" ++ platform.uri ++ str ")")
              (download sys platform.uri dst pwd))
          (within (str "platform selection error") (read (λ _. select_platform sys p)) s) e in
      (platform, wrapped-ok _ (s, select_platform sys p) r)

  copy_config-ok :
      (temp_dir : Str) (plugin : Plugin) (dir : Str) (s : S) {p : Plugin}
      → (copy_config sys temp_dir plugin dir s).1 ≡ ok p
      → plugin ≡ p
  unfolding copy_config
  copy_config-ok temp_dir plugin dir s e =
      let (n, _, k) =
        next_ok (λ n. pure plugin)
          (within (str "failed to copy plugin.yaml")
            (copy_file sys (sys.join temp_dir config_file) (sys.join dir config_file)) s)
          e in
      cc

  install_into-ok :
      (temp_dir : Str) (plugin : Plugin) (dir : Str) (s : S) {p : Plugin}
      → (install_into sys temp_dir plugin dir s).1 ≡ ok p
      → (plugin ≡ p) × (platform : Platform) × (select_platform sys plugin ≡ ok platform)
  unfolding install_into
  install_into-ok temp_dir plugin dir s e =
      let (d, i, k) =
        next_ok (λ d. copy_config sys temp_dir plugin dir)
          (within (str "failed to install the plugin") (install_files sys plugin dir temp_dir) s)
          e in
      let (platform, selected) =
        install_files-selects plugin dir temp_dir s
          (wrapped-ok _ (install_files sys plugin dir temp_dir s) i) in
      (copy_config-ok temp_dir plugin dir _ k, platform, selected)

  install_plugin-IsRunnable :
      (temp_dir : Str) (plugin : Plugin) (s : S) {p : Plugin}
      → (install_plugin sys temp_dir plugin s).1 ≡ ok p
      → IsRunnable p
  unfolding install_plugin
  install_plugin-IsRunnable temp_dir plugin s {p} e =
      let (dir, q, k) =
        next_ok (λ dir. install_into sys temp_dir plugin dir)
          (within (str "failed to determine the plugin dir") (read (λ _. plugin_dir sys plugin)) s)
          e in
      let (same, platform, selected) = install_into-ok temp_dir plugin dir _ k in
      rw (← same) (
        select_platform-IsRunnable plugin
          (plugin_dir-named plugin (wrapped-ok _ (s, plugin_dir sys plugin) q)) selected)

  install_from-IsRunnable :
      (temp_dir : Str) (s : S) {p : Plugin} → (install_from sys temp_dir s).1 ≡ ok p → IsRunnable p
  unfolding install_from
  install_from-IsRunnable temp_dir s e =
      let (plugin, _, k) =
        next_ok (install_plugin sys temp_dir)
          (within (str "failed to load the plugin metadata") (read (load_metadata sys temp_dir)) s)
          e in
      install_plugin-IsRunnable temp_dir plugin _ k

  fetch-IsRunnable : (url : Str) (s : S) {p : Plugin} → (fetch sys url s).1 ≡ ok p → IsRunnable p
  unfolding fetch
  fetch-IsRunnable url s e =
      let (temp_dir, _, k) =
        next_ok (λ temp_dir. defer (sys.remove_all temp_dir) (install_from sys temp_dir))
          (within (str "download failed") (download_to_temp_dir sys url) s) e in
      install_from-IsRunnable temp_dir _ k

  -- A plugin that Install returns by force has a name, and a platform for the environment, which is
  -- the one that Run selects.
  pub install-IsRunnable :
      (url : Str) (s : S) {p : Plugin} → (install sys url true s).1 ≡ ok p → IsRunnable p
  unfolding install
  install-IsRunnable url s e = fetch-IsRunnable (official_plugin url) s e

  find_repository-first :
      (url : Str) (before after : List Plugin) (p : Plugin)
      → All (λ q. q.repository ≢ url) before
      → p.repository ≡ url
      → find_repository url (before ++ p ∷ after) ≡ some p
  unfolding find_repository
  find_repository-first url [] after p h e = rw (e, ==_refl url) refl
  find_repository-first url (q ∷ before) after p h e = elim (==_cases q.repository url) [
    | inl (_, same) ↦ absurd (h.0 same)
    | inr (f, _) ↦ rw (f, find_repository) (find_repository-first url before after p h.1 e)
  ]

  find_repository-none :
      (url : Str) (plugins : List Plugin)
      → All (λ q. q.repository ≢ url) plugins
      → find_repository url plugins ≡ none
  unfolding find_repository
  find_repository-none url [] h = refl
  find_repository-none url (q ∷ plugins) h = elim (==_cases q.repository url) [
    | inl (_, same) ↦ absurd (h.0 same)
    | inr (f, _) ↦ rw (f, find_repository) (find_repository-none url plugins h.1)
  ]

  -- Where the installed plugins load, Install without force returns the first one whose repository is
  -- that of the URL, a short name replaced, and changes no file; where none has it, it does what it
  -- does by force.
  pub install-installed :
      (url : Str) (s : S) {plugins : List Plugin}
      → load_all sys s ≡ ok plugins
      → ((before after : List Plugin) (p : Plugin)
          → plugins ≡ before ++ p ∷ after
          → All (λ q. q.repository ≢ official_plugin url) before
          → p.repository ≡ official_plugin url
          → install sys url false s ≡ (s, ok p))
        × (All (λ q. q.repository ≢ official_plugin url) plugins
            → install sys url false s ≡ install sys url true s)
  unfolding install is_installed
  install-installed url s {plugins} e = (
    λ before after p split h same.
        let found : find_repository (official_plugin url) plugins ≡ some p =
          rw split (find_repository-first (official_plugin url) before after p h same) in
        rw (e, found, install, is_installed) refl,
    λ h. rw (e, find_repository-none (official_plugin url) plugins h, install, is_installed) refl,
  )
