-- ===== src/Plugin/Tests.antt =====
-- The theorems on plugins at a concrete system.
use trivy.Base.{refl, true, List, [], ◌∷◌, ◌++◌, some}
use trivy.Base.Text.{Str, str, ◌==◌}
use trivy.Base.Result.{ok}
use trivy.Base.State.{done}
use trivy.Plugin.{
  Plugin, Platform, System, stated, exited_well, official_plugin, select_platform, select_from,
  plugins_dir, plugin_dir, load_metadata,
}
use trivy.Plugin.Install.{
  download, download_to_temp_dir, copy_file, install_files, copy_config, install_into,
  install_plugin, install_from, fetch, install,
}
use trivy.Plugin.Laws.{IsRunnable, install-IsRunnable}

abbrev other : Platform
other = record { selector = some (record { os = str "darwin"; arch = [] }); uri = []; bin = [] }

abbrev linux : Platform
linux = record {
  selector = some (record { os = str "linux"; arch = str "amd64" });
  uri = str "kubectl.tar.gz";
  bin = str "kubectl";
}

abbrev kubectl : Plugin
kubectl = record {
  name = str "kubectl";
  repository = str "github.com/aquasecurity/trivy-plugin-kubectl";
  version = str "0.1.0";
  usage = [];
  description = [];
  platforms = other ∷ linux ∷ [];
  goos = [];
  goarch = [];
}

-- The state is the list of the paths that have been written.
abbrev system : System (List Str)
system = record {
  stat = λ s path. stated true;
  read_dir = λ s path. ok (record { name = str "kubectl"; is_dir = true } ∷ []);
  open_file = λ s path. ok path;
  decode = λ content. ok kubectl;
  remove_all = λ path s. (s, ok done);
  mkdir_temp = λ pattern s. (s, ok (str "/tmp"));
  getwd = λ s. ok (str "/");
  get = λ source destination pwd s. (destination ∷ s, ok done);
  create = λ path s. (path ∷ s, ok done);
  copy = λ path content s. (s, ok 1);
  run = λ path args s. (s, exited_well);
  join = λ a b. a ++ (str "/" ++ b);
  data_home = str "/data";
  home_dir = str "/root";
  goos = str "linux";
  goarch = str "amd64";
}

install-IsRunnable_example : IsRunnable system kubectl
unfolding install fetch official_plugin download_to_temp_dir download install_from install_plugin
    install_into install_files copy_config copy_file load_metadata plugin_dir select_platform
    select_from plugins_dir ◌==◌
install-IsRunnable_example = install-IsRunnable system (str "kubectl") [] refl
