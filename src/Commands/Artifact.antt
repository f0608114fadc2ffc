-- ===== src/Commands/Artifact.antt =====
-- pkg/commands/artifact/{image,fs,repository,config}.go: the scanners of the subcommands and their
-- runs, after the options have been read; with pkg/types/docker_conf.go.
pub mod Laws
use trivy.Base.{Bool, not, List, [], ◌∷◌, ◌++◌, if◌then◌else◌, true}
use trivy.Base.Text.{Str, str, ◌==◌}
use trivy.Base.Result.{Result}
use trivy.Base.State.{Call, pure, read, within, ◌>>=◌}
use trivy.Types
use trivy.Types.{vuln_type_library, security_check_config}
use trivy.Scanner.{Report}
use trivy.Commands.Action.{Action, Ended}
use trivy.Commands.Calls.{Calls, Options, ScannerConfig}
use trivy.Commands.Run.{run_with_timeout}

-- DockerConfig, and fanal's DockerOption
pub record DockerConfig : Type 0 where
  pub user_name : Str
  pub password : Str
  pub registry_token : Str
  pub non_ssl : Bool

pub record DockerOption : Type 0 where
  pub user_name : Str
  pub password : Str
  pub registry_token : Str
  pub insecure_skip_tls_verify : Bool
  pub non_ssl : Bool

-- An initialized scanner, by its ScanArtifact
abbrev pub Scan : Type 0 → Type 0
Scan S = Types.ScanOptions → Call S Report

-- The initializers that wire generates, env.Parse of the environment, and fanal's lists of types of
-- analyzers
pub record Initializers (S : Type 0) : Type 0 where
  pub parse_env : Result DockerConfig
  pub docker : ScannerConfig → DockerOption → Call S (Scan S)
  pub archive : ScannerConfig → Call S (Scan S)
  pub filesystem : ScannerConfig → Call S (Scan S)
  pub repository : ScannerConfig → Call S (Scan S)
  pub remote_docker : ScannerConfig → DockerOption → Call S (Scan S)
  pub remote_archive : ScannerConfig → Call S (Scan S)
  pub remote_filesystem : ScannerConfig → Call S (Scan S)
  pub type_lockfiles : List Str
  pub type_individual_pkgs : List Str
  pub type_oses : List Str

module _ {S : Type 0} (init : Initializers S) where
  -- GetDockerOption
  unfoldable pub get_docker_option : Bool → Call S DockerOption
  get_docker_option insecure_tls_skip =
      within (str "unable to parse environment variables") (read (λ _. init.parse_env)) >>= λ cfg.
      pure (record {
        user_name = cfg.user_name;
        password = cfg.password;
        registry_token = cfg.registry_token;
        insecure_skip_tls_verify = insecure_tls_skip;
        non_ssl = cfg.non_ssl;
      })

  -- imageScanner and archiveScanner
  unfoldable pub image_scanner : ScannerConfig → Call S (Scan S)
  unfolding get_docker_option
  image_scanner conf = get_docker_option conf.artifact_option.insecure_skip_tls >>= λ docker_opt.
      within (str "unable to initialize a docker scanner") (init.docker conf docker_opt)

  unfoldable pub archive_scanner : ScannerConfig → Call S (Scan S)
  archive_scanner conf = within (str "unable to initialize the archive scanner") (init.archive conf)

  -- remoteImageScanner and remoteArchiveScanner
  unfoldable pub remote_image_scanner : ScannerConfig → Call S (Scan S)
  unfolding get_docker_option
  remote_image_scanner conf =
      get_docker_option conf.artifact_option.insecure_skip_tls >>= λ docker_opt.
      within (str "unable to initialize the docker scanner") (init.remote_docker conf docker_opt)

  unfoldable pub remote_archive_scanner : ScannerConfig → Call S (Scan S)
  remote_archive_scanner conf =
      within (str "unable to initialize the archive scanner") (init.remote_archive conf)

  -- filesystemStandaloneScanner and filesystemRemoteScanner
  unfoldable pub filesystem_standalone_scanner : ScannerConfig → Call S (Scan S)
  filesystem_standalone_scanner conf =
      within (str "unable to initialize a filesystem scanner") (init.filesystem conf)

  unfoldable pub filesystem_remote_scanner : ScannerConfig → Call S (Scan S)
  filesystem_remote_scanner conf =
      within (str "unable to initialize a filesystem scanner") (init.remote_filesystem conf)

  -- repositoryScanner
  unfoldable pub repository_scanner : ScannerConfig → Call S (Scan S)
  repository_scanner conf =
      within (str "unable to initialize a filesystem scanner") (init.repository conf)

  module _ (calls : Calls S) where
    -- Run with an initializer; of the deadline, only that a call may fail is left.
    unfoldable pub run : Options → (ScannerConfig → Call S (Scan S)) → Action S Ended
    unfolding run_with_timeout
    run opt initialize = run_with_timeout (record calls { initialize_scanner = initialize }) opt

    -- archiveImageRun and imageRun
    unfoldable pub archive_image_run : Options → Action S Ended
    unfolding run archive_scanner remote_archive_scanner
    archive_image_run opt =
        run opt (if not (opt.remote_addr == []) then remote_archive_scanner else archive_scanner)

    unfoldable pub docker_image_run : Options → Action S Ended
    unfolding run image_scanner remote_image_scanner
    docker_image_run opt =
        run opt (if not (opt.remote_addr == []) then remote_image_scanner else image_scanner)

    -- ImageRun
    unfoldable pub image_run : Options → Action S Ended
    unfolding archive_image_run docker_image_run
    image_run opt =
        let disabled = record opt { disabled_analyzers = init.type_lockfiles } in
        if not (opt.input == []) then archive_image_run disabled else docker_image_run disabled

    abbrev filesystem_scanner : Options → ScannerConfig → Call S (Scan S)
    filesystem_scanner opt =
        if not (opt.remote_addr == [])
        then filesystem_remote_scanner
        else filesystem_standalone_scanner

    -- FilesystemRun
    unfoldable pub filesystem_run : Options → Action S Ended
    unfolding run
    filesystem_run opt =
        run (record opt { disabled_analyzers = init.type_individual_pkgs }) (filesystem_scanner opt)

    -- RootfsRun
    unfoldable pub rootfs_run : Options → Action S Ended
    unfolding run
    rootfs_run opt =
        run (record opt { disabled_analyzers = init.type_lockfiles }) (filesystem_scanner opt)

    -- RepositoryRun
    unfoldable pub repository_run : Options → Action S Ended
    unfolding run repository_scanner
    repository_run opt =
        run
          (record opt {
            vuln_type = vuln_type_library ∷ [];
            disabled_analyzers = init.type_individual_pkgs ++ init.type_oses;
          })
          repository_scanner

    -- The options of ConfigRun
    abbrev pub config_options : Options → Options
    config_options opt = record opt {
      disabled_analyzers = init.type_oses ++ calls.languages;
      vuln_type = [];
      security_checks = security_check_config ∷ [];
      skip_db_update = true;
    }

    -- ConfigRun
    unfoldable pub config_run : Options → Action S Ended
    unfolding run filesystem_standalone_scanner
    config_run opt = run (config_options opt) filesystem_standalone_scanner
