-- ===== src/Commands/Plugins.antt =====
-- pkg/commands/plugin/plugin.go: the subcommands on plugins, and the plugins as subcommands.
use trivy.Base.{true, false, List, [], ◌∷◌, ◌++◌, map}
use trivy.Base.Text.{Str, str}
use trivy.Base.Result.{Result, ok, err, panicked}
use trivy.Base.State.{Call, Done, done, pure, read, within, ◌>>=◌}
use trivy.Plugin.{Plugin, System, load_all}
use trivy.Plugin.Install.{install, run, uninstall, information, list_plugins, update}
use trivy.Commands.Action.{Ended, finished, exited}

-- initLogger, and fmt.Fprintf to the standard output, with the text as its format
pub record Terminal (S : Type 0) : Type 0 where
  pub init_logger : Call S Done
  pub fprintf : Str → Call S Done

-- cli.Command of a plugin
pub record Command (S : Type 0) : Type 0 where
  pub name : Str
  pub usage : Str
  pub action : List Str → Call S Done

module _ {S : Type 0} (sys : System S) (terminal : Terminal S) where
  -- A subcommand with one argument: with another number of them cli.ShowSubcommandHelpAndExit ends the
  -- process with code 1.
  unfoldable pub with_argument : Str → (Str → Call S Done) → List Str → Call S Ended
  with_argument text action (arg ∷ []) = do
    d ← within text terminal.init_logger
    a ← action arg
    pure finished
  with_argument text action [] = pure (exited 1)
  with_argument text action (arg ∷ other ∷ args) = pure (exited 1)

  -- Install
  unfoldable pub install_command : List Str → Call S Ended
  unfolding with_argument install
  install_command =
      with_argument (str "initialize error")
        (λ url. do p ← within (str "plugin install error") (install sys url true); pure done)

  -- Uninstall
  unfoldable pub uninstall_command : List Str → Call S Ended
  unfolding with_argument uninstall
  uninstall_command =
      with_argument (str "initialize error")
        (λ name. within (str "plugin uninstall error") (uninstall sys name))

  -- Information
  unfoldable pub information_command : List Str → Call S Ended
  unfolding with_argument information
  information_command = with_argument (str "initialize logger error") (λ name. do
    info ← within (str "plugin information display error") (read (information sys name))
    within (str "print error") (terminal.fprintf info))

  -- List
  unfoldable pub list_command : Call S Ended
  unfolding list_plugins
  list_command = do
    d ← within (str "initialize error") terminal.init_logger
    info ← within (str "plugin list display error") (read (list_plugins sys))
    p ← within (str "print error") (terminal.fprintf info)
    pure finished

  -- Update
  unfoldable pub update_command : List Str → Call S Ended
  unfolding with_argument update
  update_command =
      with_argument (str "initialize error")
        (λ name. within (str "plugin update error") (update sys name))

  -- RunWithArgs
  unfoldable pub run_with_args : Str → List Str → Call S Done
  unfolding install run
  run_with_args url args = do
    pl ← within (str "plugin install error") (install sys url false)
    within (str "unable to run " ++ pl.name ++ str " plugin") (run sys pl args)

  -- Run
  unfoldable pub run_command : List Str → Call S Ended
  unfolding run_with_args
  run_command [] = pure (exited 1)
  run_command (url ∷ args) = do
    d ← within (str "initialize error") terminal.init_logger
    r ← run_with_args url args
    pure finished

  -- The command of a plugin, in LoadCommands.
  unfoldable pub command_of : Plugin → Command S
  unfolding run
  command_of p = record {
    name = p.name;
    usage = p.usage;
    action = λ args. do
      d ← within (str "initialize error") terminal.init_logger
      within (str "plugin error") (run sys p args);
  }

  -- LoadCommands
  unfoldable pub load_commands : S → Result (List (Command S))
  unfolding load_all command_of
  load_commands s = elim (load_all sys s) [
    | ok plugins ↦ ok (map command_of plugins)
    | err e ↦ ok []
    | panicked ↦ panicked
  ]
