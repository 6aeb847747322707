-- ===== src/Pluginctl/Commands.antt =====
-- packages/pluginctl/src/build.ts, test.ts and command-runner.ts: the commands that run other
-- programs. `execFile` with the working directory and the `PATH` that it gets, whether a file can be
-- accessed, `node:path` and the validation of a manifest are parameters.
use ts_plugins.Common.{Bool, true, false, Option, none, some, List, [], ◌∷◌, ◌++◌, Text, codes}
use ts_plugins.Pluginctl.Manifest.{text_of, PluginManifest}
use ts_plugins.Pluginctl.Validate.{Failure, Checked, passed, failure}

pub record Shell {ℓ} (S : Type ℓ) : Type ℓ where
  pub exec_file : S → Text → List Text → Text → Text → Bool × S
  pub accessible : S → Text → Bool
  pub path_variable : Option Text
  pub bin_root : Text
  pub join_bin : Text → Text
  pub resolve : Text → Text
  pub resolve_below : Text → Text → Text
  pub validate_plugin_manifest : S → Text → Checked PluginManifest

pub record BuiltPlugin : Type 0 where
  pub manifest_path : Text
  pub main_path : Text

pub data BuildFailure : Type 0 where
  command_failed : Text → BuildFailure
  not_valid : Failure → BuildFailure

pub data Finished {ℓ} (A : Type ℓ) : Type ℓ where
  finished : A → Finished A
  stopped : BuildFailure → Finished A

module _ {ℓ} {S : Type ℓ} (shell : Shell S) where
  abbrev pub binary_if : Bool → Text → Text → Text
  binary_if true command local_path = local_path
  binary_if false command local_path = command

  unfoldable pub resolve_binary : S → Text → Text → Text
  resolve_binary s command local_path = binary_if (shell.accessible s local_path) command local_path

  abbrev pub or_empty : Option Text → Text
  or_empty none = []
  or_empty (some path) = path

  unfoldable pub run_tool : S → Text → List Text → Text → Bool × S
  unfolding resolve_binary
  run_tool s command arguments cwd =
      shell.exec_file s (resolve_binary s command (shell.join_bin command)) arguments cwd
        (shell.bin_root ++ (codes ":" ++ or_empty shell.path_variable))

  abbrev pub built_of : Text → Checked PluginManifest → Finished BuiltPlugin
  built_of project_dir (failure e) = stopped (not_valid e)
  built_of project_dir (passed manifest) = finished (record {
    manifest_path = shell.resolve_below project_dir (codes "plugin.json");
    main_path = shell.resolve_below project_dir (text_of manifest.main);
  })

  abbrev pub build_compiled : Text → Bool × S → Finished BuiltPlugin × S
  build_compiled project_dir (false, s) = (stopped (command_failed (codes "tsc")), s)
  build_compiled project_dir (true, s) = (
    built_of project_dir
        (shell.validate_plugin_manifest s (shell.resolve_below project_dir (codes "plugin.json"))),
    s,
  )

  unfoldable pub build_plugin : S → Text → Finished BuiltPlugin × S
  unfolding run_tool
  build_plugin s input_dir =
      let project_dir = shell.resolve input_dir in
      build_compiled project_dir (
        run_tool s (codes "tsc")
          (codes "-p" ∷ shell.resolve_below project_dir (codes "tsconfig.json") ∷ []) project_dir)

  -- The project's directory; its status is always "ok".
  abbrev pub tested : Text → Bool × S → Finished Text × S
  tested project_dir (false, s) = (stopped (command_failed (codes "pnpm")), s)
  tested project_dir (true, s) = (finished project_dir, s)

  unfoldable pub test_plugin : S → Text → Finished Text × S
  unfolding run_tool
  test_plugin s input_dir =
      let project_dir = shell.resolve input_dir in
      tested project_dir (run_tool s (codes "pnpm") (codes "test" ∷ []) project_dir)
