-- ===== src/Tests/Commands.antt =====
-- Runs of packages/pluginctl/src/cli.ts and build.ts.
use ts_plugins.Common.{
  ◌≡◌, ◌↔◌, refl, Bool, true, false, Option, none, some, List, [], ◌∷◌, ◌++◌, Text, text_eq, ◌==◌,
  codes,
}
use ts_plugins.Codegen.Contract.{PluginServiceDefinition}
use ts_plugins.Pluginctl.Values.{JsonValue, null}
use ts_plugins.Pluginctl.Validate.{unreadable_manifest, failure}
use ts_plugins.Pluginctl.Install.{folder, tarball, npm}
use ts_plugins.Pluginctl.Cli.{
  one_value, many_values, install_command, init_command, unsupported_kind, init_options_required,
  done, wrote, refused, Workflows, serialize_contract_for_inspect, run_matched_command,
}
use ts_plugins.Pluginctl.Cli.Inspect.{shown, serialize_contract_for_inspect_iff}
use ts_plugins.Pluginctl.Commands.{Shell, command_failed, not_valid, stopped, build_plugin}

abbrev contract : Option Text → PluginServiceDefinition Text
contract schema = record {
  package_name = codes "calc.v1";
  service_name = codes "Calc";
  type_name = codes "calc.v1.Calc";
  methods =
      (record {
        name = codes "Init";
        local_name = codes "init";
        canonical_name = codes "calc.v1.Calc/Init";
        method_id = 3;
        input_type = codes "In";
        output_type = codes "Out";
        input_schema = schema;
        output_schema = schema;
      })
      ∷ [];
}

serialize_contract_for_inspect_iff_example :
    (serialize_contract_for_inspect (contract none)
      ≡ serialize_contract_for_inspect (contract (some (codes "In"))))
    ↔ (shown (contract none) ≡ shown (contract (some (codes "In"))))
serialize_contract_for_inspect_iff_example =
    serialize_contract_for_inspect_iff (contract none) (contract (some (codes "In")))

-- Workflows that keep the last source in place of a disk.
abbrev workflows : Workflows Text Text Text
workflows = record {
  init_plugin_project = λ s dir id package_name service_name.
      (done (record { project_dir = dir; manifest_path = id; proto_path = package_name }), s);
  validate_plugin_manifest = λ s path. done (null, contract none);
  pack_plugin = λ s dir output. (done output, s);
  generate_plugin_bindings = λ s dir. (done (dir, dir), s);
  build_plugin = λ s dir. (done (dir, dir), s);
  test_plugin = λ s dir. (done dir, s);
  install_plugin = λ s home source. elim source [
    | folder path ↦ (done home, codes "folder " ++ path)
    | tarball path ↦ (done home, codes "tarball " ++ path)
    | npm spec ↦ (done home, codes "npm " ++ spec)
  ];
}

abbrev print : JsonValue → Text
print v = codes "{}"

commands_run :
    (run_matched_command workflows print []
        (install_command (codes "a") none (some (many_values (codes "h" ∷ codes "g" ∷ []))))
      ≡ (wrote (codes "h\n"), codes "folder a"))
    × (run_matched_command workflows print [] (
          install_command
            (codes "a")
            (some (one_value (codes "npm")))
            (some (one_value (codes "h"))))
        ≡ (wrote (codes "h\n"), codes "npm a"))
    × (run_matched_command workflows print [] (
          install_command
            (codes "a")
            (some (one_value (codes "zip")))
            (some (one_value (codes "h"))))
        ≡ (refused (unsupported_kind (codes "zip")), []))
    × (run_matched_command workflows print []
          (init_command (codes "d") (some (one_value (codes "i"))) (some (many_values [])) none)
        ≡ (refused init_options_required, []))
unfolding run_matched_command
commands_run = (refl, refl, refl, refl)

-- A shell in which only `tsc` is at its local path, and no manifest is read.
abbrev shell : Bool → Shell (List Text)
shell succeeds = record {
  exec_file = λ s binary arguments cwd path. (succeeds, binary ∷ s);
  accessible = λ s path. path == codes "/bin/tsc";
  path_variable = none;
  bin_root = codes "/bin";
  join_bin = λ command. codes "/bin/" ++ command;
  resolve = λ path. path;
  resolve_below = λ dir path. dir ++ (codes "/" ++ path);
  validate_plugin_manifest = λ s path. failure unreadable_manifest;
}

builds :
    (build_plugin (shell false) [] (codes "p")
      ≡ (stopped (command_failed (codes "tsc")), codes "/bin/tsc" ∷ []))
    × (build_plugin (shell true) [] (codes "p")
        ≡ (stopped (not_valid unreadable_manifest), codes "/bin/tsc" ∷ []))
unfolding build_plugin
builds = (refl, refl)
