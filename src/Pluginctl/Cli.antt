-- ===== src/Pluginctl/Cli.antt =====
-- packages/pluginctl/src/cli.ts: the commands of pluginctl. How `cac` reads the arguments is a
-- parameter: a command comes with its options, of which each may be given several times. The
-- workflows are an interface, on a state of the disk, with errors of their own.
pub mod Inspect
use ts_plugins.Common.{
  Bool, true, false, Option, none, some, List, [], ◌∷◌, ◌++◌, map, if◌then◌else◌, Text, text_eq,
  ◌==◌, codes,
}
use ts_plugins.Codegen.Contract.{PluginMethodDefinition, PluginServiceDefinition}
use ts_plugins.Pluginctl.Values.{
  JsonValue, string, whole, array, object, JsonValues, no_values, value, defined,
}
use ts_plugins.Pluginctl.Install.{PluginInstallSource, folder, tarball, npm}

pub data OptionValue : Type 0 where
  one_value : Text → OptionValue
  many_values : List Text → OptionValue

abbrev pub first_of : List Text → Option Text
first_of [] = none
first_of (t ∷ ts) = some t

unfoldable pub first_option_value : Option OptionValue → Option Text
first_option_value none = none
first_option_value (some (one_value t)) = some t
first_option_value (some (many_values ts)) = first_of ts

pub data Command : Type 0 where
  -- The project, the id, the package and the service.
  init_command : Text → Option OptionValue → Option OptionValue → Option OptionValue → Command
  inspect_command generate_command build_command test_command : Text → Command
  -- The source and the output.
  pack_command : Text → Option OptionValue → Command
  -- The source, the kind and the plugin home.
  install_command : Text → Option OptionValue → Option OptionValue → Command

pub data CliFailure : Type 0 where
  init_options_required output_required plugin_home_required : CliFailure
  unsupported_kind : Text → CliFailure

pub data Ran {ℓ κ} (E : Type ℓ) (A : Type κ) : Type (ℓ ⊔ κ) where
  done : A → Ran E A
  threw : E → Ran E A

pub data CliOutcome {ℓ} (E : Type ℓ) : Type ℓ where
  wrote : Text → CliOutcome E
  refused : CliFailure → CliOutcome E
  rejected_with : E → CliOutcome E

-- What `initPluginProject` returns: the directory, the manifest and the proto file.
pub record InitializedProject : Type 0 where
  pub project_dir : Text
  pub manifest_path : Text
  pub proto_path : Text

-- The workflows by what the command line takes from them.
pub record Workflows {ℓ} (S Schema E : Type ℓ) : Type ℓ where
  pub init_plugin_project : S → Text → Text → Text → Text → Ran E InitializedProject × S
  pub validate_plugin_manifest : S → Text → Ran E (JsonValue × PluginServiceDefinition Schema)
  -- The tarball's path.
  pub pack_plugin : S → Text → Text → Ran E Text × S
  -- The paths of the descriptors and of the handlers, and of the manifest and the entrypoint.
  pub generate_plugin_bindings : S → Text → Ran E (Text × Text) × S
  pub build_plugin : S → Text → Ran E (Text × Text) × S
  -- The project's directory.
  pub test_plugin : S → Text → Ran E Text × S
  -- The directory of the install.
  pub install_plugin : S → Text → PluginInstallSource → Ran E Text × S

abbrev pub values_of {ℓ} : {A : Type ℓ} → (A → JsonValue) → List A → JsonValues
values_of f [] = no_values
values_of f (a ∷ rest) = value (f a) (values_of f rest)

module _ {ℓ} {Schema : Type ℓ} where
  abbrev pub serialize_method : PluginMethodDefinition Schema → JsonValue
  serialize_method method = object (
      defined (
        (codes "name", some (string method.name))
        ∷ (codes "localName", some (string method.local_name))
        ∷ (codes "canonicalName", some (string method.canonical_name))
        ∷ (codes "methodId", some (whole method.method_id))
        ∷ (codes "inputType", some (string method.input_type))
        ∷ (codes "outputType", some (string method.output_type))
        ∷ []))

  unfoldable pub serialize_contract_for_inspect : PluginServiceDefinition Schema → JsonValue
  serialize_contract_for_inspect contract = object (
      defined (
        (codes "packageName", some (string contract.package_name))
        ∷ (codes "serviceName", some (string contract.service_name))
        ∷ (codes "typeName", some (string contract.type_name))
        ∷ (codes "methods", some (array (values_of serialize_method contract.methods)))
        ∷ []))

abbrev pub inspected {ℓ} :
    {Schema : Type ℓ} → JsonValue × PluginServiceDefinition Schema → JsonValue
inspected (manifest, contract) = object (
    defined (
      (codes "manifest", some manifest)
      ∷ (codes "contract", some (serialize_contract_for_inspect contract))
      ∷ []))

-- The kinds, of which the folder is the default.
abbrev pub source_of_kind : Text → Option Text → Option PluginInstallSource
source_of_kind source none = some (folder source)
source_of_kind source (some kind) =
    if kind == codes "npm"
    then some (npm source)
    else if kind == codes "tarball"
    then some (tarball source)
    else if kind == codes "folder"
    then some (folder source)
    else none

abbrev pub kind_name : Option Text → Text
kind_name none = codes "folder"
kind_name (some kind) = kind

-- The literal of a result with two paths.
abbrev pub two_paths : Text → Text → Text × Text → JsonValue
two_paths first second (p, q) =
    object (defined ((first, some (string p)) ∷ (second, some (string q)) ∷ []))

module _ {ℓ} {S Schema E : Type ℓ} (workflows : Workflows S Schema E)
    (stringify_pretty : JsonValue → Text) where
  -- What is written of a result, with the end of the line.
  abbrev pub write_line {κ} : {A : Type κ} → (A → Text) → Ran E A × S → CliOutcome E × S
  write_line print (done a, s) = (wrote (print a ++ codes "\n"), s)
  write_line print (threw e, s) = (rejected_with e, s)

  abbrev pub run_init : S → Text → Option Text → Option Text → Option Text → CliOutcome E × S
  run_init s project_dir (some id) (some package_name) (some service_name) =
      write_line
        (λ r. stringify_pretty (
          object (
            defined (
              (codes "projectDir", some (string r.project_dir))
              ∷ (codes "manifestPath", some (string r.manifest_path))
              ∷ (codes "protoPath", some (string r.proto_path))
              ∷ []))))
        (workflows.init_plugin_project s project_dir id package_name service_name)
  run_init s project_dir _ _ _ = (refused init_options_required, s)

  abbrev pub run_pack : S → Text → Option Text → CliOutcome E × S
  run_pack s source_dir none = (refused output_required, s)
  run_pack s source_dir (some output_dir) =
      write_line (λ path. path) (workflows.pack_plugin s source_dir output_dir)

  abbrev pub install_from : S → Text → Option Text → Option PluginInstallSource → CliOutcome E × S
  install_from s plugin_home kind none = (refused (unsupported_kind (kind_name kind)), s)
  install_from s plugin_home kind (some source) =
      write_line (λ path. path) (workflows.install_plugin s plugin_home source)

  abbrev pub run_install : S → Text → Option Text → Option Text → CliOutcome E × S
  run_install s source kind none = (refused plugin_home_required, s)
  run_install s source kind (some plugin_home) =
      install_from s plugin_home kind (source_of_kind source kind)

  -- The action of a command.
  unfoldable pub run_matched_command : S → Command → CliOutcome E × S
  unfolding first_option_value serialize_contract_for_inspect
  run_matched_command s (init_command project_dir id package_name service_name) =
      run_init s project_dir (first_option_value id) (first_option_value package_name)
        (first_option_value service_name)
  run_matched_command s (inspect_command manifest_path) =
      write_line (λ v. stringify_pretty (inspected v))
        (workflows.validate_plugin_manifest s manifest_path, s)
  run_matched_command s (pack_command source_dir output) =
      run_pack s source_dir (first_option_value output)
  run_matched_command s (generate_command project_dir) =
      write_line
        (λ r. stringify_pretty (two_paths (codes "descriptorPath") (codes "handlersPath") r))
        (workflows.generate_plugin_bindings s project_dir)
  run_matched_command s (build_command project_dir) =
      write_line (λ r. stringify_pretty (two_paths (codes "manifestPath") (codes "mainPath") r))
        (workflows.build_plugin s project_dir)
  run_matched_command s (test_command project_dir) =
      write_line
        (λ dir.
          stringify_pretty (two_paths (codes "projectDir") (codes "status") (dir, codes "ok")))
        (workflows.test_plugin s project_dir)
  run_matched_command s (install_command source kind plugin_home) =
      run_install s source (first_option_value kind) (first_option_value plugin_home)
