-- ===== src/Pluginctl/Validate.antt =====
-- packages/pluginctl/src/validate-manifest.ts: a manifest against the files beside it. What is on the
-- disk, and the registry of a descriptor set, are parameters.
use ts_plugins.Common.{Bool, true, false, Option, none, some, [], ◌∷◌, ◌++◌, Text, codes}
use ts_plugins.Codegen.Contract.{
  ServiceLike, PluginServiceDefinition, ContractError, built, rejected,
  build_plugin_service_definition,
}
use ts_plugins.Pluginctl.Values.{JsonValue}
use ts_plugins.Pluginctl.Manifest.{PluginManifest, FilledText, text_of, parse_manifest}
use ts_plugins.Pluginctl.Integrity.{Entries, Entry, file, get_entry, Platform}

pub data Failure : Type 0 where
  unreadable_manifest invalid_manifest unreadable_descriptors : Failure
  message : Text → Failure
  bad_contract : ContractError → Failure

pub data Checked {ℓ} (A : Type ℓ) : Type ℓ where
  passed : A → Checked A
  failure : Failure → Checked A

-- A directory as the checks see it: whether a path of it can be accessed, and the registry of a
-- descriptor set of it, as the services by their names.
pub record Disk {ℓ} (Schema : Type ℓ) : Type ℓ where
  pub path_exists : Entries → Text → Bool
  pub load_descriptor_registry : Entries → Text → Option (Text → Option (ServiceLike Schema))

abbrev pub assert_path_exists : Bool → Text → Checked (Unit {0})
assert_path_exists true text = passed tt
assert_path_exists false text = failure (message text)

infixl 1 ◌>>=◌
-- Nothing comes after a failure.
abbrev pub ◌>>=◌ {ℓ κ} : {A : Type ℓ} {B : Type κ} → Checked A → (A → Checked B) → Checked B
passed a >>= f = f a
failure e >>= f = failure e

module _ (platform : Platform) where
  -- `JSON.parse(await readFile(manifestAbsolutePath, "utf8"))` and the schema
  abbrev pub parsed_manifest : Option JsonValue → Checked PluginManifest
  parsed_manifest none = failure unreadable_manifest
  parsed_manifest (some v) = elim (parse_manifest v) [
    | none ↦ failure invalid_manifest
    | some m ↦ passed m
  ]

  abbrev pub read_manifest_entry : Option Entry → Checked PluginManifest
  read_manifest_entry (some (file bytes)) = parsed_manifest (platform.parse bytes)
  read_manifest_entry _ = failure unreadable_manifest

module _ {ℓ} {Schema : Type ℓ} (disk : Disk Schema) where
  abbrev pub assert_source_map : Entries → Option FilledText → Checked (Unit {0})
  assert_source_map root none = passed tt
  assert_source_map root (some path) =
      assert_path_exists (disk.path_exists root (text_of path))
        (codes "Plugin source map does not exist: " ++ text_of path)

  abbrev pub contract_found :
      Text → Option (ServiceLike Schema) → Checked (PluginServiceDefinition Schema)
  contract_found name none = failure (
      message (
        codes "Plugin manifest service " ++ (name ++ codes " was not found in the descriptor set")))
  contract_found name (some service) = elim (build_plugin_service_definition (service ∷ [])) [
    | rejected e ↦ failure (bad_contract e)
    | built definition ↦ passed definition
  ]

  abbrev pub load_contract :
      Text → Option (Text → Option (ServiceLike Schema)) → Checked (PluginServiceDefinition Schema)
  load_contract name none = failure unreadable_descriptors
  load_contract name (some registry) = contract_found name (registry name)

  -- What `validatePluginManifest` does after it has parsed the manifest.
  unfoldable pub check_artifacts :
      Entries → PluginManifest → Checked (PluginServiceDefinition Schema)
  unfolding build_plugin_service_definition
  check_artifacts root m = do
    main ←
        assert_path_exists (disk.path_exists root (text_of m.main))
          (codes "Plugin main entrypoint does not exist: " ++ text_of m.main)
    source_map ← assert_source_map root m.source_map
    descriptor_set ←
        assert_path_exists (disk.path_exists root (text_of m.contract.descriptor_set))
          (codes "Plugin descriptor set does not exist: " ++ text_of m.contract.descriptor_set)
    load_contract (text_of m.contract.service)
        (disk.load_descriptor_registry root (text_of m.contract.descriptor_set))

module _ {ℓ} {Schema : Type ℓ} (platform : Platform) (disk : Disk Schema) where
  -- The manifest and the contract, of the root directory of a package.
  unfoldable pub validate_plugin_manifest :
      Entries → Checked (PluginManifest × PluginServiceDefinition Schema)
  unfolding get_entry parse_manifest check_artifacts
  validate_plugin_manifest root = do
    manifest ← read_manifest_entry platform (get_entry root (codes "plugin.json"))
    contract ← check_artifacts disk root manifest
    passed (manifest, contract)
