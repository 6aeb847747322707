-- ===== src/Pluginctl/Generate.antt =====
-- packages/pluginctl/src/generate.ts: the bindings of a plugin project. The tools it runs, the files
-- it writes with their directories, and `node:path` are parameters, on a state of the disk;
-- `value.split(sep).join("/")` changes nothing where the separator is `/`.
use ts_plugins.Common.{
  ◌≡◌, refl, Bool, true, false, Option, none, some, List, [], ◌∷◌, ◌++◌, if◌then◌else◌, drop,
  length, Text, text_eq, ◌==◌, codes, Bool-cases, inl, inr,
}
use ts_plugins.Common.Texts.{starts_with}
use ts_plugins.Codegen.Contract.{
  ServiceLike, PluginServiceDefinition, ContractError, built, rejected,
  build_plugin_service_definition,
}
use ts_plugins.Codegen.Handlers.{Printer, generate_ts_handlers_source}
use ts_plugins.Pluginctl.Manifest.{FilledText, text_of, PluginManifest}
use ts_plugins.Pluginctl.Pack.{without_dot_slash, sources_of}

-- `runTool` with whether it succeeded, the registry of a descriptor set, `writeFile`, and of
-- `node:path` `resolve` below the project and `relative` to `gen`.
pub record Tools {ℓ} (S Schema : Type ℓ) : Type ℓ where
  pub run_tool : S → Text → List Text → Bool × S
  pub load_descriptor_registry : S → Text → Option (Text → Option (ServiceLike Schema))
  pub write_file : S → Text → Text → S
  pub resolve : Text → Text
  pub join_below : List Text → Text
  pub relative_to_gen : Text → Text

pub data GenerateFailure : Type 0 where
  no_proto_sources tool_failed unreadable_descriptors : GenerateFailure
  service_not_found : Text → GenerateFailure
  bad_contract : ContractError → GenerateFailure

pub data Generated : Type 0 where
  -- The paths of the descriptors and of the handlers.
  generated : Text → Text → Generated
  not_generated : GenerateFailure → Generated

unfoldable pub normalize_proto_source : Text → Text
unfolding without_dot_slash starts_with
normalize_proto_source source =
    let normalized = without_dot_slash source in
    if starts_with normalized (codes "proto/")
    then drop (length (codes "proto/")) normalized
    else normalized

-- `text.replace(/\.proto$/, "_pb.js")`
unfoldable pub replace_proto_suffix : Text → Text
replace_proto_suffix [] = []
replace_proto_suffix (c ∷ rest) =
    if c ∷ rest == codes ".proto" then codes "_pb.js" else c ∷ replace_proto_suffix rest

unfoldable pub normalize_module_specifier : Text → Text
unfolding starts_with
normalize_module_specifier value =
    if starts_with value (codes ".") then value else codes "./" ++ value

-- The generated source names its messages by a relative path.
pub normalize_module_specifier-relative :
    (value : Text) → starts_with (normalize_module_specifier value) (codes ".") ≡ true
unfolding normalize_module_specifier
normalize_module_specifier-relative value = elim (Bool-cases (starts_with value (codes "."))) [
  | inl relative ↦ rw relative relative
  | inr other ↦ rw other refl
]

module _ {ℓ} {S Schema : Type ℓ} (tools : Tools S Schema) (printer : Printer) where
  abbrev pub messages_specifier : FilledText → Text
  messages_specifier source = normalize_module_specifier (
      tools.relative_to_gen (
        tools.join_below (
          codes "gen"
          ∷ codes "ts"
          ∷ replace_proto_suffix (normalize_proto_source (text_of source))
          ∷ [])))

  abbrev pub write_handlers : S → Text → FilledText → PluginServiceDefinition Schema → Generated × S
  write_handlers s descriptor_path source definition =
      let handlers_path = tools.join_below (codes "gen" ∷ codes "plugin-handlers.ts" ∷ []) in
      (
        generated descriptor_path handlers_path,
        tools.write_file s handlers_path (
            generate_ts_handlers_source printer (record {
              service = definition;
              messages_module_specifier = messages_specifier source;
              runtime_module_specifier = none;
              context_type_name = none;
            })),
      )

  abbrev pub generate_found :
      S → PluginManifest → Text → FilledText → Option (ServiceLike Schema) → Generated × S
  generate_found s m descriptor_path source none =
      (not_generated (service_not_found (text_of m.contract.service)), s)
  generate_found s m descriptor_path source (some service) =
      elim (build_plugin_service_definition (service ∷ [])) [
        | rejected e ↦ (not_generated (bad_contract e), s)
        | built definition ↦ write_handlers s descriptor_path source definition
      ]

  abbrev pub generate_loaded :
      S
      → PluginManifest
      → Text
      → FilledText
      → Option (Text → Option (ServiceLike Schema))
      → Generated × S
  generate_loaded s m descriptor_path source none = (not_generated unreadable_descriptors, s)
  generate_loaded s m descriptor_path source (some registry) =
      generate_found s m descriptor_path source (registry (text_of m.contract.service))

  abbrev pub generate_described : PluginManifest → Text → FilledText → Bool × S → Generated × S
  generate_described m descriptor_path source (false, s) = (not_generated tool_failed, s)
  generate_described m descriptor_path source (true, s) =
      generate_loaded s m descriptor_path source (tools.load_descriptor_registry s descriptor_path)

  abbrev pub generate_built : PluginManifest → FilledText → Bool × S → Generated × S
  generate_built m source (false, s) = (not_generated tool_failed, s)
  generate_built m source (true, s) =
      let descriptor_path = tools.resolve (text_of m.contract.descriptor_set) in
      generate_described m descriptor_path source (
        tools.run_tool s (codes "buf")
          (codes "build" ∷ codes "--as-file-descriptor-set" ∷ codes "-o" ∷ descriptor_path ∷ []))

  abbrev pub generate_from : S → PluginManifest → List FilledText → Generated × S
  generate_from s m [] = (not_generated no_proto_sources, s)
  generate_from s m (source ∷ sources) =
      generate_built m source (tools.run_tool s (codes "buf") (codes "generate" ∷ []))

  -- `generatePluginBindings`, on the manifest that it has parsed.
  unfoldable pub generate_plugin_bindings : S → PluginManifest → Generated × S
  unfolding normalize_module_specifier replace_proto_suffix normalize_proto_source
      generate_ts_handlers_source build_plugin_service_definition
  generate_plugin_bindings s m = generate_from s m (sources_of m.contract)
