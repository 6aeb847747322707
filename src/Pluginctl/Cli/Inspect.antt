-- ===== src/Pluginctl/Cli/Inspect.antt =====
-- What `inspect` of packages/pluginctl/src/cli.ts prints of a contract.
use ts_plugins.Common.{◌↔◌, ◌≡◌, refl, ap, sym, ◌∙◌, Option, none, some, List, [], ◌∷◌, map, Text}
use ts_plugins.Codegen.Contract.{PluginMethodDefinition, PluginServiceDefinition}
use ts_plugins.Pluginctl.Values.{
  JsonValue, string, whole, array, object, JsonValues, no_values, value, JsonFields, no_fields,
  field,
}
use ts_plugins.Pluginctl.Cli.{values_of, serialize_method, serialize_contract_for_inspect}

module _ {ℓ} {Schema : Type ℓ} where
  abbrev pub without_schemas : PluginMethodDefinition Schema → PluginMethodDefinition Schema
  without_schemas method = record method { input_schema = none; output_schema = none }

  -- A contract as `inspect` shows it.
  abbrev pub shown : PluginServiceDefinition Schema → PluginServiceDefinition Schema
  shown contract = record contract { methods = map without_schemas contract.methods }

  abbrev method_fields : JsonFields → Option (PluginMethodDefinition Schema)
  method_fields
        (field _ (string name) (
          field _ (string local_name) (
            field _ (string canonical_name) (
              field _
                (whole method_id)
                (field _ (string input_type) (field _ (string output_type) no_fields)))))) =
      some (record {
        name = name;
        local_name = local_name;
        canonical_name = canonical_name;
        method_id = method_id;
        input_type = input_type;
        output_type = output_type;
        input_schema = none;
        output_schema = none;
      })
  method_fields _ = none

  abbrev read_method : JsonValue → Option (PluginMethodDefinition Schema)
  read_method (object fields) = method_fields fields
  read_method _ = none

  abbrev join_read :
      Option (PluginMethodDefinition Schema)
      → Option (List (PluginMethodDefinition Schema))
      → Option (List (PluginMethodDefinition Schema))
  join_read (some method) (some methods) = some (method ∷ methods)
  join_read _ _ = none

  abbrev read_methods : JsonValues → Option (List (PluginMethodDefinition Schema))
  read_methods no_values = some []
  read_methods (value v vs) = join_read (read_method v) (read_methods vs)

  abbrev contract_of :
      Text
      → Text
      → Text
      → Option (List (PluginMethodDefinition Schema))
      → Option (PluginServiceDefinition Schema)
  contract_of package_name service_name type_name none = none
  contract_of package_name service_name type_name (some methods) = some (record {
    package_name = package_name;
    service_name = service_name;
    type_name = type_name;
    methods = methods;
  })

  -- A reader of what is printed, by the places of the values.
  abbrev pub read_contract : JsonValue → Option (PluginServiceDefinition Schema)
  read_contract
        (object (
          field _ (string package_name) (
            field _
              (string service_name)
              (field _ (string type_name) (field _ (array methods) no_fields))))) =
      contract_of package_name service_name type_name (read_methods methods)
  read_contract _ = none

  read_methods-serialize_method :
      (methods : List (PluginMethodDefinition Schema))
      → read_methods (values_of serialize_method methods) ≡ some (map without_schemas methods)
  read_methods-serialize_method [] = refl
  read_methods-serialize_method (method ∷ methods) =
      ap (join_read (some (without_schemas method))) (read_methods-serialize_method methods)

  values_of-without_schemas :
      (methods : List (PluginMethodDefinition Schema))
      → values_of serialize_method methods
        ≡ values_of serialize_method (map without_schemas methods)
  values_of-without_schemas [] = refl
  values_of-without_schemas (method ∷ methods) =
      ap (value (serialize_method method)) (values_of-without_schemas methods)

  read_contract-serialize :
      (contract : PluginServiceDefinition Schema)
      → read_contract (serialize_contract_for_inspect contract) ≡ some (shown contract)
  unfolding serialize_contract_for_inspect
  read_contract-serialize contract =
      ap (contract_of contract.package_name contract.service_name contract.type_name)
        (read_methods-serialize_method contract.methods)

  serialize-shown :
      (contract : PluginServiceDefinition Schema)
      → serialize_contract_for_inspect contract ≡ serialize_contract_for_inspect (shown contract)
  unfolding serialize_contract_for_inspect
  serialize-shown contract = rw (values_of-without_schemas contract.methods) refl

  -- `inspect` prints two contracts alike exactly if they differ in nothing but the schemas of their
  -- methods.
  pub serialize_contract_for_inspect_iff :
      (contract other : PluginServiceDefinition Schema)
      → (serialize_contract_for_inspect contract ≡ serialize_contract_for_inspect other)
        ↔ (shown contract ≡ shown other)
  serialize_contract_for_inspect_iff contract other = (
    λ e. some_injective (
        sym (read_contract-serialize contract)
        ∙ ap read_contract e
        ∙ read_contract-serialize other),
    λ e.
        serialize-shown contract
        ∙ ap serialize_contract_for_inspect e
        ∙ sym (serialize-shown other),
  )
    where
      some_injective : {a b : PluginServiceDefinition Schema} → some a ≡ some b → a ≡ b
      some_injective e = cc
