-- ===== src/Codegen/Handlers.antt =====
-- packages/plugin-codegen/src/generate-ts-handlers.ts: the TypeScript source of a plugin's handler
-- interface and of its metadata. `JSON.stringify` of a string, `toLowerCase` of its first code unit
-- and `left.localeCompare(right) <= 0` are parameters.
pub mod Imports
use ts_plugins.Common.{
  ℕ, ◌+◌, ◌-◌, ◌≡◌, refl, Bool, true, false, Option, none, some, List, [], ◌∷◌, ◌++◌, map,
  if◌then◌else◌, length, take, drop, Text, text_eq, ◌==◌, codes,
}
use ts_plugins.Common.Texts.{add_each, decimal}
use ts_plugins.Common.Parts.{join}
use ts_plugins.Codegen.Contract.{PluginMethodDefinition, PluginServiceDefinition, last_index_of}

pub record Printer : Type 0 where
  pub quoted : Text → Text
  pub to_lower_case : ℕ → Text
  pub locale_leb : Text → Text → Bool

pub record HandlersInput {ℓ} (Schema : Type ℓ) : Type ℓ where
  pub service : PluginServiceDefinition Schema
  pub messages_module_specifier : Text
  pub runtime_module_specifier : Option Text
  pub context_type_name : Option Text

-- A text that ends in "Service", without it.
unfoldable pub strip_service_suffix : Text → Text
strip_service_suffix [] = []
strip_service_suffix (c ∷ name) =
    if c ∷ name == codes "Service" then [] else c ∷ strip_service_suffix name

unfoldable pub to_handler_interface_name : Text → Text
unfolding strip_service_suffix
to_handler_interface_name service_name = strip_service_suffix service_name ++ codes "Handlers"

-- The last part of `typeName.split(".")`
unfoldable pub short_type_name : Text → Text
unfolding last_index_of
short_type_name type_name = elim (last_index_of b'.' type_name) [
  | none ↦ type_name
  | some i ↦ drop (i + 1) type_name
]

unfoldable pub schema_type_name : Text → Text
unfolding short_type_name
schema_type_name type_name = short_type_name type_name ++ codes "Schema"

abbrev pub text : List Text → Text
text [] = []
text (t ∷ ts) = t ++ text ts

abbrev pub or_default : Option Text → Text → Text
or_default none t = t
or_default (some given) t = given

module _ (printer : Printer) where
  open printer use {quoted, to_lower_case, locale_leb}

  unfoldable pub to_camel_case : Text → Text
  to_camel_case [] = []
  to_camel_case (c ∷ name) = to_lower_case c ++ name

  abbrev pub insert_by_locale : Text → List Text → List Text
  insert_by_locale t [] = t ∷ []
  insert_by_locale t (u ∷ us) = if locale_leb t u then t ∷ u ∷ us else u ∷ insert_by_locale t us

  unfoldable pub sort_by_locale : List Text → List Text
  sort_by_locale [] = []
  sort_by_locale (t ∷ ts) = insert_by_locale t (sort_by_locale ts)

module _ {ℓ} {Schema : Type ℓ} where
  abbrev pub names_of : (Text → Text) → List (PluginMethodDefinition Schema) → List Text
  names_of name [] = []
  names_of name (method ∷ methods) =
      name method.input_type ∷ name method.output_type ∷ names_of name methods

module _ {ℓ} {Schema : Type ℓ} (printer : Printer) where
  open printer use {quoted}

  unfoldable pub collect_message_imports : List (PluginMethodDefinition Schema) → List Text
  unfolding sort_by_locale add_each short_type_name
  collect_message_imports methods =
      sort_by_locale printer (add_each [] (names_of short_type_name methods))

  unfoldable pub collect_schema_imports : List (PluginMethodDefinition Schema) → List Text
  unfolding sort_by_locale add_each schema_type_name
  collect_schema_imports methods =
      sort_by_locale printer (add_each [] (names_of schema_type_name methods))

  abbrev pub render_member : Text → PluginMethodDefinition Schema → Text
  render_member context method = text (
      codes "  "
      ∷ method.local_name
      ∷ codes "(req: "
      ∷ short_type_name method.input_type
      ∷ codes ", ctx: "
      ∷ context
      ∷ codes "): MaybePromise<MessageInitShape<typeof "
      ∷ schema_type_name method.output_type
      ∷ codes ">>;"
      ∷ [])

  abbrev pub render_method_metadata : PluginMethodDefinition Schema → List Text
  render_method_metadata method =
      codes "    {"
      ∷ text (codes "      name: " ∷ quoted method.name ∷ codes "," ∷ [])
      ∷ text (codes "      localName: " ∷ quoted method.local_name ∷ codes "," ∷ [])
      ∷ text (codes "      canonicalName: " ∷ quoted method.canonical_name ∷ codes "," ∷ [])
      ∷ text (codes "      methodId: " ∷ decimal method.method_id ∷ codes "," ∷ [])
      ∷ text (codes "      inputType: " ∷ quoted method.input_type ∷ codes "," ∷ [])
      ∷ text (codes "      outputType: " ∷ quoted method.output_type ∷ codes "," ∷ [])
      ∷ text (codes "      inputSchema: " ∷ schema_type_name method.input_type ∷ codes "," ∷ [])
      ∷ text (codes "      outputSchema: " ∷ schema_type_name method.output_type ∷ codes "," ∷ [])
      ∷ codes "    },"
      ∷ []

  abbrev pub render_methods : List (PluginMethodDefinition Schema) → List Text
  render_methods [] = []
  render_methods (method ∷ methods) = render_method_metadata method ++ render_methods methods

  abbrev pub handler_lines : HandlersInput Schema → Text → Text → List Text
  handler_lines input runtime context =
      codes "import type { MessageInitShape } from \"@bufbuild/protobuf\";"
      ∷ text (
          codes "import type { "
          ∷ join (codes ", ") (collect_message_imports input.service.methods)
          ∷ codes " } from "
          ∷ quoted input.messages_module_specifier
          ∷ codes ";"
          ∷ [])
      ∷ text (
          codes "import { "
          ∷ join (codes ", ") (collect_schema_imports input.service.methods)
          ∷ codes " } from "
          ∷ quoted input.messages_module_specifier
          ∷ codes ";"
          ∷ [])
      ∷ text (codes "import type { " ∷ context ∷ codes " } from " ∷ quoted runtime ∷ codes ";" ∷ [])
      ∷ []
      ∷ codes "export type MaybePromise<T> = T | Promise<T>;"
      ∷ []
      ∷ text (
          codes "export interface "
          ∷ to_handler_interface_name input.service.service_name
          ∷ codes " {"
          ∷ [])
      ∷ (map (render_member context) input.service.methods
          ++ (codes "}"
              ∷ []
              ∷ text (
                  codes "export const "
                  ∷ to_camel_case printer (strip_service_suffix input.service.service_name)
                  ∷ codes "Metadata = {"
                  ∷ [])
              ∷ text (codes "  packageName: " ∷ quoted input.service.package_name ∷ codes "," ∷ [])
              ∷ text (codes "  serviceName: " ∷ quoted input.service.service_name ∷ codes "," ∷ [])
              ∷ text (codes "  typeName: " ∷ quoted input.service.type_name ∷ codes "," ∷ [])
              ∷ codes "  methods: ["
              ∷ (render_methods input.service.methods
                  ++ (codes "  ]," ∷ codes "} as const;" ∷ [] ∷ []))))

  unfoldable pub generate_ts_handlers_source : HandlersInput Schema → Text
  unfolding to_handler_interface_name to_camel_case join schema_type_name collect_message_imports
      collect_schema_imports
  generate_ts_handlers_source input = join (codes "\n") (
      handler_lines input
        (or_default input.runtime_module_specifier (codes "@balance/plugin-runtime"))
        (or_default input.context_type_name (codes "PluginContext")))
