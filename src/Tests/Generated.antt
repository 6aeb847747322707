-- ===== src/Tests/Generated.antt =====
-- Runs of packages/plugin-codegen/src/generate-ts-handlers.ts.
use ts_plugins.Common.{
  ℕ, ◌+◌, ◌≡◌, refl, List, [], ◌∷◌, none, if◌then◌else◌, leb, Text, codes, ◌++◌,
}
use ts_plugins.Common.Sorting.{text_leb}
use ts_plugins.Codegen.Contract.{PluginMethodDefinition}
use ts_plugins.Codegen.Handlers.{
  Printer, short_type_name, schema_type_name, to_handler_interface_name, to_camel_case,
  strip_service_suffix, collect_message_imports, collect_schema_imports,
}
use ts_plugins.Codegen.Handlers.Imports.{AreNames, collect_imports_exact}

abbrev pub printer : Printer
printer = record {
  quoted = λ t. b'"' ∷ t ++ b'"' ∷ [];
  to_lower_case = λ c. (if leb b'a' c then c else c + 32) ∷ [];
  locale_leb = text_leb;
}

abbrev method : Text → Text → PluginMethodDefinition ℕ
method input output = record {
  name = codes "Add";
  local_name = codes "add";
  canonical_name = codes "calc.v1.Calc.Add";
  method_id = 7;
  input_type = input;
  output_type = output;
  input_schema = none;
  output_schema = none;
}

abbrev methods : List (PluginMethodDefinition ℕ)
methods =
    method (codes "calc.v1.Sum") (codes "calc.v1.Out")
    ∷ method (codes "calc.v1.In") (codes "calc.v1.Out")
    ∷ []

imports_of_methods :
    collect_message_imports printer methods ≡ codes "In" ∷ codes "Out" ∷ codes "Sum" ∷ []
unfolding collect_message_imports
imports_of_methods = refl

names_of_service :
    (to_handler_interface_name (codes "QuoteService") ≡ codes "QuoteHandlers")
    × (to_camel_case printer (strip_service_suffix (codes "QuoteService")) ≡ codes "quote")
unfolding to_handler_interface_name to_camel_case
names_of_service = (refl, refl)

collect_imports_exact_example :
    AreNames short_type_name methods (collect_message_imports printer methods)
    × AreNames schema_type_name methods (collect_schema_imports printer methods)
collect_imports_exact_example = collect_imports_exact printer methods
