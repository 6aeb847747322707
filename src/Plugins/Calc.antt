-- ===== src/Plugins/Calc.antt =====
-- examples/calculation-plugin/src/index.ts. The addition of numbers is a parameter; a handler always
-- answers with the case "ok".
use ts_plugins.Common.{Text}
use ts_plugins.Plugins.{InitSuccess}

-- `init`, of the plugin's id and version.
unfoldable pub init : Text → Text → InitSuccess
init id version = record { plugin_name = id; plugin_version = version }

-- The sum of `add`.
unfoldable pub add_numbers {ℓ} : {N : Type ℓ} → (N → N → N) → N → N → N
add_numbers plus left right = plus left right
