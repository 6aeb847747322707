-- ===== src/Plugins/Quote.antt =====
-- examples/quote-plugin/src/index.ts. A handler always answers with the case "ok".
use ts_plugins.Common.{◌++◌, Text, text_eq, codes}
use ts_plugins.Common.Maps
use ts_plugins.Common.Maps.{JsMap}
use ts_plugins.Plugins.{InitSuccess, or_else}

pub record Price : Type 0 where
  pub price : Text
  pub currency : Text
  pub expires_at : Text

-- `init`, of the plugin's id and version and the request's environment.
unfoldable pub init : Text → Text → Text → InitSuccess
init id version environment = record {
  plugin_name = id;
  plugin_version = version ++ (codes ":" ++ environment);
}

-- `getPrice`, of the configuration, the asset and the amount.
unfoldable pub get_price : JsMap Text Text → Text → Text → Price
get_price config asset amount = record {
  price = asset ++ (codes ":" ++ amount);
  currency = or_else (codes "USD") (Maps.get config (codes "currency"));
  expires_at = codes "2030-01-01T00:00:00Z";
}
