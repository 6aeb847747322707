-- ===== src/Runtime/Values.antt =====
-- Values of the language that reach the runtime untyped, as far as it looks into them: the
-- `unknown` requests and results of packages/plugin-runtime/src/dispatcher.ts and socket-server.ts.
-- The fields of an object stand in the order of `Object.entries`; an array is the object of its
-- indices.
use ts_plugins.Common.{
  ℕ, Bool, [], ◌∷◌, Text, text_eq, ◌==◌, if◌then◌else◌, codes, JsMap, Option, none, some,
}

mutual
  pub data Value : Type 0 where
    undefined : Value
    null : Value
    boolean : Bool → Value
    number : ℕ → Value
    string : Text → Value
    object : Fields → Value

  pub data Fields : Type 0 where
    end : Fields
    field : Text → Value → Fields → Fields

unfoldable pub find_field : Text → Fields → Option Value
find_field name end = none
find_field name (field k v rest) = if k == name then some v else find_field name rest

-- The entries whose value is a string: the filter of `deriveConfigSnapshot`.
unfoldable pub string_entries : Fields → JsMap Text Text
string_entries end = []
string_entries (field k (string s) rest) = (k, s) ∷ string_entries rest
string_entries (field k _ rest) = string_entries rest

abbrev entries_of : Option Value → JsMap Text Text
entries_of (some (object fields)) = string_entries fields
entries_of _ = []

-- `deriveConfigSnapshot`; request-worker.ts has the same function.
unfoldable pub derive_config_snapshot : Value → JsMap Text Text
unfolding find_field string_entries
derive_config_snapshot (object fields) = entries_of (find_field (codes "config") fields)
derive_config_snapshot _ = []
