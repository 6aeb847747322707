-- ===== src/Templates.antt =====
-- packages/plugin-templates/src/index.ts: the files of a new plugin project. `JSON.stringify` with an
-- indentation is a parameter.
pub mod Files
pub mod Render
pub mod Starter
use ts_plugins.Common.{
  ℕ, suc, ◌+◌, ◌≡◌, refl, Bool, true, false, not, ◌&&◌, Option, none, some, List, [], ◌∷◌, ◌++◌,
  filter, length, ltb, leb, if◌then◌else◌, Text, text_eq, ◌==◌, codes,
}
use ts_plugins.Common.Parts.{join, split, trim}
use ts_plugins.Codegen.Handlers.{strip_service_suffix}
use ts_plugins.Pluginctl.Values.{
  JsonValue, boolean, whole, string, array, object, JsonValues, no_values, value, Literal, defined,
}

pub record PluginTemplateInput : Type 0 where
  pub id : Text
  pub package_name : Text
  pub service_name : Text
  pub project_name : Option Text
  pub version : Option Text

pub record PluginTemplateFile : Type 0 where
  pub path : Text
  pub contents : Text

pub record PluginTemplateOutput : Type 0 where
  pub files : List PluginTemplateFile
  pub manifest_path : Text
  pub proto_path : Text

pub data TemplateFailure : Type 0 where
  empty_plugin_id : TemplateFailure
  short_package : Text → TemplateFailure

pub data Rendered : Type 0 where
  rendered : PluginTemplateOutput → Rendered
  refused_template : TemplateFailure → Rendered

abbrev pub default_version : Text
default_version = codes "0.1.0"

-- `normalizePluginId`, where the empty text stands for its throw
abbrev pub normalize_plugin_id : Text → Text
normalize_plugin_id id = trim id

-- `text?.trim() || otherwise`
abbrev pub trimmed_or : Text → Option Text → Text
trimmed_or otherwise none = otherwise
trimmed_or otherwise (some text) = elim (trim text) [ [] ↦ otherwise | ◌∷◌ c rest ↦ c ∷ rest ]

unfoldable pub package_segments : Text → List Text
unfolding split
package_segments package_name = filter (λ segment. ltb 0 (length segment)) (split b'.' package_name)

-- `segments[segments.length - 2]`, of two segments at least
abbrev pub feature_name : List Text → Text
feature_name [] = []
feature_name (s ∷ []) = []
feature_name (s ∷ t ∷ []) = s
feature_name (s ∷ t ∷ u ∷ rest) = feature_name (t ∷ u ∷ rest)

abbrev pub proto_path_of : List Text → Text
proto_path_of segments =
    join (codes "/") (codes "proto" ∷ segments)
    ++ (codes "/" ++ (feature_name segments ++ codes "_plugin.proto"))

-- `toLocalMethodName`, of names in ASCII
abbrev pub to_local_method_name : Text → Text
to_local_method_name [] = []
to_local_method_name (c ∷ name) = (if leb b'A' c && leb c b'Z' then c + 32 else c) ∷ name

-- `serviceName.replace(/Service$/, "")` and "Handlers"
abbrev pub interface_name_of : Text → Text
interface_name_of service_name = strip_service_suffix service_name ++ codes "Handlers"

-- Each line with its end.
abbrev pub lines : List Text → Text
lines [] = []
lines (line ∷ rest) = line ++ (codes "\n" ++ lines rest)
