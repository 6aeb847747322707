-- ===== src/Templates/Starter.antt =====
-- The manifest of a new project of packages/plugin-templates/src/index.ts.
use ts_plugins.Common.{◌≡◌, refl, true, none, some, [], ◌∷◌, ◌++◌, Text, codes}
use ts_plugins.Pluginctl.Values.{object, defined}
use ts_plugins.Pluginctl.Manifest.{
  FilledText, text_of, lazy, serial, PluginManifest, parse_manifest,
}
use ts_plugins.Templates.Files.{manifest_json}

abbrev pub filled_codes : Text → Text → FilledText
filled_codes otherwise [] = record { first = 0; others = otherwise }
filled_codes otherwise (c ∷ text) = record { first = c; others = text }

abbrev pub filled : Text → FilledText
filled text = filled_codes [] text

-- The manifest of a project, as a value of the schema.
abbrev pub starter_manifest : FilledText → FilledText → FilledText → Text → PluginManifest
starter_manifest id version type_name proto_path = record {
  id = id;
  version = version;
  display_name = none;
  description = none;
  main = filled (codes "./dist/src/index.js");
  source_map = some (filled (codes "./dist/src/index.js.map"));
  contract = record {
    descriptor_set = filled (codes "./descriptors/plugin.pb");
    service = type_name;
    proto_sources = some (filled (codes "./" ++ proto_path) ∷ []);
  };
  runtime = record {
    activation = lazy;
    concurrency = serial;
    init_timeout_ms = record { predecessor = 4_999 };
    request_timeout_ms = record { predecessor = 9_999 };
    idle_eviction_ms = none;
  };
  observability =
      some (record { emit_logs = some true; emit_traces = some true; emit_metrics = some true });
  integrity = none;
}

pub parse_manifest-json :
    (id version type_name : FilledText) (proto_path : Text)
    → parse_manifest (
        object
          (defined (manifest_json (text_of id) (text_of version) (text_of type_name) proto_path)))
      ≡ some (starter_manifest id version type_name proto_path)
unfolding parse_manifest
parse_manifest-json id version type_name proto_path = refl
