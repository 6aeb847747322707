-- ===== src/Templates/Render.antt =====
-- `renderDefaultPluginTemplate` of packages/plugin-templates/src/index.ts.
use ts_plugins.Common.{◌++◌, List, [], ◌∷◌, if◌then◌else◌, ltb, length, Text, codes}
use ts_plugins.Common.Parts.{trim}
use ts_plugins.Pluginctl.Values.{JsonValue, object, defined}
use ts_plugins.Templates.{
  PluginTemplateInput, PluginTemplateFile, empty_plugin_id, short_package, Rendered, rendered,
  refused_template, default_version, normalize_plugin_id, trimmed_or, package_segments,
  proto_path_of, to_local_method_name, interface_name_of,
}
use ts_plugins.Templates.Files.{
  package_json, tsconfig_json, buf_yaml, buf_gen_yaml, manifest_json, render_proto_source,
  source_file, test_file,
}

abbrev pub template_file : Text → Text → PluginTemplateFile
template_file path contents = record { path = path; contents = contents }

module _ (stringify_pretty : JsonValue → Text) where
  abbrev pub format_json : JsonValue → Text
  format_json v = stringify_pretty v ++ codes "\n"

  -- The files, of the id, the project's name, the version, the package, the service and the path of
  -- the proto file.
  abbrev pub template_files : Text → Text → Text → Text → Text → Text → List PluginTemplateFile
  template_files id project_name version package_name service_name proto_path =
      template_file (codes "package.json") (format_json (package_json project_name version))
      ∷ template_file (codes "tsconfig.json") (format_json tsconfig_json)
      ∷ template_file (codes "buf.yaml") buf_yaml
      ∷ template_file (codes "buf.gen.yaml") buf_gen_yaml
      ∷ template_file (codes "plugin.json") (
          format_json (
            object (
              defined (
                manifest_json id version (package_name ++ (codes "." ++ service_name))
                  proto_path))))
      ∷ template_file proto_path (render_proto_source package_name service_name)
      ∷ template_file (codes "src/index.ts")
          (source_file (interface_name_of service_name) (to_local_method_name (codes "Execute")))
      ∷ template_file (codes "test/plugin.test.ts") (test_file id)
      ∷ []

  abbrev pub render_segments : PluginTemplateInput → Text → Text → List Text → Rendered
  render_segments input id package_name segments =
      if ltb (length segments) 3
      then refused_template (short_package package_name)
      else rendered (record {
        files =
            template_files id (trimmed_or id input.project_name)
              (trimmed_or default_version input.version) package_name (trim input.service_name)
              (proto_path_of segments);
        manifest_path = codes "plugin.json";
        proto_path = proto_path_of segments;
      })

  abbrev pub render_named : PluginTemplateInput → Text → Rendered
  render_named input [] = refused_template empty_plugin_id
  render_named input (c ∷ id) =
      render_segments input (c ∷ id) (trim input.package_name)
        (package_segments (trim input.package_name))

  unfoldable pub render_default_plugin_template : PluginTemplateInput → Rendered
  unfolding trim package_segments buf_yaml buf_gen_yaml render_proto_source source_file test_file
  render_default_plugin_template input = render_named input (normalize_plugin_id input.id)
