-- ===== src/Tests/Starter.antt =====
-- Runs of packages/pluginctl/src/init.ts and packages/plugin-templates/src/index.ts.
use ts_plugins.Common.{
  drop, ◌≡◌, refl, none, some, true, [], ◌∷◌, ◌++◌, if◌then◌else◌, Text, text_eq, ◌==◌, codes,
}
use ts_plugins.Common.Parts.{join, split, trim}
use ts_plugins.Common.Sorting.{text_leb}
use ts_plugins.Pluginctl.Values.{JsonValue, object, defined}
use ts_plugins.Pluginctl.Manifest.{FilledText}
use ts_plugins.Pluginctl.Integrity.{Entries, no_entries, Platform, file, entry}
use ts_plugins.Pluginctl.Generate.{Tools, normalize_module_specifier, messages_specifier}
use ts_plugins.Pluginctl.Init.{initialized, not_empty, init_plugin_project}
use ts_plugins.Pluginctl.Init.Fresh.{IsStarter, init_plugin_project-IsStarter}
use ts_plugins.Pluginctl.Init.Bindings.{messages_specifier-proto_path_of}
use ts_plugins.Templates.{default_version, package_segments, proto_path_of, to_local_method_name}
use ts_plugins.Templates.Files.{manifest_json}
use ts_plugins.Templates.Starter.{filled}
use ts_plugins.Tests.Generated.{printer}

abbrev project_id : FilledText
project_id = filled (codes "acme.echo")

abbrev project_package : Text
project_package = codes "acme.plugins.echo.v1"

abbrev project_json : JsonValue
project_json = object (
    defined (
      manifest_json (codes "acme.echo") default_version (codes "acme.plugins.echo.v1.EchoService")
        (codes "proto/acme/plugins/echo/v1/echo_plugin.proto")))

-- `JSON.stringify` writes one fixed text, and `JSON.parse` reads it.
abbrev platform : Platform
platform = record {
  sha256 = λ bytes. filled (codes "0");
  utf8 = λ t. t;
  parse = λ bytes. if bytes == codes "{}\n" then some project_json else none;
  stringify = λ v. codes "{}";
  stringify_pretty = λ v. codes "{}";
  locale_leb = text_leb;
}

project_path :
    proto_path_of (package_segments project_package)
    ≡ codes "proto/acme/plugins/echo/v1/echo_plugin.proto"
unfolding package_segments split join
project_path = refl

local_name : to_local_method_name (codes "Echo") ≡ codes "echo"
local_name = refl

init_in_full_directory :
    init_plugin_project platform
      (some (entry (codes "a") (file []) no_entries))
      (codes "acme.echo")
      project_package
      (codes "EchoService")
    ≡ (not_empty, some (entry (codes "a") (file []) no_entries))
unfolding init_plugin_project
init_in_full_directory = refl

init_plugin_project-IsStarter_example :
    (root : Entries) × (init_plugin_project platform none
        (codes " acme.echo")
        project_package
        (codes "EchoService")
      ≡ (
        initialized (codes "plugin.json") (codes "proto/acme/plugins/echo/v1/echo_plugin.proto"),
        some root,
      ))
    × IsStarter platform project_id project_package
        (codes "EchoService")
        (codes "proto/acme/plugins/echo/v1/echo_plugin.proto")
        root
unfolding package_segments split join trim
init_plugin_project-IsStarter_example =
    init_plugin_project-IsStarter platform none (codes " acme.echo") project_package
      (codes "EchoService") project_id refl refl refl refl

-- Tools that do nothing, with the project as the working directory.
abbrev tools : Tools Text Text
tools = record {
  run_tool = λ s program arguments. (true, s);
  load_descriptor_registry = λ s path. none;
  write_file = λ s path contents. s;
  resolve = λ path. path;
  join_below = join (codes "/");
  relative_to_gen = λ path. drop 4 path;
}

messages_of_project :
    messages_specifier tools printer (
      filled (
        codes "./"
        ++ proto_path_of (codes "acme" ∷ codes "plugins" ∷ codes "echo" ∷ codes "v1" ∷ [])))
    ≡ codes "./ts/acme/plugins/echo/v1/echo_plugin_pb.js"
unfolding normalize_module_specifier join
messages_of_project =
    messages_specifier-proto_path_of tools printer (codes "acme")
      (codes "plugins" ∷ codes "echo" ∷ codes "v1" ∷ [])
