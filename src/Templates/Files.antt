-- ===== src/Templates/Files.antt =====
-- The contents of the files that packages/plugin-templates/src/index.ts renders.
use ts_plugins.Common.{◌++◌, true, Option, some, List, [], ◌∷◌, Text, codes}
use ts_plugins.Pluginctl.Values.{
  JsonValue, boolean, whole, string, array, object, JsonValues, no_values, value, Literal, defined,
}
use ts_plugins.Templates.{default_version, lines}

-- A property that is a text.
abbrev text_property : Text → Text → Text × Option JsonValue
text_property key text = (key, some (string text))

abbrev texts_of : List Text → JsonValues
texts_of [] = no_values
texts_of (t ∷ ts) = value (string t) (texts_of ts)

abbrev object_of : Literal → Option JsonValue
object_of literal = some (object (defined literal))

abbrev pub package_json : Text → Text → JsonValue
package_json project_name version = object (
    defined (
      text_property (codes "name") project_name
      ∷ text_property (codes "version") version
      ∷ (codes "private", some (boolean true))
      ∷ text_property (codes "type") (codes "module")
      ∷ (
        codes "scripts",
        object_of (
            text_property (codes "generate") (codes "pluginctl generate .")
            ∷ text_property (codes "build") (codes "pluginctl build .")
            ∷ text_property (codes "lint") (codes "tsc -p tsconfig.json --noEmit")
            ∷ text_property (codes "test") (codes "vitest run")
            ∷ []),
      )
      ∷ (
        codes "dependencies",
        object_of (
            text_property (codes "@balance/plugin-runtime") (codes "^" ++ default_version)
            ∷ text_property (codes "@bufbuild/protobuf") (codes "^2.11.0")
            ∷ []),
      )
      ∷ (
        codes "devDependencies",
        object_of (
            text_property (codes "@balance/pluginctl") (codes "^" ++ default_version)
            ∷ text_property (codes "@bufbuild/buf") (codes "^1.67.0")
            ∷ text_property (codes "@bufbuild/protoc-gen-es") (codes "^2.9.0")
            ∷ text_property (codes "@types/node") (codes "^24.6.0")
            ∷ text_property (codes "typescript") (codes "^5.9.3")
            ∷ text_property (codes "vitest") (codes "^3.2.4")
            ∷ []),
      )
      ∷ []))

abbrev pub tsconfig_json : JsonValue
tsconfig_json = object (
    defined (
      (
        codes "compilerOptions",
        object_of (
            text_property (codes "target") (codes "ES2022")
            ∷ text_property (codes "module") (codes "ES2022")
            ∷ text_property (codes "moduleResolution") (codes "Bundler")
            ∷ text_property (codes "outDir") (codes "dist")
            ∷ text_property (codes "rootDir") (codes ".")
            ∷ (codes "declaration", some (boolean true))
            ∷ (codes "sourceMap", some (boolean true))
            ∷ (codes "strict", some (boolean true))
            ∷ (codes "skipLibCheck", some (boolean true))
            ∷ []),
      )
      ∷ (
        codes "include",
        some (
            array
              (texts_of (codes "src/**/*.ts" ∷ codes "gen/**/*.ts" ∷ codes "test/**/*.ts" ∷ []))),
      )
      ∷ []))

unfoldable pub buf_yaml : Text
buf_yaml = lines (
    codes "version: v2"
    ∷ codes "modules:"
    ∷ codes "  - path: proto"
    ∷ codes "lint:"
    ∷ codes "  use:"
    ∷ codes "    - STANDARD"
    ∷ codes "breaking:"
    ∷ codes "  use:"
    ∷ codes "    - FILE"
    ∷ [])

unfoldable pub buf_gen_yaml : Text
buf_gen_yaml = lines (
    codes "version: v2"
    ∷ codes "plugins:"
    ∷ codes "  - local: protoc-gen-es"
    ∷ codes "    out: gen/ts"
    ∷ codes "    opt:"
    ∷ codes "      - target=ts"
    ∷ codes "      - import_extension=none"
    ∷ [])

-- `plugin.json`
abbrev pub manifest_json : Text → Text → Text → Text → Literal
manifest_json id version type_name proto_path =
    (codes "schemaVersion", some (whole 1))
    ∷ text_property (codes "id") id
    ∷ text_property (codes "version") version
    ∷ text_property (codes "main") (codes "./dist/src/index.js")
    ∷ text_property (codes "sourceMap") (codes "./dist/src/index.js.map")
    ∷ (
      codes "contract",
      object_of (
          text_property (codes "descriptorSet") (codes "./descriptors/plugin.pb")
          ∷ text_property (codes "service") type_name
          ∷ (codes "protoSources", some (array (texts_of ((codes "./" ++ proto_path) ∷ []))))
          ∷ []),
    )
    ∷ (
      codes "runtime",
      object_of (
          text_property (codes "language") (codes "node")
          ∷ (codes "activation", object_of (text_property (codes "mode") (codes "lazy") ∷ []))
          ∷ (codes "concurrency", object_of (text_property (codes "mode") (codes "serial") ∷ []))
          ∷ (codes "initTimeoutMs", some (whole 5_000))
          ∷ (codes "requestTimeoutMs", some (whole 10_000))
          ∷ []),
    )
    ∷ (
      codes "observability",
      object_of (
          (codes "emitLogs", some (boolean true))
          ∷ (codes "emitTraces", some (boolean true))
          ∷ (codes "emitMetrics", some (boolean true))
          ∷ []),
    )
    ∷ []

unfoldable pub render_proto_source : Text → Text → Text
render_proto_source package_name service_name = lines (
    codes "syntax = \"proto3\";"
    ∷ []
    ∷ (codes "package " ++ (package_name ++ codes ";"))
    ∷ []
    ∷ codes "message PluginError {"
    ∷ codes "  string code = 1;"
    ∷ codes "  string message = 2;"
    ∷ codes "  map<string, string> details = 3;"
    ∷ codes "}"
    ∷ []
    ∷ codes "message InitRequest {"
    ∷ codes "  string plugin_instance_id = 1;"
    ∷ codes "  string environment = 2;"
    ∷ codes "  map<string, string> config = 3;"
    ∷ codes "}"
    ∷ []
    ∷ codes "message InitSuccess {"
    ∷ codes "  string plugin_name = 1;"
    ∷ codes "  string plugin_version = 2;"
    ∷ codes "}"
    ∷ []
    ∷ codes "message InitResponse {"
    ∷ codes "  oneof outcome {"
    ∷ codes "    InitSuccess ok = 1;"
    ∷ codes "    PluginError error = 2;"
    ∷ codes "  }"
    ∷ codes "}"
    ∷ []
    ∷ codes "message ExecuteRequest {"
    ∷ codes "  string subject = 1;"
    ∷ codes "}"
    ∷ []
    ∷ codes "message ExecuteSuccess {"
    ∷ codes "  string message = 1;"
    ∷ codes "}"
    ∷ []
    ∷ codes "message ExecuteResponse {"
    ∷ codes "  oneof outcome {"
    ∷ codes "    ExecuteSuccess ok = 1;"
    ∷ codes "    PluginError error = 2;"
    ∷ codes "  }"
    ∷ codes "}"
    ∷ []
    ∷ (codes "service " ++ (service_name ++ codes " {"))
    ∷ codes "  rpc Init(InitRequest) returns (InitResponse);"
    ∷ codes "  rpc Execute(ExecuteRequest) returns (ExecuteResponse);"
    ∷ codes "}"
    ∷ [])

unfoldable pub source_file : Text → Text → Text
source_file interface_name handler_name = lines (
    codes "import { definePlugin } from \"@balance/plugin-runtime\";"
    ∷ []
    ∷ (codes "import type { " ++ (interface_name ++ codes " } from \"../gen/plugin-handlers.js\";"))
    ∷ []
    ∷ (codes "export default definePlugin<" ++ (interface_name ++ codes ">({"))
    ∷ codes "  async init(_req, ctx) {"
    ∷ codes "    return {"
    ∷ codes "      outcome: {"
    ∷ codes "        case: \"ok\","
    ∷ codes "        value: {"
    ∷ codes "          pluginName: ctx.plugin.id,"
    ∷ codes "          pluginVersion: ctx.plugin.version,"
    ∷ codes "        },"
    ∷ codes "      },"
    ∷ codes "    };"
    ∷ codes "  },"
    ∷ []
    ∷ (codes "  async " ++ (handler_name ++ codes "(req, ctx) {"))
    ∷ codes "    return {"
    ∷ codes "      outcome: {"
    ∷ codes "        case: \"ok\","
    ∷ codes "        value: {"
    ∷ codes "          message: `Hello ${req.subject} from ${ctx.plugin.id}`,"
    ∷ codes "        },"
    ∷ codes "      },"
    ∷ codes "    };"
    ∷ codes "  },"
    ∷ codes "});"
    ∷ [])

unfoldable pub test_file : Text → Text
test_file id = lines (
    codes "import { describe, expect, it } from \"vitest\";"
    ∷ []
    ∷ (codes "describe(\"" ++ (id ++ codes "\", () => {"))
    ∷ codes "  it(\"has a scaffolded placeholder test\", () => {"
    ∷ codes "    expect(true).toBe(true);"
    ∷ codes "  });"
    ∷ codes "});"
    ∷ [])
