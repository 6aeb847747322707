-- ===== src/Tests/Packages.antt =====
-- A run of packages/pluginctl/src/pack.ts and packages/pluginctl/src/install.ts on a small project.
-- The printed JSON of the run is a list of marks, and its digest is one digit.
use ts_plugins.Common.{
  ℕ, ◌+◌, ◌%◌, ◌≡◌, refl, Bool, true, false, Option, none, some, [], ◌∷◌, ◌++◌, arith,
  if◌then◌else◌, length, Text, text_eq, ◌==◌, codes,
}
use ts_plugins.Common.Sorting.{text_leb}
use ts_plugins.Codegen.Contract.{
  MethodLike, unary, ServiceLike, build_plugin_service_definition, define_service,
}
use ts_plugins.Pluginctl.Values.{
  JsonValue, null, boolean, whole, other_number, string, array, object, JsonValues, no_values,
  value, JsonFields, no_fields, field,
}
use ts_plugins.Pluginctl.Manifest.{FilledText, lazy, serial, PluginManifest, parse_manifest}
use ts_plugins.Pluginctl.Manifest.Written.{manifest_fields}
use ts_plugins.Pluginctl.Manifest.Schema.{parse_manifest-fields}
use ts_plugins.Pluginctl.Integrity.{
  Bytes, file, directory, Entries, no_entries, entry, get_entry, write_entry, Platform,
  compute_package_digest,
}
use ts_plugins.Pluginctl.Validate.{Disk, passed, check_artifacts}
use ts_plugins.Pluginctl.Pack.{
  without_dot_slash, first_part, packed_manifest, manifest_bytes, pack_plugin,
  collect_package_entries,
}
use ts_plugins.Pluginctl.Pack.Normal.{HasFullIntegrity}
use ts_plugins.Pluginctl.Install.{folder, tarball, installed, installation, install_plugin}
use ts_plugins.Pluginctl.Install.Accepted.{IsVerified, install_plugin-IsVerified, install-pack}

unfoldable mutual
  print : JsonValue → Text
  print null = b'n' ∷ []
  print (boolean true) = b't' ∷ []
  print (boolean false) = b'f' ∷ []
  print (whole n) = b'#' ∷ n ∷ []
  print (other_number t) = b'%' ∷ t
  print (string t) = b'"' ∷ t ++ b'"' ∷ []
  print (array vs) = b'[' ∷ print_values vs
  print (object fs) = b'{' ∷ print_fields fs

  print_values : JsonValues → Text
  print_values no_values = b']' ∷ []
  print_values (value v vs) = print v ++ print_values vs

  print_fields : JsonFields → Text
  print_fields no_fields = b'}' ∷ []
  print_fields (field k v fs) = k ++ (b':' ∷ print v ++ print_fields fs)

abbrev filled_text : ℕ → Text → FilledText
filled_text c t = record { first = c; others = t }

abbrev project_manifest : PluginManifest
project_manifest = record {
  id = filled_text b'c' (codes "alc");
  version = filled_text b'1' [];
  display_name = none;
  description = some (filled_text b'd' []);
  main = filled_text b'.' (codes "/dist/index.js");
  source_map = none;
  contract = record {
    descriptor_set = filled_text b'g' (codes "en/set.bin");
    service = filled_text b'C' (codes "alc");
    proto_sources = none;
  };
  runtime = record {
    activation = lazy;
    concurrency = serial;
    init_timeout_ms = record { predecessor = 4 };
    request_timeout_ms = record { predecessor = 2 };
    idle_eviction_ms = none;
  };
  observability = none;
  integrity = none;
}

abbrev raw_bytes : Bytes
raw_bytes = codes "raw"

abbrev project : Entries
project = entry (codes "plugin.json") (file raw_bytes) (
    entry (codes "dist") (directory (entry (codes "index.js") (file (1 ∷ [])) no_entries)) (
      entry (codes "gen") (directory (entry (codes "set.bin") (file (2 ∷ [])) no_entries))
        no_entries))

abbrev digit_of : Bytes → FilledText
digit_of bytes = filled_text (48 + length bytes % 10) []

abbrev project_sha : FilledText
project_sha = filled_text b'1' []

abbrev packed_bytes : Bytes
packed_bytes =
    print (object (manifest_fields (packed_manifest project_manifest project_sha))) ++ codes "\n"

abbrev platform : Platform
platform = record {
  sha256 = digit_of;
  utf8 = λ t. t;
  parse = λ bytes.
      if bytes == raw_bytes
      then some (object (manifest_fields project_manifest))
      else if bytes == packed_bytes
      then some (object (manifest_fields (packed_manifest project_manifest project_sha)))
      else none;
  stringify = print;
  stringify_pretty = print;
  locale_leb = text_leb;
}

abbrev packed_project : Entries
packed_project =
    write_entry project (codes "plugin.json")
      (manifest_bytes platform (packed_manifest project_manifest project_sha))

project_packs : pack_plugin platform project project_manifest ≡ some (packed_project, project_sha)
unfolding pack_plugin compute_package_digest print manifest_fields
project_packs = refl

packed_manifest_IsRead :
    platform.parse (manifest_bytes platform (packed_manifest project_manifest project_sha))
    ≡ some (object (manifest_fields (packed_manifest project_manifest project_sha)))
unfolding manifest_bytes print manifest_fields packed_manifest
packed_manifest_IsRead = refl

project_manifest_stands : get_entry project (codes "plugin.json") ≡ some (file raw_bytes)
unfolding get_entry
project_manifest_stands = refl

project_HasFullIntegrity : HasFullIntegrity project_manifest
project_HasFullIntegrity e = ground arith

abbrev method_like : Text → Text → MethodLike ℕ
method_like name local_name = record {
  name = name;
  local_name = local_name;
  method_kind = unary;
  input_type_name = codes "calc.v1.In";
  output_type_name = codes "calc.v1.Out";
  input = 1;
  output = 2;
}

abbrev service : ServiceLike ℕ
service = record {
  type_name = codes "calc.v1.Calc";
  name = codes "Calc";
  methods = method_like (codes "Init") (codes "init") ∷ [];
}

abbrev is_some {ℓ} : {A : Type ℓ} → Option A → Bool
is_some none = false
is_some (some a) = true

-- A path is looked up by its first part only.
abbrev disk : Disk ℕ
disk = record {
  path_exists = λ root path. is_some (get_entry root (first_part (without_dot_slash path)));
  load_descriptor_registry =
      λ root path. some (λ name. if name == codes "Calc" then some service else none);
}

packed_project_IsWhole :
    check_artifacts disk packed_project (packed_manifest project_manifest project_sha)
    ≡ passed (define_service service)
unfolding check_artifacts get_entry write_entry without_dot_slash first_part
    build_plugin_service_definition packed_manifest
packed_project_IsWhole = refl

abbrev file_bytes : Entries → Text → Bytes
file_bytes root path = codes "descriptors"

install-pack_example :
    install_plugin platform disk
      (λ path. path)
      file_bytes
      (tarball (codes "calc.tgz"))
      none
      (codes "2026")
      packed_project
    ≡ installed (
        installation platform disk
          (λ path. path)
          file_bytes
          (tarball (codes "calc.tgz"))
          none
          (codes "2026")
          packed_project
          (packed_manifest project_manifest project_sha)
          (define_service service)
          project_sha)
install-pack_example =
    install-pack platform disk (λ path. path) file_bytes (tarball (codes "calc.tgz")) none
      (codes "2026") project packed_project project_manifest raw_bytes project_sha
      (define_service service) packed_manifest_IsRead project_manifest_stands refl
      project_HasFullIntegrity project_packs packed_project_IsWhole

install_plugin-IsVerified_example :
    IsVerified platform disk
      (λ path. path)
      file_bytes
      (folder (codes "."))
      project
      (install_plugin platform disk
        (λ path. path)
        file_bytes
        (folder (codes "."))
        none
        (codes "2026")
        project)
install_plugin-IsVerified_example =
    install_plugin-IsVerified platform disk (λ path. path) file_bytes (folder (codes ".")) none
      (codes "2026") project

parse_manifest-fields_example :
    parse_manifest (object (manifest_fields project_manifest)) ≡ some project_manifest
parse_manifest-fields_example = parse_manifest-fields project_manifest

entries_of_project :
    collect_package_entries project_manifest ≡ codes "plugin.json" ∷ codes "dist" ∷ codes "gen" ∷ []
unfolding collect_package_entries
entries_of_project = refl
