-- ===== src/Pluginctl/Init.antt =====
-- packages/pluginctl/src/init.ts: a new project in an empty directory, or in one that it makes. The
-- directory is the tree of its entries, or nothing. A path of the template is its parts: the template
-- has no part `.` or `..`, and `join` drops empty ones.
pub mod Paths
pub mod Fresh
pub mod Bindings
use ts_plugins.Common.{
  ◌≡◌, refl, Bool, true, false, not, Option, none, some, List, [], ◌∷◌, filter, ltb, length,
  if◌then◌else◌, Text, text_eq, ◌==◌, codes,
}
use ts_plugins.Common.Parts.{split}
use ts_plugins.Pluginctl.Integrity.{
  Bytes, Entry, file, directory, Entries, no_entries, entry, get_entry, write_entry, Platform,
}
use ts_plugins.Templates.{
  PluginTemplateInput, PluginTemplateFile, PluginTemplateOutput, TemplateFailure, Rendered,
  rendered, refused_template,
}
use ts_plugins.Templates.Render.{render_default_plugin_template}

-- The answer, its paths below the project's directory.
pub data Initialized : Type 0 where
  initialized : Text → Text → Initialized
  not_empty : Initialized
  not_rendered : TemplateFailure → Initialized

unfoldable pub path_parts : Text → List Text
unfolding split
path_parts path = filter (λ part. ltb 0 (length part)) (split b'/' path)

unfoldable pub put_directory : Entries → Text → Entries → Entries
put_directory no_entries name sub = entry name (directory sub) no_entries
put_directory (entry n e root) name sub =
    if n == name then entry n (directory sub) root else entry n e (put_directory root name sub)

-- What is below a name, nothing if it is no directory.
abbrev pub entries_of : Option Entry → Entries
entries_of (some (directory sub)) = sub
entries_of _ = no_entries

-- `mkdir` of the directories and `writeFile`.
unfoldable pub write_path : Entries → List Text → Bytes → Entries
unfolding put_directory write_entry get_entry
write_path root [] bytes = root
write_path root (name ∷ []) bytes = write_entry root name bytes
write_path root (name ∷ part ∷ parts) bytes =
    put_directory root name (write_path (entries_of (get_entry root name)) (part ∷ parts) bytes)

module _ (platform : Platform) where
  open platform use {utf8, stringify_pretty}

  abbrev pub write_files : Entries → List PluginTemplateFile → Entries
  write_files root [] = root
  write_files root (f ∷ files) =
      write_files (write_path root (path_parts f.path) (utf8 f.contents)) files

  abbrev pub init_rendered : Rendered → Initialized × Option Entries
  init_rendered (refused_template e) = (not_rendered e, some no_entries)
  init_rendered (rendered output) = (
    initialized output.manifest_path output.proto_path,
    some (write_files no_entries output.files),
  )

  abbrev pub init_directory : Option Entries → Rendered → Initialized × Option Entries
  init_directory none template = init_rendered template
  init_directory (some no_entries) template = init_rendered template
  init_directory (some (entry n e root)) template = (not_empty, some (entry n e root))

  -- `initPluginProject`, with the id, the package and the service.
  unfoldable pub init_plugin_project :
      Option Entries → Text → Text → Text → Initialized × Option Entries
  unfolding render_default_plugin_template path_parts write_path
  init_plugin_project project id package_name service_name = init_directory project (
      render_default_plugin_template stringify_pretty (record {
        id = id;
        package_name = package_name;
        service_name = service_name;
        project_name = some id;
        version = none;
      }))
