-- ===== src/Pluginctl/Init/Fresh.antt =====
-- What packages/pluginctl/src/init.ts leaves in a new project.
use ts_plugins.Common.{
  ◌≡◌, refl, ap, sym, ◌∙◌, Bool, true, false, Option, none, some, List, [], ◌∷◌, ◌++◌, ltb, length,
  arith, Text, text_eq, codes,
}
use ts_plugins.Common.Parts.{trim, split, join}
use ts_plugins.Pluginctl.Values.{object, defined}
use ts_plugins.Pluginctl.Manifest.{FilledText, text_of}
use ts_plugins.Pluginctl.Integrity.{Bytes, file, Entries, no_entries, entry, get_entry, Platform}
use ts_plugins.Pluginctl.Init.{
  initialized, path_parts, write_files, init_rendered, init_directory, init_plugin_project,
}
use ts_plugins.Pluginctl.Validate.{passed, parsed_manifest, read_manifest_entry}
use ts_plugins.Templates.{
  PluginTemplateInput, Rendered, trimmed_or, default_version, package_segments, proto_path_of,
}
use ts_plugins.Templates.Files.{manifest_json, render_proto_source}
use ts_plugins.Templates.Render.{
  format_json, template_files, render_segments, render_named, render_default_plugin_template,
}
use ts_plugins.Templates.Starter.{filled, starter_manifest, parse_manifest-json}
use ts_plugins.Pluginctl.Init.Paths.{get_path, proto_rest, manifest_stands, proto_stands}

filled_name :
    (package_name service_name : Text)
    → text_of (filled (package_name ++ (codes "." ++ service_name)))
      ≡ package_name ++ (codes "." ++ service_name)
filled_name [] service_name = refl
filled_name (c ∷ package_name) service_name = refl

abbrev pub is_free : Option Entries → Bool
is_free none = true
is_free (some no_entries) = true
is_free (some (entry n e root)) = false

module _ (platform : Platform) where
  open platform use {utf8, stringify_pretty}

  init_free :
      (project : Option Entries) (template : Rendered)
      → is_free project ≡ true
      → init_directory platform project template ≡ init_rendered platform template
  init_free none template h = refl
  init_free (some no_entries) template h = refl
  init_free (some (entry n e root)) template h = ground arith

  -- The bytes of a new project's manifest.
  abbrev pub starter_bytes : FilledText → FilledText → Text → Bytes
  starter_bytes id type_name proto_path = utf8 (
      format_json stringify_pretty (
        object
          (defined (manifest_json (text_of id) default_version (text_of type_name) proto_path))))

  -- A project with its manifest and its proto file.
  abbrev pub IsStarter : FilledText → Text → Text → Text → Entries → Type 0
  IsStarter id package_name service_name proto_path root =
      (read_manifest_entry platform (get_entry root (codes "plugin.json"))
        ≡ passed (
            starter_manifest id (filled default_version)
              (filled (package_name ++ (codes "." ++ service_name))) proto_path))
      × (get_path root (path_parts proto_path)
          ≡ some (file (utf8 (render_proto_source package_name service_name))))

  manifest_parses :
      (id type_name : FilledText) (proto_path : Text)
      → parsed_manifest platform (
          some (
            object (
              defined (manifest_json (text_of id) default_version (text_of type_name) proto_path))))
        ≡ passed (starter_manifest id (filled default_version) type_name proto_path)
  manifest_parses id type_name proto_path =
      rw (parsed_manifest, parse_manifest-json id (filled default_version) type_name proto_path)
        refl

  IsStarter-root :
      (id : FilledText) (project_name package_name service_name segment : Text)
      (segments : List Text)
      → platform.parse (
          starter_bytes id
            (filled (package_name ++ (codes "." ++ service_name)))
            (proto_path_of (segment ∷ segments)))
        ≡ some (
            object (
              defined (
                manifest_json
                  (text_of id)
                  default_version
                  (text_of (filled (package_name ++ (codes "." ++ service_name))))
                  (proto_path_of (segment ∷ segments)))))
      → IsStarter id package_name service_name (proto_path_of (segment ∷ segments)) (
          write_files platform no_entries (
            template_files stringify_pretty
              (text_of id)
              project_name
              default_version
              package_name
              service_name
              (proto_path_of (segment ∷ segments))))
  unfolding path_parts split join
  IsStarter-root id project_name package_name service_name segment segments reads =
      let type_name = filled (package_name ++ (codes "." ++ service_name)) in
      let proto_path = proto_path_of (segment ∷ segments) in
      (
        ap (read_manifest_entry platform) (manifest_stands _ (proto_rest segment segments) _ _ _ _)
            ∙ ap
                (λ t. read_manifest_entry platform (
                  some (
                    file (
                      utf8 (
                        format_json stringify_pretty (
                          object (
                            defined (manifest_json (text_of id) default_version t proto_path))))))))
                (sym (filled_name package_name service_name))
            ∙ ap (parsed_manifest platform) reads
            ∙ manifest_parses id type_name proto_path,
        proto_stands _ (proto_rest segment segments) _ _ _ _,
      )

  init_segments :
      (input : PluginTemplateInput) (id : FilledText) (package_name : Text) (segments : List Text)
      → ltb (length segments) 3 ≡ false
      → input.version ≡ none
      → platform.parse (
          starter_bytes id
            (filled (package_name ++ (codes "." ++ trim input.service_name)))
            (proto_path_of segments))
        ≡ some (
            object (
              defined (
                manifest_json
                  (text_of id)
                  default_version
                  (text_of (filled (package_name ++ (codes "." ++ trim input.service_name))))
                  (proto_path_of segments))))
      → (root : Entries) × (init_rendered platform
            (render_segments stringify_pretty input (text_of id) package_name segments)
          ≡ (initialized (codes "plugin.json") (proto_path_of segments), some root))
        × IsStarter id package_name (trim input.service_name) (proto_path_of segments) root
  init_segments input id package_name [] long version reads = absurd (ground arith)
  init_segments input id package_name (segment ∷ segments) long version reads =
      rw (long, version)
        (
          _,
          refl,
          IsStarter-root id (trimmed_or (text_of id) input.project_name) package_name
              (trim input.service_name) segment segments reads,
        )

  -- `init` makes of an empty directory, or of none, a project whose manifest the schema accepts,
  -- with the id, the version 0.1.0 and the service of the package, and whose one proto source is at
  -- the path that the manifest names; if the id is not blank, the package has three segments or
  -- more, and `JSON.parse` reads that manifest as it was printed.
  pub init_plugin_project-IsStarter :
      (project : Option Entries) (raw_id raw_package raw_service : Text) (id : FilledText)
      → is_free project ≡ true
      → trim raw_id ≡ text_of id
      → ltb (length (package_segments (trim raw_package))) 3 ≡ false
      → platform.parse (
          starter_bytes id
            (filled (trim raw_package ++ (codes "." ++ trim raw_service)))
            (proto_path_of (package_segments (trim raw_package))))
        ≡ some (
            object (
              defined (
                manifest_json
                  (text_of id)
                  default_version
                  (text_of (filled (trim raw_package ++ (codes "." ++ trim raw_service))))
                  (proto_path_of (package_segments (trim raw_package))))))
      → (root : Entries) × (init_plugin_project platform project raw_id raw_package raw_service ≡ (
        initialized (codes "plugin.json") (proto_path_of (package_segments (trim raw_package))),
        some root,
      ))
        × IsStarter id
            (trim raw_package)
            (trim raw_service)
            (proto_path_of (package_segments (trim raw_package)))
            root
  unfolding init_plugin_project render_default_plugin_template
  init_plugin_project-IsStarter project raw_id raw_package raw_service id free named long reads =
      let input : PluginTemplateInput = record {
        id = raw_id;
        package_name = raw_package;
        service_name = raw_service;
        project_name = some raw_id;
        version = none;
      } in
      let (root, made, starts) =
        init_segments input id (trim raw_package) (package_segments (trim raw_package)) long refl
          reads in
      (
        root,
        init_free project _ free
            ∙ ap (λ t. init_rendered platform (render_named stringify_pretty input t)) named
            ∙ made,
        starts,
      )
