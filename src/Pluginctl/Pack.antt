-- ===== src/Pluginctl/Pack.antt =====
-- packages/pluginctl/src/pack.ts: which entries of a project stand in its package, and the manifest
-- of the package, which has its digest.
pub mod Normal
pub mod Copied
use ts_plugins.Common.{
  ℕ, ◌≡◌, refl, Bool, true, false, not, ◌&&◌, ◌||◌, Option, none, some, List, [], ◌∷◌, ◌++◌, any,
  if◌then◌else◌, nat_eq, Text, text_eq, ◌==◌, codes, length,
}
use ts_plugins.Common.Texts.{add_to_set}
use ts_plugins.Pluginctl.Values.{object}
use ts_plugins.Pluginctl.Manifest.{FilledText, text_of, Contract, Integrity, PluginManifest}
use ts_plugins.Pluginctl.Manifest.Written.{manifest_fields}
use ts_plugins.Pluginctl.Integrity.{Bytes, Entries, write_entry, Platform, compute_package_digest}

-- `value.replace(/^\.\//, "")`
unfoldable pub without_dot_slash : Text → Text
without_dot_slash (c ∷ d ∷ rest) = if nat_eq c b'.' && nat_eq d b'/' then rest else c ∷ d ∷ rest
without_dot_slash value = value

-- The first part of `normalized.split("/")`
unfoldable pub first_part : Text → Text
first_part [] = []
first_part (c ∷ rest) = if nat_eq c b'/' then [] else c ∷ first_part rest

abbrev pub add_part : List Text → Text → List Text
add_part entries [] = entries
add_part entries (c ∷ rest) = add_to_set entries (c ∷ rest)

-- `addTopLevelEntry`, which pack.ts and install.ts both have.
unfoldable pub add_top_level_entry : List Text → Text → List Text
unfolding without_dot_slash first_part add_to_set
add_top_level_entry entries value = add_part entries (first_part (without_dot_slash value))

abbrev pub add_optional_entry : List Text → Option FilledText → List Text
add_optional_entry entries none = entries
add_optional_entry entries (some path) = add_top_level_entry entries (text_of path)

abbrev pub add_top_level_entries : List Text → List FilledText → List Text
add_top_level_entries entries [] = entries
add_top_level_entries entries (path ∷ paths) =
    add_top_level_entries (add_top_level_entry entries (text_of path)) paths

abbrev pub sources_of : Contract → List FilledText
sources_of contract = elim contract.proto_sources [ none ↦ [] | some sources ↦ sources ]

-- What both commands add to their set.
abbrev pub add_manifest_entries : List Text → PluginManifest → List Text
add_manifest_entries entries m =
    add_top_level_entries
      (add_top_level_entry
        (add_optional_entry (add_top_level_entry entries (text_of m.main)) m.source_map)
        (text_of m.contract.descriptor_set))
      (sources_of m.contract)

unfoldable pub collect_package_entries : PluginManifest → List Text
unfolding add_top_level_entry
collect_package_entries m = add_manifest_entries (codes "plugin.json" ∷ []) m

-- The manifest of the package.
unfoldable pub packed_manifest : PluginManifest → FilledText → PluginManifest
packed_manifest m sha = record m { integrity = some (record { package_sha256 = some sha }) }

module _ (platform : Platform) where
  open platform use {utf8, stringify_pretty}

  unfoldable pub manifest_bytes : PluginManifest → Bytes
  unfolding manifest_fields
  manifest_bytes m = utf8 (stringify_pretty (object (manifest_fields m)) ++ codes "\n")

  abbrev pub packed_at :
      Entries → PluginManifest → Option FilledText → Option (Entries × FilledText)
  packed_at staged m none = none
  packed_at staged m (some sha) =
      some (write_entry staged (codes "plugin.json") (manifest_bytes (packed_manifest m sha)), sha)

  -- `packPlugin` from the copied entries on, before the archive: the package and its digest.
  unfoldable pub pack_plugin : Entries → PluginManifest → Option (Entries × FilledText)
  unfolding compute_package_digest write_entry manifest_bytes packed_manifest
  pack_plugin staged m = packed_at staged m (compute_package_digest platform staged)
