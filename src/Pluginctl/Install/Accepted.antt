-- ===== src/Pluginctl/Install/Accepted.antt =====
-- What packages/pluginctl/src/install.ts accepts.
use ts_plugins.Common.{
  ◌≡◌, refl, ap, sym, ◌∙◌, true, Option, none, some, arith, Text, text_eq, ◌==◌, ==_iff, ==_refl,
  codes, Bool-cases, inl, inr,
}
use ts_plugins.Codegen.Contract.{PluginServiceDefinition}
use ts_plugins.Pluginctl.Values.{object}
use ts_plugins.Pluginctl.Manifest.{FilledText, text_of, PluginManifest}
use ts_plugins.Pluginctl.Manifest.Written.{manifest_fields}
use ts_plugins.Pluginctl.Manifest.Schema.{parse_manifest-fields}
use ts_plugins.Pluginctl.Integrity.{
  Bytes, Entries, no_entries, entry, file, get_entry, write_entry, Platform, hashed_content,
  compute_package_digest,
}
use ts_plugins.Pluginctl.Integrity.Replaced.{digest-write, some_injective}
use ts_plugins.Pluginctl.Validate.{
  Checked, passed, failure, Disk, parsed_manifest, read_manifest_entry, check_artifacts,
  validate_plugin_manifest,
}
use ts_plugins.Pluginctl.Pack.{packed_manifest, manifest_bytes, packed_at, pack_plugin}
use ts_plugins.Pluginctl.Pack.Normal.{HasFullIntegrity, normalize-packed_manifest}
use ts_plugins.Pluginctl.Install.{
  PluginInstallSource, is_folder, PacoteManifest, Installed, installed, refused, InstallFailure,
  expected_package_sha256, check_digest, Installation, installation, unless_refused,
  install_checked, install_validated, install_plugin,
}

pub get-write_entry :
    (root : Entries) (name : Text) (bytes : Bytes)
    → get_entry (write_entry root name bytes) name ≡ some (file bytes)
unfolding get_entry write_entry
get-write_entry no_entries name bytes = rw (==_refl name) refl
get-write_entry (entry n e root) name bytes = elim (Bool-cases (n == name)) [
  | inl same ↦ rw same (rw same refl)
  | inr other ↦ rw other (rw other (get-write_entry root name bytes))
]

module _ {ℓ} {Schema : Type ℓ} (platform : Platform) (disk : Disk Schema) (resolve : Text → Text)
    (descriptor_bytes : Entries → Text → Bytes) where
  -- What stands between a package and its installation: it has a digest, and this is the one that
  -- its manifest has; only a folder may have a manifest without one.
  abbrev pub Agrees : PluginInstallSource → Text → Option FilledText → Type 0
  Agrees source actual none = is_folder source ≡ true
  Agrees source actual (some expected) = text_of expected ≡ actual

  abbrev pub IsVerified : PluginInstallSource → Entries → Installed Installation → Type 0
  IsVerified source root (refused e) = Unit
  IsVerified source root (installed i) =
      (sha : FilledText) × (compute_package_digest platform root ≡ some sha)
      × Agrees source (text_of sha) (expected_package_sha256 i.manifest.integrity)

  check_digest-Agrees :
      (source : PluginInstallSource) (expected : Option FilledText) (sha : FilledText)
      → check_digest source expected sha ≡ none
      → Agrees source (text_of sha) expected
  unfolding check_digest
  check_digest-Agrees source none sha h = ground arith
  check_digest-Agrees source (some e) sha h = ground (arith, ==_iff (text_of e) (text_of sha))

  unless_refused-IsVerified :
      (source : PluginInstallSource) (root : Entries) (i : Installation) (sha : FilledText)
      (check : Option InstallFailure)
      → compute_package_digest platform root ≡ some sha
      → check_digest source (expected_package_sha256 i.manifest.integrity) sha ≡ check
      → IsVerified source root (unless_refused i check)
  unless_refused-IsVerified source root i sha none digest e =
      (sha, digest, check_digest-Agrees source (expected_package_sha256 i.manifest.integrity) sha e)
  unless_refused-IsVerified source root i sha (some failed) digest e = tt

  install_checked-IsVerified :
      (source : PluginInstallSource) (pacote : Option PacoteManifest) (now : Text) (root : Entries)
      (m : PluginManifest) (contract : PluginServiceDefinition Schema) (digest : Option FilledText)
      → compute_package_digest platform root ≡ digest
      → IsVerified source root (
          install_checked platform disk resolve descriptor_bytes source pacote now root m contract
            digest)
  install_checked-IsVerified source pacote now root m contract none e = tt
  install_checked-IsVerified source pacote now root m contract (some sha) e =
      unless_refused-IsVerified source root
        (installation platform disk resolve descriptor_bytes source pacote now root m contract sha)
        sha _ e refl

  install_validated-IsVerified :
      (source : PluginInstallSource) (pacote : Option PacoteManifest) (now : Text) (root : Entries)
      (validated : Checked (PluginManifest × PluginServiceDefinition Schema))
      → IsVerified source root (
          install_validated platform disk resolve descriptor_bytes source pacote now root validated)
  install_validated-IsVerified source pacote now root (failure e) = tt
  install_validated-IsVerified source pacote now root (passed (m, contract)) =
      install_checked-IsVerified source pacote now root m contract _ refl

  -- An install never accepts a package whose manifest names another digest than the package has, and
  -- of a tarball or an npm package none whose manifest names no digest.
  pub install_plugin-IsVerified :
      (source : PluginInstallSource) (pacote : Option PacoteManifest) (now : Text) (root : Entries)
      → IsVerified source root
          (install_plugin platform disk resolve descriptor_bytes source pacote now root)
  unfolding install_plugin
  install_plugin-IsVerified source pacote now root =
      install_validated-IsVerified source pacote now root
        (validate_plugin_manifest platform disk root)

  check_digest_same :
      (source : PluginInstallSource) (sha : FilledText) → check_digest source (some sha) sha ≡ none
  unfolding check_digest
  check_digest_same source sha = rw (==_refl (text_of sha)) refl

  -- The package that `packPlugin` leaves for a digest.
  abbrev packed_root : Entries → PluginManifest → FilledText → Entries
  packed_root staged m sha =
      write_entry staged (codes "plugin.json") (manifest_bytes platform (packed_manifest m sha))

  packed_at_result :
      (staged root : Entries) (m : PluginManifest) (sha : FilledText) (digest : Option FilledText)
      → packed_at platform staged m digest ≡ some (root, sha)
      → (digest ≡ some sha) × (root ≡ packed_root staged m sha)
  packed_at_result staged root m sha none e = ground arith
  packed_at_result staged root m sha (some sha') e =
      let same = some_injective e in
      (
        ap some (ap (λ p. p.1) same),
        sym (ap (λ p. p.0) same) ∙ ap (packed_root staged m) (ap (λ p. p.1) same),
      )

  pack_plugin_result :
      (staged root : Entries) (m : PluginManifest) (sha : FilledText)
      → pack_plugin platform staged m ≡ some (root, sha)
      → (compute_package_digest platform staged ≡ some sha) × (root ≡ packed_root staged m sha)
  unfolding pack_plugin
  pack_plugin_result staged root m sha e =
      packed_at_result staged root m sha (compute_package_digest platform staged) e

  abbrev Reads : PluginManifest → Type 0
  Reads n = platform.parse (manifest_bytes platform n) ≡ some (object (manifest_fields n))

  Reads-manifest :
      (root : Entries) (m : PluginManifest)
      → Reads m
      → get_entry root (codes "plugin.json") ≡ some (file (manifest_bytes platform m))
      → read_manifest_entry platform (get_entry root (codes "plugin.json")) ≡ passed m
  Reads-manifest root m reads stands =
      rw (stands, reads, parsed_manifest, parse_manifest-fields m) refl

  same_content :
      (m : PluginManifest) (raw : Bytes) (sha : FilledText)
      → Reads (packed_manifest m sha)
      → platform.parse raw ≡ some (object (manifest_fields m))
      → HasFullIntegrity m
      → hashed_content platform true raw
        ≡ hashed_content platform true (manifest_bytes platform (packed_manifest m sha))
  same_content m raw sha reads parsed full =
      rw (parsed, reads, normalize-packed_manifest m sha full) refl

  -- A package that `packPlugin` makes of a project is installed, whatever the source is: its manifest
  -- stands the checks, and its digest is the one that was written into it. The project's manifest is
  -- in the form that the schema returns and has no empty `integrity`; `JSON.parse` reads the manifest
  -- that `JSON.stringify` wrote; and the artifacts are in the package.
  pub install-pack :
      (source : PluginInstallSource) (pacote : Option PacoteManifest) (now : Text)
      (staged root : Entries) (m : PluginManifest) (raw : Bytes) (sha : FilledText)
      (contract : PluginServiceDefinition Schema)
      → platform.parse (manifest_bytes platform (packed_manifest m sha))
        ≡ some (object (manifest_fields (packed_manifest m sha)))
      → get_entry staged (codes "plugin.json") ≡ some (file raw)
      → platform.parse raw ≡ some (object (manifest_fields m))
      → HasFullIntegrity m
      → pack_plugin platform staged m ≡ some (root, sha)
      → check_artifacts disk root (packed_manifest m sha) ≡ passed contract
      → install_plugin platform disk resolve descriptor_bytes source pacote now root
        ≡ installed (
            installation platform disk resolve descriptor_bytes source pacote now root
              (packed_manifest m sha)
              contract
              sha)
  unfolding install_plugin validate_plugin_manifest packed_manifest
  install-pack source pacote now staged root m raw sha contract reads stands parsed full packs
        checks =
      let (digest, is_package) = pack_plugin_result staged root m sha packs in
      let written =
        ap (λ r. get_entry r (codes "plugin.json")) is_package
        ∙ get-write_entry staged (codes "plugin.json")
            (manifest_bytes platform (packed_manifest m sha)) in
      let same_digest =
        ap (compute_package_digest platform) is_package
        ∙ digest-write platform staged raw (manifest_bytes platform (packed_manifest m sha)) stands
            (same_content m raw sha reads parsed full)
        ∙ digest in
      rw
        (
          Reads-manifest root (packed_manifest m sha) reads written,
          checks,
          same_digest,
          check_digest_same source sha,
        )
        refl
