-- ===== src/Pluginctl/Install.antt =====
-- packages/pluginctl/src/install.ts: the checks of an install, the entries that it copies and the
-- metadata that it writes. What `pacote` fetches and extracts is an argument.
pub mod Accepted
use ts_plugins.Common.{
  ℕ, ◌≡◌, refl, Bool, true, false, not, ◌&&◌, Option, none, some, List, [], ◌∷◌, ◌++◌, map,
  if◌then◌else◌, Text, text_eq, ◌==◌, codes,
}
use ts_plugins.Codegen.Contract.{PluginMethodDefinition, PluginServiceDefinition}
use ts_plugins.Pluginctl.Values.{
  JsonValue, whole, string, array, JsonValues, no_values, value, object, defined, Literal,
}
use ts_plugins.Pluginctl.Manifest.{FilledText, text_of, Contract, Integrity, PluginManifest}
use ts_plugins.Pluginctl.Integrity.{Bytes, Entries, Platform, compute_package_digest}
use ts_plugins.Pluginctl.Validate.{
  Failure, Checked, passed, failure, Disk, validate_plugin_manifest, ◌>>=◌,
}
use ts_plugins.Pluginctl.Pack.{add_manifest_entries, add_top_level_entry}

pub data PluginInstallSource : Type 0 where
  folder tarball npm : Text → PluginInstallSource

abbrev pub is_folder : PluginInstallSource → Bool
is_folder (folder path) = true
is_folder source = false

-- What `pacote.manifest` says of a package: `_resolved`, `_integrity`, and `dist`, if it is there,
-- with its tarball and its integrity.
pub record PacoteManifest : Type 0 where
  pub resolved : Option Text
  pub integrity : Option Text
  pub dist : Option (Option Text × Option Text)

pub data InstallFailure : Type 0 where
  invalid_package : Failure → InstallFailure
  undigested : InstallFailure
  integrity_required : InstallFailure
  -- The expected digest, and that of the package.
  integrity_mismatch : Text → Text → InstallFailure

pub data Installed {ℓ} (A : Type ℓ) : Type ℓ where
  installed : A → Installed A
  refused : InstallFailure → Installed A

abbrev pub expected_package_sha256 : Option Integrity → Option FilledText
expected_package_sha256 none = none
expected_package_sha256 (some integrity) = integrity.package_sha256

-- The two checks of the digest; `none` is that both let the package through.
unfoldable pub check_digest :
    PluginInstallSource → Option FilledText → FilledText → Option InstallFailure
check_digest source none actual = if not (is_folder source) then some integrity_required else none
check_digest source (some expected) actual =
    if text_of expected == text_of actual
    then none
    else some (integrity_mismatch (text_of expected) (text_of actual))

unfoldable pub collect_install_entries : PluginManifest → List Text
unfolding add_top_level_entry
collect_install_entries m = add_manifest_entries [] m

-- `a ?? b`
abbrev pub or_else {ℓ} : {A : Type ℓ} → Option A → Option A → Option A
or_else none b = b
or_else (some a) b = some a

abbrev pub text_value : Option Text → Option JsonValue
text_value none = none
text_value (some t) = some (string t)

abbrev pub dist_tarball : Option (Option Text × Option Text) → Option Text
dist_tarball none = none
dist_tarball (some dist) = dist.0

abbrev pub dist_integrity : Option (Option Text × Option Text) → Option Text
dist_integrity none = none
dist_integrity (some dist) = dist.1

abbrev pub resolved_of : Option PacoteManifest → Option Text
resolved_of none = none
resolved_of (some m) = or_else m.resolved (dist_tarball m.dist)

abbrev pub integrity_of : Option PacoteManifest → Option Text
integrity_of none = none
integrity_of (some m) = or_else m.integrity (dist_integrity m.dist)

-- `resolve` of `node:path` is a parameter.
unfoldable pub serialize_source :
    (Text → Text) → PluginInstallSource → Option PacoteManifest → Literal
serialize_source resolve (folder path) pacote =
    (codes "kind", some (string (codes "folder")))
    ∷ (codes "path", some (string (resolve path)))
    ∷ []
serialize_source resolve (tarball path) pacote =
    (codes "kind", some (string (codes "tarball")))
    ∷ (codes "path", some (string (resolve path)))
    ∷ []
serialize_source resolve (npm spec) pacote =
    (codes "kind", some (string (codes "npm")))
    ∷ (codes "spec", some (string spec))
    ∷ (codes "resolved", text_value (resolved_of pacote))
    ∷ (codes "integrity", text_value (integrity_of pacote))
    ∷ []

abbrev pub install_metadata : PluginManifest → Text → Literal → Literal
install_metadata m installed_at source =
    (codes "installedAt", some (string installed_at))
    ∷ (codes "source", some (object (defined source)))
    ∷ (
      codes "plugin",
      some (
          object (
            defined (
              (codes "id", some (string (text_of m.id)))
              ∷ (codes "version", some (string (text_of m.version)))
              ∷ []))),
    )
    ∷ []

abbrev pub method_values {ℓ} : {Schema : Type ℓ} → List (PluginMethodDefinition Schema) → JsonValues
method_values [] = no_values
method_values (method ∷ methods) =
    value
      (object (
        defined (
          (codes "canonicalName", some (string method.canonical_name))
          ∷ (codes "methodId", some (whole method.method_id))
          ∷ [])))
      (method_values methods)

-- `computeMethodIdsDigest`
unfoldable pub compute_method_ids_digest {ℓ} :
    {Schema : Type ℓ} → Platform → PluginServiceDefinition Schema → FilledText
compute_method_ids_digest platform service =
    platform.sha256 (platform.utf8 (platform.stringify (array (method_values service.methods))))

abbrev pub integrity_metadata : FilledText → FilledText → FilledText → Literal
integrity_metadata package_sha256 descriptor_sha256 method_ids_sha256 =
    (codes "packageSha256", some (string (text_of package_sha256)))
    ∷ (codes "descriptorSha256", some (string (text_of descriptor_sha256)))
    ∷ (codes "methodIdsSha256", some (string (text_of method_ids_sha256)))
    ∷ []

abbrev pub unless_refused {ℓ} : {A : Type ℓ} → A → Option InstallFailure → Installed A
unless_refused a none = installed a
unless_refused a (some e) = refused e

-- What an install leaves: the manifest that it returns and writes, the entries that it copies, and
-- the two metadata files.
pub record Installation : Type 0 where
  pub manifest : PluginManifest
  pub copied : List Text
  pub install_json : Literal
  pub integrity_json : Literal

module _ {ℓ} {Schema : Type ℓ} (platform : Platform) (disk : Disk Schema) (resolve : Text → Text)
    (descriptor_bytes : Entries → Text → Bytes) where
  abbrev pub installation :
      PluginInstallSource
      → Option PacoteManifest
      → Text
      → Entries
      → PluginManifest
      → PluginServiceDefinition Schema
      → FilledText
      → Installation
  installation source pacote now root m contract sha = record {
    manifest = m;
    copied = collect_install_entries m;
    install_json = install_metadata m now (serialize_source resolve source pacote);
    integrity_json =
        integrity_metadata sha
          (platform.sha256 (descriptor_bytes root (text_of m.contract.descriptor_set)))
          (compute_method_ids_digest platform contract);
  }

  abbrev pub install_checked :
      PluginInstallSource
      → Option PacoteManifest
      → Text
      → Entries
      → PluginManifest
      → PluginServiceDefinition Schema
      → Option FilledText
      → Installed Installation
  install_checked source pacote now root m contract none = refused undigested
  install_checked source pacote now root m contract (some sha) =
      let i = installation source pacote now root m contract sha in
      unless_refused i (check_digest source (expected_package_sha256 m.integrity) sha)

  abbrev pub install_validated :
      PluginInstallSource
      → Option PacoteManifest
      → Text
      → Entries
      → Checked (PluginManifest × PluginServiceDefinition Schema)
      → Installed Installation
  install_validated source pacote now root (failure e) = refused (invalid_package e)
  install_validated source pacote now root (passed (m, contract)) =
      install_checked source pacote now root m contract (compute_package_digest platform root)

  -- `installPlugin` on the tree that was extracted.
  unfoldable pub install_plugin :
      PluginInstallSource → Option PacoteManifest → Text → Entries → Installed Installation
  unfolding check_digest collect_install_entries serialize_source compute_method_ids_digest
      compute_package_digest validate_plugin_manifest
  install_plugin source pacote now root =
      install_validated source pacote now root (validate_plugin_manifest platform disk root)
