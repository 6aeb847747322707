-- ===== src/Pluginctl/Pack/Normal.antt =====
-- The manifest that packages/pluginctl/src/pack.ts writes, as
-- packages/pluginctl/src/integrity.ts digests it.
use ts_plugins.Common.{
  ◌≡◌, ◌≢◌, refl, ap, sym, ◌∙◌, Option, none, some, [], ◌∷◌, if◌then◌else◌, Text, text_eq, ◌==◌,
  codes, Bool-cases, inl, inr,
}
use ts_plugins.Pluginctl.Values.{
  object, field, member, delete_member, Literal, defined, member-defined,
}
use ts_plugins.Pluginctl.Manifest.{FilledText, Integrity, PluginManifest}
use ts_plugins.Pluginctl.Manifest.Written.{manifest_literal, manifest_fields}
use ts_plugins.Pluginctl.Integrity.{normalize_manifest_for_digest}
use ts_plugins.Pluginctl.Pack.{packed_manifest}

-- The literal, with nothing under the key.
abbrev cleared : Literal → Text → Literal
cleared [] k = []
cleared ((j, o) ∷ literal) k = (j, if j == k then none else o) ∷ cleared literal k

delete-defined :
    (literal : Literal) (k : Text) → delete_member (defined literal) k ≡ defined (cleared literal k)
unfolding delete_member
delete-defined [] k = refl
delete-defined ((j, none) ∷ literal) k = elim (Bool-cases (j == k)) [
  | inl same ↦ rw same (delete-defined literal k)
  | inr other ↦ rw other (delete-defined literal k)
]
delete-defined ((j, some v) ∷ literal) k = elim (Bool-cases (j == k)) [
  | inl same ↦ rw same (delete-defined literal k)
  | inr other ↦ rw other (ap (field j v) (delete-defined literal k))
]

-- The manifest without what it says of the package's integrity.
abbrev pub without_integrity : PluginManifest → PluginManifest
without_integrity m = record m { integrity = none }

-- What the digest keeps of a manifest with a digest of the package.
normalize_packed :
    (m : PluginManifest) (sha : FilledText)
    → normalize_manifest_for_digest (object (manifest_fields (packed_manifest m sha)))
      ≡ some (object (manifest_fields (without_integrity m)))
unfolding normalize_manifest_for_digest manifest_fields packed_manifest member delete_member
normalize_packed m sha =
    let m' = packed_manifest m sha in
    rw
      (
        member-defined (manifest_literal m') (codes "integrity") refl,
        delete-defined (manifest_literal m') (codes "integrity"),
      )
      refl

-- The package's integrity is there with a digest, or not at all.
abbrev pub HasFullIntegrity : PluginManifest → Type 0
HasFullIntegrity m = m.integrity ≢ some (record { package_sha256 = none })

normalize_without :
    (m : PluginManifest)
    → normalize_manifest_for_digest (object (manifest_fields (without_integrity m)))
      ≡ some (object (manifest_fields (without_integrity m)))
unfolding normalize_manifest_for_digest manifest_fields member
normalize_without m =
    rw (member-defined (manifest_literal (without_integrity m)) (codes "integrity") refl) refl

abbrev signed : Option FilledText → Option Integrity
signed sha = some (record { package_sha256 = sha })

normalize_digest :
    (m : PluginManifest) (sha : Option FilledText)
    → signed sha ≢ signed none
    → normalize_manifest_for_digest
        (object (manifest_fields (record m { integrity = some (record { package_sha256 = sha }) })))
      ≡ some (object (manifest_fields (without_integrity m)))
unfolding packed_manifest
normalize_digest m (some sha) full = normalize_packed m sha
normalize_digest m none full = absurd (full refl)

normalize_integrity :
    (m : PluginManifest) (integrity : Option Integrity)
    → integrity ≢ some (record { package_sha256 = none })
    → normalize_manifest_for_digest (object (manifest_fields (record m { integrity = integrity })))
      ≡ some (object (manifest_fields (without_integrity m)))
normalize_integrity m (some integrity) full = normalize_digest m integrity.package_sha256 full
normalize_integrity m none full = normalize_without m

-- A manifest in the form that the schema returns has the same normal form before and after it is
-- packed, unless its `integrity` is an empty object.
pub normalize-packed_manifest :
    (m : PluginManifest) (sha : FilledText)
    → HasFullIntegrity m
    → normalize_manifest_for_digest (object (manifest_fields (packed_manifest m sha)))
      ≡ normalize_manifest_for_digest (object (manifest_fields m))
normalize-packed_manifest m sha full =
    normalize_packed m sha ∙ sym (normalize_integrity m m.integrity full)
