-- ===== src/Pluginctl/Integrity/Replaced.antt =====
-- When packages/pluginctl/src/integrity.ts gives a package the same digest before and after its
-- manifest is written again.
use ts_plugins.Common.{
  ◌≡◌, refl, ap, sym, ◌∙◌, true, Option, none, some, List, [], ◌∷◌, ◌++◌, map, arith, if◌then◌else◌,
  Text, text_eq, ◌==◌, codes, Bool-cases, inl, inr,
}
use ts_plugins.Pluginctl.Values.{◌>>=◌}
use ts_plugins.Pluginctl.Integrity.{
  Bytes, Entry, file, Entries, no_entries, entry, get_entry, write_entry, Platform, FileAt,
  is_skipped, insert_named, sort_named, all_files, files_of_each, files_of, list_files,
  hashed_content, hashed_file, hashed_files, digest_of, compute_package_digest,
}

pub some_injective {ℓ} : {A : Type ℓ} {a b : A} → some a ≡ some b → a ≡ b
some_injective {a = a} e = ap (λ o. elim o [ none ↦ a | some x ↦ x ]) e

-- A change of what stands at the names.
abbrev at_name {ℓ κ} : {A : Type ℓ} {B : Type κ} → (A → B) → Text × A → Text × B
at_name f e = (e.0, f e.1)

append_assoc {ℓ} : {A : Type ℓ} (xs ys zs : List A) → (xs ++ ys) ++ zs ≡ xs ++ (ys ++ zs)
append_assoc [] ys zs = refl
append_assoc (x ∷ xs) ys zs = ap (λ l. x ∷ l) (append_assoc xs ys zs)

abbrev both : Option Bytes → Option Bytes → Option Bytes
both first rest = do a ← first; b ← rest; some (a ++ b)

both_assoc : (a b c : Option Bytes) → both (both a b) c ≡ both a (both b c)
both_assoc none b c = refl
both_assoc (some x) none c = refl
both_assoc (some x) (some y) none = refl
both_assoc (some x) (some y) (some z) = ap some (append_assoc x y z)

both_empty : (a : Option Bytes) → both (some []) a ≡ a
both_empty none = refl
both_empty (some x) = refl

module _ (platform : Platform) where
  insert-map {ℓ κ} :
      {A : Type ℓ} {B : Type κ} (f : A → B) (e : Text × A) (es : List (Text × A))
      → insert_named platform (at_name f e) (map (at_name f) es)
        ≡ map (at_name f) (insert_named platform e es)
  insert-map f e [] = refl
  insert-map f e (other ∷ es) = elim (Bool-cases (platform.locale_leb e.0 other.0)) [
    | inl before ↦ rw before refl
    | inr after ↦ rw (after, insert-map f e es) refl
  ]

  -- To sort looks at the names only.
  sort-map {ℓ κ} :
      {A : Type ℓ} {B : Type κ} (f : A → B) (es : List (Text × A))
      → sort_named platform (map (at_name f) es) ≡ map (at_name f) (sort_named platform es)
  sort-map f [] = refl
  sort-map f (e ∷ es) = rw (sort-map f es) (insert-map f e (sort_named platform es))

  hashed_files-append :
      (xs ys : List FileAt)
      → hashed_files platform (xs ++ ys)
        ≡ both (hashed_files platform xs) (hashed_files platform ys)
  hashed_files-append [] ys = sym (both_empty (hashed_files platform ys))
  hashed_files-append (x ∷ xs) ys =
      ap (both (hashed_file platform x)) (hashed_files-append xs ys)
      ∙ sym (
          both_assoc (hashed_file platform x) (hashed_files platform xs) (hashed_files platform ys))

  abbrev joined : List (Text × Option Bytes) → Option Bytes
  joined [] = some []
  joined (e ∷ es) = both e.1 (joined es)

  hashed_files-all :
      (es : List (Text × List FileAt))
      → hashed_files platform (all_files platform es)
        ≡ joined (map (at_name (hashed_files platform)) es)
  hashed_files-all [] = refl
  hashed_files-all ((name, files) ∷ es) =
      hashed_files-append files (all_files platform es)
      ∙ ap (both (hashed_files platform files)) (hashed_files-all es)

  abbrev hashed_entries : Entries → List (Text × Option Bytes)
  hashed_entries root = map (at_name (hashed_files platform)) (files_of_each platform root)

  hashed_manifest :
      (name : Text) (old new : Bytes)
      → (name == codes "plugin.json") ≡ true
      → hashed_content platform true old ≡ hashed_content platform true new
      → hashed_files platform ((name, old) ∷ []) ≡ hashed_files platform ((name, new) ∷ [])
  hashed_manifest name old new same e = rw (same, e) refl

  hashed_entries-entry :
      (name : Text) (x : Entry) (root root' : Entries)
      → hashed_entries root ≡ hashed_entries root'
      → hashed_entries (entry name x root) ≡ hashed_entries (entry name x root')
  unfolding files_of_each
  hashed_entries-entry name x root root' e = elim (Bool-cases (is_skipped name)) [
    | inl skipped ↦ rw skipped e
    | inr kept ↦
        rw kept (ap (λ es. (name, hashed_files platform (files_of platform name x)) ∷ es) e)
  ]

  hashed_entries-file :
      (name : Text) (old new : Bytes) (root : Entries)
      → hashed_files platform ((name, old) ∷ []) ≡ hashed_files platform ((name, new) ∷ [])
      → hashed_entries (entry name (file new) root) ≡ hashed_entries (entry name (file old) root)
  unfolding files_of_each
  hashed_entries-file name old new root e = elim (Bool-cases (is_skipped name)) [
    | inl skipped ↦ rw skipped refl
    | inr kept ↦ rw kept (ap (λ h. (name, h) ∷ hashed_entries root) (sym e))
  ]

  hashed_entries-write :
      (root : Entries) (old new : Bytes)
      → get_entry root (codes "plugin.json") ≡ some (file old)
      → hashed_content platform true old ≡ hashed_content platform true new
      → hashed_entries (write_entry root (codes "plugin.json") new) ≡ hashed_entries root
  unfolding write_entry get_entry
  hashed_entries-write no_entries old new stands e = ground arith
  hashed_entries-write (entry name x root) old new stands e =
      elim (Bool-cases (name == codes "plugin.json")) [
        | inl same ↦ rw same (
            hashed_entries-file name old new root (hashed_manifest name old new same e)
            ∙ ap (λ y. hashed_entries (entry name y root))
                (sym (
                  some_injective (
                    sym (ap (λ b. if b then some x else get_entry root (codes "plugin.json")) same)
                    ∙ stands))))
        | inr other ↦ rw other (
            hashed_entries-entry name x (write_entry root (codes "plugin.json") new) root (
              hashed_entries-write root old new
                (sym (ap (λ b. if b then some x else get_entry root (codes "plugin.json")) other)
                  ∙ stands)
                e))
      ]

  -- A manifest written with the same normal form leaves the digest as it is.
  pub digest-write :
      (root : Entries) (old new : Bytes)
      → get_entry root (codes "plugin.json") ≡ some (file old)
      → hashed_content platform true old ≡ hashed_content platform true new
      → compute_package_digest platform (write_entry root (codes "plugin.json") new)
        ≡ compute_package_digest platform root
  unfolding compute_package_digest list_files
  digest-write root old new stands e = ap (digest_of platform) (
      hashed_files-all
        (sort_named platform (files_of_each platform (write_entry root (codes "plugin.json") new)))
      ∙ ap joined (
          sym (
            sort-map (hashed_files platform)
              (files_of_each platform (write_entry root (codes "plugin.json") new)))
          ∙ ap (sort_named platform) (hashed_entries-write root old new stands e)
          ∙ sort-map (hashed_files platform) (files_of_each platform root))
      ∙ sym (hashed_files-all (sort_named platform (files_of_each platform root))))
