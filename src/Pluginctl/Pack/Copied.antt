-- ===== src/Pluginctl/Pack/Copied.antt =====
-- The entries that packages/pluginctl/src/pack.ts puts into a package, and those of it that
-- packages/pluginctl/src/install.ts copies.
use ts_plugins.Common.{
  ◌≡◌, refl, ap, sym, ◌∙◌, true, false, not, Option, none, some, List, [], ◌∷◌, ◌++◌, any, filter,
  arith, Text, text_eq, ◌==◌, ==_iff, codes, Bool-cases, inl, inr,
}
use ts_plugins.Common.Texts.{add_to_set}
use ts_plugins.Pluginctl.Manifest.{FilledText, text_of, PluginManifest}
use ts_plugins.Pluginctl.Pack.{
  without_dot_slash, first_part, add_part, add_top_level_entry, add_optional_entry,
  add_top_level_entries, sources_of, collect_package_entries,
}
use ts_plugins.Pluginctl.Install.{collect_install_entries}

-- The text first, then the others.
abbrev put_first : Text → List Text → List Text
put_first k entries = k ∷ filter (λ t. not (t == k)) entries

any-filter_other :
    (entries : List Text) (k t : Text)
    → (k == t) ≡ false
    → any (λ u. u == t) (filter (λ u. not (u == k)) entries) ≡ any (λ u. u == t) entries
any-filter_other [] k t other = refl
any-filter_other (u ∷ entries) k t other =
    ground (arith, ==_iff u k, ==_iff u t, ==_iff k t, any-filter_other entries k t other)

filter-append_other :
    (entries : List Text) (k t : Text)
    → (t == k) ≡ false
    → filter (λ u. not (u == k)) (entries ++ t ∷ []) ≡ filter (λ u. not (u == k)) entries ++ t ∷ []
filter-append_other [] k t other = rw other refl
filter-append_other (u ∷ entries) k t other = elim (Bool-cases (u == k)) [
  | inl same ↦ rw same (filter-append_other entries k t other)
  | inr differs ↦ rw differs (ap (λ l. u ∷ l) (filter-append_other entries k t other))
]

filter-append_same :
    (entries : List Text) (k t : Text)
    → (t == k) ≡ true
    → filter (λ u. not (u == k)) (entries ++ t ∷ []) ≡ filter (λ u. not (u == k)) entries
filter-append_same [] k t same = rw same refl
filter-append_same (u ∷ entries) k t same = elim (Bool-cases (u == k)) [
  | inl equal ↦ rw equal (filter-append_same entries k t same)
  | inr differs ↦ rw differs (ap (λ l. u ∷ l) (filter-append_same entries k t same))
]

==_comm : (s t : Text) → (s == t) ≡ (t == s)
==_comm s t = ground (arith, ==_iff s t, ==_iff t s)

add_to_set_same :
    (k t : Text) (entries : List Text)
    → (k == t) ≡ true
    → add_to_set (put_first k entries) t ≡ put_first k (add_to_set entries t)
unfolding add_to_set
add_to_set_same k t entries same = elim (Bool-cases (any (λ u. u == t) entries)) [
  | inl present ↦ rw (same, present) refl
  | inr absent ↦
      rw (same, absent)
        (ap (λ l. k ∷ l) (sym (filter-append_same entries k t (==_comm t k ∙ same))))
]

add_to_set_other :
    (k t : Text) (entries : List Text)
    → (k == t) ≡ false
    → add_to_set (put_first k entries) t ≡ put_first k (add_to_set entries t)
unfolding add_to_set
add_to_set_other k t entries other = elim (Bool-cases (any (λ u. u == t) entries)) [
  | inl present ↦ rw (other, any-filter_other entries k t other, present) refl
  | inr absent ↦
      rw (other, any-filter_other entries k t other, absent)
        (ap (λ l. k ∷ l) (sym (filter-append_other entries k t (==_comm t k ∙ other))))
]

add_to_set_first :
    (k t : Text) (entries : List Text)
    → add_to_set (put_first k entries) t ≡ put_first k (add_to_set entries t)
add_to_set_first k t entries = elim (Bool-cases (k == t)) [
  | inl same ↦ add_to_set_same k t entries same
  | inr other ↦ add_to_set_other k t entries other
]

add_part_first :
    (k t : Text) (entries : List Text)
    → add_part (put_first k entries) t ≡ put_first k (add_part entries t)
add_part_first k [] entries = refl
add_part_first k (c ∷ t) entries = add_to_set_first k (c ∷ t) entries

add_entry_first :
    (k value : Text) (entries : List Text)
    → add_top_level_entry (put_first k entries) value
      ≡ put_first k (add_top_level_entry entries value)
unfolding add_top_level_entry
add_entry_first k value entries = add_part_first k (first_part (without_dot_slash value)) entries

add_optional_first :
    (k : Text) (path : Option FilledText) (entries : List Text)
    → add_optional_entry (put_first k entries) path ≡ put_first k (add_optional_entry entries path)
add_optional_first k none entries = refl
add_optional_first k (some path) entries = add_entry_first k (text_of path) entries

add_entries_first :
    (k : Text) (paths : List FilledText) (entries : List Text)
    → add_top_level_entries (put_first k entries) paths
      ≡ put_first k (add_top_level_entries entries paths)
add_entries_first k [] entries = refl
add_entries_first k (path ∷ paths) entries =
    ap (λ es. add_top_level_entries es paths) (add_entry_first k (text_of path) entries)
    ∙ add_entries_first k paths (add_top_level_entry entries (text_of path))

-- A package is packed from its manifest, once and first, and from the entries that an install copies,
-- in their order.
pub collect_package_entries-install :
    (m : PluginManifest)
    → collect_package_entries m
      ≡ codes "plugin.json"
        ∷ filter (λ t. not (t == codes "plugin.json")) (collect_install_entries m)
unfolding collect_package_entries collect_install_entries
collect_package_entries-install m =
    let k = codes "plugin.json" in
    let main = add_top_level_entry [] (text_of m.main) in
    let with_map = add_optional_entry main m.source_map in
    ap
      (λ es.
        add_top_level_entries
          (add_top_level_entry (add_optional_entry es m.source_map)
            (text_of m.contract.descriptor_set))
          (sources_of m.contract))
      (add_entry_first k (text_of m.main) [])
    ∙ ap
        (λ es.
          add_top_level_entries (add_top_level_entry es (text_of m.contract.descriptor_set))
            (sources_of m.contract))
        (add_optional_first k m.source_map main)
    ∙ ap (λ es. add_top_level_entries es (sources_of m.contract))
        (add_entry_first k (text_of m.contract.descriptor_set) with_map)
    ∙ add_entries_first k (sources_of m.contract)
        (add_top_level_entry with_map (text_of m.contract.descriptor_set))
