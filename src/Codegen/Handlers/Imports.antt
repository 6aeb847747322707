-- ===== src/Codegen/Handlers/Imports.antt =====
-- The imports of the source that packages/plugin-codegen/src/generate-ts-handlers.ts generates.
use ts_plugins.Common.{
  ◌≡◌, refl, ap, ◌∙◌, false, ◌||◌, List, [], ◌∷◌, any, arith, Text, text_eq, ◌==◌, ==_iff,
}
use ts_plugins.Common.Texts.{add_each, any-add_each, AreDifferent, add_each-AreDifferent}
use ts_plugins.Codegen.Contract.{PluginMethodDefinition}
use ts_plugins.Codegen.Handlers.{
  Printer, short_type_name, schema_type_name, insert_by_locale, sort_by_locale, names_of,
  collect_message_imports, collect_schema_imports,
}

module _ (printer : Printer) where
  any-insert :
      (t : Text) (us : List Text) (w : Text)
      → any (λ v. v == w) (insert_by_locale printer t us) ≡ (t == w || any (λ v. v == w) us)
  any-insert t [] w = refl
  any-insert t (u ∷ us) w = ground (arith, any-insert t us w)

  any-sort :
      (ts : List Text) (w : Text)
      → any (λ v. v == w) (sort_by_locale printer ts) ≡ any (λ v. v == w) ts
  unfolding sort_by_locale
  any-sort [] w = refl
  any-sort (t ∷ ts) w =
      any-insert t (sort_by_locale printer ts) w ∙ ap (λ b. t == w || b) (any-sort ts w)

  insert-AreDifferent :
      (t : Text) (us : List Text)
      → AreDifferent us
      → any (λ v. v == t) us ≡ false
      → AreDifferent (insert_by_locale printer t us)
  insert-AreDifferent t [] h e = (refl, tt)
  insert-AreDifferent t (u ∷ us) h e =
      ground (arith, any-insert t us u, ==_iff t u, ==_iff u t, insert-AreDifferent t us)

  sort-AreDifferent : (ts : List Text) → AreDifferent ts → AreDifferent (sort_by_locale printer ts)
  unfolding sort_by_locale
  sort-AreDifferent [] h = tt
  sort-AreDifferent (t ∷ ts) h =
      insert-AreDifferent t (sort_by_locale printer ts) (sort-AreDifferent ts h.1)
        (any-sort ts t ∙ h.0)

-- Each of the names that the methods' types have, once, and no other.
abbrev pub AreNames {ℓ} :
    {Schema : Type ℓ} → (Text → Text) → List (PluginMethodDefinition Schema) → List Text → Type 0
AreNames name methods imports =
    AreDifferent imports
    × ((w : Text)
        → any (λ t. t == w) imports
          ≡ any (λ m. name m.input_type == w || name m.output_type == w) methods)

module _ {ℓ} {Schema : Type ℓ} (printer : Printer) where
  any-names_of :
      (name : Text → Text) (methods : List (PluginMethodDefinition Schema)) (w : Text)
      → any (λ t. t == w) (names_of name methods)
        ≡ any (λ m. name m.input_type == w || name m.output_type == w) methods
  any-names_of name [] w = refl
  any-names_of name (m ∷ methods) w = ground (arith, any-names_of name methods w)

  sorted_names :
      (name : Text → Text) (methods : List (PluginMethodDefinition Schema))
      → AreNames name methods (sort_by_locale printer (add_each [] (names_of name methods)))
  sorted_names name methods = (
    sort-AreDifferent printer (add_each [] (names_of name methods))
        (add_each-AreDifferent [] (names_of name methods) tt),
    λ w.
        any-sort printer (add_each [] (names_of name methods)) w
        ∙ any-add_each [] (names_of name methods) w
        ∙ any-names_of name methods w,
  )

  -- The two import lines name exactly the types of the methods' messages, and exactly the schemas of
  -- these, each of them once, however the names are sorted.
  pub collect_imports_exact :
      (methods : List (PluginMethodDefinition Schema))
      → AreNames short_type_name methods (collect_message_imports printer methods)
        × AreNames schema_type_name methods (collect_schema_imports printer methods)
  unfolding collect_message_imports collect_schema_imports
  collect_imports_exact methods =
      (sorted_names short_type_name methods, sorted_names schema_type_name methods)
