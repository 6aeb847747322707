-- ===== src/Codegen/Contract/Building.antt =====
-- What `buildPluginServiceDefinition` of plugin-contract.ts accepts, and the names it gives.
use ts_plugins.Common.{
  ℕ, ◌≡◌, ◌↔◌, refl, ap, sym, ◌∙◌, none, some, List, [], ◌∷◌, ◌++◌, map, true, arith, Text, codes,
  length, take_self-append, any, all, All,
}
use mathlib.Core.List.{append_assoc}
use ts_plugins.Codegen.MethodIds.{canonical_method_name, stable_method_id}
use ts_plugins.Codegen.Contract.{
  MethodLike, ServiceLike, PluginMethodDefinition, PluginServiceDefinition, built, is_unary,
  is_init, find_non_unary, last_index_of, package_of, define_method, define_service,
  build_plugin_service_definition,
}

module _ {ℓ} {Schema : Type ℓ} where
  find_non_unary_iff :
      (methods : List (MethodLike Schema))
      → (find_non_unary methods ≡ none) ↔ (all (λ m. is_unary m.method_kind) methods ≡ true)
  unfolding find_non_unary
  find_non_unary_iff [] = (λ h. refl, λ h. refl)
  find_non_unary_iff (m ∷ methods) = (
    λ h. ground (arith, find_non_unary_iff methods),
    λ h. ground (arith, find_non_unary_iff methods),
  )

  accepted :
      (service : ServiceLike Schema) (definition : PluginServiceDefinition Schema)
      → build_plugin_service_definition (service ∷ []) ≡ built definition
      → (any is_init service.methods ≡ true)
        × (find_non_unary service.methods ≡ none)
        × (definition ≡ define_service service)
  unfolding build_plugin_service_definition
  accepted service definition h = ground arith

  accepting :
      (service : ServiceLike Schema)
      → any is_init service.methods ≡ true
      → find_non_unary service.methods ≡ none
      → build_plugin_service_definition (service ∷ []) ≡ built (define_service service)
  unfolding build_plugin_service_definition
  accepting service h e = rw (h, e)

  none_rejected :
      (definition : PluginServiceDefinition Schema)
      → ¬ (build_plugin_service_definition [] ≡ built definition)
  unfolding build_plugin_service_definition
  none_rejected definition h = cc

  many_rejected :
      (service other : ServiceLike Schema) (services : List (ServiceLike Schema))
      (definition : PluginServiceDefinition Schema)
      → ¬ (build_plugin_service_definition (service ∷ other ∷ services) ≡ built definition)
  unfolding build_plugin_service_definition
  many_rejected service other services definition h = cc

  inversion :
      (services : List (ServiceLike Schema)) (definition : PluginServiceDefinition Schema)
      → build_plugin_service_definition services ≡ built definition
      → (service : ServiceLike Schema) × (services ≡ service ∷ [])
        × (any is_init service.methods ≡ true)
        × (all (λ m. is_unary m.method_kind) service.methods ≡ true)
        × (definition ≡ define_service service)
  inversion [] definition h = absurd (none_rejected definition h)
  inversion (service ∷ []) definition h =
      let (init, unary, same) = accepted service definition h in
      (service, refl, init, (find_non_unary_iff service.methods).0 unary, same)
  inversion (service ∷ other ∷ services) definition h =
      absurd (many_rejected service other services definition h)

  -- A contract is accepted exactly if it has one service, with an `Init` method and unary methods
  -- only; the result is that service's definition.
  pub build_plugin_service_definition_iff :
      (services : List (ServiceLike Schema)) (definition : PluginServiceDefinition Schema)
      → (build_plugin_service_definition services ≡ built definition) ↔ (
          (service : ServiceLike Schema) × (services ≡ service ∷ [])
          × (any is_init service.methods ≡ true)
          × (all (λ m. is_unary m.method_kind) service.methods ≡ true)
          × (definition ≡ define_service service))
  build_plugin_service_definition_iff services definition = (
    inversion services definition,
    λ k. rw (k.1, k.4) (accepting k.0 k.2 ((find_non_unary_iff k.0.methods).1 k.3)),
  )

last_index_of-append :
    (c : ℕ) (s t : Text) → last_index_of c t ≡ none → last_index_of c (s ++ c ∷ t) ≡ some (length s)
unfolding last_index_of
last_index_of-append c [] t h = ground arith
last_index_of-append c (d ∷ s) t h = ground (arith, last_index_of-append c s t h)

-- The package of a type name is what stands before its last dot.
package_of-append :
    (package_name name : Text)
    → last_index_of b'.' name ≡ none
    → package_of (package_name ++ b'.' ∷ name) ≡ package_name
unfolding package_of
package_of-append package_name name h =
    rw (last_index_of-append b'.' package_name name h, package_of)
      (take_self-append package_name (b'.' ∷ name))

module _ {ℓ} {Schema : Type ℓ} where
  abbrev pub HasNames : Text → PluginMethodDefinition Schema → Type 0
  HasNames type_name m =
      (m.canonical_name ≡ type_name ++ (codes "/" ++ m.name))
      × (m.method_id ≡ stable_method_id (type_name ++ (codes "/" ++ m.name)))

  define_methods-HasNames :
      (package_name service_name : Text) (methods : List (MethodLike Schema))
      → All
          (HasNames (package_name ++ b'.' ∷ service_name))
          (map (define_method package_name service_name) methods)
  unfolding define_method canonical_method_name
  define_methods-HasNames package_name service_name [] = tt
  define_methods-HasNames package_name service_name (m ∷ methods) =
      let same = sym (append_assoc package_name (b'.' ∷ service_name) (codes "/" ++ m.name)) in
      ((same, ap stable_method_id same), define_methods-HasNames package_name service_name methods)

  -- With the type name that protobuf gives a service, `<package>.<service>` and no dot in the
  -- service's name, every method is called `<type name>/<method>` and has that name's identifier.
  pub define_service-HasNames :
      (service : ServiceLike Schema) (package_name : Text)
      → service.type_name ≡ package_name ++ b'.' ∷ service.name
      → last_index_of b'.' service.name ≡ none
      → ((define_service service).package_name ≡ package_name)
        × All (HasNames service.type_name) (define_service service).methods
  unfolding define_service
  define_service-HasNames service package_name typed dotless =
      let at : package_of service.type_name ≡ package_name =
        ap package_of typed ∙ package_of-append package_name service.name dotless in
      (at, rw (at, typed) (define_methods-HasNames package_name service.name service.methods))
