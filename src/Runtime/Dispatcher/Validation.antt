-- ===== src/Runtime/Dispatcher/Validation.antt =====
-- The handler object of a plugin, and `validateHandlers` of packages/plugin-runtime/src/bootstrap.ts.
use ts_plugins.Common.{
  Bool, true, ◌||◌, not, ◌≡◌, ◌↔◌, refl, Option, none, some, List, [], ◌∷◌, map, any, filter, All,
  Text, text_eq, ◌==◌, JsMap, Bool-cases, inl, inr,
}
use ts_plugins.Common.Maps
use ts_plugins.Codegen.Contract.{PluginMethodDefinition}

-- The properties of the object itself and those it inherits; `none` is the value `undefined`.
pub record Handlers {ℓ} (H : Type ℓ) : Type ℓ where
  pub own : JsMap Text (Option H)
  pub inherited : JsMap Text (Option H)

pub data Validated : Type 0 where
  accepted : Validated
  missing : List Text → Validated
  unexpected : List Text → Validated

-- The errors of `validateHandlers`, for the two lists of names it computes.
abbrev verdict : List Text → List Text → Validated
verdict (name ∷ names) extra = missing (name ∷ names)
verdict [] (name ∷ names) = unexpected (name ∷ names)
verdict [] [] = accepted

module _ {ℓ} {H : Type ℓ} where
  abbrev or_inherited : Option (Option H) → Option (Option H) → Option H
  or_inherited (some value) _ = value
  or_inherited none (some value) = value
  or_inherited none none = none

  -- `handlers[name]`
  unfoldable pub handler_of : Handlers H → Text → Option H
  handler_of handlers name =
      or_inherited (Maps.get handlers.own name) (Maps.get handlers.inherited name)

  -- `name in handlers`
  abbrev pub is_in : Handlers H → Text → Bool
  is_in handlers name = Maps.has handlers.own name || Maps.has handlers.inherited name

-- `expected.has(name)`
abbrev pub is_expected {ℓ} : {Schema : Type ℓ} → List (PluginMethodDefinition Schema) → Text → Bool
is_expected methods name = any (λ method. method.local_name == name) methods

module _ {ℓ} {Schema H : Type ℓ} where
  unfoldable pub validate_handlers : Handlers H → List (PluginMethodDefinition Schema) → Validated
  validate_handlers handlers methods =
      verdict
        (filter (λ name. not (is_in handlers name)) (map (λ method. method.local_name) methods))
        (filter (λ name. not (is_expected methods name)) (Maps.keys handlers.own))

filter_nothing {ℓ} :
    {A : Type ℓ} (p : A → Bool) (xs : List A)
    → (filter (λ x. not (p x)) xs ≡ []) ↔ All (λ x. p x ≡ true) xs
filter_nothing p [] = (λ _. tt, λ _. refl)
filter_nothing p (x ∷ xs) = elim (Bool-cases (p x)) [
  | inl holds ↦
      rw holds (λ e. (refl, (filter_nothing p xs).0 e), λ all. (filter_nothing p xs).1 all.1)
  | inr fails ↦ rw fails (λ e. cc, λ all. cc)
]

verdict_iff :
    (missing_names extra : List Text)
    → (verdict missing_names extra ≡ accepted) ↔ ((missing_names ≡ []) × (extra ≡ []))
verdict_iff [] [] = (λ _. (refl, refl), λ _. refl)
verdict_iff [] (x ∷ xs) = (λ e. cc, λ e. cc)
verdict_iff (x ∷ xs) extra = (λ e. cc, λ e. cc)

-- A plugin is accepted exactly when every method of the service names a property of the handlers,
-- be its value undefined, and every own property names a method.
pub validate_handlers_iff {ℓ} :
    {Schema H : Type ℓ} (handlers : Handlers H) (methods : List (PluginMethodDefinition Schema))
    → (validate_handlers handlers methods ≡ accepted) ↔ (
        All (λ name. is_in handlers name ≡ true) (map (λ method. method.local_name) methods)
        × All (λ name. is_expected methods name ≡ true) (Maps.keys handlers.own))
unfolding validate_handlers
validate_handlers_iff handlers methods =
    let names = filter_nothing (is_in handlers) (map (λ method. method.local_name) methods) in
    let own = filter_nothing (is_expected methods) (Maps.keys handlers.own) in
    let both =
      verdict_iff
        (filter (λ name. not (is_in handlers name)) (map (λ method. method.local_name) methods))
        (filter (λ name. not (is_expected methods name)) (Maps.keys handlers.own)) in
    (λ e. (names.0 (both.0 e).0, own.0 (both.0 e).1), λ h. both.1 (names.1 h.0, own.1 h.1))
