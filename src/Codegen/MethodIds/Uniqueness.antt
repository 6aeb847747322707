-- ===== src/Codegen/MethodIds/Uniqueness.antt =====
-- What a normal return of `assertUniqueMethodIds` of method-ids.ts means.
use ts_plugins.Common.{
  ℕ, ◌≡◌, ◌≢◌, ◌↔◌, refl, none, List, [], ◌∷◌, true, arith, Text, text_eq, number_eq, ==_iff, JsMap,
  All,
}
use ts_plugins.Common.Maps
use ts_plugins.Codegen.MethodIds.{stable_method_id, check_unique, assert_unique_method_ids}

-- No two names of the list have one identifier.
abbrev pub AreUnique : List Text → Type 0
AreUnique [] = Unit
AreUnique (name ∷ names) =
    All (λ other. stable_method_id name ≢ stable_method_id other) names × AreUnique names

-- No name of the list has an identifier that was seen.
abbrev Unseen : JsMap ℕ Text → List Text → Type 0
Unseen seen = All (λ name. Maps.get seen (stable_method_id name) ≡ none)

-- Every name that was seen is there with its identifier.
abbrev Agree : JsMap Text (Unit {0}) → JsMap ℕ Text → Type 0
Agree names ids =
    (name : Text) → Maps.has names name ≡ true → Maps.get ids (stable_method_id name) ≢ none

Agree-set :
    (names : JsMap Text (Unit {0})) (ids : JsMap ℕ Text) (name : Text)
    → Agree names ids
    → Agree (Maps.set names name tt) (Maps.set ids (stable_method_id name) name)
Agree-set names ids name h other there absent = ground (
  arith,
  ==_iff name other,
  h other,
  Maps.has-set names name other tt,
  Maps.get-set ids (stable_method_id name) (stable_method_id other) name,
  ==_iff (stable_method_id name) (stable_method_id other),
)

-- One more identifier is seen: one more name to differ from.
Unseen-set_one :
    (ids : JsMap ℕ Text) (name other : Text)
    → (Maps.get (Maps.set ids (stable_method_id name) name) (stable_method_id other) ≡ none) ↔ (
        (stable_method_id name ≢ stable_method_id other)
        × (Maps.get ids (stable_method_id other) ≡ none))
Unseen-set_one ids name other = (
  λ h. ground (arith, Maps.get-set ids (stable_method_id name) (stable_method_id other) name),
  λ h. ground (arith, Maps.get-set ids (stable_method_id name) (stable_method_id other) name),
)

Unseen-set :
    (ids : JsMap ℕ Text) (name : Text) (names : List Text)
    → Unseen (Maps.set ids (stable_method_id name) name) names
      ↔ (All (λ other. stable_method_id name ≢ stable_method_id other) names × Unseen ids names)
Unseen-set ids name [] = (λ h. (tt, tt), λ h. tt)
Unseen-set ids name (other ∷ names) =
    let one = Unseen-set_one ids name other in
    let others = Unseen-set ids name names in
    (
      λ h. (((one.0 h.0).0, (others.0 h.1).0), ((one.0 h.0).1, (others.0 h.1).1)),
      λ h. (one.1 (h.0.0, h.1.0), others.1 (h.0.1, h.1.1)),
    )

-- One round of the loop.
round :
    (seen : JsMap Text (Unit {0})) (ids : JsMap ℕ Text) (name : Text) (names : List Text)
    → Agree seen ids
    → (check_unique seen ids (name ∷ names) ≡ none) ↔ (
        (Maps.get ids (stable_method_id name) ≡ none)
        × (check_unique (Maps.set seen name tt) (Maps.set ids (stable_method_id name) name) names
            ≡ none))
unfolding check_unique
round seen ids name names h = (λ e. ground (arith, h name), λ e. ground (arith, h name))

check_unique_iff :
    (seen : JsMap Text (Unit {0})) (ids : JsMap ℕ Text) (names : List Text)
    → Agree seen ids
    → (check_unique seen ids names ≡ none) ↔ (Unseen ids names × AreUnique names)
check_unique_iff seen ids [] h = (λ e. (tt, tt), λ e. unfold check_unique in refl)
check_unique_iff seen ids (name ∷ names) h =
    let head = round seen ids name names h in
    let ih =
      check_unique_iff (Maps.set seen name tt) (Maps.set ids (stable_method_id name) name) names
        (Agree-set seen ids name h) in
    let others = Unseen-set ids name names in
    (
      λ e.
          let (free, rest) = head.0 e in
          let (unseen, unique) = ih.0 rest in
          let (apart, unseen') = others.0 unseen in ((free, unseen'), (apart, unique)),
      λ k. head.1 (k.0.0, ih.1 (others.1 (k.1.0, k.0.1), k.1.1)),
    )

Unseen-empty : (names : List Text) → Unseen [] names
Unseen-empty [] = tt
Unseen-empty (name ∷ names) = (unfold Maps.get in refl, Unseen-empty names)

Agree-empty : Agree [] []
unfolding Maps.has
Agree-empty name h = cc

-- `assertUniqueMethodIds` returns normally exactly for lists in which no two names, at different
-- places, have the same identifier.
pub assert_unique_method_ids_iff :
    (names : List Text) → (assert_unique_method_ids names ≡ none) ↔ AreUnique names
unfolding assert_unique_method_ids
assert_unique_method_ids_iff names =
    let all = check_unique_iff [] [] names Agree-empty in
    (λ e. (all.0 e).1, λ unique. all.1 (Unseen-empty names, unique))
