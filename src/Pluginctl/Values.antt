-- ===== src/Pluginctl/Values.antt =====
-- What `JSON.parse` gives, as packages/pluginctl uses it. The keys of an object keep their order.
use ts_plugins.Common.{
  ℕ, ◌≡◌, refl, Bool, true, false, not, ◌&&◌, Option, none, some, List, [], ◌∷◌, any, arith,
  if◌then◌else◌, Text, text_eq, ◌==◌, ==_iff,
}

mutual
  pub data JsonValue : Type 0 where
    null : JsonValue
    boolean : Bool → JsonValue
    -- A natural number up to 2^53 - 1, a safe integer; and any other number, by its text.
    whole : ℕ → JsonValue
    other_number : Text → JsonValue
    string : Text → JsonValue
    array : JsonValues → JsonValue
    object : JsonFields → JsonValue

  pub data JsonValues : Type 0 where
    no_values : JsonValues
    value : JsonValue → JsonValues → JsonValues

  pub data JsonFields : Type 0 where
    no_fields : JsonFields
    field : Text → JsonValue → JsonFields → JsonFields

-- `object[key]`, where `none` is `undefined`
unfoldable pub member : JsonFields → Text → Option JsonValue
member no_fields k = none
member (field j v fields) k = if j == k then some v else member fields k

unfoldable pub set_member : JsonFields → Text → JsonValue → JsonFields
set_member no_fields k v = field k v no_fields
set_member (field j w fields) k v =
    if j == k then field j v fields else field j w (set_member fields k v)

unfoldable pub delete_member : JsonFields → Text → JsonFields
delete_member no_fields k = no_fields
delete_member (field j w fields) k =
    if j == k then delete_member fields k else field j w (delete_member fields k)

pub delete_absent :
    (fields : JsonFields) (k : Text) → member fields k ≡ none → delete_member fields k ≡ fields
unfolding member delete_member
delete_absent no_fields k h = refl
delete_absent (field j v fields) k h = ground (arith, delete_absent fields k)

-- An object literal, where a property may be `undefined`.
abbrev pub Literal : Type 0
Literal = List (Text × Option JsonValue)

-- What `JSON.stringify` prints of an object literal: not the properties that are `undefined`.
abbrev pub defined : Literal → JsonFields
defined [] = no_fields
defined ((k, none) ∷ literal) = defined literal
defined ((k, some v) ∷ literal) = field k v (defined literal)

abbrev pub property : Literal → Text → Option JsonValue
property [] j = none
property ((k, o) ∷ literal) j = if k == j then o else property literal j

abbrev pub are_distinct : Literal → Bool
are_distinct [] = true
are_distinct ((k, o) ∷ literal) = not (any (λ e. e.0 == k) literal) && are_distinct literal

property_absent :
    (literal : Literal) (k : Text) → any (λ e. e.0 == k) literal ≡ false → property literal k ≡ none
property_absent [] k h = refl
property_absent ((j, o) ∷ literal) k h = ground (arith, property_absent literal k)

pub member-defined :
    (literal : Literal) (j : Text)
    → are_distinct literal ≡ true
    → member (defined literal) j ≡ property literal j
unfolding member
member-defined [] j h = refl
member-defined ((k, none) ∷ literal) j h =
    ground (arith, ==_iff k j, member-defined literal j, property_absent literal j)
member-defined ((k, some v) ∷ literal) j h = ground (arith, member-defined literal j)

infixl 1 ◌>>=◌
-- What goes on only with a result.
abbrev pub ◌>>=◌ {ℓ κ} : {A : Type ℓ} {B : Type κ} → Option A → (A → Option B) → Option B
none >>= f = none
some a >>= f = f a
