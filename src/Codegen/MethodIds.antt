-- ===== src/Codegen/MethodIds.antt =====
-- packages/plugin-codegen/src/method-ids.ts. `^`, `Math.imul` and `>>> 0` on 32-bit words are
-- `bit_xor` and a product modulo 2 ^ 32.
pub mod Uniqueness
use Prim.Native.Nat.{bit_xor}
use ts_plugins.Common.{
  ℕ, ◌*◌, ◌%◌, ◌^◌, ◌≤◌, ◌<◌, ◌≡◌, Option, none, some, List, [], ◌∷◌, ◌++◌, Bool, true, false,
  arith, Text, text_eq, number_eq, codes, nat_eq, if◌then◌else◌, JsMap,
}
use ts_plugins.Common.Maps

unfoldable pub canonical_method_name : Text → Text → Text → Text
canonical_method_name package_name service_name method_name =
    package_name ++ (codes "." ++ (service_name ++ (codes "/" ++ method_name)))

abbrev pub hash_step : ℕ → ℕ → ℕ
hash_step hash c = (bit_xor hash c * 0x01000193) % 2 ^ 32

unfoldable pub hash_loop : ℕ → Text → ℕ
hash_loop hash [] = hash
hash_loop hash (c ∷ name) = hash_loop (hash_step hash c) name

unfoldable pub stable_method_id : Text → ℕ
unfolding hash_loop
stable_method_id canonical_name =
    let hash = hash_loop 0x811c9dc5 canonical_name in if nat_eq hash 0 then 1 else hash

pub data MethodIdError : Type 0 where
  duplicate_name : Text → MethodIdError
  id_collision : Text → Text → ℕ → MethodIdError

-- The loop of `assertUniqueMethodIds`, with its two collections; `none` is a normal return.
unfoldable pub check_unique :
    JsMap Text (Unit {0}) → JsMap ℕ Text → List Text → Option MethodIdError
check_unique seen_names seen_ids [] = none
check_unique seen_names seen_ids (name ∷ names) =
    let method_id = stable_method_id name in
    let rest =
      check_unique (Maps.set seen_names name tt) (Maps.set seen_ids method_id name) names in
    if Maps.has seen_names name
    then some (duplicate_name name)
    else elim (Maps.get seen_ids method_id) [
      | some existing ↦ some (id_collision name existing method_id)
      | none ↦ rest
    ]

unfoldable pub assert_unique_method_ids : List Text → Option MethodIdError
unfolding check_unique
assert_unique_method_ids = check_unique [] []

hash_loop-lt : (hash : ℕ) (name : Text) → hash < 2 ^ 32 → hash_loop hash name < 2 ^ 32
unfolding hash_loop
hash_loop-lt hash [] h = h
hash_loop-lt hash (c ∷ name) h = hash_loop-lt (hash_step hash c) name (omega arith)

-- An identifier is a 32-bit word, and never 0.
pub stable_method_id_bounds :
    (name : Text) → (1 ≤ stable_method_id name) × (stable_method_id name < 2 ^ 32)
unfolding stable_method_id
stable_method_id_bounds name = ground (arith, hash_loop-lt 0x811c9dc5 name (omega arith))
