-- ===== src/Kv/Redis/Scans/Laws.antt =====
-- What the scans of packages/plugin-runtime/src/kv.ts rely on.
use ts_plugins.Common.{
  ℕ, ◌≡◌, Bool, true, false, not, ◌&&◌, Option, none, some, List, [], ◌∷◌, ◌++◌, all, any, nat_eq,
  Text, text_eq, ◌==◌, codes,
}
use ts_plugins.Common.Texts.{starts_with}
use ts_plugins.Kv.Redis.{RedisCommands}
use ts_plugins.Kv.Redis.Scans.{Scan, unlink_each}

-- No code unit that a pattern of Redis reads as anything but itself.
abbrev pub is_plain : Text → Bool
is_plain =
    all (λ c.
      not (nat_eq c b'*') && not (nat_eq c b'?') && not (nat_eq c b'[') && not (nat_eq c b'\\'))

-- A full iteration, from a cursor to the cursor 0, with the keys of each round.
pub data Iterates {ℓ} {S : Type ℓ} (scan : Scan S) (s : S) (pattern : Text) (count now : ℕ)
    : Text → List (List Text) → Type ℓ where
  last_round :
      {cursor : Text} {keys : List Text}
      → scan s cursor pattern count now ≡ (codes "0", keys)
      → Iterates scan s pattern count now cursor (keys ∷ [])
  next_round :
      {cursor next : Text} {keys : List Text} {rest : List (List Text)}
      → scan s cursor pattern count now ≡ (next, keys)
      → (next == codes "0") ≡ false
      → Iterates scan s pattern count now next rest
      → Iterates scan s pattern count now cursor (keys ∷ rest)

-- A full iteration that deletes what each round returns.
pub data Sweeps {ℓ} {S : Type ℓ} (client : RedisCommands S) (scan : Scan S) (pattern : Text)
    (count now : ℕ) : S → Text → List (List Text) → S → Type ℓ where
  last_sweep :
      {s : S} {cursor : Text} {keys : List Text}
      → scan s cursor pattern count now ≡ (codes "0", keys)
      → Sweeps client scan pattern count now s cursor
          (keys ∷ [])
          (unlink_each client s keys now 0).1
  next_sweep :
      {s last : S} {cursor next : Text} {keys : List Text} {rest : List (List Text)}
      → scan s cursor pattern count now ≡ (next, keys)
      → (next == codes "0") ≡ false
      → Sweeps client scan pattern count now (unlink_each client s keys now 0).1 next rest last
      → Sweeps client scan pattern count now s cursor (keys ∷ rest) last

abbrev pub is_returned : Text → List (List Text) → Bool
is_returned key batches = any (λ keys. any (λ k. k == key) keys) batches

abbrev pub is_present {ℓ} : {A : Type ℓ} → Option A → Bool
is_present none = false
is_present (some a) = true

-- What Redis documents of `SCAN` with `MATCH`: it returns keys that match, and that are there; a full
-- iteration returns each matching key that is there from its start to its end. A plain text with a
-- star matches what begins with the text.
pub record IsScan {ℓ} {S : Type ℓ} (client : RedisCommands S) (scan : Scan S)
    (matches : Text → Text → Bool) : Type ℓ where
  pub matches_prefix :
      (prefix key : Text)
      → is_plain prefix ≡ true
      → matches (prefix ++ codes "*") key ≡ starts_with key prefix
  pub returned :
      (s : S) (cursor pattern key : Text) (count now : ℕ)
      → any (λ k. k == key) (scan s cursor pattern count now).1 ≡ true
      → (matches pattern key && is_present (client.get_command s key now)) ≡ true
  pub all_returned :
      (s : S) (pattern key : Text) (count now : ℕ) (batches : List (List Text))
      → Iterates scan s pattern count now (codes "0") batches
      → (matches pattern key && is_present (client.get_command s key now)) ≡ true
      → is_returned key batches ≡ true
  pub all_swept :
      (s last : S) (pattern key : Text) (count now : ℕ) (batches : List (List Text))
      → Sweeps client scan pattern count now s (codes "0") batches last
      → (matches pattern key && is_present (client.get_command s key now)) ≡ true
      → is_present (client.get_command last key now) ≡ true
      → is_returned key batches ≡ true
