-- ===== src/Kv/Redis/Scans/Listed.antt =====
-- What `listKeys` of the store on Redis of packages/plugin-runtime/src/kv.ts lists.
use ts_plugins.Common.{
  ℕ, zero, suc, ◌≤◌, ◌≡◌, refl, ap, sym, ◌∙◌, Bool, true, false, ◌&&◌, ◌||◌, Bool-cases, inl, inr,
  Option, none, some, List, [], ◌∷◌, ◌++◌, map, any, length, drop_self-append, arith, Text, text_eq,
  ◌==◌, ==_iff, ==_refl, codes,
}
use mathlib.Core.List.{append_assoc, append-nil}
use ts_plugins.Common.Texts.{starts_with, starts_with-append, starts_with_split}
use ts_plugins.Kv.{data_segment, prefix_of, bare_key}
use ts_plugins.Kv.Redis.{RedisCommands}
use ts_plugins.Kv.Redis.Scans.{Scan, or_batch, list_rounds, redis_list_keys}
use ts_plugins.Kv.Redis.Scans.Laws.{
  is_plain, Iterates, last_round, next_round, is_returned, is_present, IsScan,
}

pub same_truth : (a b : Bool) → (a ≡ true → b ≡ true) → (b ≡ true → a ≡ true) → a ≡ b
same_truth true true f g = refl
same_truth true false f g = sym (f refl)
same_truth false true f g = g refl
same_truth false false f g = refl

pub plain-append : (s t : Text) → is_plain s ≡ true → is_plain t ≡ true → is_plain (s ++ t) ≡ true
plain-append [] t h h' = h'
plain-append (c ∷ s) t h h' = ground (arith, plain-append s t)

pub any-append {ℓ} :
    {A : Type ℓ} (p : A → Bool) (xs ys : List A) → any p (xs ++ ys) ≡ (any p xs || any p ys)
any-append p [] ys = refl
any-append p (x ∷ xs) ys = ground (arith, any-append p xs ys)

any-map :
    (f : Text → Text) (keys : List Text) (t : Text)
    → any (λ u. u == t) (map f keys) ≡ true
    → (key : Text) × (any (λ k. k == key) keys ≡ true) × (f key ≡ t)
any-map f [] t h = absurd (ground (arith, h))
any-map f (key ∷ keys) t h = elim (Bool-cases (f key == t)) [
  | inl same ↦ (key, ground (arith, ==_refl key), (==_iff (f key) t).0 same)
  | inr other ↦
      let (k, there, e) = any-map f keys t (ground (arith, h, other)) in
      (k, ground (arith, there), e)
]

any_mapped :
    (f : Text → Text) (keys : List Text) (key : Text)
    → any (λ k. k == key) keys ≡ true
    → any (λ u. u == f key) (map f keys) ≡ true
any_mapped f [] key h = h
any_mapped f (k ∷ keys) key h = elim (Bool-cases (k == key)) [
  | inl same ↦ rw ((==_iff k key).0 same, ==_refl (f key)) refl
  | inr other ↦ ground (arith, any_mapped f keys key (ground (arith, h, other)))
]

module _ (namespace : Text) where
  abbrev bare : Text → Text
  bare key = bare_key namespace key data_segment

  abbrev listed : List (List Text) → List Text
  listed [] = []
  listed (keys ∷ batches) = map bare keys ++ listed batches

  module _ {ℓ} {S : Type ℓ} (scan : Scan S) (s : S) (pattern : Text) (batch now : ℕ) where
    list_rounds_lem :
        (fuel : ℕ) (cursor : Text) (batches : List (List Text)) (results : List Text)
        → Iterates scan s pattern batch now cursor batches
        → length batches ≤ fuel
        → list_rounds scan namespace fuel s pattern batch now cursor results
          ≡ some (results ++ listed batches)
    unfolding list_rounds
    list_rounds_lem zero cursor batches results (last_round e) enough =
        absurd (omega (arith, enough))
    list_rounds_lem zero cursor batches results (next_round e other rest) enough =
        absurd (omega (arith, enough))
    list_rounds_lem (suc fuel) cursor batches results (last_round e) enough =
        rw e (ap (λ t. some (results ++ t)) (sym (append-nil _)))
    list_rounds_lem (suc fuel) cursor batches results (next_round e other rest) enough =
        rw (e, other)
          (list_rounds_lem fuel _ _ _ rest (omega (arith, enough))
            ∙ ap some (append_assoc results _ _))

    module _ (client : RedisCommands S) (matches : Text → Text → Bool)
        (law : IsScan client scan matches) where
      returned_sound :
          (cursor key : Text) (batches : List (List Text))
          → Iterates scan s pattern batch now cursor batches
          → is_returned key batches ≡ true
          → (matches pattern key && is_present (client.get_command s key now)) ≡ true
      returned_sound cursor key batches (last_round {keys = keys} e) h =
          law.returned s cursor pattern key batch now (rw e (ground (arith, h)))
      returned_sound cursor key batches (next_round {keys = keys} e other rest) h =
          elim (Bool-cases (any (λ k. k == key) keys)) [
            | inl here ↦ law.returned s cursor pattern key batch now (rw e here)
            | inr later ↦ returned_sound _ key _ rest (ground (arith, h, later))
          ]

  listed-returned :
      (batches : List (List Text)) (t : Text)
      → any (λ u. u == t) (listed batches) ≡ true
      → (key : Text) × (is_returned key batches ≡ true) × (bare key ≡ t)
  listed-returned [] t h = absurd (ground (arith, h))
  listed-returned (keys ∷ batches) t h = elim (Bool-cases (any (λ u. u == t) (map bare keys))) [
    | inl first ↦ let (key, there, e) = any-map bare keys t first in (key, ground (arith, there), e)
    | inr other ↦
        let (key, there, e) =
          listed-returned batches t
            (ground (arith, h, other, any-append (λ u. u == t) (map bare keys) (listed batches))) in
        (key, ground (arith, there), e)
  ]

  returned-listed :
      (batches : List (List Text)) (key : Text)
      → is_returned key batches ≡ true
      → any (λ u. u == bare key) (listed batches) ≡ true
  returned-listed [] key h = h
  returned-listed (keys ∷ batches) key h = elim (Bool-cases (any (λ k. k == key) keys)) [
    | inl here ↦ ground (
      arith,
      any-append (λ u. u == bare key) (map bare keys) (listed batches),
      any_mapped bare keys key here,
    )
    | inr later ↦ ground (
      arith,
      any-append (λ u. u == bare key) (map bare keys) (listed batches),
      returned-listed batches key (ground (arith, h, later)),
    )
  ]

  bare_prefixed : (t : Text) → bare (prefix_of namespace data_segment ++ t) ≡ t
  unfolding bare_key
  bare_prefixed t =
      rw (starts_with-append (prefix_of namespace data_segment) t)
        (drop_self-append (prefix_of namespace data_segment) t)

  prefixed_bare :
      (key : Text)
      → starts_with key (prefix_of namespace data_segment) ≡ true
      → key ≡ prefix_of namespace data_segment ++ bare key
  unfolding bare_key
  prefixed_bare key h = starts_with_split key (prefix_of namespace data_segment) h ∙ rw h refl

  data_prefix_plain : is_plain namespace ≡ true → is_plain (prefix_of namespace data_segment) ≡ true
  data_prefix_plain h = plain-append namespace (codes ":data:") h refl

  module _ {ℓ} {S : Type ℓ} (client : RedisCommands S) (scan : Scan S)
      (matches : Text → Text → Bool) (law : IsScan client scan matches) where
    -- What a pattern of a plain prefix and a star matches among what is there.
    matched_there :
        (s : S) (key : Text) (now : ℕ)
        → is_plain namespace ≡ true
        → (matches (prefix_of namespace data_segment ++ codes "*") key
            && is_present (client.get_command s key now))
          ≡ true
        → (starts_with key (prefix_of namespace data_segment) ≡ true)
          × (is_present (client.get_command s key now) ≡ true)
    matched_there s key now plain h =
        let e =
          law.matches_prefix (prefix_of namespace data_segment) key (data_prefix_plain plain) in
        ground (arith, h, e)

    listed_there :
        (s : S) (batch now : ℕ) (batches : List (List Text)) (t : Text)
        → is_plain namespace ≡ true
        → Iterates scan s
            (prefix_of namespace data_segment ++ codes "*")
            batch
            now
            (codes "0")
            batches
        → any (λ u. u == t) (listed batches) ≡ true
        → is_present (client.get_command s (prefix_of namespace data_segment ++ t) now) ≡ true
    listed_there s batch now batches t plain rounds h =
        let (key, there, e) = listed-returned batches t h in
        let (begins, present) =
          matched_there s key now plain
            (returned_sound scan s _ batch now client matches law _ key batches rounds there) in
        ap (λ k. is_present (client.get_command s k now))
          (sym (prefixed_bare key begins ∙ ap (λ u. prefix_of namespace data_segment ++ u) e))
        ∙ present

    there_listed :
        (s : S) (batch now : ℕ) (batches : List (List Text)) (t : Text)
        → is_plain namespace ≡ true
        → Iterates scan s
            (prefix_of namespace data_segment ++ codes "*")
            batch
            now
            (codes "0")
            batches
        → is_present (client.get_command s (prefix_of namespace data_segment ++ t) now) ≡ true
        → any (λ u. u == t) (listed batches) ≡ true
    there_listed s batch now batches t plain rounds present =
        let key = prefix_of namespace data_segment ++ t in
        ap (λ u. any (λ v. v == u) (listed batches)) (sym (bare_prefixed t))
        ∙ returned-listed batches key (
            law.all_returned s _ key batch now batches rounds (
              rw
                (
                  law.matches_prefix (prefix_of namespace data_segment) key
                      (data_prefix_plain plain),
                  starts_with-append (prefix_of namespace data_segment) t,
                  present,
                )
                refl))

    -- `listKeys` without a pattern, on Redis, ends with the last round of its iteration, and returns
    -- a text exactly if Redis has the key that is the namespace's data prefix with the text behind it.
    -- It holds of a namespace that a pattern of Redis
    -- reads as itself, of an iteration that comes back to the cursor 0, and of fuel for its rounds.
    pub redis_list_keys_exact :
        (s : S) (batch : Option ℕ) (now fuel : ℕ) (batches : List (List Text))
        → is_plain namespace ≡ true
        → Iterates scan s
            (prefix_of namespace data_segment ++ codes "*")
            (or_batch batch)
            now
            (codes "0")
            batches
        → length batches ≤ fuel
        → (keys : List Text) × (redis_list_keys scan namespace fuel s none batch now ≡ some keys)
          × ((t : Text)
              → any (λ u. u == t) keys
                ≡ is_present (client.get_command s (prefix_of namespace data_segment ++ t) now))
    unfolding redis_list_keys
    redis_list_keys_exact s batch now fuel batches plain rounds enough = (
      listed batches,
      list_rounds_lem scan s _ (or_batch batch) now fuel (codes "0") batches [] rounds enough,
      λ t.
          same_truth _ _ (listed_there s _ now batches t plain rounds)
            (there_listed s _ now batches t plain rounds),
    )
