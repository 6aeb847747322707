-- ===== src/Tests/Scans.antt =====
-- Scans of a Redis that is a map and returns all in one round.
use ts_plugins.Common.{
  ℕ, ◌≡◌, refl, ap, sym, ◌∙◌, Bool, true, false, ◌&&◌, none, some, List, [], ◌∷◌, ◌++◌, arith, any,
  filter, if◌then◌else◌, nat_eq, Text, text_eq, ◌==◌, ==_iff, codes,
}
use ts_plugins.Common.Maps
use ts_plugins.Common.Texts.{starts_with}
use ts_plugins.Kv.Redis.Scans.{Scan, unlink_each, redis_list_keys, redis_clear}
use ts_plugins.Kv.Redis.Scans.Laws.{
  is_plain, Iterates, last_round, next_round, Sweeps, last_sweep, next_sweep, is_returned,
  is_present, IsScan,
}
use ts_plugins.Kv.Redis.Scans.Listed.{redis_list_keys_exact}
use ts_plugins.Kv.Redis.Scans.Cleared.{get-redis_clear}
use ts_plugins.Tests.Redis.{Database, readable, client, client-IsRedis}

-- A star at the end of a pattern stands for the rest.
unfoldable matches : Text → Text → Bool
matches [] [] = true
matches [] (d ∷ key) = false
matches (c ∷ []) key = if nat_eq c b'*' then true else key == c ∷ []
matches (c ∷ e ∷ pattern) [] = false
matches (c ∷ e ∷ pattern) (d ∷ key) = nat_eq c d && matches (e ∷ pattern) key

matches_prefix :
    (prefix key : Text)
    → is_plain prefix ≡ true
    → matches (prefix ++ codes "*") key ≡ starts_with key prefix
unfolding matches starts_with
matches_prefix [] key plain = refl
matches_prefix (c ∷ []) [] plain = refl
matches_prefix (c ∷ []) (d ∷ key) plain = ground arith
matches_prefix (c ∷ e ∷ prefix) [] plain = refl
matches_prefix (c ∷ e ∷ prefix) (d ∷ key) plain =
    rw (matches_prefix (e ∷ prefix) key (ground (arith, plain))) refl

abbrev is_scanned : Database → Text → ℕ → Text → Bool
is_scanned s pattern now key = matches pattern key && is_present (client.get_command s key now)

abbrev scan : Scan Database
scan s cursor pattern count now = (codes "0", filter (is_scanned s pattern now) (Maps.keys s))

any-filter :
    (p : Text → Bool) (keys : List Text) (key : Text)
    → any (λ k. k == key) (filter p keys) ≡ (p key && any (λ k. k == key) keys)
any-filter p [] key = ground arith
any-filter p (k ∷ keys) key = ground (arith, ==_iff k key, any-filter p keys key)

key_there :
    (s : Database) (key : Text) (now : ℕ)
    → is_present (readable now (Maps.get s key)) ≡ true
    → any (λ k. k == key) (Maps.keys s) ≡ true
unfolding Maps.get
key_there [] key now h = h
key_there ((k, v) ∷ s) key now h = ground (arith, key_there s key now)

scanned_lem :
    (s : Database) (pattern key : Text) (now : ℕ) (there : Bool)
    → (is_scanned s pattern now key && there) ≡ true
    → is_scanned s pattern now key ≡ true
scanned_lem s pattern key now there h = ground (arith, h)

scanned :
    (s : Database) (pattern key : Text) (now : ℕ)
    → is_scanned s pattern now key ≡ true
    → any (λ k. k == key) (filter (is_scanned s pattern now) (Maps.keys s)) ≡ true
scanned s pattern key now h =
    let there = key_there s key now (ground (arith, h)) in
    any-filter (is_scanned s pattern now) (Maps.keys s) key ∙ rw (h, there) refl

round_lem :
    (s : Database) (pattern key : Text) (now : ℕ) (next : Text) (keys : List Text)
    (rest : List (List Text))
    → scan s (codes "0") pattern 0 now ≡ (next, keys)
    → is_scanned s pattern now key ≡ true
    → is_returned key (keys ∷ rest) ≡ true
round_lem s pattern key now next keys rest e h =
    let found = ap (λ t. any (λ k. k == key) t.1) (sym e) ∙ scanned s pattern key now h in
    ground (arith, found)

iterated :
    (s : Database) (pattern key : Text) (count now : ℕ) (cursor : Text) (batches : List (List Text))
    → Iterates scan s pattern count now cursor batches
    → is_scanned s pattern now key ≡ true
    → is_returned key batches ≡ true
iterated s pattern key count now cursor batches (last_round e) h =
    round_lem s pattern key now _ _ [] e h
iterated s pattern key count now cursor batches (next_round {rest = later} e other rest) h =
    round_lem s pattern key now _ _ later e h

swept :
    (s : Database) (pattern key : Text) (count now : ℕ) (last : Database) (cursor : Text)
    (batches : List (List Text))
    → Sweeps client scan pattern count now s cursor batches last
    → is_scanned s pattern now key ≡ true
    → is_returned key batches ≡ true
swept s pattern key count now last cursor batches (last_sweep e) h =
    round_lem s pattern key now _ _ [] e h
swept s pattern key count now last cursor batches (next_sweep {rest = later} e other rest) h =
    round_lem s pattern key now _ _ later e h

database-IsScan : IsScan client scan matches
database-IsScan = record {
  matches_prefix = matches_prefix;
  returned = λ s cursor pattern key count now h.
      scanned_lem s pattern key now (any (λ k. k == key) (Maps.keys s))
        (sym (any-filter (is_scanned s pattern now) (Maps.keys s) key) ∙ h);
  all_returned = λ s pattern key count now batches rounds h.
      iterated s pattern key count now _ batches rounds h;
  all_swept = λ s last pattern key count now batches sweep h stays.
      swept s pattern key count now last _ batches sweep h;
}

abbrev database : Database
database =
    (codes "calc:data:a", (codes "1", none))
    ∷ (codes "calc:x:data:a", (codes "2", none))
    ∷ (codes "quote:data:a", (codes "3", none))
    ∷ []

listed_once :
    Iterates scan database (codes "calc:data:*") 500 0 (codes "0") ((codes "calc:data:a" ∷ []) ∷ [])
unfolding matches Maps.get
listed_once = last_round refl

redis_list_keys_exact_example :
    (keys : List Text) × (redis_list_keys scan (codes "calc") 1 database none none 0 ≡ some keys)
    × ((t : Text)
        → any (λ u. u == t) keys
          ≡ is_present (client.get_command database (codes "calc:data:" ++ t) 0))
redis_list_keys_exact_example =
    redis_list_keys_exact (codes "calc") client scan matches database-IsScan database none 0 1
      ((codes "calc:data:a" ∷ []) ∷ []) refl listed_once (ground arith)

abbrev cleared : Database
cleared = (codes "quote:data:a", (codes "3", none)) ∷ []

cleared_once :
    Sweeps client scan
      (codes "calc:*")
      1_000
      0
      database
      (codes "0")
      ((codes "calc:data:a" ∷ codes "calc:x:data:a" ∷ []) ∷ [])
      cleared
unfolding matches Maps.get unlink_each Maps.delete
cleared_once = last_sweep refl

get-redis_clear_example :
    ((n : ℕ) × (redis_clear client scan (codes "calc") 1 database 0 ≡ some (n, cleared)))
    × ((key : Text)
        → client.get_command cleared key 0
          ≡ (if starts_with key (codes "calc:") then none else client.get_command database key 0))
get-redis_clear_example =
    get-redis_clear client client-IsRedis scan matches database-IsScan (codes "calc") database
      cleared 0 1 ((codes "calc:data:a" ∷ codes "calc:x:data:a" ∷ []) ∷ []) refl cleared_once
      (ground arith)
