-- ===== src/Tests/Redis.antt =====
-- A program of commands on the memory store and on a Redis that is a map, where a key ends its life
-- in the millisecond after its time.
use ts_plugins.Common.{
  ℕ, ◌+◌, ◌*◌, ◌≡◌, refl, ◌∙◌, true, false, Option, none, some, List, [], ◌∷◌, arith, ltb,
  if◌then◌else◌, Text, text_eq, ◌==◌, ==_refl, codes, pos, JsMap, Bool-cases, inl, inr,
}
use ts_plugins.Common.Maps
use ts_plugins.Kv.{Json, create_memory_kv_backend}
use ts_plugins.Kv.Redis.{RedisCommands}
use ts_plugins.Kv.Redis.Laws.{
  count_of, IsRedis, Command, get_of, set_of, exists_of, del_of, Timed, run_memory, run_redis,
  IsTimed,
}
use ts_plugins.Kv.Redis.Programs.{run_memory-run_redis}

-- The value under a key, and the time of its end.
abbrev pub Database : Type 0
Database = JsMap Text (Text × Option ℕ)

abbrev pub readable : ℕ → Option (Text × Option ℕ) → Option Text
readable now none = none
readable now (some (v, none)) = some v
readable now (some (v, some end_time)) = if ltb end_time now then none else some v

abbrev end_of : ℕ → Option ℕ → Option ℕ
end_of now none = none
end_of now (some seconds) = some (now + seconds * 1000)

abbrev pub client : RedisCommands Database
client = record {
  get_command = λ s k now. readable now (Maps.get s k);
  set_command = λ s k v lifetime now. (true, Maps.set s k (v, end_of now lifetime));
  set_px_nx = λ s k v ms now. elim (readable now (Maps.get s k)) [
    | none ↦ (true, Maps.set s k (v, some (now + ms)))
    | some _ ↦ (false, s)
  ];
  unlink = λ s k now. (count_of (readable now (Maps.get s k)), Maps.delete s k);
  exists_command = λ s k now. count_of (readable now (Maps.get s k));
}

readable-set_self :
    (s : Database) (k : Text) (x : Text × Option ℕ) (later : ℕ)
    → readable later (Maps.get (Maps.set s k x) k) ≡ readable later (some x)
readable-set_self s k x later = rw (Maps.get-set s k k x, ==_refl k) refl

readable-delete :
    (s : Database) (k j : Text) (later : ℕ)
    → readable later (Maps.get (Maps.delete s k) j)
      ≡ (if k == j then none else readable later (Maps.get s j))
readable-delete s k j later = elim (Bool-cases (k == j)) [
  | inl same ↦ rw (Maps.get-delete s k j, same) refl
  | inr other ↦ rw (Maps.get-delete s k j, other) refl
]

pub client-IsRedis : IsRedis client
client-IsRedis = record {
  set_ok = λ s k v lifetime now. refl;
  get-set_lasting = λ s k v now later order. readable-set_self s k (v, none) later;
  get-set_early = λ s k v seconds now later order early.
      readable-set_self s k (v, some (now + seconds * 1000)) later ∙ ground arith;
  get-set_late = λ s k v seconds now later late.
      readable-set_self s k (v, some (now + seconds * 1000)) later ∙ ground arith;
  get-set_other = λ s k j v lifetime now later other order.
      rw (Maps.get-set s k j (v, end_of now lifetime), other) refl;
  get-unlink = λ s k j now later order. readable-delete s k j later;
  exists-get = λ s k now. refl;
}

abbrev texts : Json Text
texts = record { stringify = λ text. text; parse = some; parse-stringify = λ text. refl }

abbrev at_time : ℕ → Text → Command Text → Timed Text
at_time time namespace command = record { time = time; namespace = namespace; command = command }

abbrev program : List (Timed Text)
program =
    at_time 0 (codes "calc") (set_of (codes "a") (some (codes "1")) (some (pos 2)))
    ∷ at_time 1 (codes "quote") (get_of (codes "a"))
    ∷ at_time 1999 (codes "calc") (get_of (codes "a"))
    ∷ at_time 2001 (codes "calc") (exists_of (codes "a"))
    ∷ at_time 2001 (codes "calc") (del_of (codes "a"))
    ∷ []

program-IsTimed : IsTimed program
program-IsTimed = ground arith

empty_database : (k : Text) (now : ℕ) → client.get_command [] k now ≡ none
unfolding Maps.get
empty_database k now = refl

run_memory-run_redis_example :
    run_memory texts program create_memory_kv_backend ≡ run_redis client texts program []
run_memory-run_redis_example =
    run_memory-run_redis client client-IsRedis texts program [] empty_database program-IsTimed
