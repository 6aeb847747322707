-- ===== src/Kv/Redis/Scans/Cleared.antt =====
-- What `clear` of the store on Redis of packages/plugin-runtime/src/kv.ts deletes.
use ts_plugins.Common.{
  ℕ, zero, suc, ◌+◌, ◌≤◌, ◌≡◌, refl, ap, sym, ◌∙◌, Bool, true, false, ◌&&◌, ◌||◌, Bool-cases, inl,
  inr, Option, none, some, List, [], ◌∷◌, ◌++◌, any, length, arith, if◌then◌else◌, Text, text_eq,
  ◌==◌, codes,
}
use mathlib.Core.List.{append_assoc}
use ts_plugins.Common.Texts.{starts_with}
use ts_plugins.Kv.Redis.{RedisCommands}
use ts_plugins.Kv.Redis.Laws.{IsRedis}
use ts_plugins.Kv.Redis.Scans.{Scan, unlink_each, clear_rounds, redis_clear}
use ts_plugins.Kv.Redis.Scans.Laws.{
  is_plain, Sweeps, last_sweep, next_sweep, is_returned, is_present, IsScan,
}
use ts_plugins.Kv.Redis.Scans.Listed.{plain-append}

left_of : (b c : Bool) → (b && c) ≡ true → b ≡ true
left_of true c h = refl
left_of false c h = h

kept :
    (returned : Bool) (v : Option Text)
    → is_present (if returned then none else v) ≡ true
    → (returned ≡ false) × (is_present v ≡ true)
kept true v h = absurd (ground (arith, h))
kept false v h = (refl, h)

absent : (v : Option Text) → is_present v ≡ false → v ≡ none
absent none h = refl
absent (some v) h = absurd (ground (arith, h))

not_returned : (b : Bool) → (b ≡ true → true ≡ false) → b ≡ false
not_returned true h = h refl
not_returned false h = refl

merged :
    {A : Type 0} (b c : Bool) (v : Option A)
    → (if c then none else (if b then none else v)) ≡ (if b || c then none else v)
merged true true v = refl
merged true false v = refl
merged false c v = refl

module _ {ℓ} {S : Type ℓ} (client : RedisCommands S) (is_redis : IsRedis client) where
  get-unlink_each :
      (s : S) (keys : List Text) (now deleted : ℕ) (key : Text)
      → client.get_command (unlink_each client s keys now deleted).1 key now
        ≡ (if any (λ k. k == key) keys then none else client.get_command s key now)
  unfolding unlink_each
  get-unlink_each s [] now deleted key = refl
  get-unlink_each s (k ∷ keys) now deleted key =
      get-unlink_each (client.unlink s k now).1 keys now (deleted + (client.unlink s k now).0) key
      ∙ ap (λ v. if any (λ j. j == key) keys then none else v)
          (is_redis.get-unlink s k key now now (omega arith))
      ∙ merged (k == key) (any (λ j. j == key) keys) (client.get_command s key now)

  -- The state after the pipeline does not depend on the count.
  unlink_each_state :
      (s : S) (keys : List Text) (now deleted : ℕ)
      → (unlink_each client s keys now deleted).1 ≡ (unlink_each client s keys now 0).1
  unfolding unlink_each
  unlink_each_state s [] now deleted = refl
  unlink_each_state s (k ∷ keys) now deleted =
      unlink_each_state (client.unlink s k now).1 keys now (deleted + (client.unlink s k now).0)
      ∙ sym (unlink_each_state (client.unlink s k now).1 keys now (0 + (client.unlink s k now).0))

  module _ (scan : Scan S) (pattern : Text) (count now : ℕ) where
    get-sweep :
        (s last : S) (cursor : Text) (batches : List (List Text)) (key : Text)
        → Sweeps client scan pattern count now s cursor batches last
        → client.get_command last key now
          ≡ (if is_returned key batches then none else client.get_command s key now)
    get-sweep s last cursor batches key (last_sweep {keys = keys} e) =
        get-unlink_each s keys now 0 key ∙ merged _ false (client.get_command s key now)
    get-sweep s last cursor batches key (next_sweep {keys = keys} {rest = later} e other rest) =
        get-sweep _ last _ _ key rest
        ∙ ap (λ v. if is_returned key later then none else v) (get-unlink_each s keys now 0 key)
        ∙ merged (any (λ k. k == key) keys) (is_returned key later) (client.get_command s key now)

    returned_matches :
        (matches : Text → Text → Bool)
        → IsScan client scan matches
        → (s last : S) (cursor : Text) (batches : List (List Text)) (key : Text)
        → Sweeps client scan pattern count now s cursor batches last
        → is_returned key batches ≡ true
        → matches pattern key ≡ true
    returned_matches matches law s last cursor batches key (last_sweep {keys = keys} e) h =
        left_of (matches pattern key) _
          (law.returned s cursor pattern key count now (rw e (ground (arith, h))))
    returned_matches matches law s last cursor batches key (next_sweep {keys = keys} e other rest)
          h =
        elim (Bool-cases (any (λ k. k == key) keys)) [
          | inl here ↦
              left_of (matches pattern key) _
                (law.returned s cursor pattern key count now (rw e here))
          | inr later ↦ returned_matches matches law _ last _ _ key rest (ground (arith, h, later))
        ]

    clear_rounds_lem :
        (namespace : Text) (fuel deleted : ℕ) (s last : S) (cursor : Text)
        (batches : List (List Text))
        → Sweeps client scan (namespace ++ codes ":*") 1_000 now s cursor batches last
        → length batches ≤ fuel
        → (n : ℕ) × (clear_rounds client scan namespace fuel s now cursor deleted ≡ some (n, last))
    unfolding clear_rounds
    clear_rounds_lem namespace zero deleted s last cursor batches (last_sweep e) enough =
        absurd (omega (arith, enough))
    clear_rounds_lem namespace zero deleted s last cursor batches (next_sweep e other rest) enough =
        absurd (omega (arith, enough))
    clear_rounds_lem namespace (suc fuel) deleted s last cursor batches (last_sweep {keys = keys} e)
          enough =
        (
          (unlink_each client s keys now deleted).0,
          rw e (
              ap (λ t. some ((unlink_each client s keys now deleted).0, t))
                (unlink_each_state s keys now deleted)),
        )
    clear_rounds_lem namespace (suc fuel) deleted s last cursor batches
          (next_sweep {next = next} {keys = keys} e other rest) enough =
        let (n, done) =
          clear_rounds_lem namespace fuel (unlink_each client s keys now deleted).0 _ last _ _ rest
            (omega (arith, enough)) in
        (
          n,
          rw (e, other)
              (ap
                  (λ t.
                    clear_rounds client scan namespace fuel t now next
                      (unlink_each client s keys now deleted).0)
                  (unlink_each_state s keys now deleted)
                ∙ done),
        )

  module _ (scan : Scan S) (matches : Text → Text → Bool) (law : IsScan client scan matches)
      (namespace : Text) where
    namespace_matches :
        (key : Text)
        → is_plain namespace ≡ true
        → matches (namespace ++ codes ":*") key ≡ starts_with key (namespace ++ codes ":")
    namespace_matches key plain =
        ap (λ t. matches t key) (sym (append_assoc namespace (codes ":") (codes "*")))
        ∙ law.matches_prefix (namespace ++ codes ":") key
            (plain-append namespace (codes ":") plain refl)

    -- After a sweep nothing is left that matched.
    swept_lem :
        (s last : S) (now : ℕ) (batches : List (List Text)) (key : Text) (present : Bool)
        → Sweeps client scan (namespace ++ codes ":*") 1_000 now s (codes "0") batches last
        → matches (namespace ++ codes ":*") key ≡ true
        → is_present (client.get_command last key now) ≡ present
        → present ≡ false
    swept_lem s last now batches key false sweep h e = refl
    swept_lem s last now batches key true sweep h e =
        let same = ap is_present (
          get-sweep scan (namespace ++ codes ":*") 1_000 now s last (codes "0") batches key
            sweep) in
        let (stays, there) =
          kept (is_returned key batches) (client.get_command s key now) (sym same ∙ e) in
        let gone =
          law.all_swept s last (namespace ++ codes ":*") key 1_000 now batches sweep
            (rw (h, there) refl) e in
        absurd (ground (arith, stays, gone))

    get-swept :
        (s last : S) (now : ℕ) (batches : List (List Text)) (key : Text)
        → is_plain namespace ≡ true
        → Sweeps client scan (namespace ++ codes ":*") 1_000 now s (codes "0") batches last
        → client.get_command last key now ≡ (
            if starts_with key (namespace ++ codes ":") then none else client.get_command s key now)
    get-swept s last now batches key plain sweep =
        elim (Bool-cases (starts_with key (namespace ++ codes ":"))) [
          | inl begins ↦
              absent (client.get_command last key now) (
                swept_lem s last now batches key _ sweep (namespace_matches key plain ∙ begins)
                  refl)
              ∙ rw begins refl
          | inr apart ↦
              let stays = not_returned (is_returned key batches) (λ r.
                sym (
                  returned_matches scan (namespace ++ codes ":*") 1_000 now matches law s last
                    (codes "0") batches key sweep r)
                ∙ namespace_matches key plain
                ∙ apart) in
              get-sweep scan (namespace ++ codes ":*") 1_000 now s last (codes "0") batches key
                sweep
              ∙ rw (stays, apart) refl
        ]

    -- `clear` on Redis ends with the last round of its iteration, and then every key that begins with
    -- the namespace and a colon is gone, data, locks and what longer namespaces have there, while
    -- every other key stays as it was. It holds of a namespace that a pattern of Redis reads as
    -- itself, of an iteration that comes back to the cursor 0, and of fuel for its rounds.
    pub get-redis_clear :
        (s last : S) (now fuel : ℕ) (batches : List (List Text))
        → is_plain namespace ≡ true
        → Sweeps client scan (namespace ++ codes ":*") 1_000 now s (codes "0") batches last
        → length batches ≤ fuel
        → ((n : ℕ) × (redis_clear client scan namespace fuel s now ≡ some (n, last)))
          × ((key : Text)
              → client.get_command last key now ≡ (
                  if starts_with key (namespace ++ codes ":")
                  then none
                  else client.get_command s key now))
    unfolding redis_clear
    get-redis_clear s last now fuel batches plain sweep enough = (
      clear_rounds_lem scan (namespace ++ codes ":*") 1_000 now namespace fuel 0 s last (codes "0")
          batches sweep enough,
      λ key. get-swept s last now batches key plain sweep,
    )
