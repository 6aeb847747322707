-- ===== src/Tests/Stores.antt =====
-- Runs of packages/plugin-runtime/src/kv.ts, and the theorems about it at concrete inputs. The
-- values of the runs are texts, and their JSON is the text itself.
use ts_plugins.Common.{
  arith, ℕ, ◌+◌, ◌≡◌, ◌↔◌, refl, true, false, none, some, [], ◌∷◌, ◌++◌, any, text_eq, ◌==◌, Text,
  codes, if◌then◌else◌, pos,
}
use ts_plugins.Common.Maps
use ts_plugins.Common.Sorting.{IsSorted}
use ts_plugins.Common.Texts.{starts_with}
use ts_plugins.TestKit.{test_namespace}
use ts_plugins.TestKit.Isolated.{test_context_isolation}
use ts_plugins.Kv.{
  Json, ok, MemoryKvBackend, MemoryValue, data_segment, lock_segment, prefix_of, full_key,
  key_regex, is_live, get, set, del,
}
use ts_plugins.Kv.Keys.{AreApart}
use ts_plugins.Kv.Reads.{AnswersSame, get-set_expiring, isolation, has_ended}
use ts_plugins.Kv.Listing.{list_keys}
use ts_plugins.Kv.Patterns.{glob_to_reg_exp, glob_match}
use ts_plugins.Kv.Listing.Glob.{Matches, glob_match_iff}
use ts_plugins.Kv.Listing.Listed.{is_listed, list_keys_exact}
use ts_plugins.Kv.Lock.{enter, entered, with_lock, returned}
use ts_plugins.Kv.Lock.Ownership.{active_lock, lease, left_by, with_lock_free}
use ts_plugins.Kv.Lock.Exclusion.{
  World, Reach, here, next, tick, come, start, AtMostOne, mutual_exclusion,
}

abbrev texts : Json Text
texts = record { stringify = λ text. text; parse = some; parse-stringify = λ text. refl }

abbrev calc : Text
calc = codes "calc"

abbrev quote : Text
quote = codes "quote"

abbrev a : Text
a = codes "a"

abbrev two_values : MemoryKvBackend
two_values = record {
  values =
      (codes "calc:data:a", record { payload = codes "1"; expires_at = some 500 })
      ∷ (codes "quote:data:b", record { payload = codes "2"; expires_at = none })
      ∷ [];
  locks = [];
}

reads_until_expiry :
    ((get texts calc two_values a 499).0 ≡ ok (some (codes "1")))
    × ((get texts calc two_values a 500).0 ≡ ok none)
unfolding get key_regex full_key Maps.get
reads_until_expiry = (refl, refl)

a_IsKey : key_regex a ≡ true
unfolding key_regex
a_IsKey = refl

stores_AreApart : AreApart (prefix_of calc data_segment) (prefix_of quote data_segment)
unfolding starts_with
stores_AreApart = record { left = refl; right = refl }

swapped_AreApart : AreApart (prefix_of quote data_segment) (prefix_of calc data_segment)
unfolding starts_with
swapped_AreApart = record { left = refl; right = refl }

get-set_expiring_example :
    (get texts calc (set texts calc two_values a (some quote) (some (pos 2)) 100).1 a 2099).0
    ≡ ok (if has_ended (some (pos 2)) 100 2099 then none else some quote)
get-set_expiring_example =
    get-set_expiring texts calc two_values a quote (some (pos 2)) 100 2099 a_IsKey

isolation_example :
    AnswersSame texts calc quote (set texts calc two_values a (some quote) none 0).1 two_values a 9
    × AnswersSame texts calc quote (del calc two_values a).1 two_values a 9
isolation_example = isolation texts calc quote two_values a a (some quote) none 0 9 stores_AreApart

full_key_of_a : full_key calc data_segment a ≡ some (codes "calc:data:a")
unfolding full_key
full_key_of_a = refl

escapes_dots :
    (glob_to_reg_exp (codes "a.*") ≡ codes "^a\\..*$")
    × (glob_match (codes "a.*") (codes "axy") ≡ false)
    × (glob_match (codes "a.*") (codes "a.xy") ≡ true)
unfolding glob_match glob_to_reg_exp
escapes_dots = (refl, refl, refl)

glob_match_iff_example :
    (glob_match (codes "a*c") (codes "abbc") ≡ true) ↔ Matches (codes "a*c") (codes "abbc")
glob_match_iff_example = glob_match_iff (codes "a*c") (codes "abbc")

list_keys_exact_example :
    IsSorted (list_keys calc two_values none 0).0
    × ((t : Text)
        → any (λ u. u == t) (list_keys calc two_values none 0).0
          ≡ any (is_listed calc none 0 t) two_values.values)
list_keys_exact_example = list_keys_exact calc two_values none 0

abbrev foreign_value : MemoryValue
foreign_value = record { payload = codes "2"; expires_at = none }

foreign_is_live : is_live 0 foreign_value ≡ true
unfolding is_live
foreign_is_live = refl

foreign_is_stored : Maps.get two_values.values (codes "quote:data:b") ≡ some foreign_value
unfolding Maps.get
foreign_is_stored = refl

foreign_is_outside : starts_with (codes "quote:data:b") (prefix_of calc data_segment) ≡ false
unfolding starts_with
foreign_is_outside = refl

foreign_matches : glob_match (codes "*") (codes "quote:data:b") ≡ true
unfolding glob_match
foreign_matches = refl

abbrev lock_key : Text
lock_key = prefix_of calc lock_segment ++ a

-- A critical section that stores a value under a key of another store.
abbrev critical : MemoryKvBackend → ℕ × MemoryKvBackend
critical backend = (7, (set texts quote backend a (some calc) none 0).1)

lock_is_free : active_lock 100 (Maps.get two_values.locks lock_key) ≡ none
unfolding Maps.get
lock_is_free = refl

with_lock_free_example :
    let held = (enter two_values lock_key (codes "t1") none none 100).1 in
    ((with_lock calc two_values a (codes "t1") critical none none 100).0
      ≡ returned (critical held).0)
    × (Maps.get held.locks lock_key
        ≡ some (record { token = codes "t1"; expires_at = 100 + lease none }))
    × (Maps.get (with_lock calc two_values a (codes "t1") critical none none 100).1.locks lock_key
        ≡ left_by (codes "t1") (Maps.get (critical held).1.locks lock_key))
with_lock_free_example =
    with_lock_free calc two_values a (codes "t1") critical none none 100 a_IsKey lock_is_free

abbrev locked : MemoryKvBackend
locked = record two_values {
  locks = (lock_key, record { token = codes "t2"; expires_at = 200 }) ∷ [];
}

lock_is_held :
    active_lock 100 (Maps.get locked.locks lock_key)
    ≡ some (record { token = codes "t2"; expires_at = 200 })
unfolding Maps.get
lock_is_held = refl

first_enters : (enter two_values lock_key (codes "t1") none none 100).0 ≡ entered
unfolding enter Maps.get
first_enters = refl

-- The second caller comes when the first one's lease of 30 seconds has run out.
second_enters :
    (enter
      (enter two_values lock_key (codes "t1") none none 100).1
      lock_key
      (codes "t2")
      none
      none
      30100).0
    ≡ entered
unfolding enter Maps.get Maps.set Maps.delete
second_enters = refl

abbrev after_first : World
after_first = record (start 100 two_values) {
  backend = (enter two_values lock_key (codes "t1") none none 100).1;
  sections = record { key = lock_key; token = codes "t1"; deadline = 30100 } ∷ [];
}

abbrev after_both : World
after_both = record after_first {
  now = 30100;
  backend = (enter after_first.backend lock_key (codes "t2") none none 30100).1;
  sections = record { key = lock_key; token = codes "t2"; deadline = 60100 } ∷ after_first.sections;
}

both_inside : Reach (start 100 two_values) after_both
both_inside =
    next
      (next
        (next here (come (start 100 two_values) lock_key (codes "t1") none none tt first_enters))
        (tick after_first 30000))
      (come (record after_first { now = 30100 }) lock_key (codes "t2") none none (refl, tt)
        second_enters)

mutual_exclusion_example : AtMostOne after_both.now after_both.sections
mutual_exclusion_example = mutual_exclusion 100 two_values after_both both_inside

other_id : ¬ ((a ≡ codes "b") × (a ≡ a))
other_id (same, e) = ground (arith, same)

test_context_isolation_example :
    AnswersSame texts
      (test_namespace a a)
      (test_namespace (codes "b") a)
      (set texts (test_namespace a a) two_values a (some quote) none 0).1
      two_values
      a
      9
    × AnswersSame texts
        (test_namespace a a)
        (test_namespace (codes "b") a)
        (del (test_namespace a a) two_values a).1
        two_values
        a
        9
test_context_isolation_example =
    test_context_isolation texts two_values a (codes "b") a a a a (some quote) none 0 9 refl refl
      refl refl other_id
