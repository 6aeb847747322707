-- ===== src/Kv/Keys.antt =====
-- The full keys of kv.ts: validation, their parts, and when two namespaces can meet.
use ts_plugins.Common.{
  ◌≤◌, ◌≡◌, ◌≢◌, ◌↔◌, sym, ◌∙◌, true, false, some, ◌++◌, arith, length, all, Text, Bool-cases, inl,
  inr, drop_self-append,
}
use ts_plugins.Common.Texts.{starts_with, starts_with-append, starts_with_both, starts_with_split}
use ts_plugins.Kv.{Segment, is_key_char, key_regex, prefix_of, full_key, bare_key}

-- A key is accepted exactly if it has 1 to 512 code units, all of the class of `KEY_REGEX`.
pub key_regex_iff :
    (key : Text)
    → (key_regex key ≡ true)
      ↔ ((1 ≤ length key) × (length key ≤ 512) × (all is_key_char key ≡ true))
unfolding key_regex
key_regex_iff key = (λ h. ground arith, λ h. ground arith)

pub full_key-some :
    (namespace : Text) (segment : Segment) (key k : Text)
    → full_key namespace segment key ≡ some k
    → k ≡ prefix_of namespace segment ++ key
unfolding full_key
full_key-some namespace segment key k h = ground arith

-- `bareKey` takes back what `dataKey` and `lockKey` put in front.
pub bare_key-full_key :
    (namespace : Text) (segment : Segment) (key k : Text)
    → full_key namespace segment key ≡ some k
    → bare_key namespace k segment ≡ key
unfolding bare_key
bare_key-full_key namespace segment key k h =
    rw
      (
        full_key-some namespace segment key k h,
        starts_with-append (prefix_of namespace segment) key,
      )
      (drop_self-append (prefix_of namespace segment) key)

-- In one namespace different keys have different full keys.
pub full_key_injective :
    (namespace : Text) (segment : Segment) (key key' k : Text)
    → full_key namespace segment key ≡ some k
    → full_key namespace segment key' ≡ some k
    → key ≡ key'
full_key_injective namespace segment key key' k h h' =
    sym (bare_key-full_key namespace segment key k h)
    ∙ bare_key-full_key namespace segment key' k h'

-- Two prefixes neither of which begins with the other.
pub record AreApart (p q : Text) : Type 0 where
  pub left : starts_with p q ≡ false
  pub right : starts_with q p ≡ false

-- Below prefixes that are apart no two keys meet.
pub AreApart-ne : (p q s t : Text) → AreApart p q → (p ++ s) ≢ (q ++ t)
AreApart-ne p q s t a e = cc (starts_with_both p q s t e a.left, a.right)

-- A key below one prefix does not begin with a prefix that is apart.
pub starts_with_apart : (p q s : Text) → AreApart p q → starts_with (p ++ s) q ≡ false
starts_with_apart p q s a = elim (Bool-cases (starts_with (p ++ s) q)) [
  | inl begins ↦ absurd (AreApart-ne p q s _ a (starts_with_split (p ++ s) q begins))
  | inr other ↦ other
]
