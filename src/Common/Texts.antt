-- ===== src/Common/Texts.antt =====
-- Text operations of JavaScript's `String` on lists of code units.
use Prim.Native.Nat.{ℕ, zero, suc, ◌+◌, ◌-◌, ◌*◌, ◌/◌, ◌%◌, ◌<◌}
use mathlib.Core.Path.{◌≡◌, refl, ap, sym, ◌∙◌}
use mathlib.Core.Bool.{Bool, true, false, ◌&&◌, ◌||◌}
use mathlib.Core.List.{List, [], ◌∷◌, ◌++◌}
use mathlib.Core.Logic.{inl, inr}
use native.Mathlib.Omega.{arith}
use ts_plugins.Common.Tests.{ltb, nat_eq, nat_eq_iff, if◌then◌else◌, Bool-cases}
use ts_plugins.Common.Lists.{length, drop, any}
use ts_plugins.Common.Equality.{Text, text_eq, ◌==◌, ==_iff}

-- `text.startsWith(prefix)`
unfoldable pub starts_with : Text → Text → Bool
starts_with text [] = true
starts_with [] (p ∷ prefix) = false
starts_with (c ∷ text) (p ∷ prefix) = nat_eq p c && starts_with text prefix

pub starts_with-append : (prefix rest : Text) → starts_with (prefix ++ rest) prefix ≡ true
unfolding starts_with
starts_with-append [] rest = refl
starts_with-append (p ∷ prefix) rest =
    ground (arith, nat_eq_iff p p, starts_with-append prefix rest)

pub starts_with_split :
    (text prefix : Text)
    → starts_with text prefix ≡ true
    → text ≡ prefix ++ drop (length prefix) text
unfolding starts_with
starts_with_split text [] h = refl
starts_with_split [] (p ∷ prefix) h = cc
starts_with_split (c ∷ text) (p ∷ prefix) h =
    ground (arith, nat_eq_iff p c, starts_with_split text prefix)

-- Two prefixes of one text: one is a prefix of the other.
pub starts_with_both :
    (p q s t : Text) → p ++ s ≡ q ++ t → starts_with p q ≡ false → starts_with q p ≡ true
unfolding starts_with
starts_with_both p [] s t e h = cc
starts_with_both [] (b ∷ q) s t e h = refl
starts_with_both (a ∷ p) (b ∷ q) s t e h = ground (arith, starts_with_both p q s t, nat_eq_iff a b)

pub append_cancel {ℓ} : {A : Type ℓ} (p s t : List A) → p ++ s ≡ p ++ t → s ≡ t
append_cancel [] s t h = h
append_cancel (a ∷ p) s t h = append_cancel p s t (cc)

-- `String(n)` of a natural number. The fuel `suc n` is enough: each round divides by ten.
decimal_loop : ℕ → ℕ → Text
decimal_loop zero n = []
decimal_loop (suc fuel) n =
    let rest = decimal_loop fuel (n / 10) ++ (n % 10 + 48) ∷ [] in
    if ltb n 10 then (n + 48) ∷ [] else rest

unfoldable pub decimal : ℕ → Text
unfolding decimal_loop
decimal n = decimal_loop (suc n) n

-- The number that a row of digits stands for, behind the digits read so far.
read_decimal : ℕ → Text → ℕ
read_decimal n [] = n
read_decimal n (c ∷ text) = read_decimal (n * 10 + (c - 48)) text

read_decimal-append :
    (n : ℕ) (s : Text) (c : ℕ) → read_decimal n (s ++ c ∷ []) ≡ read_decimal n s * 10 + (c - 48)
unfolding read_decimal
read_decimal-append n [] c = refl
read_decimal-append n (d ∷ s) c = read_decimal-append (n * 10 + (d - 48)) s c

read_decimal-decimal_loop : (fuel n : ℕ) → n < fuel → read_decimal 0 (decimal_loop fuel n) ≡ n
unfolding read_decimal decimal_loop
read_decimal-decimal_loop zero n h = absurd (omega arith)
read_decimal-decimal_loop (suc fuel) n h = ground (
  arith,
  read_decimal-decimal_loop fuel (n / 10),
  read_decimal-append 0 (decimal_loop fuel (n / 10)) (n % 10 + 48),
)

-- Different numbers are written differently.
pub decimal_injective : (m n : ℕ) → decimal m ≡ decimal n → m ≡ n
unfolding decimal
decimal_injective m n h =
    sym (read_decimal-decimal_loop (suc m) m (omega arith))
    ∙ ap (read_decimal 0) h
    ∙ read_decimal-decimal_loop (suc n) n (omega arith)

-- Equality behind a shared front.
pub append-== : (s t u : Text) → (s ++ t == s ++ u) ≡ (t == u)
append-== [] t u = refl
append-== (c ∷ s) t u = ground (arith, append-== s t u, nat_eq_iff c c)

-- `add` of a `Set`, which keeps the order of insertion.
unfoldable pub add_to_set : List Text → Text → List Text
add_to_set entries t = if any (λ u. u == t) entries then entries else entries ++ t ∷ []

-- `[...new Set(texts)]`, after the elements that are there.
unfoldable pub add_each : List Text → List Text → List Text
unfolding add_to_set
add_each entries [] = entries
add_each entries (t ∷ ts) = add_each (add_to_set entries t) ts

any-append_one :
    (entries : List Text) (t u : Text)
    → any (λ v. v == u) (entries ++ t ∷ []) ≡ (any (λ v. v == u) entries || (t == u))
any-append_one [] t u = ground arith
any-append_one (v ∷ entries) t u = ground (arith, any-append_one entries t u)

any_present :
    (entries : List Text) (t u : Text)
    → any (λ v. v == t) entries ≡ true
    → any (λ v. v == u) entries ≡ (any (λ v. v == u) entries || (t == u))
any_present [] t u h = ground arith
any_present (v ∷ entries) t u h =
    ground (arith, ==_iff t u, ==_iff v t, ==_iff v u, any_present entries t u)

pub any-add_to_set :
    (entries : List Text) (t u : Text)
    → any (λ v. v == u) (add_to_set entries t) ≡ (any (λ v. v == u) entries || (t == u))
unfolding add_to_set
any-add_to_set entries t u = elim (Bool-cases (any (λ v. v == t) entries)) [
  | inl present ↦ rw present (any_present entries t u present)
  | inr absent ↦ rw absent (any-append_one entries t u)
]

-- A set has the elements that were added, and those that were there.
pub any-add_each :
    (entries ts : List Text) (u : Text)
    → any (λ v. v == u) (add_each entries ts) ≡ (any (λ v. v == u) entries || any (λ v. v == u) ts)
unfolding add_each
any-add_each entries [] u = ground arith
any-add_each entries (t ∷ ts) u =
    ground (arith, any-add_to_set entries t u, any-add_each (add_to_set entries t) ts u)

-- No text stands twice.
abbrev pub AreDifferent : List Text → Type 0
AreDifferent [] = Unit
AreDifferent (t ∷ ts) = (any (λ u. u == t) ts ≡ false) × AreDifferent ts

append-AreDifferent :
    (ts : List Text) (t : Text)
    → AreDifferent ts
    → any (λ u. u == t) ts ≡ false
    → AreDifferent (ts ++ t ∷ [])
append-AreDifferent [] t h e = (refl, tt)
append-AreDifferent (u ∷ ts) t h e =
    ground (arith, any-append_one ts t u, ==_iff t u, ==_iff u t, append-AreDifferent ts t)

add_to_set-AreDifferent :
    (entries : List Text) (t : Text) → AreDifferent entries → AreDifferent (add_to_set entries t)
unfolding add_to_set
add_to_set-AreDifferent entries t h = ground (arith, append-AreDifferent entries t)

pub add_each-AreDifferent :
    (entries ts : List Text) → AreDifferent entries → AreDifferent (add_each entries ts)
unfolding add_each
add_each-AreDifferent entries [] h = h
add_each-AreDifferent entries (t ∷ ts) h =
    add_each-AreDifferent (add_to_set entries t) ts (add_to_set-AreDifferent entries t h)
