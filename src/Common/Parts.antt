-- ===== src/Common/Parts.antt =====
-- Texts and their parts: `split`, `join` and `trim` of JavaScript.
use Prim.Native.Nat.{ℕ}
use mathlib.Core.Bool.{Bool, ◌||◌, ◌&&◌}
use mathlib.Core.List.{List, [], ◌∷◌, ◌++◌}
use ts_plugins.Common.Tests.{nat_eq, leb, if◌then◌else◌}
use ts_plugins.Common.Equality.{Text}

-- `texts.join(separator)`
unfoldable pub join : Text → List Text → Text
join separator [] = []
join separator (t ∷ []) = t
join separator (t ∷ u ∷ ts) = t ++ (separator ++ join separator (u ∷ ts))

abbrev pub before_first : ℕ → List Text → List Text
before_first c [] = (c ∷ []) ∷ []
before_first c (part ∷ parts) = (c ∷ part) ∷ parts

-- `text.split(separator)`, for one code unit
unfoldable pub split : ℕ → Text → List Text
split separator [] = [] ∷ []
split separator (c ∷ text) =
    if nat_eq c separator then [] ∷ split separator text else before_first c (split separator text)

-- What `trim` takes away: the white space and the line ends of JavaScript.
unfoldable pub is_space : ℕ → Bool
is_space c =
    leb 9 c && leb c 13
    || nat_eq c 32
    || nat_eq c 160
    || nat_eq c 5760
    || leb 8192 c && leb c 8202
    || nat_eq c 8232
    || nat_eq c 8233
    || nat_eq c 8239
    || nat_eq c 8287
    || nat_eq c 12288
    || nat_eq c 65279

unfoldable pub trim_start : Text → Text
unfolding is_space
trim_start [] = []
trim_start (c ∷ text) = if is_space c then trim_start text else c ∷ text

-- A text that is all space ends as nothing.
abbrev pub keep_unless_space : ℕ → Text → Text
keep_unless_space c [] = if is_space c then [] else c ∷ []
keep_unless_space c (d ∷ text) = c ∷ d ∷ text

unfoldable pub trim_end : Text → Text
unfolding is_space
trim_end [] = []
trim_end (c ∷ text) = keep_unless_space c (trim_end text)

-- `text.trim()`
unfoldable pub trim : Text → Text
unfolding trim_start trim_end
trim text = trim_end (trim_start text)
