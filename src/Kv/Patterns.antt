-- ===== src/Kv/Patterns.antt =====
-- `globToRegExp` of packages/plugin-runtime/src/kv.ts, and the regular expressions that it makes.
use ts_plugins.Common.{
  ℕ, Bool, true, false, ◌&&◌, ◌||◌, List, [], ◌∷◌, ◌++◌, nat_eq, Text, if◌then◌else◌,
}

-- The class of `pattern.replace(...)`: . + ? ^ $ { } ( ) | [ ] \
abbrev pub is_escaped : ℕ → Bool
is_escaped c =
    nat_eq c b'.'
    || nat_eq c b'+'
    || nat_eq c b'?'
    || nat_eq c b'^'
    || nat_eq c b'$'
    || nat_eq c b'{'
    || nat_eq c b'}'
    || nat_eq c b'('
    || nat_eq c b')'
    || nat_eq c b'|'
    || nat_eq c b'['
    || nat_eq c b']'
    || nat_eq c 92

-- `replace(/[...]/g, "\\$&")`
unfoldable pub escaped : Text → Text
escaped [] = []
escaped (c ∷ pattern) = if is_escaped c then 92 ∷ c ∷ escaped pattern else c ∷ escaped pattern

-- `replaceAll("*", ".*")`
unfoldable pub with_stars : Text → Text
with_stars [] = []
with_stars (c ∷ pattern) =
    if nat_eq c b'*' then b'.' ∷ b'*' ∷ with_stars pattern else c ∷ with_stars pattern

-- The source of the regular expression.
unfoldable pub glob_to_reg_exp : Text → Text
unfolding escaped with_stars
glob_to_reg_exp pattern = b'^' ∷ (with_stars (escaped pattern) ++ b'$' ∷ [])

-- JavaScript's regular expressions, as far as these go: code units, the dot, stars, the two anchors
-- and escapes. Syntax that is none of these is unread, and matches nothing here.
pub data Atom : Type 0 where
  code_unit : ℕ → Atom
  dot unread : Atom

pub data Token : Type 0 where
  atom : Atom → Token
  asterisk start_anchor end_anchor : Token

-- The code units with a meaning of their own.
abbrev pub is_syntax : ℕ → Bool
is_syntax c =
    nat_eq c b'^'
    || nat_eq c b'$'
    || nat_eq c 92
    || nat_eq c b'.'
    || nat_eq c b'*'
    || nat_eq c b'+'
    || nat_eq c b'?'
    || nat_eq c b'('
    || nat_eq c b')'
    || nat_eq c b'['
    || nat_eq c b']'
    || nat_eq c b'{'
    || nat_eq c b'}'
    || nat_eq c b'|'

abbrev syntax_token : ℕ → Token
syntax_token c =
    if nat_eq c b'.'
    then atom dot
    else if nat_eq c b'*'
    then asterisk
    else if nat_eq c b'^'
    then start_anchor
    else if nat_eq c b'$'
    then end_anchor
    else atom unread

-- The Boolean tells whether a backslash stands before.
unfoldable pub tokens : Bool → Text → List Token
tokens false [] = []
tokens true [] = atom unread ∷ []
tokens true (c ∷ source) = atom (if is_syntax c then code_unit c else unread) ∷ tokens false source
tokens false (c ∷ source) =
    if nat_eq c 92
    then tokens true source
    else (if is_syntax c then syntax_token c else atom (code_unit c)) ∷ tokens false source

pub data Term : Type 0 where
  one many : Atom → Term
  loose_star starts ends : Term

abbrev pub quantified : Atom → List Term → List Term
quantified a (loose_star ∷ terms) = many a ∷ terms
quantified a terms = one a ∷ terms

unfoldable pub terms_of : List Token → List Term
terms_of [] = []
terms_of (atom a ∷ rest) = quantified a (terms_of rest)
terms_of (asterisk ∷ rest) = loose_star ∷ terms_of rest
terms_of (start_anchor ∷ rest) = starts ∷ terms_of rest
terms_of (end_anchor ∷ rest) = ends ∷ terms_of rest

abbrev pub is_line_terminator : ℕ → Bool
is_line_terminator c = nat_eq c 10 || nat_eq c 13 || nat_eq c 0x2028 || nat_eq c 0x2029

abbrev pub takes : Atom → ℕ → Bool
takes (code_unit c) d = nat_eq c d
takes dot d = if is_line_terminator d then false else true
takes unread d = false

-- A match of all the terms, from here to wherever they end. The Boolean tells whether this is the
-- start of the text.
unfoldable pub matches_here : Bool → List Term → Text → Bool
matches_here start [] text = true
matches_here start (loose_star ∷ terms) text = false
matches_here start (starts ∷ terms) text = start && matches_here start terms text
matches_here start (ends ∷ terms) [] = matches_here start terms []
matches_here start (ends ∷ terms) (d ∷ text) = false
matches_here start (one a ∷ terms) [] = false
matches_here start (one a ∷ terms) (d ∷ text) = takes a d && matches_here false terms text
matches_here start (many a ∷ terms) [] = matches_here start terms []
matches_here start (many a ∷ terms) (d ∷ text) =
    matches_here start terms (d ∷ text) || (takes a d && matches_here false (many a ∷ terms) text)

abbrev pub matches_later : List Term → Text → Bool
matches_later terms [] = false
matches_later terms (d ∷ text) = matches_here false terms text || matches_later terms text

-- `new RegExp(source).test(text)`
unfoldable pub reg_exp_test : Text → Text → Bool
unfolding tokens terms_of matches_here
reg_exp_test source text =
    let terms = terms_of (tokens false source) in
    matches_here true terms text || matches_later terms text

-- The test that `listKeys` makes of a key.
unfoldable pub glob_match : Text → Text → Bool
unfolding glob_to_reg_exp reg_exp_test
glob_match pattern text = reg_exp_test (glob_to_reg_exp pattern) text
