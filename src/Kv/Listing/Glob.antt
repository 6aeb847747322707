-- ===== src/Kv/Listing/Glob.antt =====
-- The pattern of `listKeys` in kv.ts: the regular expression that is made of it decides a relation
-- between patterns and texts.
use ts_plugins.Common.{
  ℕ, ◌≡◌, ◌≢◌, ◌↔◌, ◌⊎◌, refl, ap, sym, ◌∙◌, Bool, true, false, ◌||◌, List, [], ◌∷◌, ◌++◌, arith,
  nat_eq, Text, inl, inr, Bool-cases, if◌then◌else◌,
}
use ts_plugins.Kv.Patterns.{
  is_escaped, escaped, with_stars, glob_to_reg_exp, Atom, code_unit, dot, Token, atom, asterisk,
  end_anchor, is_syntax, tokens, Term, one, many, starts, ends, loose_star, quantified, terms_of,
  is_line_terminator, matches_here, matches_later, reg_exp_test, glob_match,
}

-- What a pattern means: a star takes no code unit, or one that ends no line and goes on.
pub data Matches : Text → Text → Type 0 where
  end : Matches [] []
  star_none : {c : ℕ} {p t : Text} → c ≡ b'*' → Matches p t → Matches (c ∷ p) t
  star_more :
      {c d : ℕ} {p t : Text}
      → c ≡ b'*'
      → is_line_terminator d ≡ false
      → Matches (c ∷ p) t
      → Matches (c ∷ p) (d ∷ t)
  literal : {c d : ℕ} {p t : Text} → c ≢ b'*' → c ≡ d → Matches p t → Matches (c ∷ p) (d ∷ t)

-- A matcher that reads the pattern itself.
glob_run : Text → Text → Bool
glob_run [] [] = true
glob_run [] (d ∷ text) = false
glob_run (c ∷ pattern) [] = elim (nat_eq c b'*') [ true ↦ glob_run pattern [] | false ↦ false ]
glob_run (c ∷ pattern) (d ∷ text) = elim (nat_eq c b'*') [
  | true ↦ elim (glob_run pattern (d ∷ text)) [
    | true ↦ true
    | false ↦ elim (is_line_terminator d) [ true ↦ false | false ↦ glob_run (c ∷ pattern) text ]
  ]
  | false ↦ elim (nat_eq c d) [ true ↦ glob_run pattern text | false ↦ false ]
]

nil_cons : (d : ℕ) (t : Text) → ¬ (glob_run [] (d ∷ t) ≡ true)
unfolding glob_run
nil_cons d t h = cc

-- What a match says of its first code units.
inversion :
    (c d : ℕ) (p t : Text)
    → glob_run (c ∷ p) (d ∷ t) ≡ true
    → ((c ≡ b'*') × (glob_run p (d ∷ t) ≡ true))
      ⊎ (((c ≡ b'*') × (is_line_terminator d ≡ false) × (glob_run (c ∷ p) t ≡ true))
          ⊎ ((c ≢ b'*') × (c ≡ d) × (glob_run p t ≡ true)))
unfolding glob_run
inversion c d p t h = ground arith

inversion_end :
    (c : ℕ) (p : Text) → glob_run (c ∷ p) [] ≡ true → (c ≡ b'*') × (glob_run p [] ≡ true)
unfolding glob_run
inversion_end c p h = ground arith

sound : (p t : Text) → glob_run p t ≡ true → Matches p t
sound [] [] h = end
sound [] (d ∷ t) h = absurd (nil_cons d t h)
sound (c ∷ p) [] h = let (star, m) = inversion_end c p h in star_none star (sound p [] m)
sound (c ∷ p) (d ∷ t) h = elim (inversion c d p t h) [
  | inl (star, m) ↦ star_none star (sound p (d ∷ t) m)
  | inr (inl (star, open_line, m)) ↦ star_more star open_line (sound (c ∷ p) t m)
  | inr (inr (plain, same, m)) ↦ literal plain same (sound p t m)
]

complete : {p t : Text} → Matches p t → glob_run p t ≡ true
unfolding glob_run
complete end = refl
complete (star_none {t = []} e m) = ground (arith, complete m)
complete (star_none {t = d ∷ t} e m) = ground (arith, complete m)
complete (star_more e l m) = ground (arith, complete m)
complete (literal n e m) = ground (arith, complete m)

-- The tokens of a pattern's regular expression, behind its first anchor.
pattern_tokens : Text → List Token
pattern_tokens [] = end_anchor ∷ []
pattern_tokens (c ∷ pattern) =
    if nat_eq c b'*'
    then atom dot ∷ asterisk ∷ pattern_tokens pattern
    else atom (code_unit c) ∷ pattern_tokens pattern

pattern_terms : Text → List Term
pattern_terms [] = ends ∷ []
pattern_terms (c ∷ pattern) =
    (if nat_eq c b'*' then many dot else one (code_unit c)) ∷ pattern_terms pattern

-- What is escaped is syntax, and what is syntax is escaped, but the asterisk.
escaped_syntax : (c : ℕ) → is_escaped c ≡ true → (is_syntax c ≡ true) × (nat_eq c b'*' ≡ false)
escaped_syntax c h = ground arith

plain_syntax :
    (c : ℕ)
    → is_escaped c ≡ false
    → nat_eq c b'*' ≡ false
    → (is_syntax c ≡ false) × (nat_eq c 92 ≡ false)
plain_syntax c h h' = ground arith

star_plain : (c : ℕ) → nat_eq c b'*' ≡ true → is_escaped c ≡ false
star_plain c h = ground arith

source_of : Text → Text
source_of pattern = with_stars (escaped pattern) ++ b'$' ∷ []

tokens-source_of : (pattern : Text) → tokens false (source_of pattern) ≡ pattern_tokens pattern
unfolding tokens source_of with_stars escaped pattern_tokens
tokens-source_of [] = refl
tokens-source_of (c ∷ pattern) = elim (Bool-cases (nat_eq c b'*')) [
  | inl is_star ↦
      rw (star_plain c is_star, is_star)
        (ap (λ r. atom dot ∷ asterisk ∷ r) (tokens-source_of pattern))
  | inr other ↦ elim (Bool-cases (is_escaped c)) [
    | inl special ↦
        let (syntax, no_star) = escaped_syntax c special in
        rw (special, other, syntax) (ap (λ r. atom (code_unit c) ∷ r) (tokens-source_of pattern))
    | inr plain ↦
        let (none_of, no_escape) = plain_syntax c plain other in
        rw (plain, other, none_of, no_escape)
          (ap (λ r. atom (code_unit c) ∷ r) (tokens-source_of pattern))
  ]
]

-- Behind an atom that is not starred.
terms-unstarred :
    (a : Atom) (pattern : Text)
    → quantified a (terms_of (pattern_tokens pattern)) ≡ one a ∷ terms_of (pattern_tokens pattern)
unfolding terms_of pattern_tokens
terms-unstarred a [] = refl
terms-unstarred a (c ∷ pattern) = by_star (nat_eq c b'*')
  where
    by_quantified :
        (b : Atom) (terms : List Term)
        → quantified a (quantified b terms) ≡ one a ∷ quantified b terms
    by_quantified b [] = refl
    by_quantified b (loose_star ∷ terms) = refl
    by_quantified b (one _ ∷ terms) = refl
    by_quantified b (many _ ∷ terms) = refl
    by_quantified b (starts ∷ terms) = refl
    by_quantified b (ends ∷ terms) = refl

    by_star :
        (b : Bool)
        → let rest =
            if b
            then atom dot ∷ asterisk ∷ pattern_tokens pattern
            else atom (code_unit c) ∷ pattern_tokens pattern in
          quantified a (terms_of rest) ≡ one a ∷ terms_of rest
    by_star true = refl
    by_star false = by_quantified (code_unit c) (terms_of (pattern_tokens pattern))

terms-pattern_tokens : (pattern : Text) → terms_of (pattern_tokens pattern) ≡ pattern_terms pattern
unfolding terms_of pattern_tokens pattern_terms
terms-pattern_tokens [] = refl
terms-pattern_tokens (c ∷ pattern) = elim (Bool-cases (nat_eq c b'*')) [
  | inl is_star ↦ rw is_star (ap (λ r. many dot ∷ r) (terms-pattern_tokens pattern))
  | inr other ↦ rw other (
      terms-unstarred (code_unit c) pattern
      ∙ ap (λ r. one (code_unit c) ∷ r) (terms-pattern_tokens pattern))
]

matches-glob_run :
    (start : Bool) (pattern text : Text)
    → matches_here start (pattern_terms pattern) text ≡ glob_run pattern text
unfolding matches_here pattern_terms glob_run
matches-glob_run start [] [] = refl
matches-glob_run start [] (d ∷ text) = refl
matches-glob_run start (c ∷ pattern) [] = elim (Bool-cases (nat_eq c b'*')) [
  | inl is_star ↦ rw (is_star, glob_run) (matches-glob_run start pattern [])
  | inr other ↦ rw (other, glob_run) refl
]
matches-glob_run start (c ∷ pattern) (d ∷ text) = elim (Bool-cases (nat_eq c b'*')) [
  | inl is_star ↦
      let here = matches-glob_run start pattern (d ∷ text) in
      let later = matches-glob_run false (c ∷ pattern) text in ground (arith, is_star, here, later)
  | inr other ↦ let rest = matches-glob_run false pattern text in ground (arith, other, rest)
]

matches_later-starts :
    (terms : List Term) (text : Text) → matches_later (starts ∷ terms) text ≡ false
unfolding matches_here
matches_later-starts terms [] = refl
matches_later-starts terms (d ∷ text) = matches_later-starts terms text

glob_match-glob_run : (pattern text : Text) → glob_match pattern text ≡ glob_run pattern text
unfolding glob_match glob_to_reg_exp reg_exp_test terms_of tokens matches_here source_of
glob_match-glob_run pattern text =
    rw
      (
        tokens-source_of pattern,
        terms-pattern_tokens pattern,
        matches_later-starts,
        matches-glob_run,
      )
      (or_false (glob_run pattern text))
  where
    or_false : (b : Bool) → (b || false) ≡ b
    or_false true = refl
    or_false false = refl

-- The regular expression that `globToRegExp` makes of a pattern, escapes and stars and anchors
-- included, passes exactly the texts that the pattern means.
pub glob_match_iff : (p t : Text) → (glob_match p t ≡ true) ↔ Matches p t
glob_match_iff p t =
    (λ h. sound p t (sym (glob_match-glob_run p t) ∙ h), λ m. glob_match-glob_run p t ∙ complete m)
