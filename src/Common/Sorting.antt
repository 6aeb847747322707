-- ===== src/Common/Sorting.antt =====
-- `keys.sort()` of JavaScript: by UTF-16 code units, ascending.
use mathlib.Core.Path.{◌≡◌, refl}
use mathlib.Core.Bool.{Bool, true, false, ◌||◌}
use mathlib.Core.List.{List, [], ◌∷◌}
use native.Mathlib.Omega.{arith}
use ts_plugins.Common.Tests.{ltb, nat_eq, if◌then◌else◌}
use ts_plugins.Common.Lists.{any}
use ts_plugins.Common.Equality.{Text}

abbrev pub text_leb : Text → Text → Bool
text_leb [] t = true
text_leb (a ∷ s) [] = false
text_leb (a ∷ s) (b ∷ t) = if ltb a b then true else if nat_eq a b then text_leb s t else false

abbrev pub insert_sorted : Text → List Text → List Text
insert_sorted t [] = t ∷ []
insert_sorted t (u ∷ us) = if text_leb t u then t ∷ u ∷ us else u ∷ insert_sorted t us

unfoldable pub sort : List Text → List Text
sort [] = []
sort (t ∷ ts) = insert_sorted t (sort ts)

pub text_leb_total : (s t : Text) → text_leb s t ≡ false → text_leb t s ≡ true
text_leb_total [] t h = cc
text_leb_total (a ∷ s) [] h = refl
text_leb_total (a ∷ s) (b ∷ t) h = ground (arith, text_leb_total s t)

-- Every text but the last is at most the next one.
abbrev pub IsSorted : List Text → Type 0
IsSorted [] = Unit
IsSorted (t ∷ []) = Unit
IsSorted (t ∷ u ∷ us) = (text_leb t u ≡ true) × IsSorted (u ∷ us)

insert-IsSorted : (t : Text) (us : List Text) → IsSorted us → IsSorted (insert_sorted t us)
insert-IsSorted t [] h = tt
insert-IsSorted t (u ∷ []) h = ground (arith, text_leb_total t u)
insert-IsSorted t (u ∷ w ∷ us) h = ground (arith, text_leb_total t u, insert-IsSorted t (w ∷ us))

pub sort-IsSorted : (ts : List Text) → IsSorted (sort ts)
unfolding sort
sort-IsSorted [] = tt
sort-IsSorted (t ∷ ts) = insert-IsSorted t (sort ts) (sort-IsSorted ts)

any-insert :
    (p : Text → Bool) (t : Text) (us : List Text) → any p (insert_sorted t us) ≡ (p t || any p us)
any-insert p t [] = refl
any-insert p t (u ∷ us) = ground (arith, any-insert p t us)

-- Sorting neither loses nor adds an element.
pub any-sort : (p : Text → Bool) (ts : List Text) → any p (sort ts) ≡ any p ts
unfolding sort
any-sort p [] = refl
any-sort p (t ∷ ts) = ground (arith, any-insert p t (sort ts), any-sort p ts)
