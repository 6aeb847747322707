-- ===== src/Common/Equality.antt =====
-- Decided equality as an interface, and the texts of the program: a JavaScript string is the list
-- of its UTF-16 code units. A text literal of the source is `codes "…"`; all of them are ASCII.
use Prim.Native.Nat.{ℕ}
use Prim.Native.Char.{code}
use Prim.Native.String.{String}
use mathlib.Core.Path.{◌≡◌, refl}
use mathlib.Core.Logic.{◌↔◌}
use mathlib.Core.Bool.{Bool, true, false, ◌&&◌}
use mathlib.Core.List.{List, [], ◌∷◌}
use native.Mathlib.Omega.{arith}
use ts_plugins.Common.Tests.{nat_eq, nat_eq_iff}

abbrev pub Text : Type 0
Text = List ℕ

abbrev pub codes : String → Text
codes String.[] = []
codes (String.◌∷◌ c s) = code c ∷ codes s

abbrev pub text_beq : Text → Text → Bool
text_beq [] [] = true
text_beq (a ∷ xs) (b ∷ ys) = nat_eq a b && text_beq xs ys
text_beq _ _ = false

pub text_beq_iff : (s t : Text) → (text_beq s t ≡ true) ↔ (s ≡ t)
text_beq_iff [] [] = (λ _. refl, λ _. refl)
text_beq_iff [] (b ∷ bs) = (λ h. cc, λ h. cc)
text_beq_iff (a ∷ xs) [] = (λ h. cc, λ h. cc)
text_beq_iff (a ∷ xs) (b ∷ ys) = ground (arith, nat_eq_iff a b, text_beq_iff xs ys)

-- Equality on the keys of maps: a test that says exactly when two values are equal.
pub record Eq {ℓ} (A : Type ℓ) : Type ℓ where
  pub equals : A → A → Bool
  pub equals_iff : (x y : A) → (equals x y ≡ true) ↔ (x ≡ y)

instance abbrev pub text_eq : Eq Text
text_eq = record { equals = text_beq; equals_iff = text_beq_iff }

instance abbrev pub number_eq : Eq ℕ
number_eq = record { equals = nat_eq; equals_iff = nat_eq_iff }

infix 50 ◌==◌
abbrev pub ◌==◌ {ℓ} : {K : Type ℓ} ⦃key : Eq K⦄ → K → K → Bool
◌==◌ ⦃key⦄ = key.equals

pub ==_iff {ℓ} : {K : Type ℓ} ⦃key : Eq K⦄ (x y : K) → ((x == y) ≡ true) ↔ (x ≡ y)
==_iff ⦃key⦄ = key.equals_iff

pub ==_refl {ℓ} : {K : Type ℓ} ⦃key : Eq K⦄ (x : K) → (x == x) ≡ true
==_refl x = (==_iff x x).1 refl
