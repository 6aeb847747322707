-- ===== src/Protocol/Stream.antt =====
-- `tryDecodeFrames` of protocol.ts against a description by the bytes that are left, and what a
-- connection that receives its bytes in pieces makes of them.
use ts_plugins.Common.{
  ℕ, zero, suc, ◌+◌, ◌-◌, ◌≤◌, ◌≡◌, refl, ◌∙◌, Bool, true, false, Option, none, some, List, [], ◌∷◌,
  ◌++◌, arith, ltb, leb, length, take, drop, if◌then◌else◌, ◌||◌, ◌⊎◌, inl, inr, Bool-cases,
  Option-cases, length-drop, length-append, take-append_le, drop-append_le,
}
use mathlib.Core.List.{append_assoc, append-nil}
use native.Mathlib.Nat.{zero-add, add_assoc}
use ts_plugins.Protocol.{
  Bytes, Decoded, done, threw, out_of_fuel, uint32, uint32_at, subarray, decode_loop,
}

-- One frame at the front of the bytes that are left, if it is there in full.
pub data Front : Type 0 where
  partial : Front
  frame : Bytes → Bytes → Front

abbrev pub is_partial : Bytes → Bool
is_partial bytes = ltb (length bytes) 4 || ltb (length bytes) (4 + uint32 bytes)

pub front : Bytes → Front
front bytes =
    if is_partial bytes
    then partial
    else frame (take (uint32 bytes) (drop 4 bytes)) (drop (4 + uint32 bytes) bytes)

-- The fronts by their two tests.
pub front_cases :
    (bytes : Bytes)
    → (front bytes ≡ partial) × (is_partial bytes ≡ true)
      ⊎ (front bytes ≡ frame (take (uint32 bytes) (drop 4 bytes)) (drop (4 + uint32 bytes) bytes))
        × (4 + uint32 bytes ≤ length bytes)
unfolding front
front_cases bytes = ground arith

pub front_of_partial : (bytes : Bytes) → is_partial bytes ≡ true → front bytes ≡ partial
unfolding front
front_of_partial bytes h = rw h

-- The frames of two decodings in a row.
abbrev pub prepend {ℓ} : {E : Type ℓ} → List E → Decoded E → Decoded E
prepend fs (done gs rest) = done (fs ++ gs) rest
prepend fs threw = threw
prepend fs out_of_fuel = out_of_fuel

pub uint32-append : (a b : Bytes) → 4 ≤ length a → uint32 (a ++ b) ≡ uint32 a
unfolding uint32
uint32-append [] b h = absurd (omega arith)
uint32-append (x ∷ []) b h = absurd (omega arith)
uint32-append (x ∷ y ∷ []) b h = absurd (omega arith)
uint32-append (x ∷ y ∷ z ∷ []) b h = absurd (omega arith)
uint32-append (x ∷ y ∷ z ∷ w ∷ a) b h = refl

suc_add : (n m : ℕ) → suc n + m ≡ suc (n + m)
suc_add n m = omega arith

drop-nil {ℓ} : {A : Type ℓ} (n : ℕ) → drop {A = A} n [] ≡ []
drop-nil zero = refl
drop-nil (suc n) = refl

pub drop-drop {ℓ} : {A : Type ℓ} (n m : ℕ) (xs : List A) → drop m (drop n xs) ≡ drop (n + m) xs
drop-drop zero m xs = rw zero-add
drop-drop (suc n) m [] = rw (suc_add n m) (drop-nil m)
drop-drop (suc n) m (x ∷ xs) = rw (suc_add n m) (drop-drop n m xs)

length-drop_le : (n : ℕ) (bytes : Bytes) → length (drop n bytes) ≤ length bytes - n
length-drop_le n bytes = omega (arith, length-drop n bytes)

-- The two tests of the loop, where the front is partial and where it is a frame.
too_long :
    (buffer : Bytes) (offset : ℕ)
    → leb (offset + 4) (length buffer) ≡ true
    → is_partial (drop offset buffer) ≡ true
    → ltb (length buffer) (offset + 4 + uint32_at buffer offset) ≡ true
unfolding uint32_at
too_long buffer offset four short = ground (arith, length-drop offset buffer)

fits_at :
    (buffer : Bytes) (offset : ℕ)
    → offset ≤ length buffer
    → 4 + uint32 (drop offset buffer) ≤ length (drop offset buffer)
    → (leb (offset + 4) (length buffer) ≡ true)
      × (ltb (length buffer) (offset + 4 + uint32_at buffer offset) ≡ false)
unfolding uint32_at
fits_at buffer offset h fits = ground (arith, length-drop offset buffer)

add_sub_cancel : (a n : ℕ) → (a + n) - a ≡ n
add_sub_cancel a n = omega arith

subarray_at :
    (buffer : Bytes) (offset n : ℕ)
    → subarray buffer (offset + 4) (offset + 4 + n) ≡ take n (drop 4 (drop offset buffer))
unfolding subarray
subarray_at buffer offset n = rw (add_sub_cancel (offset + 4) n, drop-drop)

-- More bytes behind a frame leave the frame as it is.
pub front-append :
    (a b : Bytes)
    → 4 + uint32 a ≤ length a
    → front (a ++ b) ≡ frame (take (uint32 a) (drop 4 a)) (drop (4 + uint32 a) a ++ b)
front-append a b fits = elim (front_cases (a ++ b)) [
  | inl (_, short) ↦ absurd (ground (arith, length-append a b, uint32-append a b))
  | inr (go, _) ↦
      go
      ∙ rw (
        uint32-append a b (omega arith),
        drop-append_le 4 a b (omega arith),
        take-append_le (uint32 a) (drop 4 a) b (omega (arith, length-drop 4 a)),
        drop-append_le (4 + uint32 a) a b fits,
      )
]

pub prepend-nil {ℓ} : {E : Type ℓ} (d : Decoded E) → prepend [] d ≡ d
prepend-nil (done fs rest) = refl
prepend-nil threw = refl
prepend-nil out_of_fuel = refl

pub prepend-prepend {ℓ} :
    {E : Type ℓ} (fs gs : List E) (d : Decoded E) → prepend fs (prepend gs d) ≡ prepend (fs ++ gs) d
prepend-prepend fs gs (done hs rest) = rw append_assoc
prepend-prepend fs gs threw = refl
prepend-prepend fs gs out_of_fuel = refl

module _ {ℓ} {E : Type ℓ} (from_binary : Bytes → Option E) where
  -- The description by fronts, one after the other.
  pub parse : ℕ → Bytes → Decoded E
  parse zero bytes = out_of_fuel
  parse (suc fuel) bytes = elim (front bytes) [
    | partial ↦ done [] bytes
    | frame payload rest ↦ elim (from_binary payload) [
      | none ↦ threw
      | some e ↦ prepend (e ∷ []) (parse fuel rest)
    ]
  ]

  pub parse_partial :
      (fuel : ℕ) (bytes : Bytes) → front bytes ≡ partial → parse (suc fuel) bytes ≡ done [] bytes
  unfolding parse
  parse_partial fuel bytes h = rw (h, parse)

  pub parse_bad :
      (fuel : ℕ) (bytes p r : Bytes)
      → front bytes ≡ frame p r
      → from_binary p ≡ none
      → parse (suc fuel) bytes ≡ threw
  unfolding parse
  parse_bad fuel bytes p r h e = rw (h, e, parse)

  pub parse_good :
      (fuel : ℕ) (bytes p r : Bytes) (envelope : E)
      → front bytes ≡ frame p r
      → from_binary p ≡ some envelope
      → parse (suc fuel) bytes ≡ prepend (envelope ∷ []) (parse fuel r)
  unfolding parse
  parse_good fuel bytes p r envelope h e = rw (h, e, parse)

  -- The rounds of the loop that stop, throw and go on.
  module _ (fuel : ℕ) (buffer : Bytes) (offset : ℕ) (frames : List E) where
    loop_stop :
        is_partial (drop offset buffer) ≡ true
        → decode_loop from_binary (suc fuel) buffer offset frames ≡ done frames (drop offset buffer)
    unfolding decode_loop
    loop_stop short = elim (Bool-cases (leb (offset + 4) (length buffer))) [
      | inl four ↦ rw (four, too_long buffer offset four short, decode_loop)
      | inr few ↦ rw (few, decode_loop)
    ]

    module _ (h : offset ≤ length buffer)
        (fits : 4 + uint32 (drop offset buffer) ≤ length (drop offset buffer)) where
      loop_bad :
          from_binary (take (uint32 (drop offset buffer)) (drop 4 (drop offset buffer))) ≡ none
          → decode_loop from_binary (suc fuel) buffer offset frames ≡ threw
      unfolding decode_loop
      loop_bad e = rw (
        (fits_at buffer offset h fits).0,
        (fits_at buffer offset h fits).1,
        subarray_at,
        e,
        decode_loop,
      )

      loop_good :
          (envelope : E)
          → from_binary (take (uint32 (drop offset buffer)) (drop 4 (drop offset buffer)))
            ≡ some envelope
          → decode_loop from_binary (suc fuel) buffer offset frames
            ≡ decode_loop from_binary fuel buffer
                (offset + 4 + uint32 (drop offset buffer))
                (frames ++ envelope ∷ [])
      unfolding decode_loop
      loop_good envelope e = rw (
        (fits_at buffer offset h fits).0,
        (fits_at buffer offset h fits).1,
        subarray_at,
        e,
        decode_loop,
      )

  -- The loop over offsets follows the fronts of what is left.
  pub decode_loop-parse :
      (fuel : ℕ) (buffer : Bytes) (offset : ℕ) (frames : List E)
      → offset ≤ length buffer
      → decode_loop from_binary fuel buffer offset frames
        ≡ prepend frames (parse fuel (drop offset buffer))
  decode_loop-parse zero buffer offset frames h = unfold decode_loop parse in refl
  decode_loop-parse (suc fuel) buffer offset frames h = elim (front_cases (drop offset buffer)) [
    | inl (stop, short) ↦
        loop_stop fuel buffer offset frames short ∙ rw (parse_partial fuel _ stop, append-nil)
    | inr (go, fits) ↦ elim (Option-cases (from_binary (take (uint32 rest) (drop 4 rest)))) [
      | inl bad ↦
          loop_bad fuel buffer offset frames h fits bad ∙ rw (parse_bad fuel rest _ _ go bad)
      | inr (e, good) ↦
          loop_good fuel buffer offset frames h fits e good
          ∙ decode_loop-parse fuel buffer (offset + 4 + uint32 rest) (frames ++ e ∷ [])
              (omega (arith, length-drop offset buffer))
          ∙ rw (parse_good fuel rest _ _ e go good, prepend-prepend, drop-drop, add_assoc)
    ]
  ]
    where
      rest : Bytes
      rest = drop offset buffer
