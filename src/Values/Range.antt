-- ===== src/Values/Range.antt =====
-- The values that the solver gives to numbers and characters (fill_val in src/Symbol.cpp).
use d_gen.Prelude.{
  ℕ, ◌+◌, ◌-◌, ◌%◌, ◌^◌, ◌<◌, ◌≡◌, refl, true, false, Option, some, ℤ, pos, negsuc, arith, ltb, ap,
  Bool-cases, ◌⊎◌, inl, inr,
}
use d_gen.Errors.{ok, crash}
use d_gen.Types.{Ty}
use d_gen.Values.{
  Vals, number_sym, char_sym, array_sym, string_sym, int64, to_signed, of_remainder, rem,
  fits_int64, fill_val,
}

-- -h, ..., h - 1
abbrev pub Within : ℕ → ℤ → Type 0
Within h (pos n) = n < h
Within h (negsuc n) = n < h

of_remainder-Within : (h r : ℕ) → r < h + h → Within h (of_remainder (h + h) r)
unfolding of_remainder
of_remainder-Within h r lt = elim (Bool-cases (ltb (r + r) (h + h))) [
  | inl low ↦ rw low (ground arith)
  | inr high ↦ rw high (ground arith)
]

of_remainder-low : (h r : ℕ) → r < h → of_remainder (h + h) r ≡ pos r
unfolding of_remainder
of_remainder-low h r lt = let low : ltb (r + r) (h + h) ≡ true = ground arith in rw low refl

of_remainder-high : (h n : ℕ) → n < h → of_remainder (h + h) (h + h - 1 - n) ≡ negsuc n
unfolding of_remainder
of_remainder-high h n lt =
    let r = h + h - 1 - n in
    let high : ltb (r + r) (h + h) ≡ false = ground arith in rw high (ap negsuc (omega arith))

pub to_signed-Within : (h : ℕ) (z : ℤ) → 0 < h → Within h (to_signed (h + h) z)
unfolding to_signed
to_signed-Within h (pos n) lt = of_remainder-Within h (n % (h + h)) (grind arith)
to_signed-Within h (negsuc n) lt = of_remainder-Within h (h + h - 1 - n % (h + h)) (omega arith)

pub to_signed_id : (h : ℕ) (z : ℤ) → Within h z → to_signed (h + h) z ≡ z
unfolding to_signed
to_signed_id h (pos n) lt =
    let small : n % (h + h) ≡ n = grind arith in rw small (of_remainder-low h n lt)
to_signed_id h (negsuc n) lt =
    let small : n % (h + h) ≡ n = grind arith in rw small (of_remainder-high h n lt)

-- A numeral of the solver that fits in an int64_t gives a number of 32 bits and a character of 8 bits:
-- the number is the numeral if that has 32 bits, and the character is the numeral if that is from 0
-- to 127. At any other numeral filling a number, a character, an array or a string crashes.
pub fill_val-Within :
    (num ch : Option ℤ) (t : Ty) (size : Option ℕ) (vs : Vals) (z : ℤ)
    → ((fits_int64 z ≡ true)
        × ((i : ℤ) × (fill_val (number_sym num) (int64 z) ≡ ok (number_sym (some i)))
            × Within (2 ^ 31) i
            × (Within (2 ^ 31) z → i ≡ z))
        × ((c : ℤ) × (fill_val (char_sym ch) (int64 z) ≡ ok (char_sym (some c)))
            × Within (2 ^ 7) c
            × ((n : ℕ) → z ≡ pos n → n < 2 ^ 7 → c ≡ z)))
      ⊎ ((fits_int64 z ≡ false)
          × (fill_val (number_sym num) (int64 z) ≡ crash)
          × (fill_val (char_sym ch) (int64 z) ≡ crash)
          × (fill_val (array_sym t size vs) (int64 z) ≡ crash)
          × (fill_val (string_sym t size vs) (int64 z) ≡ crash))
unfolding fill_val rem
fill_val-Within num ch t size vs z = elim (Bool-cases (fits_int64 z)) [
  | inl fits ↦ inl (
    fits,
    (
      to_signed (2 ^ 32) z,
      rw fits refl,
      to_signed-Within (2 ^ 31) z (omega arith),
      to_signed_id (2 ^ 31) z,
    ),
    (
      to_signed (2 ^ 8) (rem z 256),
      rw fits refl,
      to_signed-Within (2 ^ 7) (rem z 256) (omega arith),
      λ n e lt.
          let small : n % 256 ≡ n = omega arith in rw (e, small) (to_signed_id (2 ^ 7) (pos n) lt),
    ),
  )
  | inr beyond ↦ inr (beyond, rw beyond refl, rw beyond refl, rw beyond refl, rw beyond refl)
]
