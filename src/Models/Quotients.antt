-- ===== src/Models/Quotients.antt =====
-- The quotients and remainders of words, unsigned and signed.
use native.Mathlib.Nat.{mod-lt, div-add-mod', div-le_self}
use frost.Prelude.{
  ℕ, ◌+◌, ◌*◌, ◌-◌, ◌/◌, ◌%◌, ◌^◌, ◌<◌, ◌≤◌, ◌≡◌, refl, sym, ap, ◌∙◌, ◌⊎◌, true, false, arith, ◌==◌,
  Bool-cases, inl, inr, ℤ, pos, negsuc, pos_part, neg_part, low_bits, signed,
}
use frost.Models.{to_signed32}
use frost.Models.Muldiv.{quotient, mul_ℤ, sub_ℤ, is_zero, overflows, div, rem}
use frost.Models.Products.{value_of}
use frost.Models.Alu.{divu, remu}
use frost.Models.Division.{IsDivided, signed-low_bits, int-IsDivided, quotient_fits}

-- A quotient and a remainder of words are words.
words_divided :
    (x y : ℕ)
    → x < 2 ^ 32
    → 0 < y
    → y < 2 ^ 32
    → ((x / y) % 2 ^ 32 * y + (x % y) % 2 ^ 32 ≡ x) × ((x % y) % 2 ^ 32 < y)
words_divided x y lx p ly =
    let quotient : (x / y) % 2 ^ 32 ≡ x / y = omega (arith, div-le_self x y) in
    let rest : (x % y) % 2 ^ 32 ≡ x % y = omega (arith, mod-lt x p) in
    rw (quotient, rest) (div-add-mod' x y, mod-lt x p)

-- The dividend is the quotient times the divisor plus the remainder, which is below the divisor, and
-- for a divisor of zero the remainder is the dividend and the quotient is all ones.
pub divu-remu :
    (a b : ℕ)
    → (divu a b * (b % 2 ^ 32) + remu a b ≡ a % 2 ^ 32)
      × ((remu a b < b % 2 ^ 32) ⊎ ((b % 2 ^ 32 ≡ 0) × (divu a b ≡ 0xFFFFFFFF)))
unfolding divu remu
divu-remu a b = elim (Bool-cases (b % 2 ^ 32 == 0)) [
  | inl e ↦
      let z : b % 2 ^ 32 ≡ 0 = ground arith in
      rw (e, z) (omega arith, inr (omega arith, omega arith))
  | inr n ↦
      let positive : 0 < b % 2 ^ 32 = ground arith in
      let words = words_divided (a % 2 ^ 32) (b % 2 ^ 32) (omega arith) positive (omega arith) in
      rw n (words.0, inl words.1)
]

-- The values of words.
value_bounds :
    (x : ℕ) → x < 2 ^ 32 → (pos_part (signed 32 x) < 2 ^ 31) × (neg_part (signed 32 x) ≤ 2 ^ 31)
value_bounds x lt = (ground arith, ground arith)

zero_value : (x : ℕ) → x < 2 ^ 32 → is_zero (signed 32 x) ≡ true → x ≡ 0
zero_value x lt e = ground arith

overflow_values :
    (x y : ℕ)
    → x < 2 ^ 32
    → y < 2 ^ 32
    → overflows (signed 32 x) (signed 32 y) ≡ true
    → (x ≡ 2 ^ 31) × (y ≡ 2 ^ 32 - 1)
overflow_values x y lx ly e = (ground arith, ground arith)

-- Where the divisor is not zero and the quotient does not overflow.
words-IsDivided :
    (n d : ℤ)
    → (pos_part n < 2 ^ 31) × (neg_part n ≤ 2 ^ 31)
    → is_zero d ≡ false
    → overflows n d ≡ false
    → IsDivided n d
        (signed 32 (low_bits 32 (quotient n d)))
        (signed 32 (low_bits 32 (sub_ℤ n (mul_ℤ d (quotient n d)))))
words-IsDivided n d b z o =
    let divided = int-IsDivided n d (ground arith) in
    let fits = quotient_fits n d (b.0) (b.1) o in
    let q = signed-low_bits (quotient n d) (fits.0) (fits.1) in
    let r =
      signed-low_bits (sub_ℤ n (mul_ℤ d (quotient n d))) (omega (arith, divided.sign.0, b.0))
        (omega (arith, divided.sign.1, b.1)) in
    rw (q, r) divided

value_low_bits : (z : ℤ) → to_signed32 (low_bits 32 z) ≡ signed 32 (low_bits 32 z)
value_low_bits z = value_of (low_bits 32 z) ∙ ap (signed 32) (masked z)
  where
    masked : (z : ℤ) → low_bits 32 z % 2 ^ 32 ≡ low_bits 32 z
    masked (pos n) = omega arith
    masked (negsuc n) = omega arith

-- Signed division: by zero the quotient is all ones and the remainder the dividend; -2 ^ 31 by -1 has
-- the dividend as the quotient and no remainder; all other words are divided with a quotient rounded
-- toward zero.
pub div-rem :
    (a b : ℕ)
    → ((b % 2 ^ 32 ≡ 0) × (div a b ≡ 0xFFFFFFFF) × (rem a b ≡ a % 2 ^ 32))
      ⊎ (((a % 2 ^ 32 ≡ 2 ^ 31) × (b % 2 ^ 32 ≡ 2 ^ 32 - 1) × (div a b ≡ 2 ^ 31) × (rem a b ≡ 0))
          ⊎ IsDivided
              (to_signed32 a)
              (to_signed32 b)
              (to_signed32 (div a b))
              (to_signed32 (rem a b)))
unfolding div rem
div-rem a b = elim (Bool-cases (is_zero (to_signed32 b))) [
  | inl z ↦ inl (
    zero_value (b % 2 ^ 32) (omega arith) (ap is_zero (sym (value_of b)) ∙ z),
    rw z refl,
    rw z refl,
  )
  | inr z ↦ elim (Bool-cases (overflows (to_signed32 a) (to_signed32 b))) [
    | inl o ↦
        let at_limits = overflow_values (a % 2 ^ 32) (b % 2 ^ 32) (omega arith) (omega arith) (
          ap (overflows (signed 32 (a % 2 ^ 32))) (sym (value_of b))
          ∙ ap (λ n. overflows n (to_signed32 b)) (sym (value_of a))
          ∙ o) in
        inr (inl (at_limits.0, at_limits.1, rw (z, o) refl, rw (z, o) refl))
    | inr o ↦ inr (
        inr (
          rw
            (
              z,
              o,
              value_low_bits (quotient (to_signed32 a) (to_signed32 b)),
              value_low_bits (
                  sub_ℤ (to_signed32 a)
                    (mul_ℤ (to_signed32 b) (quotient (to_signed32 a) (to_signed32 b)))),
            )
            (words-IsDivided (to_signed32 a) (to_signed32 b)
              (rw (value_of a) (value_bounds (a % 2 ^ 32) (omega arith))) z o)))
  ]
]
