-- ===== src/Models/Products.antt =====
-- The upper and the lower half of a product, signed and unsigned.
use native.Mathlib.Nat.{add-mul, mul_comm, mul-le-mul_right}
use frost.Prelude.{
  ℕ, suc, ◌+◌, ◌*◌, ◌-◌, ◌%◌, ◌^◌, ◌<◌, ◌≡◌, refl, sym, ap, ◌∙◌, arith, ltb, ℤ, pos, negsuc,
  low_bits, sub_int, signed, Bool-cases, inl, inr, mask32,
}
use frost.Models.{to_signed32}
use frost.Models.Alu.{mulhu}
use frost.Models.Muldiv.{mul_ℤ, shift_right, to_signed33, mul, mulh, mulhsu}
use frost.Models.Signed.{sign_extend-signed}

-- The two halves of the low 64 bits of an int.
halves : (z : ℤ) → low_bits 32 (shift_right z 32) * 2 ^ 32 + low_bits 32 z ≡ low_bits 64 z
halves (pos n) = omega arith
halves (negsuc n) = omega arith

-- The value of a word.
pub value_of : (a : ℕ) → to_signed32 a ≡ signed 32 (mask32 a)
unfolding to_signed32
value_of a = sign_extend-signed (mask32 a) 31 ∙ ap (signed 32) (omega arith)

-- The low bits of a difference depend on its terms up to multiples of 2 ^ 32.
low_sub_int :
    (p q v i j : ℕ) → p + 2 ^ 32 * i ≡ q + v + 2 ^ 32 * j → low_bits 32 (sub_int p q) ≡ v % 2 ^ 32
low_sub_int p q v i j e = ground arith

-- The magnitude of a negative word.
abbrev negated : ℕ → ℕ
negated x = suc (2 ^ 32 - 1 - x)

negated-mul : (x y : ℕ) → x < 2 ^ 32 → negated x * y + x * y ≡ 2 ^ 32 * y
negated-mul x y lt = sym (add-mul (negated x) x y) ∙ ap (λ d. d * y) (omega arith)

mul-negated : (x y : ℕ) → y < 2 ^ 32 → x * negated y + x * y ≡ 2 ^ 32 * x
mul-negated x y lt =
    ap (λ d. d + x * y) (mul_comm x (negated y))
    ∙ ap (λ d. negated y * x + d) (mul_comm x y)
    ∙ negated-mul y x lt

-- The low half of a product does not depend on the signs.
low_product_pos :
    (x y : ℕ) → x < 2 ^ 32 → low_bits 32 (mul_ℤ (signed 32 x) (pos y)) ≡ (x * y) % 2 ^ 32
low_product_pos x y lt = elim (Bool-cases (ltb x (2 ^ 31))) [
  | inl e ↦ rw e (low_sub_int (x * y + 0 * 0) (x * 0 + 0 * y) (x * y) 0 0 (omega arith))
  | inr n ↦ rw n (
      low_sub_int (0 * y + negated x * 0) (0 * 0 + negated x * y) (x * y) y 0
        (omega (arith, negated-mul x y lt)))
]

low_product_neg :
    (x y : ℕ)
    → x < 2 ^ 32
    → y < 2 ^ 32
    → low_bits 32 (mul_ℤ (signed 32 x) (negsuc (2 ^ 32 - 1 - y))) ≡ (x * y) % 2 ^ 32
low_product_neg x y lx ly = elim (Bool-cases (ltb x (2 ^ 31))) [
  | inl e ↦ rw e (
      low_sub_int (x * 0 + 0 * negated y) (x * negated y + 0 * 0) (x * y) x 0
        (omega (arith, mul-negated x y ly)))
  | inr n ↦ rw n (
      low_sub_int (0 * 0 + negated x * negated y) (0 * negated y + negated x * 0) (x * y) y
        (negated x) (omega (arith, mul-negated (negated x) y ly, negated-mul x y lx)))
]

low_product :
    (x y : ℕ)
    → x < 2 ^ 32
    → y < 2 ^ 32
    → low_bits 32 (mul_ℤ (signed 32 x) (signed 32 y)) ≡ (x * y) % 2 ^ 32
low_product x y lx ly = elim (Bool-cases (ltb y (2 ^ 31))) [
  | inl e ↦ rw e (low_product_pos x y lx)
  | inr n ↦ rw n (low_product_neg x y lx ly)
]

extended_value : (a : ℕ) → to_signed33 a ≡ signed 32 (a % 2 ^ 32)
unfolding to_signed33
extended_value a = sign_extend-signed (mask32 a) 31 ∙ ap (signed 32) (omega arith)

-- `mul` is the lower half of the product of the words.
mul-low : (a b : ℕ) → mul a b ≡ ((a % 2 ^ 32) * (b % 2 ^ 32)) % 2 ^ 32
unfolding mul
mul-low a b =
    rw (value_of a, value_of b) (low_product (a % 2 ^ 32) (b % 2 ^ 32) (omega arith) (omega arith))

mulh-high :
    (a b : ℕ)
    → mulh a b
      ≡ low_bits 32 (shift_right (mul_ℤ (signed 32 (a % 2 ^ 32)) (signed 32 (b % 2 ^ 32))) 32)
unfolding mulh
mulh-high a b = rw (extended_value a, extended_value b) refl

mulhsu-high :
    (a b : ℕ)
    → mulhsu a b ≡ low_bits 32 (shift_right (mul_ℤ (signed 32 (a % 2 ^ 32)) (pos (b % 2 ^ 32))) 32)
unfolding mulhsu
mulhsu-high a b = rw (extended_value a) refl

product_lt : (x y : ℕ) → x < 2 ^ 32 → y < 2 ^ 32 → x * y < 2 ^ 64
product_lt x y lx ly = omega (arith, mul-le-mul_right {m = x} {n = 2 ^ 32 - 1} y (omega arith))

-- `mulh`, `mulhsu` and `mulhu` are each the upper half of a product whose lower half is `mul`: of two
-- signed words, of a signed and an unsigned one, and of two unsigned ones.
pub products-halves :
    (a b : ℕ)
    → (mulh a b * 2 ^ 32 + mul a b
        ≡ low_bits 64 (mul_ℤ (signed 32 (a % 2 ^ 32)) (signed 32 (b % 2 ^ 32))))
      × (mulhsu a b * 2 ^ 32 + mul a b
          ≡ low_bits 64 (mul_ℤ (signed 32 (a % 2 ^ 32)) (pos (b % 2 ^ 32))))
      × (mulhu a b * 2 ^ 32 + mul a b ≡ (a % 2 ^ 32) * (b % 2 ^ 32))
products-halves a b =
    let signs : mul a b ≡ low_bits 32 (mul_ℤ (signed 32 (a % 2 ^ 32)) (signed 32 (b % 2 ^ 32))) =
      mul-low a b ∙ sym (low_product (a % 2 ^ 32) (b % 2 ^ 32) (omega arith) (omega arith)) in
    let sign : mul a b ≡ low_bits 32 (mul_ℤ (signed 32 (a % 2 ^ 32)) (pos (b % 2 ^ 32))) =
      mul-low a b ∙ sym (low_product_pos (a % 2 ^ 32) (b % 2 ^ 32) (omega arith)) in
    (
      rw (mulh-high a b, signs) (halves (mul_ℤ (signed 32 (a % 2 ^ 32)) (signed 32 (b % 2 ^ 32)))),
      rw (mulhsu-high a b, sign) (halves (mul_ℤ (signed 32 (a % 2 ^ 32)) (pos (b % 2 ^ 32)))),
      rw (mul-low a b) (
          unfold mulhu in
          omega (arith, product_lt (a % 2 ^ 32) (b % 2 ^ 32) (omega arith) (omega arith))),
    )
