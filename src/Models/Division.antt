-- ===== src/Models/Division.antt =====
-- Division of ints that rounds toward zero.
use native.Mathlib.Nat.{
  mul-le-mul_left, mod-lt, div-add-mod, div-add-mod', div-zero, zero-div, div-le_self,
}
use frost.Prelude.{
  ℕ, ◌+◌, ◌*◌, ◌/◌, ◌%◌, ◌^◌, ◌<◌, ◌≤◌, ◌≡◌, refl, false, arith, ◌==◌, Bool-cases, inl, inr, ℤ, pos,
  negsuc, pos_part, neg_part, low_bits, signed, suc, sub_int,
}
use frost.Models.Muldiv.{quotient, mul_ℤ, sub_ℤ, overflows}

-- How far an int is from zero.
abbrev pub magnitude : ℤ → ℕ
magnitude z = pos_part z + neg_part z

-- The word of an int that a word can hold has the int as its value.
pub signed-low_bits :
    (z : ℤ) → pos_part z < 2 ^ 31 → neg_part z ≤ 2 ^ 31 → signed 32 (low_bits 32 z) ≡ z
signed-low_bits (pos n) p q = ground arith
signed-low_bits (negsuc n) p q = ground arith

-- The quotient of two ints that is rounded toward zero, and the remainder: it is smaller than the
-- divisor and not of the other sign than the dividend.
pub record IsDivided (n d q r : ℤ) : Type 0 where
  pub rest : sub_ℤ n (mul_ℤ d q) ≡ r
  pub below : magnitude r < magnitude d
  pub sign : (pos_part r ≤ pos_part n) × (neg_part r ≤ neg_part n)

-- `-n`
abbrev pub negative : ℕ → ℤ
negative n = sub_int 0 n

pos_part-negative : (n : ℕ) → pos_part (negative n) ≡ 0
pos_part-negative n = ground arith

neg_part-negative : (n : ℕ) → neg_part (negative n) ≡ n
neg_part-negative n = ground arith

rest_pos : (s : ℤ) (a b e : ℕ) → pos_part s + b ≡ a + neg_part s + e → sub_ℤ s (sub_int a b) ≡ pos e
rest_pos s a b e h = ground arith

rest_neg :
    (s : ℤ) (a b e : ℕ) → pos_part s + b + e ≡ a + neg_part s → sub_ℤ s (sub_int a b) ≡ negative e
rest_neg s a b e h = ground arith

-- The quotient and the remainder of each pair of signs.
quotient_same : (x y : ℕ) → quotient (pos x) (pos y) ≡ pos (x / y)
quotient_same x y = ground (arith, div-zero x, zero-div y)

quotient_below : (x y : ℕ) → quotient (negsuc x) (pos y) ≡ negative (suc x / y)
quotient_below x y = ground (arith, div-zero (suc x), zero-div y)

quotient_above : (x y : ℕ) → quotient (pos x) (negsuc y) ≡ negative (x / suc y)
quotient_above x y = ground (arith, div-zero x, zero-div (suc y))

quotient_both : (x y : ℕ) → quotient (negsuc x) (negsuc y) ≡ pos (suc x / suc y)
quotient_both x y = ground (arith, div-zero (suc x), zero-div (suc y))

pos-IsDivided :
    (x m : ℕ) (d q : ℤ)
    → 0 < m
    → magnitude d ≡ m
    → pos_part d * pos_part q + neg_part d * neg_part q ≡ m * (x / m)
    → pos_part d * neg_part q + neg_part d * pos_part q ≡ 0
    → IsDivided (pos x) d q (pos (x % m))
pos-IsDivided x m d q p e f z = record {
  rest = rest_pos (pos x) _ _ (x % m) (omega (arith, f, z, div-add-mod x m));
  below = omega (arith, e, mod-lt x p);
  sign = (omega (arith, div-add-mod x m), omega arith);
}

neg-IsDivided :
    (x m : ℕ) (d q : ℤ)
    → 0 < m
    → magnitude d ≡ m
    → pos_part d * neg_part q + neg_part d * pos_part q ≡ m * (suc x / m)
    → pos_part d * pos_part q + neg_part d * neg_part q ≡ 0
    → IsDivided (negsuc x) d q (negative (suc x % m))
neg-IsDivided x m d q p e f z = record {
  rest = rest_neg (negsuc x) _ _ (suc x % m) (omega (arith, f, z, div-add-mod (suc x) m));
  below = ground (arith, e, mod-lt (suc x) p);
  sign = (ground arith, ground (arith, div-add-mod (suc x) m));
}

by_rest : {n d q r : ℤ} → IsDivided n d q r → IsDivided n d q (sub_ℤ n (mul_ℤ d q))
by_rest {n = n} {d = d} {q = q} i = record {
  rest = refl;
  below = rw i.rest i.below;
  sign = rw i.rest i.sign;
}

-- Division of ints, with any signs.
pub int-IsDivided :
    (n d : ℤ) → 0 < magnitude d → IsDivided n d (quotient n d) (sub_ℤ n (mul_ℤ d (quotient n d)))
int-IsDivided (pos x) (pos y) p = rw (quotient_same x y) (
    by_rest (
      pos-IsDivided x y (pos y) (pos (x / y)) (omega (arith, p)) (omega arith) (omega arith)
        (omega arith)))
int-IsDivided (negsuc x) (pos y) p = rw (quotient_below x y) (
    by_rest (
      neg-IsDivided x y (pos y) (negative (suc x / y)) (omega (arith, p)) (omega arith)
        (rw (pos_part-negative (suc x / y), neg_part-negative (suc x / y)) (omega arith))
        (rw (pos_part-negative (suc x / y), neg_part-negative (suc x / y)) (omega arith))))
int-IsDivided (pos x) (negsuc y) p = rw (quotient_above x y) (
    by_rest (
      pos-IsDivided x (suc y) (negsuc y) (negative (x / suc y)) (omega (arith, p)) (omega arith)
        (rw (pos_part-negative (x / suc y), neg_part-negative (x / suc y)) (omega arith))
        (rw (pos_part-negative (x / suc y), neg_part-negative (x / suc y)) (omega arith))))
int-IsDivided (negsuc x) (negsuc y) p = rw (quotient_both x y) (
    by_rest (
      neg-IsDivided x (suc y) (negsuc y) (pos (suc x / suc y)) (omega (arith, p)) (omega arith)
        (omega arith) (omega arith)))

-- The quotient of two words' values is the value of a word, if it does not overflow.
pub quotient_fits :
    (n d : ℤ)
    → pos_part n < 2 ^ 31
    → neg_part n ≤ 2 ^ 31
    → overflows n d ≡ false
    → (pos_part (quotient n d) < 2 ^ 31) × (neg_part (quotient n d) ≤ 2 ^ 31)
quotient_fits (pos x) (pos y) p q o =
    rw (quotient_same x y) (omega (arith, div-le_self x y), omega arith)
quotient_fits (negsuc x) (pos y) p q o =
    rw (quotient_below x y, pos_part-negative (suc x / y), neg_part-negative (suc x / y))
      (omega arith, omega (arith, div-le_self (suc x) y))
quotient_fits (pos x) (negsuc y) p q o =
    rw (quotient_above x y, pos_part-negative (x / suc y), neg_part-negative (x / suc y))
      (omega arith, omega (arith, div-le_self x (suc y)))
quotient_fits (negsuc x) (negsuc y) p q o = rw (quotient_both x y) (both, omega arith)
  where
    both : suc x / suc y < 2 ^ 31
    both = elim (Bool-cases (suc y == 1)) [
      | inl e ↦ ground (arith, div-le_self (suc x) (suc y))
      | inr n ↦
          let twice : suc x / suc y * 2 ≤ suc x / suc y * suc y =
            mul-le-mul_left (suc x / suc y) (ground arith) in
          omega (arith, div-add-mod' (suc x) (suc y))
    ]
