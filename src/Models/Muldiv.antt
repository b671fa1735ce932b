-- ===== src/Models/Muldiv.antt =====
-- verif/models/alu_model.py: the evaluators on signed values, and those that complement or count
-- bits. `~n` is `negsuc n`; `x & ~m` of a 32-bit result is `x & (~m & MASK32)`.
use Prim.Native.Nat.{bit_and}
use frost.Prelude.{
  ℕ, zero, suc, ◌+◌, ◌*◌, ◌-◌, ◌/◌, ◌%◌, ◌^◌, ◌==◌, ◌&&◌, if◌then◌else◌, bit, bit_or, bit_xor,
  mask32, ℤ, pos, negsuc, pos_part, neg_part, low_bits, sub_int, Bool,
}
use frost.Models.{sign_extend, to_signed32, to_unsigned32}
use frost.Models.Alu.{limited, division_by_zero_quotient}
use frost.Models.Bitmanip.{copy_bit}

-- `a - b`, `a * b` and `a >> k` of ints.
abbrev pub sub_ℤ : ℤ → ℤ → ℤ
sub_ℤ a b = sub_int (pos_part a + neg_part b) (pos_part b + neg_part a)

abbrev pub mul_ℤ : ℤ → ℤ → ℤ
mul_ℤ a b =
    sub_int (pos_part a * pos_part b + neg_part a * neg_part b)
      (pos_part a * neg_part b + neg_part a * pos_part b)

abbrev pub shift_right : ℤ → ℕ → ℤ
shift_right (pos n) k = pos (n / 2 ^ k)
shift_right (negsuc n) k = negsuc (n / 2 ^ k)

-- `int(a / b)` where `b` is not zero: the quotient rounded toward zero. A double holds the quotient
-- of two 32-bit ints closely enough for that. One part of each int is zero, and so is a division by
-- that part.
abbrev pub quotient : ℤ → ℤ → ℤ
quotient a b =
    sub_int (pos_part a / pos_part b + neg_part a / neg_part b)
      (pos_part a / neg_part b + neg_part a / pos_part b)

abbrev pub is_zero : ℤ → Bool
is_zero z = pos_part z + neg_part z == 0

unfoldable pub to_signed33 : ℕ → ℤ
to_signed33 val = sign_extend (mask32 val) 32

unfoldable pub sra : ℕ → ℕ → ℕ
sra value shift_amount = low_bits 32 (shift_right (to_signed32 value) (limited shift_amount))

unfoldable pub mul : ℕ → ℕ → ℕ
mul operand_a operand_b = low_bits 32 (mul_ℤ (to_signed32 operand_a) (to_signed32 operand_b))

unfoldable pub mulh : ℕ → ℕ → ℕ
mulh operand_a operand_b =
    low_bits 32 (shift_right (mul_ℤ (to_signed33 operand_a) (to_signed33 operand_b)) 32)

unfoldable pub mulhsu : ℕ → ℕ → ℕ
mulhsu operand_a operand_b =
    low_bits 32 (shift_right (mul_ℤ (to_signed33 operand_a) (pos (to_unsigned32 operand_b))) 32)

-- `DIVISION_OVERFLOW_DIVIDEND` and `DIVISION_OVERFLOW_DIVISOR`, -2 ^ 31 and -1.
abbrev pub overflows : ℤ → ℤ → Bool
overflows dividend divisor = (neg_part dividend == 2 ^ 31) && (neg_part divisor == 1)

unfoldable pub div : ℕ → ℕ → ℕ
div dividend divisor =
    let n = to_signed32 dividend in
    let d = to_signed32 divisor in
    if is_zero d
    then division_by_zero_quotient
    else (if overflows n d then 0x80000000 else low_bits 32 (quotient n d))

unfoldable pub rem : ℕ → ℕ → ℕ
rem dividend divisor =
    let n = to_signed32 dividend in
    let d = to_signed32 divisor in
    if is_zero d
    then mask32 dividend
    else (if overflows n d then 0 else low_bits 32 (sub_ℤ n (mul_ℤ d (quotient n d))))

unfoldable pub bclr : ℕ → ℕ → ℕ
bclr operand_a operand_b = bit_and operand_a (low_bits 32 (negsuc (2 ^ limited operand_b)))

unfoldable pub binv : ℕ → ℕ → ℕ
binv operand_a operand_b = mask32 (bit_xor operand_a (2 ^ limited operand_b))

unfoldable pub andn : ℕ → ℕ → ℕ
andn operand_a operand_b = bit_and operand_a (low_bits 32 (negsuc operand_b))

unfoldable pub orn : ℕ → ℕ → ℕ
orn operand_a operand_b = mask32 (bit_or operand_a (low_bits 32 (negsuc operand_b)))

unfoldable pub xnor : ℕ → ℕ → ℕ
xnor operand_a operand_b = low_bits 32 (negsuc (bit_xor operand_a operand_b))

-- How many of the `n` low bits are set: `bin(value).count("1")` of a value below 2 ^ n.
unfoldable pub ones : ℕ → ℕ → ℕ
ones value zero = 0
ones value (suc n) = ones value n + bit value n

unfoldable pub cpop : ℕ → ℕ
cpop value = ones (mask32 value) 32

-- The loop of `orc_b` from byte `i` on, `n` times.
unfoldable pub orc_from : ℕ → ℕ → ℕ → ℕ → ℕ
orc_from value i zero result = result
orc_from value i (suc n) result =
    orc_from value (i + 1) n
      (if (value / 2 ^ (i * 8)) % 2 ^ 8 == 0 then result else bit_or result (0xFF * 2 ^ (i * 8)))

unfoldable pub orc_b : ℕ → ℕ
orc_b value = orc_from value 0 4 0

-- The inner loop of `brev8` from bit `i` on, `n` times.
unfoldable pub reverse_from : ℕ → ℕ → ℕ → ℕ → ℕ
reverse_from byte_val i zero reversed_byte = reversed_byte
reverse_from byte_val i (suc n) reversed_byte =
    reverse_from byte_val (i + 1) n (copy_bit byte_val i (7 - i) reversed_byte)

-- The outer loop of `brev8` from byte `i` on, `n` times.
unfoldable pub brev_from : ℕ → ℕ → ℕ → ℕ → ℕ
brev_from value i zero result = result
brev_from value i (suc n) result =
    brev_from value (i + 1) n
      (bit_or result (reverse_from ((value / 2 ^ (i * 8)) % 2 ^ 8) 0 8 0 * 2 ^ (i * 8)))

unfoldable pub brev8 : ℕ → ℕ
brev8 value = brev_from (mask32 value) 0 4 0
