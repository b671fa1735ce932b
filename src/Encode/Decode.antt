-- ===== src/Encode/Decode.antt =====
-- The instruction formats of the RISC-V manual, read from a word: what the encoders are held to.
use native.Mathlib.Nat.{mod-eq_of_lt, mod-lt, one-le-pow}
use frost.Prelude.{
  ℕ, suc, ◌+◌, ◌*◌, ◌-◌, ◌/◌, ◌%◌, ◌^◌, ◌≤◌, ◌<◌, ◌≡◌, ap, true, List, map, arith, get_or, ℤ, pos,
  negsuc, pos_part, neg_part, low_bits, signed,
}
use frost.Bits.{two-pow-suc, mod-half}
use frost.Encode.{Field, pack_bits}
use frost.Encode.Fields.{content, disjoint, read_all, read_all-pack_bits}

-- `width` bits of a word from `position` on.
abbrev pub bits : ℕ → ℕ → ℕ → ℕ
bits w position width = (w / 2 ^ position) % 2 ^ width

abbrev pub opcode_of : ℕ → ℕ
opcode_of w = bits w 0 7

abbrev pub rd_of : ℕ → ℕ
rd_of w = bits w 7 5

abbrev pub funct3_of : ℕ → ℕ
funct3_of w = bits w 12 3

abbrev pub rs1_of : ℕ → ℕ
rs1_of w = bits w 15 5

abbrev pub rs2_of : ℕ → ℕ
rs2_of w = bits w 20 5

abbrev pub funct7_of : ℕ → ℕ
funct7_of w = bits w 25 7

abbrev pub i_immediate : ℕ → ℤ
i_immediate w = signed 12 (bits w 20 12)

abbrev pub s_immediate : ℕ → ℤ
s_immediate w = signed 12 (bits w 25 7 * 2 ^ 5 + bits w 7 5)

-- inst[31|7|30:25|11:8], with a zero behind.
abbrev pub b_immediate : ℕ → ℤ
b_immediate w =
    signed 13 (bits w 31 1 * 2 ^ 12 + bits w 7 1 * 2 ^ 11 + bits w 25 6 * 2 ^ 5 + bits w 8 4 * 2)

-- inst[31|19:12|20|30:21], with a zero behind.
abbrev pub j_immediate : ℕ → ℤ
j_immediate w =
    signed 21
      (bits w 31 1 * 2 ^ 20 + bits w 12 8 * 2 ^ 12 + bits w 20 1 * 2 ^ 11 + bits w 21 10 * 2)

-- The ints of a word of `w` bits.
abbrev pub FitsIn : ℕ → ℤ → Type 0
FitsIn w z = (neg_part z ≤ 2 ^ (w - 1)) × (pos_part z < 2 ^ (w - 1))

-- An int that fits is the value of its two's complement word.
pub signed-low_bits : (w : ℕ) (z : ℤ) → FitsIn (suc w) z → signed (suc w) (low_bits (suc w) z) ≡ z
signed-low_bits w (pos n) (a, b) =
    let half : suc w - 1 ≡ w = omega arith in
    let b' : n < 2 ^ w = (rw half at b) in
    let small : n < 2 ^ suc w = omega (arith, two-pow-suc w) in
    rw (mod-eq_of_lt small, half) (ground arith)
signed-low_bits w (negsuc n) (a, b) =
    let half : suc w - 1 ≡ w = omega arith in
    let a' : suc n ≤ 2 ^ w = (rw half at a) in
    let small : n < 2 ^ suc w = omega (arith, two-pow-suc w) in
    rw (mod-eq_of_lt small, half) (ground (arith, two-pow-suc w))

pub low_bits_lt : (w : ℕ) (z : ℤ) → low_bits w z < 2 ^ w
low_bits_lt w (pos n) = mod-lt n (one-le-pow w 2 (omega arith))
low_bits_lt w (negsuc n) = let some_word : 1 ≤ 2 ^ w = one-le-pow w 2 (omega arith) in omega arith

pub even-low_bits : (w : ℕ) (z : ℤ) → low_bits 1 z ≡ 0 → low_bits (suc w) z % 2 ≡ 0
even-low_bits w (pos n) h = omega (arith, mod-half w n)
even-low_bits w (negsuc n) h =
    omega (arith, mod-half w n, two-pow-suc w, mod-lt n (one-le-pow (suc w) 2 (omega arith)))

-- The field at a place of a list.
pub read_at :
    (fs : List Field)
    → disjoint fs ≡ true
    → (i : ℕ) → get_or (read_all (pack_bits fs) fs) i 0 ≡ get_or (map content fs) i 0
read_at fs h i = ap (λ xs. get_or xs i 0) (read_all-pack_bits fs h)
