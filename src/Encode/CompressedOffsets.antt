-- ===== src/Encode/CompressedOffsets.antt =====
-- The offsets of the 16-bit jumps and branches, against the manual's reading of the
-- word.
use frost.Prelude.{
  ℕ, ◌+◌, ◌*◌, ◌-◌, ◌/◌, ◌%◌, ◌^◌, ◌<◌, ◌≡◌, ◌↔◌, ◌⊎◌, refl, ap, ◌∙◌, true, false, arith, ◌==◌,
  ◌&&◌, inl, inr, Bool, Bool-cases, Option, none, some, ℤ, pos, negsuc, low_bits, signed,
}
use frost.Encode.{pack_bits}
use frost.Encode.Fields.{pack_bits_lt}
use frost.Encode.Decode.{bits, FitsIn, signed-low_bits, low_bits_lt, even-low_bits, read_at}
use frost.Encode.Compressed.{
  is_compressible_reg, compress_reg, with_reg, between, between_int, asserting, cj_fields, cj_type,
  cb_fields, cb_type, enc_c_j, enc_c_jal, enc_c_beqz, enc_c_bnez,
}

-- inst[12|8|10:9|6|7|2|11|5:3], with a zero behind.
abbrev pub cj_offset : ℕ → ℤ
cj_offset w = signed 12 (
    bits w 12 1 * 2 ^ 11
    + bits w 8 1 * 2 ^ 10
    + bits w 9 2 * 2 ^ 8
    + bits w 6 1 * 2 ^ 7
    + bits w 7 1 * 2 ^ 6
    + bits w 2 1 * 2 ^ 5
    + bits w 11 1 * 2 ^ 4
    + bits w 3 3 * 2)

-- inst[12|6:5|2|11:10|4:3], with a zero behind.
abbrev pub cb_offset : ℕ → ℤ
cb_offset w = signed 9 (
    bits w 12 1 * 2 ^ 8
    + bits w 5 2 * 2 ^ 6
    + bits w 2 1 * 2 ^ 5
    + bits w 10 2 * 2 ^ 3
    + bits w 3 2 * 2)

-- The full number of a register in a three-bit field.
abbrev pub c_register : ℕ → ℕ → ℕ
c_register w position = 8 + bits w position 3

pub compress_reg-eq : (reg : ℕ) → between 8 reg 15 ≡ true → compress_reg reg ≡ some (reg - 8)
unfolding compress_reg is_compressible_reg
compress_reg-eq reg h = rw h refl

cj_reassembled :
    (n : ℕ)
    → n < 2 ^ 12
    → n % 2 ≡ 0
    → (n / 2 ^ 11) % 2 ^ 1 % 2 ^ 1 * 2 ^ 11
        + (n / 2 ^ 10) % 2 ^ 1 % 2 ^ 1 * 2 ^ 10
        + (n / 2 ^ 8) % 2 ^ 2 % 2 ^ 2 * 2 ^ 8
        + (n / 2 ^ 7) % 2 ^ 1 % 2 ^ 1 * 2 ^ 7
        + (n / 2 ^ 6) % 2 ^ 1 % 2 ^ 1 * 2 ^ 6
        + (n / 2 ^ 5) % 2 ^ 1 % 2 ^ 1 * 2 ^ 5
        + (n / 2 ^ 4) % 2 ^ 1 % 2 ^ 1 * 2 ^ 4
        + (n / 2 ^ 1) % 2 ^ 3 % 2 ^ 3 * 2
      ≡ n
cj_reassembled n lt even = omega arith

cb_reassembled :
    (n : ℕ)
    → n < 2 ^ 9
    → n % 2 ≡ 0
    → (n / 2 ^ 8) % 2 ^ 1 % 2 ^ 1 * 2 ^ 8
        + (n / 2 ^ 6) % 2 ^ 2 % 2 ^ 2 * 2 ^ 6
        + (n / 2 ^ 5) % 2 ^ 1 % 2 ^ 1 * 2 ^ 5
        + (n / 2 ^ 3) % 2 ^ 2 % 2 ^ 2 * 2 ^ 3
        + (n / 2 ^ 1) % 2 ^ 2 % 2 ^ 2 * 2
      ≡ n
cb_reassembled n lt even = omega arith

cj_range :
    (z : ℤ) → low_bits 1 z ≡ 0 → (between_int (negsuc 2047) z (pos 2046) ≡ true) ↔ FitsIn 12 z
cj_range (pos n) h = (λ r. ground arith, λ (a, b). ground arith)
cj_range (negsuc n) h = (λ r. ground arith, λ (a, b). ground arith)

cb_range : (z : ℤ) → low_bits 1 z ≡ 0 → (between_int (negsuc 255) z (pos 254) ≡ true) ↔ FitsIn 9 z
cb_range (pos n) h = (λ r. ground arith, λ (a, b). ground arith)
cb_range (negsuc n) h = (λ r. ground arith, λ (a, b). ground arith)

-- An offset that passes the checks gets a word with a property, any other none.
abbrev pub Given : Type 0 → (ℕ → Type 0) → Option ℕ → Type 0
Given F P encoded = (F × ((w : ℕ) × (encoded ≡ some w) × P w)) ⊎ (¬ F × (encoded ≡ none))

abbrev pub EvenOffset : ℕ → ℤ → Type 0
EvenOffset w z = (low_bits 1 z ≡ 0) × FitsIn w z

-- Two assertions, and the word that they guard.
pub given :
    (a b : Bool) (n : ℕ) (F : Type 0) (P : ℕ → Type 0)
    → ((a && b) ≡ true) ↔ F
    → (F → P n)
    → Given F P (asserting a (asserting b (some n)))
unfolding asserting
given true true n F P c good = let f = c.0 refl in inl (f, (n, refl, good f))
given true false n F P c good = inr (λ f. let t = c.1 f in ground (arith, t), refl)
given false b n F P c good = inr (λ f. let t = c.1 f in ground (arith, t), refl)

even_and :
    (z : ℤ) (w : ℕ) (b : Bool)
    → (low_bits 1 z ≡ 0 → (b ≡ true) ↔ FitsIn w z)
    → (((low_bits 1 z == 0) && b) ≡ true) ↔ EvenOffset w z
even_and z w b c = (
  λ t. let e : low_bits 1 z ≡ 0 = ground (arith, t) in (e, (c e).0 (ground (arith, t))),
  λ (e, f). let t = (c e).1 f in ground (arith, e, t),
)

-- What the manual reads from a 16-bit jump.
pub record IsCompressedJump (w funct3 : ℕ) (offset : ℤ) : Type 0 where
  pub offset_read : cj_offset w ≡ offset
  pub funct3_read : bits w 13 3 ≡ funct3
  pub quadrant : bits w 0 2 ≡ 1
  pub in_halfword : w < 2 ^ 16

cj_fields-IsCompressedJump :
    (funct3 : ℕ) (z : ℤ)
    → EvenOffset 12 z
    → IsCompressedJump (pack_bits (cj_fields funct3 (low_bits 12 z))) (funct3 % 2 ^ 3) z
cj_fields-IsCompressedJump funct3 z (e, f) =
    let fs = cj_fields funct3 (low_bits 12 z) in
    let at = read_at fs refl in
    record {
      offset_read =
          ap (signed 12) (
            rw (at 1, at 4, at 3, at 6, at 5, at 8, at 2, at 7)
              (cj_reassembled (low_bits 12 z) (low_bits_lt 12 z) (even-low_bits 11 z e)))
          ∙ signed-low_bits 11 z f;
      funct3_read = at 0;
      quadrant = at 9;
      in_halfword = pack_bits_lt 16 fs refl;
    }

-- What the manual reads from a 16-bit branch.
pub record IsCompressedBranch (w funct3 rs1 : ℕ) (offset : ℤ) : Type 0 where
  pub offset_read : cb_offset w ≡ offset
  pub funct3_read : bits w 13 3 ≡ funct3
  pub rs1_read : c_register w 7 ≡ rs1
  pub quadrant : bits w 0 2 ≡ 1
  pub in_halfword : w < 2 ^ 16

cb_fields-IsCompressedBranch :
    (funct3 rs1 : ℕ) (z : ℤ)
    → between 8 rs1 15 ≡ true
    → EvenOffset 9 z
    → IsCompressedBranch
        (pack_bits (cb_fields funct3 (low_bits 9 z) (rs1 - 8)))
        (funct3 % 2 ^ 3)
        rs1
        z
cb_fields-IsCompressedBranch funct3 rs1 z r (e, f) =
    let fs = cb_fields funct3 (low_bits 9 z) (rs1 - 8) in
    let at = read_at fs refl in
    record {
      offset_read =
          ap (signed 9) (
            rw (at 1, at 4, at 6, at 2, at 5)
              (cb_reassembled (low_bits 9 z) (low_bits_lt 9 z) (even-low_bits 8 z e)))
          ∙ signed-low_bits 8 z f;
      funct3_read = at 0;
      rs1_read = rw (at 3) (ground (arith, r));
      quadrant = at 7;
      in_halfword = pack_bits_lt 16 fs refl;
    }

-- The 16-bit jumps encode an offset if it is even and has 12 bits, the 16-bit branches if it is even,
-- has 9 bits and the register is one of x8 to x15; every other call fails its assertion. The manual
-- reads the offset, the function code and the register back from the word.
pub c_control-decoded :
    (rs1 : ℕ) (z : ℤ)
    → Given (EvenOffset 12 z) (λ w. IsCompressedJump w 5 z) (enc_c_j z)
      × Given (EvenOffset 12 z) (λ w. IsCompressedJump w 1 z) (enc_c_jal z)
      × Given
          ((between 8 rs1 15 ≡ true) × EvenOffset 9 z)
          (λ w. IsCompressedBranch w 6 rs1 z)
          (enc_c_beqz rs1 z)
      × Given
          ((between 8 rs1 15 ≡ true) × EvenOffset 9 z)
          (λ w. IsCompressedBranch w 7 rs1 z)
          (enc_c_bnez rs1 z)
unfolding enc_c_j enc_c_jal enc_c_beqz enc_c_bnez with_reg asserting
c_control-decoded rs1 z = (jump 5, jump 1, branch 6, branch 7)
  where
    jump :
        (funct3 : ℕ)
        → Given (EvenOffset 12 z) (λ w. IsCompressedJump w (funct3 % 2 ^ 3) z) (cj_type funct3 z)
    jump funct3 =
        given (low_bits 1 z == 0) (between_int (negsuc 2047) z (pos 2046)) _ (EvenOffset 12 z)
          (λ w. IsCompressedJump w (funct3 % 2 ^ 3) z)
          (even_and z 12 (between_int (negsuc 2047) z (pos 2046)) (cj_range z))
          (cj_fields-IsCompressedJump funct3 z)

    branch :
        (funct3 : ℕ)
        → Given
            ((between 8 rs1 15 ≡ true) × EvenOffset 9 z)
            (λ w. IsCompressedBranch w (funct3 % 2 ^ 3) rs1 z)
            (cb_type funct3 rs1 z)
    branch funct3 = elim (Bool-cases (between 8 rs1 15)) [
      | inr n ↦ inr (λ (t, _). ground (arith, t, n), rw n refl)
      | inl y ↦
          rw (y, compress_reg-eq rs1 y)
            (let c = even_and z 9 (between_int (negsuc 255) z (pos 254)) (cb_range z) in
              given (low_bits 1 z == 0) (between_int (negsuc 255) z (pos 254)) _
                ((true ≡ true) × EvenOffset 9 z) (λ w. IsCompressedBranch w (funct3 % 2 ^ 3) rs1 z)
                (λ t. (refl, c.0 t), λ (_, f). c.1 f)
                (λ (_, f). cb_fields-IsCompressedBranch funct3 rs1 z y f))
    ]
