-- ===== src/Encode/Immediates.antt =====
-- The 12-bit immediates, against the manual's reading of the word.
use frost.Prelude.{ℕ, ◌+◌, ◌*◌, ◌/◌, ◌%◌, ◌^◌, ◌<◌, ◌≡◌, refl, ap, ◌∙◌, arith, ℤ, low_bits, signed}
use frost.Encode.{i_fields, i_type, s_fields, s_type}
use frost.Encode.Decode.{
  i_immediate, s_immediate, rs1_of, rs2_of, rd_of, FitsIn, signed-low_bits, low_bits_lt, read_at,
}
use frost.Encode.Integer.{enc_i, enc_i_load, enc_i_jalr, enc_s}
use frost.Encode.Float.{enc_flw, enc_fsw, enc_fld, enc_fsd}

s_reassembled : (n : ℕ) → n < 2 ^ 12 → (n / 2 ^ 5) % 2 ^ 7 % 2 ^ 7 * 2 ^ 5 + n % 2 ^ 5 % 2 ^ 5 ≡ n
s_reassembled n lt = omega arith

-- What the manual reads from a word with an immediate operand.
pub record IsImmediate (w rs1 rd : ℕ) (z : ℤ) : Type 0 where
  pub immediate_read : i_immediate w ≡ z
  pub rs1_read : rs1_of w ≡ rs1 % 2 ^ 5
  pub rd_read : rd_of w ≡ rd % 2 ^ 5

-- What it reads from a store.
pub record IsStore (w rs2 rs1 : ℕ) (z : ℤ) : Type 0 where
  pub immediate_read : s_immediate w ≡ z
  pub rs2_read : rs2_of w ≡ rs2 % 2 ^ 5
  pub rs1_read : rs1_of w ≡ rs1 % 2 ^ 5

module _ (z : ℤ) (fit : FitsIn 12 z) where
  i_type-IsImmediate :
      (rs1 funct3 rd opcode : ℕ)
      → IsImmediate (i_type (low_bits 12 z) rs1 funct3 rd opcode) rs1 rd z
  unfolding i_type
  i_type-IsImmediate rs1 funct3 rd opcode =
      let at = read_at (i_fields (low_bits 12 z) rs1 funct3 rd opcode) refl in
      let whole : low_bits 12 z % 2 ^ 12 ≡ low_bits 12 z = omega (arith, low_bits_lt 12 z) in
      record {
        immediate_read = ap (signed 12) (at 0 ∙ whole) ∙ signed-low_bits 11 z fit;
        rs1_read = at 1;
        rd_read = at 3;
      }

  s_type-IsStore : (rs2 rs1 funct3 opcode : ℕ) → IsStore (s_type z rs2 rs1 funct3 opcode) rs2 rs1 z
  unfolding s_type
  s_type-IsStore rs2 rs1 funct3 opcode =
      let at = read_at (s_fields (low_bits 12 z) rs2 rs1 funct3 opcode) refl in
      record {
        immediate_read =
            ap (signed 12) (rw (at 0, at 4) (s_reassembled (low_bits 12 z) (low_bits_lt 12 z)))
            ∙ signed-low_bits 11 z fit;
        rs2_read = at 1;
        rs1_read = at 2;
      }

-- A signed immediate of 12 bits is read back, with the registers, from every encoding that carries
-- one: ALU operations, loads, JALR and stores, of integer and of floating-point registers.
pub immediates-decoded :
    (z : ℤ) (a b c : ℕ)
    → FitsIn 12 z
    → IsImmediate (enc_i z a b c) a c z
      × IsImmediate (enc_i_load z a b c) a c z
      × IsImmediate (enc_i_jalr z a b) a b z
      × IsImmediate (enc_flw a b z) b a z
      × IsImmediate (enc_fld a b z) b a z
      × IsStore (enc_s a b c z) a b z
      × IsStore (enc_fsw a b z) a b z
      × IsStore (enc_fsd a b z) a b z
unfolding enc_i enc_i_load enc_i_jalr enc_s enc_flw enc_fsw enc_fld enc_fsd
immediates-decoded z a b c fit = (
  i_type-IsImmediate z fit a b c _,
  i_type-IsImmediate z fit a b c _,
  i_type-IsImmediate z fit a _ b _,
  i_type-IsImmediate z fit b _ a _,
  i_type-IsImmediate z fit b _ a _,
  s_type-IsStore z fit a b c _,
  s_type-IsStore z fit a b _ _,
  s_type-IsStore z fit a b _ _,
)
