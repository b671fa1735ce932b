-- ===== src/Encode/Compressed.antt =====
-- verif/encoders/compressed_encode.py: the 16-bit encoders. `none` is an AssertionError. `_pack_bits`
-- of CompressedEncoder is that of InstructionEncoder; encoders that differ in constants alone share
-- their fields.
use frost.Prelude.{
  ℕ, ◌-◌, ◌%◌, ◌^◌, Bool, not, ◌&&◌, Option, none, some, List, [], ◌∷◌, ◌==◌, leb, if◌then◌else◌,
  ◌>>=◌, ℤ, pos, negsuc, leb_ℤ, low_bits,
}
use frost.Encode.{Field, field, pack_bits, slice}

-- `8 <= reg <= 15`
unfoldable pub is_compressible_reg : ℕ → Bool
is_compressible_reg reg = leb 8 reg && leb reg 15

unfoldable pub compress_reg : ℕ → Option ℕ
unfolding is_compressible_reg
compress_reg reg = if is_compressible_reg reg then some (reg - 8) else none

-- A use of the field of a register.
unfoldable pub with_reg : ℕ → (ℕ → Option ℕ) → Option ℕ
with_reg reg use_field = compress_reg reg >>= use_field

-- `low <= n <= high`
abbrev pub between : ℕ → ℕ → ℕ → Bool
between low n high = leb low n && leb n high

abbrev pub between_int : ℤ → ℤ → ℤ → Bool
between_int low z high = leb_ℤ low z && leb_ℤ z high

-- `assert condition`, and what follows.
unfoldable pub asserting : Bool → Option ℕ → Option ℕ
asserting condition rest = if condition then rest else none

-- The fields of a load or store through a compressed base register.
abbrev pub cl_fields : ℕ → ℕ → ℕ → ℕ → List Field
cl_fields funct3 uimm rs1 reg =
    field funct3 13 3
    ∷ field (slice uimm 6 1) 5 1
    ∷ field (slice uimm 3 3) 10 3
    ∷ field rs1 7 3
    ∷ field (slice uimm 2 1) 6 1
    ∷ field reg 2 3
    ∷ field 0 0 2
    ∷ []

-- The body of the four encoders with these fields.
abbrev pub cl_type : ℕ → ℕ → ℕ → ℕ → Option ℕ
cl_type funct3 uimm rs1_prime reg_prime =
    asserting (between 8 reg_prime 15 && between 8 rs1_prime 15) (
      asserting ((uimm % 4 == 0) && between 0 uimm 124) (
        with_reg rs1_prime
          (λ rs1. with_reg reg_prime (λ reg. some (pack_bits (cl_fields funct3 uimm rs1 reg))))))

unfoldable pub enc_c_lw : ℕ → ℕ → ℕ → Option ℕ
enc_c_lw rd_prime rs1_prime uimm = cl_type 2 uimm rs1_prime rd_prime

unfoldable pub enc_c_sw : ℕ → ℕ → ℕ → Option ℕ
enc_c_sw rs1_prime rs2_prime uimm = cl_type 6 uimm rs1_prime rs2_prime

unfoldable pub enc_c_flw : ℕ → ℕ → ℕ → Option ℕ
enc_c_flw rd_prime rs1_prime uimm = cl_type 3 uimm rs1_prime rd_prime

unfoldable pub enc_c_fsw : ℕ → ℕ → ℕ → Option ℕ
enc_c_fsw rs1_prime rs2_prime uimm = cl_type 7 uimm rs1_prime rs2_prime

abbrev pub enc_c_nop : ℕ
enc_c_nop = 0x0001

-- The fields of an immediate instruction, of the immediate masked to 6 bits.
abbrev pub ci_fields : ℕ → ℕ → ℕ → List Field
ci_fields funct3 imm6 rd =
    field funct3 13 3
    ∷ field (slice imm6 5 1) 12 1
    ∷ field rd 7 5
    ∷ field (imm6 % 2 ^ 5) 2 5
    ∷ field 1 0 2
    ∷ []

abbrev six_bits : ℤ → Bool
six_bits imm = between_int (negsuc 31) imm (pos 31)

unfoldable pub enc_c_addi : ℕ → ℤ → Option ℕ
enc_c_addi rd nzimm =
    asserting (between 0 rd 31)
      (asserting (six_bits nzimm) (some (pack_bits (ci_fields 0 (low_bits 6 nzimm) rd))))

unfoldable pub enc_c_li : ℕ → ℤ → Option ℕ
enc_c_li rd imm =
    asserting (between 1 rd 31)
      (asserting (six_bits imm) (some (pack_bits (ci_fields 2 (low_bits 6 imm) rd))))

-- `z != 0`
abbrev nonzero : ℤ → Bool
nonzero (pos n) = not (n == 0)
nonzero (negsuc n) = Bool.true

unfoldable pub enc_c_lui : ℕ → ℤ → Option ℕ
enc_c_lui rd nzimm = asserting (between 1 rd 31 && not (rd == 2)) (
    asserting (nonzero nzimm)
      (asserting (six_bits nzimm) (some (pack_bits (ci_fields 3 (low_bits 6 nzimm) rd)))))

abbrev pub addi16sp_fields : ℕ → List Field
addi16sp_fields imm =
    field 3 13 3
    ∷ field (slice imm 9 1) 12 1
    ∷ field 2 7 5
    ∷ field (slice imm 4 1) 6 1
    ∷ field (slice imm 6 1) 5 1
    ∷ field (slice imm 7 2) 3 2
    ∷ field (slice imm 5 1) 2 1
    ∷ field 1 0 2
    ∷ []

unfoldable pub enc_c_addi16sp : ℤ → Option ℕ
enc_c_addi16sp nzimm = asserting (nonzero nzimm && (low_bits 4 nzimm == 0)) (
    asserting (between_int (negsuc 511) nzimm (pos 496))
      (some (pack_bits (addi16sp_fields (low_bits 10 nzimm)))))

-- The fields of a jump, of the offset masked to 12 bits.
abbrev pub cj_fields : ℕ → ℕ → List Field
cj_fields funct3 imm12 =
    field funct3 13 3
    ∷ field (slice imm12 11 1) 12 1
    ∷ field (slice imm12 4 1) 11 1
    ∷ field (slice imm12 8 2) 9 2
    ∷ field (slice imm12 10 1) 8 1
    ∷ field (slice imm12 6 1) 7 1
    ∷ field (slice imm12 7 1) 6 1
    ∷ field (slice imm12 1 3) 3 3
    ∷ field (slice imm12 5 1) 2 1
    ∷ field 1 0 2
    ∷ []

abbrev pub cj_type : ℕ → ℤ → Option ℕ
cj_type funct3 imm = asserting (low_bits 1 imm == 0) (
    asserting (between_int (negsuc 2047) imm (pos 2046))
      (some (pack_bits (cj_fields funct3 (low_bits 12 imm)))))

unfoldable pub enc_c_jal : ℤ → Option ℕ
enc_c_jal imm = cj_type 1 imm

unfoldable pub enc_c_j : ℤ → Option ℕ
enc_c_j imm = cj_type 5 imm

-- The fields of a branch, of the offset masked to 9 bits.
abbrev pub cb_fields : ℕ → ℕ → ℕ → List Field
cb_fields funct3 imm9 rs1 =
    field funct3 13 3
    ∷ field (slice imm9 8 1) 12 1
    ∷ field (slice imm9 3 2) 10 2
    ∷ field rs1 7 3
    ∷ field (slice imm9 6 2) 5 2
    ∷ field (slice imm9 1 2) 3 2
    ∷ field (slice imm9 5 1) 2 1
    ∷ field 1 0 2
    ∷ []

abbrev pub cb_type : ℕ → ℕ → ℤ → Option ℕ
cb_type funct3 rs1_prime imm = asserting (between 8 rs1_prime 15) (
    asserting (low_bits 1 imm == 0) (
      asserting (between_int (negsuc 255) imm (pos 254))
        (with_reg rs1_prime (λ rs1. some (pack_bits (cb_fields funct3 (low_bits 9 imm) rs1))))))

unfoldable pub enc_c_beqz : ℕ → ℤ → Option ℕ
enc_c_beqz rs1_prime imm = cb_type 6 rs1_prime imm

unfoldable pub enc_c_bnez : ℕ → ℤ → Option ℕ
enc_c_bnez rs1_prime imm = cb_type 7 rs1_prime imm

-- The fields of a load from the stack.
abbrev pub lwsp_fields : ℕ → ℕ → ℕ → List Field
lwsp_fields funct3 uimm rd =
    field funct3 13 3
    ∷ field (slice uimm 5 1) 12 1
    ∷ field rd 7 5
    ∷ field (slice uimm 2 3) 4 3
    ∷ field (slice uimm 6 2) 2 2
    ∷ field 2 0 2
    ∷ []

-- The fields of a store to the stack.
abbrev pub swsp_fields : ℕ → ℕ → ℕ → List Field
swsp_fields funct3 uimm rs2 =
    field funct3 13 3
    ∷ field (slice uimm 2 4) 9 4
    ∷ field (slice uimm 6 2) 7 2
    ∷ field rs2 2 5
    ∷ field 2 0 2
    ∷ []

abbrev stack_offset : ℕ → Bool
stack_offset uimm = (uimm % 4 == 0) && between 0 uimm 252

unfoldable pub enc_c_lwsp : ℕ → ℕ → Option ℕ
enc_c_lwsp rd uimm =
    asserting (between 1 rd 31)
      (asserting (stack_offset uimm) (some (pack_bits (lwsp_fields 2 uimm rd))))

unfoldable pub enc_c_flwsp : ℕ → ℕ → Option ℕ
enc_c_flwsp rd uimm =
    asserting (between 0 rd 31)
      (asserting (stack_offset uimm) (some (pack_bits (lwsp_fields 3 uimm rd))))

unfoldable pub enc_c_swsp : ℕ → ℕ → Option ℕ
enc_c_swsp rs2 uimm =
    asserting (between 0 rs2 31)
      (asserting (stack_offset uimm) (some (pack_bits (swsp_fields 6 uimm rs2))))

unfoldable pub enc_c_fswsp : ℕ → ℕ → Option ℕ
enc_c_fswsp rs2 uimm =
    asserting (between 0 rs2 31)
      (asserting (stack_offset uimm) (some (pack_bits (swsp_fields 7 uimm rs2))))
