-- ===== src/Encode/CompressedAlu.antt =====
-- verif/encoders/compressed_encode.py: the 16-bit arithmetic and register-jump encoders.
use frost.Prelude.{ℕ, ◌%◌, ◌^◌, ◌&&◌, Option, some, List, [], ◌∷◌, ℤ, pos, negsuc, low_bits}
use frost.Encode.{Field, field, pack_bits, slice}
use frost.Encode.Compressed.{with_reg, between, between_int, asserting}

-- The fields of the shifts and the AND with an immediate.
abbrev pub c_shift_fields : ℕ → ℕ → ℕ → ℕ → List Field
c_shift_fields top funct2 rd low =
    field 4 13 3
    ∷ field top 12 1
    ∷ field funct2 10 2
    ∷ field rd 7 3
    ∷ field low 2 5
    ∷ field 1 0 2
    ∷ []

abbrev pub c_shift_type : ℕ → ℕ → ℕ → Option ℕ
c_shift_type funct2 rd_prime shamt = asserting (between 8 rd_prime 15) (
    asserting (between 1 shamt 31)
      (with_reg rd_prime (λ rd. some (pack_bits (c_shift_fields 0 funct2 rd (shamt % 2 ^ 5))))))

unfoldable pub enc_c_srli : ℕ → ℕ → Option ℕ
enc_c_srli rd_prime shamt = c_shift_type 0 rd_prime shamt

unfoldable pub enc_c_srai : ℕ → ℕ → Option ℕ
enc_c_srai rd_prime shamt = c_shift_type 1 rd_prime shamt

unfoldable pub enc_c_andi : ℕ → ℤ → Option ℕ
enc_c_andi rd_prime imm =
    let imm6 = low_bits 6 imm in
    asserting (between 8 rd_prime 15) (
      asserting (between_int (negsuc 31) imm (pos 31)) (
        with_reg rd_prime
          (λ rd. some (pack_bits (c_shift_fields (slice imm6 5 1) 2 rd (imm6 % 2 ^ 5))))))

-- The fields of the two-register operations.
abbrev pub ca_fields : ℕ → ℕ → ℕ → List Field
ca_fields funct2 rd rs2 =
    field 4 13 3
    ∷ field 0 12 1
    ∷ field 3 10 2
    ∷ field rd 7 3
    ∷ field funct2 5 2
    ∷ field rs2 2 3
    ∷ field 1 0 2
    ∷ []

abbrev pub ca_type : ℕ → ℕ → ℕ → Option ℕ
ca_type funct2 rd_prime rs2_prime = asserting (between 8 rd_prime 15 && between 8 rs2_prime 15) (
    with_reg rd_prime
      (λ rd. with_reg rs2_prime (λ rs2. some (pack_bits (ca_fields funct2 rd rs2)))))

unfoldable pub enc_c_sub : ℕ → ℕ → Option ℕ
enc_c_sub rd_prime rs2_prime = ca_type 0 rd_prime rs2_prime

unfoldable pub enc_c_xor : ℕ → ℕ → Option ℕ
enc_c_xor rd_prime rs2_prime = ca_type 1 rd_prime rs2_prime

unfoldable pub enc_c_or : ℕ → ℕ → Option ℕ
enc_c_or rd_prime rs2_prime = ca_type 2 rd_prime rs2_prime

unfoldable pub enc_c_and : ℕ → ℕ → Option ℕ
enc_c_and rd_prime rs2_prime = ca_type 3 rd_prime rs2_prime

-- The fields of the operations in quadrant 2 on any two registers.
abbrev pub cr_fields : ℕ → ℕ → ℕ → ℕ → List Field
cr_fields funct3 top rd low =
    field funct3 13 3 ∷ field top 12 1 ∷ field rd 7 5 ∷ field low 2 5 ∷ field 2 0 2 ∷ []

unfoldable pub enc_c_slli : ℕ → ℕ → Option ℕ
enc_c_slli rd shamt =
    asserting (between 1 rd 31)
      (asserting (between 1 shamt 31) (some (pack_bits (cr_fields 0 0 rd (shamt % 2 ^ 5)))))

unfoldable pub enc_c_jr : ℕ → Option ℕ
enc_c_jr rs1 = asserting (between 1 rs1 31) (some (pack_bits (cr_fields 4 0 rs1 0)))

unfoldable pub enc_c_mv : ℕ → ℕ → Option ℕ
enc_c_mv rd rs2 =
    asserting (between 1 rd 31 && between 1 rs2 31) (some (pack_bits (cr_fields 4 0 rd rs2)))

unfoldable pub enc_c_jalr : ℕ → Option ℕ
enc_c_jalr rs1 = asserting (between 1 rs1 31) (some (pack_bits (cr_fields 4 1 rs1 0)))

unfoldable pub enc_c_add : ℕ → ℕ → Option ℕ
enc_c_add rd rs2 =
    asserting (between 1 rd 31 && between 1 rs2 31) (some (pack_bits (cr_fields 4 1 rd rs2)))
