-- ===== src/Encode/Halfwords.antt =====
-- Every 16-bit encoder at any arguments.
use frost.Prelude.{
  ℕ, ◌%◌, ◌/◌, ◌^◌, ◌<◌, refl, Bool, true, false, Option, some, arith, Option-cases, inl, inr, ℤ,
  low_bits,
}
use frost.Encode.{pack_bits}
use frost.Encode.Fields.{pack_bits_lt}
use frost.Encode.Decode.{read_at}
use frost.Encode.Length.{IsHalfword}
use frost.Encode.Compressed.{
  compress_reg, with_reg, asserting, cl_fields, cl_type, ci_fields, addi16sp_fields, cj_fields,
  cb_fields, cb_type, lwsp_fields, swsp_fields, enc_c_lw, enc_c_sw, enc_c_flw, enc_c_fsw, enc_c_nop,
  enc_c_addi, enc_c_jal, enc_c_li, enc_c_lui, enc_c_addi16sp, enc_c_j, enc_c_beqz, enc_c_bnez,
  enc_c_lwsp, enc_c_swsp, enc_c_flwsp, enc_c_fswsp,
}
use frost.Encode.CompressedAlu.{
  c_shift_fields, ca_fields, ca_type, cr_fields, enc_c_srli, enc_c_srai, enc_c_andi, enc_c_sub,
  enc_c_xor, enc_c_or, enc_c_and, enc_c_slli, enc_c_jr, enc_c_mv, enc_c_jalr, enc_c_add,
}

half : (n : ℕ) → n < 2 ^ 16 → (n / 2 ^ 0) % 2 ^ 2 < 3 → IsHalfword (some n)
half n lt low = IsHalfword.fits lt (λ h. omega (arith, h, low))

asserting-IsHalfword : (c : Bool) (o : Option ℕ) → IsHalfword o → IsHalfword (asserting c o)
unfolding asserting
asserting-IsHalfword true o h = h
asserting-IsHalfword false o h = IsHalfword.failed

register-IsHalfword :
    (reg : ℕ) (k : ℕ → Option ℕ) → ((n : ℕ) → IsHalfword (k n)) → IsHalfword (with_reg reg k)
unfolding with_reg
register-IsHalfword reg k h = elim (Option-cases (compress_reg reg)) [
  | inl n ↦ rw n IsHalfword.failed
  | inr (r, n) ↦ rw n (h r)
]

cl_fields-IsHalfword :
    (funct3 uimm rs1 reg : ℕ) → IsHalfword (some (pack_bits (cl_fields funct3 uimm rs1 reg)))
cl_fields-IsHalfword funct3 uimm rs1 reg =
    let fs = cl_fields funct3 uimm rs1 reg in
    let at = read_at fs refl 6 in half (pack_bits fs) (pack_bits_lt 16 fs refl) (omega (arith, at))

ci_fields-IsHalfword : (funct3 imm rd : ℕ) → IsHalfword (some (pack_bits (ci_fields funct3 imm rd)))
ci_fields-IsHalfword funct3 imm rd =
    let fs = ci_fields funct3 imm rd in
    let at = read_at fs refl 4 in half (pack_bits fs) (pack_bits_lt 16 fs refl) (omega (arith, at))

addi16sp_fields-IsHalfword : (imm : ℕ) → IsHalfword (some (pack_bits (addi16sp_fields imm)))
addi16sp_fields-IsHalfword imm =
    let fs = addi16sp_fields imm in
    let at = read_at fs refl 7 in half (pack_bits fs) (pack_bits_lt 16 fs refl) (omega (arith, at))

cj_fields-IsHalfword : (funct3 imm : ℕ) → IsHalfword (some (pack_bits (cj_fields funct3 imm)))
cj_fields-IsHalfword funct3 imm =
    let fs = cj_fields funct3 imm in
    let at = read_at fs refl 9 in half (pack_bits fs) (pack_bits_lt 16 fs refl) (omega (arith, at))

cb_fields-IsHalfword :
    (funct3 imm rs1 : ℕ) → IsHalfword (some (pack_bits (cb_fields funct3 imm rs1)))
cb_fields-IsHalfword funct3 imm rs1 =
    let fs = cb_fields funct3 imm rs1 in
    let at = read_at fs refl 7 in half (pack_bits fs) (pack_bits_lt 16 fs refl) (omega (arith, at))

lwsp_fields-IsHalfword :
    (funct3 uimm rd : ℕ) → IsHalfword (some (pack_bits (lwsp_fields funct3 uimm rd)))
lwsp_fields-IsHalfword funct3 uimm rd =
    let fs = lwsp_fields funct3 uimm rd in
    let at = read_at fs refl 5 in half (pack_bits fs) (pack_bits_lt 16 fs refl) (omega (arith, at))

swsp_fields-IsHalfword :
    (funct3 uimm rs2 : ℕ) → IsHalfword (some (pack_bits (swsp_fields funct3 uimm rs2)))
swsp_fields-IsHalfword funct3 uimm rs2 =
    let fs = swsp_fields funct3 uimm rs2 in
    let at = read_at fs refl 4 in half (pack_bits fs) (pack_bits_lt 16 fs refl) (omega (arith, at))

c_shift_fields-IsHalfword :
    (top funct2 rd low : ℕ) → IsHalfword (some (pack_bits (c_shift_fields top funct2 rd low)))
c_shift_fields-IsHalfword top funct2 rd low =
    let fs = c_shift_fields top funct2 rd low in
    let at = read_at fs refl 5 in half (pack_bits fs) (pack_bits_lt 16 fs refl) (omega (arith, at))

ca_fields-IsHalfword : (funct2 rd rs2 : ℕ) → IsHalfword (some (pack_bits (ca_fields funct2 rd rs2)))
ca_fields-IsHalfword funct2 rd rs2 =
    let fs = ca_fields funct2 rd rs2 in
    let at = read_at fs refl 6 in half (pack_bits fs) (pack_bits_lt 16 fs refl) (omega (arith, at))

cr_fields-IsHalfword :
    (funct3 top rd low : ℕ) → IsHalfword (some (pack_bits (cr_fields funct3 top rd low)))
cr_fields-IsHalfword funct3 top rd low =
    let fs = cr_fields funct3 top rd low in
    let at = read_at fs refl 4 in half (pack_bits fs) (pack_bits_lt 16 fs refl) (omega (arith, at))

cl_type-IsHalfword : (funct3 uimm rs1 reg : ℕ) → IsHalfword (cl_type funct3 uimm rs1 reg)
cl_type-IsHalfword funct3 uimm rs1 reg = asserting-IsHalfword _ _ (
    asserting-IsHalfword _ _ (
      register-IsHalfword rs1 _
        (λ b. register-IsHalfword reg _ (λ r. cl_fields-IsHalfword funct3 uimm b r))))

cb_type-IsHalfword : (funct3 rs1 : ℕ) (z : ℤ) → IsHalfword (cb_type funct3 rs1 z)
cb_type-IsHalfword funct3 rs1 z = asserting-IsHalfword _ _ (
    asserting-IsHalfword _ _ (
      asserting-IsHalfword _ _
        (register-IsHalfword rs1 _ (λ b. cb_fields-IsHalfword funct3 (low_bits 9 z) b))))

ca_type-IsHalfword : (funct2 rd rs2 : ℕ) → IsHalfword (ca_type funct2 rd rs2)
ca_type-IsHalfword funct2 rd rs2 = asserting-IsHalfword _ _ (
    register-IsHalfword rd _
      (λ b. register-IsHalfword rs2 _ (λ r. ca_fields-IsHalfword funct2 b r)))

abbrev pub Halfwords : ℕ → ℕ → ℕ → ℤ → Type 0
Halfwords a b c z =
    IsHalfword (enc_c_lw a b c)
    × IsHalfword (enc_c_sw a b c)
    × IsHalfword (enc_c_flw a b c)
    × IsHalfword (enc_c_fsw a b c)
    × IsHalfword (some enc_c_nop)
    × IsHalfword (enc_c_addi a z)
    × IsHalfword (enc_c_jal z)
    × IsHalfword (enc_c_li a z)
    × IsHalfword (enc_c_lui a z)
    × IsHalfword (enc_c_addi16sp z)
    × IsHalfword (enc_c_srli a b)
    × IsHalfword (enc_c_srai a b)
    × IsHalfword (enc_c_andi a z)
    × IsHalfword (enc_c_sub a b)
    × IsHalfword (enc_c_xor a b)
    × IsHalfword (enc_c_or a b)
    × IsHalfword (enc_c_and a b)
    × IsHalfword (enc_c_j z)
    × IsHalfword (enc_c_beqz a z)
    × IsHalfword (enc_c_bnez a z)
    × IsHalfword (enc_c_slli a b)
    × IsHalfword (enc_c_lwsp a b)
    × IsHalfword (enc_c_jr a)
    × IsHalfword (enc_c_mv a b)
    × IsHalfword (enc_c_jalr a)
    × IsHalfword (enc_c_add a b)
    × IsHalfword (enc_c_swsp a b)
    × IsHalfword (enc_c_flwsp a b)
    × IsHalfword (enc_c_fswsp a b)

-- Every 16-bit encoder fails an assertion or returns a number below 2 ^ 16 whose lowest two bits are
-- not both set, whatever the arguments are.
pub encoders-IsHalfword : (a b c : ℕ) (z : ℤ) → Halfwords a b c z
unfolding enc_c_lw enc_c_sw enc_c_flw enc_c_fsw enc_c_addi enc_c_jal enc_c_li enc_c_lui
    enc_c_addi16sp enc_c_srli enc_c_srai enc_c_andi enc_c_sub enc_c_xor enc_c_or enc_c_and enc_c_j
    enc_c_beqz enc_c_bnez enc_c_slli enc_c_lwsp enc_c_jr enc_c_mv enc_c_jalr enc_c_add enc_c_swsp
    enc_c_flwsp enc_c_fswsp
encoders-IsHalfword a b c z = (
  cl_type-IsHalfword _ _ _ _,
  cl_type-IsHalfword _ _ _ _,
  cl_type-IsHalfword _ _ _ _,
  cl_type-IsHalfword _ _ _ _,
  half 1 (omega arith) (omega arith),
  asserting-IsHalfword _ _ (asserting-IsHalfword _ _ (ci_fields-IsHalfword _ _ _)),
  asserting-IsHalfword _ _ (asserting-IsHalfword _ _ (cj_fields-IsHalfword _ _)),
  asserting-IsHalfword _ _ (asserting-IsHalfword _ _ (ci_fields-IsHalfword _ _ _)),
  asserting-IsHalfword _ _
      (asserting-IsHalfword _ _ (asserting-IsHalfword _ _ (ci_fields-IsHalfword _ _ _))),
  asserting-IsHalfword _ _ (asserting-IsHalfword _ _ (addi16sp_fields-IsHalfword _)),
  asserting-IsHalfword _ _
      (asserting-IsHalfword _ _ (register-IsHalfword _ _ (λ r. c_shift_fields-IsHalfword _ _ r _))),
  asserting-IsHalfword _ _
      (asserting-IsHalfword _ _ (register-IsHalfword _ _ (λ r. c_shift_fields-IsHalfword _ _ r _))),
  asserting-IsHalfword _ _
      (asserting-IsHalfword _ _ (register-IsHalfword _ _ (λ r. c_shift_fields-IsHalfword _ _ r _))),
  ca_type-IsHalfword _ _ _,
  ca_type-IsHalfword _ _ _,
  ca_type-IsHalfword _ _ _,
  ca_type-IsHalfword _ _ _,
  asserting-IsHalfword _ _ (asserting-IsHalfword _ _ (cj_fields-IsHalfword _ _)),
  cb_type-IsHalfword _ _ _,
  cb_type-IsHalfword _ _ _,
  asserting-IsHalfword _ _ (asserting-IsHalfword _ _ (cr_fields-IsHalfword _ _ _ _)),
  asserting-IsHalfword _ _ (asserting-IsHalfword _ _ (lwsp_fields-IsHalfword _ _ _)),
  asserting-IsHalfword _ _ (cr_fields-IsHalfword _ _ _ _),
  asserting-IsHalfword _ _ (cr_fields-IsHalfword _ _ _ _),
  asserting-IsHalfword _ _ (cr_fields-IsHalfword _ _ _ _),
  asserting-IsHalfword _ _ (cr_fields-IsHalfword _ _ _ _),
  asserting-IsHalfword _ _ (asserting-IsHalfword _ _ (swsp_fields-IsHalfword _ _ _)),
  asserting-IsHalfword _ _ (asserting-IsHalfword _ _ (lwsp_fields-IsHalfword _ _ _)),
  asserting-IsHalfword _ _ (asserting-IsHalfword _ _ (swsp_fields-IsHalfword _ _ _)),
)
