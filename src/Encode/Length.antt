-- ===== src/Encode/Length.antt =====
-- How long an instruction is shows in its two lowest bits: the 32-bit encoders set both, the 16-bit
-- ones do not.
use frost.Prelude.{
  ℕ, ◌%◌, ◌^◌, ◌<◌, ◌≡◌, refl, ◌≢◌, Option, none, some, arith, ℤ, low_bits, leb_ℤ, ◌==◌, ◌&&◌,
  Bool-cases, inl, inr,
}
use Prim.{Unit}
use frost.Encode.{
  pack_bits, Encoded, word, invalid, r_type, r_fields, i_type, i_fields, s_type, s_fields, b_type,
  b_fields, j_type, j_fields, amo_type, amo_fields, r4_type, r4_fields, fp_type, fp_fields, u_type,
  u_fields, checked, minimum_branch_offset, maximum_branch_offset, minimum_jump_offset,
  maximum_jump_offset,
}
use frost.Encode.Fields.{pack_bits_lt}
use frost.Encode.Decode.{read_at}

pub record IsWord (w : ℕ) : Type 0 where
  pub in_word : w < 2 ^ 32
  pub low_bits_set : w % 4 ≡ 3

-- An offset is refused or encoded to a 32-bit word.
abbrev pub IsEncoded : Encoded → Type 0
IsEncoded (word w) = IsWord w
IsEncoded (invalid e) = Unit

-- An assertion fails or the result is a 16-bit instruction.
pub data IsHalfword : Option ℕ → Type 0 where
  failed : IsHalfword none
  fits : {w : ℕ} → w < 2 ^ 16 → w % 4 ≢ 3 → IsHalfword (some w)

pub r_type-IsWord :
    (funct7 rs2 rs1 funct3 rd opcode : ℕ)
    → opcode % 4 ≡ 3
    → IsWord (r_type funct7 rs2 rs1 funct3 rd opcode)
unfolding r_type
r_type-IsWord funct7 rs2 rs1 funct3 rd opcode h =
    let fs = r_fields funct7 rs2 rs1 funct3 rd opcode in
    let at = read_at fs refl 5 in
    record { in_word = pack_bits_lt 32 fs refl; low_bits_set = omega (arith, at) }

pub i_type-IsWord :
    (immediate rs1 funct3 rd opcode : ℕ)
    → opcode % 4 ≡ 3
    → IsWord (i_type immediate rs1 funct3 rd opcode)
unfolding i_type
i_type-IsWord immediate rs1 funct3 rd opcode h =
    let fs = i_fields immediate rs1 funct3 rd opcode in
    let at = read_at fs refl 4 in
    record { in_word = pack_bits_lt 32 fs refl; low_bits_set = omega (arith, at) }

pub s_type-IsWord :
    (rs2 rs1 funct3 opcode : ℕ) (z : ℤ) → opcode % 4 ≡ 3 → IsWord (s_type z rs2 rs1 funct3 opcode)
unfolding s_type
s_type-IsWord rs2 rs1 funct3 opcode z h =
    let fs = s_fields (low_bits 12 z) rs2 rs1 funct3 opcode in
    let at = read_at fs refl 5 in
    record { in_word = pack_bits_lt 32 fs refl; low_bits_set = omega (arith, at) }

pub u_type-IsWord : (immediate rd opcode : ℕ) → opcode % 4 ≡ 3 → IsWord (u_type immediate rd opcode)
unfolding u_type
u_type-IsWord immediate rd opcode h =
    let fs = u_fields immediate rd opcode in
    let at = read_at fs refl 2 in
    record { in_word = pack_bits_lt 32 fs refl; low_bits_set = omega (arith, at) }

pub r4_type-IsWord :
    (rs3 rs2 rs1 rm rd opcode fmt : ℕ)
    → opcode % 4 ≡ 3
    → IsWord (r4_type rs3 rs2 rs1 rm rd opcode fmt)
unfolding r4_type
r4_type-IsWord rs3 rs2 rs1 rm rd opcode fmt h =
    let fs = r4_fields rs3 rs2 rs1 rm rd opcode fmt in
    let at = read_at fs refl 6 in
    record { in_word = pack_bits_lt 32 fs refl; low_bits_set = omega (arith, at) }

pub amo_type-IsWord : (funct5 rs2 rs1 rd aq rl : ℕ) → IsWord (amo_type funct5 rs2 rs1 rd aq rl)
unfolding amo_type
amo_type-IsWord funct5 rs2 rs1 rd aq rl =
    let fs = amo_fields funct5 rs2 rs1 rd aq rl in
    let at = read_at fs refl 7 in
    record { in_word = pack_bits_lt 32 fs refl; low_bits_set = omega (arith, at) }

pub fp_type-IsWord : (funct7 rs2 rs1 rm rd : ℕ) → IsWord (fp_type funct7 rs2 rs1 rm rd)
unfolding fp_type
fp_type-IsWord funct7 rs2 rs1 rm rd =
    let fs = fp_fields funct7 rs2 rs1 rm rd in
    let at = read_at fs refl 5 in
    record { in_word = pack_bits_lt 32 fs refl; low_bits_set = omega (arith, at) }

checked-IsEncoded : (z lo hi : ℤ) (w : ℕ) → IsWord w → IsEncoded (checked z lo hi w)
checked-IsEncoded z lo hi w i = elim (Bool-cases (low_bits 1 z == 0)) [
  | inr o ↦ rw o record {}
  | inl e ↦ elim (Bool-cases (leb_ℤ lo z && leb_ℤ z hi)) [
    | inl r ↦ rw (e, r) i
    | inr r ↦ rw (e, r) record {}
  ]
]

pub b_type-IsEncoded :
    (z : ℤ) (rs2 rs1 funct3 opcode : ℕ)
    → opcode % 4 ≡ 3
    → IsEncoded (b_type z rs2 rs1 funct3 opcode)
unfolding b_type
b_type-IsEncoded z rs2 rs1 funct3 opcode h =
    let fs = b_fields (low_bits 13 z) rs2 rs1 funct3 opcode in
    let at = read_at fs refl 7 in
    checked-IsEncoded z minimum_branch_offset maximum_branch_offset (pack_bits fs)
      (record { in_word = pack_bits_lt 32 fs refl; low_bits_set = omega (arith, at) })

pub j_type-IsEncoded : (z : ℤ) (rd opcode : ℕ) → opcode % 4 ≡ 3 → IsEncoded (j_type z rd opcode)
unfolding j_type
j_type-IsEncoded z rd opcode h =
    let fs = j_fields (low_bits 21 z) rd opcode in
    let at = read_at fs refl 5 in
    checked-IsEncoded z minimum_jump_offset maximum_jump_offset (pack_bits fs)
      (record { in_word = pack_bits_lt 32 fs refl; low_bits_set = omega (arith, at) })
