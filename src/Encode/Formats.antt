-- ===== src/Encode/Formats.antt =====
-- Each format against the manual's reading of the word.
use frost.Prelude.{
  ℕ, ◌+◌, ◌*◌, ◌/◌, ◌%◌, ◌^◌, ◌<◌, ◌≡◌, ◌↔◌, ◌⊎◌, refl, ap, ◌∙◌, true, false, arith, ◌==◌, ◌&&◌,
  inl, inr, Bool, Bool-cases, if◌then◌else◌, ℤ, pos, negsuc, leb_ℤ, low_bits, signed,
}
use frost.Encode.{
  pack_bits, Encoded, word, invalid, ValidationError, b_fields, b_type, j_fields, j_type, checked,
  minimum_branch_offset, maximum_branch_offset, minimum_jump_offset, maximum_jump_offset,
}
use frost.Encode.Fields.{pack_bits_lt}
use frost.Encode.Decode.{
  opcode_of, rd_of, funct3_of, rs1_of, rs2_of, b_immediate, j_immediate, FitsIn, signed-low_bits,
  low_bits_lt, even-low_bits, read_at,
}

b_reassembled :
    (n : ℕ)
    → n < 2 ^ 13
    → n % 2 ≡ 0
    → (n / 2 ^ 12) % 2 ^ 1 % 2 ^ 1 * 2 ^ 12
        + (n / 2 ^ 11) % 2 ^ 1 % 2 ^ 1 * 2 ^ 11
        + (n / 2 ^ 5) % 2 ^ 6 % 2 ^ 6 * 2 ^ 5
        + (n / 2 ^ 1) % 2 ^ 4 % 2 ^ 4 * 2
      ≡ n
b_reassembled n lt even = omega arith

j_reassembled :
    (n : ℕ)
    → n < 2 ^ 21
    → n % 2 ≡ 0
    → (n / 2 ^ 20) % 2 ^ 1 % 2 ^ 1 * 2 ^ 20
        + (n / 2 ^ 12) % 2 ^ 8 % 2 ^ 8 * 2 ^ 12
        + (n / 2 ^ 11) % 2 ^ 1 % 2 ^ 1 * 2 ^ 11
        + (n / 2 ^ 1) % 2 ^ 10 % 2 ^ 10 * 2
      ≡ n
j_reassembled n lt even = omega arith

-- An offset that is even and fits gets a word with a property, any other the error that says why.
abbrev pub Verdict : ℤ → Type 0 → (ℕ → Type 0) → Encoded → Type 0
Verdict z F P encoded =
    (((low_bits 1 z ≡ 0) × F) × ((w : ℕ) × (encoded ≡ word w) × P w))
    ⊎ (¬ ((low_bits 1 z ≡ 0) × F)
        × (encoded
            ≡ invalid (
                if low_bits 1 z == 0
                then ValidationError.out_of_range
                else ValidationError.odd_offset)))

module _ (z lo hi : ℤ) (w : ℕ) where
  checked-word : (leb_ℤ lo z && leb_ℤ z hi) ≡ true → low_bits 1 z ≡ 0 → checked z lo hi w ≡ word w
  checked-word r e = ground arith

  checked-decoded :
      (F : Type 0) (P : ℕ → Type 0)
      → (low_bits 1 z ≡ 0 → ((leb_ℤ lo z && leb_ℤ z hi) ≡ true) ↔ F)
      → (low_bits 1 z ≡ 0 → F → P w)
      → Verdict z F P (checked z lo hi w)
  checked-decoded F P range good = elim (Bool-cases (low_bits 1 z == 0)) [
    | inr o ↦ inr (λ (e, f). ground (arith, o, e), rw o refl)
    | inl e ↦
        let even : low_bits 1 z ≡ 0 = ground (arith, e) in
        elim (Bool-cases (leb_ℤ lo z && leb_ℤ z hi)) [
          | inl r ↦
              let f = (range even).0 r in inl ((even, f), (w, checked-word r even, good even f))
          | inr r ↦ inr (λ (_, f). let t = (range even).1 f in absurd (clash t r), rw (e, r) refl)
        ]
  ]
    where
      clash : {b : Bool} → b ≡ true → b ≡ false → ⊥
      clash t f = ground (arith, t, f)

branch_range :
    (z : ℤ)
    → low_bits 1 z ≡ 0
    → ((leb_ℤ minimum_branch_offset z && leb_ℤ z maximum_branch_offset) ≡ true) ↔ FitsIn 13 z
branch_range (pos n) h = (λ r. ground arith, λ (a, b). ground arith)
branch_range (negsuc n) h = (λ r. ground arith, λ (a, b). ground arith)

jump_range :
    (z : ℤ)
    → low_bits 1 z ≡ 0
    → ((leb_ℤ minimum_jump_offset z && leb_ℤ z maximum_jump_offset) ≡ true) ↔ FitsIn 21 z
jump_range (pos n) h = (λ r. ground arith, λ (a, b). ground arith)
jump_range (negsuc n) h = (λ r. ground arith, λ (a, b). ground arith)

-- What the manual reads from a word of the branch format.
pub record IsBranch (w rs2 rs1 funct3 opcode : ℕ) (offset : ℤ) : Type 0 where
  pub offset_read : b_immediate w ≡ offset
  pub rs2_read : rs2_of w ≡ rs2 % 2 ^ 5
  pub rs1_read : rs1_of w ≡ rs1 % 2 ^ 5
  pub funct3_read : funct3_of w ≡ funct3 % 2 ^ 3
  pub opcode_read : opcode_of w ≡ opcode % 2 ^ 7
  pub in_word : w < 2 ^ 32

b_fields-IsBranch :
    (z : ℤ) (rs2 rs1 funct3 opcode : ℕ)
    → low_bits 1 z ≡ 0
    → FitsIn 13 z
    → IsBranch (pack_bits (b_fields (low_bits 13 z) rs2 rs1 funct3 opcode)) rs2 rs1 funct3 opcode z
b_fields-IsBranch z rs2 rs1 funct3 opcode even fit =
    let fs = b_fields (low_bits 13 z) rs2 rs1 funct3 opcode in
    let at = read_at fs refl in
    record {
      offset_read =
          ap (signed 13) (
            rw (at 0, at 6, at 1, at 5)
              (b_reassembled (low_bits 13 z) (low_bits_lt 13 z) (even-low_bits 12 z even)))
          ∙ signed-low_bits 12 z fit;
      rs2_read = at 2;
      rs1_read = at 3;
      funct3_read = at 4;
      opcode_read = at 7;
      in_word = pack_bits_lt 32 fs refl;
    }

-- The branch format encodes an offset if it is even and has 13 bits, and the manual then reads the
-- offset, the registers and the codes back from the word. Any other offset is refused: an odd one for
-- its parity, an even one for its range.
pub b_type-decoded :
    (z : ℤ) (rs2 rs1 funct3 opcode : ℕ)
    → Verdict z
        (FitsIn 13 z)
        (λ w. IsBranch w rs2 rs1 funct3 opcode z)
        (b_type z rs2 rs1 funct3 opcode)
unfolding b_type
b_type-decoded z rs2 rs1 funct3 opcode =
    checked-decoded z minimum_branch_offset maximum_branch_offset
      (pack_bits (b_fields (low_bits 13 z) rs2 rs1 funct3 opcode)) (FitsIn 13 z)
      (λ w. IsBranch w rs2 rs1 funct3 opcode z) (branch_range z)
      (b_fields-IsBranch z rs2 rs1 funct3 opcode)

-- What the manual reads from a word of the jump format.
pub record IsJump (w rd opcode : ℕ) (offset : ℤ) : Type 0 where
  pub offset_read : j_immediate w ≡ offset
  pub rd_read : rd_of w ≡ rd % 2 ^ 5
  pub opcode_read : opcode_of w ≡ opcode % 2 ^ 7
  pub in_word : w < 2 ^ 32

j_fields-IsJump :
    (z : ℤ) (rd opcode : ℕ)
    → low_bits 1 z ≡ 0
    → FitsIn 21 z
    → IsJump (pack_bits (j_fields (low_bits 21 z) rd opcode)) rd opcode z
j_fields-IsJump z rd opcode even fit =
    let fs = j_fields (low_bits 21 z) rd opcode in
    let at = read_at fs refl in
    record {
      offset_read =
          ap (signed 21) (
            rw (at 0, at 3, at 2, at 1)
              (j_reassembled (low_bits 21 z) (low_bits_lt 21 z) (even-low_bits 20 z even)))
          ∙ signed-low_bits 20 z fit;
      rd_read = at 4;
      opcode_read = at 5;
      in_word = pack_bits_lt 32 fs refl;
    }

-- The jump format encodes an offset if it is even and has 21 bits, and the manual then reads the
-- offset, the register and the opcode back from the word. Any other offset is refused: an odd one for
-- its parity, an even one for its range.
pub j_type-decoded :
    (z : ℤ) (rd opcode : ℕ)
    → Verdict z (FitsIn 21 z) (λ w. IsJump w rd opcode z) (j_type z rd opcode)
unfolding j_type
j_type-decoded z rd opcode =
    checked-decoded z minimum_jump_offset maximum_jump_offset
      (pack_bits (j_fields (low_bits 21 z) rd opcode)) (FitsIn 21 z) (λ w. IsJump w rd opcode z)
      (jump_range z) (j_fields-IsJump z rd opcode)
