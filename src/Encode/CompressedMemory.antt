-- ===== src/Encode/CompressedMemory.antt =====
-- The offsets and registers of the 16-bit loads and stores, against the manual's reading of the word.
use frost.Prelude.{
  ℕ, ◌+◌, ◌*◌, ◌-◌, ◌/◌, ◌%◌, ◌^◌, ◌≤◌, ◌<◌, ◌≡◌, ◌↔◌, refl, sym, subst, true, arith, ◌==◌, ◌&&◌,
  inl, inr, Bool-cases, some,
}
use frost.Encode.{pack_bits}
use frost.Encode.Decode.{bits, read_at}
use frost.Encode.Compressed.{
  with_reg, between, asserting, cl_fields, cl_type, lwsp_fields, swsp_fields, enc_c_lw, enc_c_sw,
  enc_c_flw, enc_c_fsw, enc_c_lwsp, enc_c_flwsp, enc_c_swsp, enc_c_fswsp,
}
use frost.Encode.CompressedOffsets.{Given, given, compress_reg-eq, c_register}

-- inst[5|12:10|6], with two zeros behind.
abbrev pub cl_offset : ℕ → ℕ
cl_offset w = bits w 5 1 * 2 ^ 6 + bits w 10 3 * 2 ^ 3 + bits w 6 1 * 2 ^ 2

-- inst[3:2|12|6:4], with two zeros behind.
abbrev pub lwsp_offset : ℕ → ℕ
lwsp_offset w = bits w 2 2 * 2 ^ 6 + bits w 12 1 * 2 ^ 5 + bits w 4 3 * 2 ^ 2

-- inst[8:7|12:9], with two zeros behind.
abbrev pub swsp_offset : ℕ → ℕ
swsp_offset w = bits w 7 2 * 2 ^ 6 + bits w 9 4 * 2 ^ 2

cl_reassembled :
    (n : ℕ)
    → n < 2 ^ 7
    → n % 4 ≡ 0
    → (n / 2 ^ 6) % 2 ^ 1 % 2 ^ 1 * 2 ^ 6
        + (n / 2 ^ 3) % 2 ^ 3 % 2 ^ 3 * 2 ^ 3
        + (n / 2 ^ 2) % 2 ^ 1 % 2 ^ 1 * 2 ^ 2
      ≡ n
cl_reassembled n lt four = omega arith

lwsp_reassembled :
    (n : ℕ)
    → n < 2 ^ 8
    → n % 4 ≡ 0
    → (n / 2 ^ 6) % 2 ^ 2 % 2 ^ 2 * 2 ^ 6
        + (n / 2 ^ 5) % 2 ^ 1 % 2 ^ 1 * 2 ^ 5
        + (n / 2 ^ 2) % 2 ^ 3 % 2 ^ 3 * 2 ^ 2
      ≡ n
lwsp_reassembled n lt four = omega arith

swsp_reassembled :
    (n : ℕ)
    → n < 2 ^ 8
    → n % 4 ≡ 0
    → (n / 2 ^ 6) % 2 ^ 2 % 2 ^ 2 * 2 ^ 6 + (n / 2 ^ 2) % 2 ^ 4 % 2 ^ 4 * 2 ^ 2 ≡ n
swsp_reassembled n lt four = omega arith

-- An offset of so many words.
abbrev pub WordOffset : ℕ → ℕ → Type 0
WordOffset most uimm = (uimm % 4 ≡ 0) × (uimm ≤ most)

-- What the manual reads from a load or store through a register.
pub record IsCompressedAccess (w funct3 uimm base reg : ℕ) : Type 0 where
  pub offset_read : cl_offset w ≡ uimm
  pub base_read : c_register w 7 ≡ base
  pub reg_read : c_register w 2 ≡ reg
  pub funct3_read : bits w 13 3 ≡ funct3
  pub quadrant : bits w 0 2 ≡ 0

cl_fields-IsCompressedAccess :
    (funct3 uimm base reg : ℕ)
    → between 8 base 15 ≡ true
    → between 8 reg 15 ≡ true
    → WordOffset 124 uimm
    → IsCompressedAccess
        (pack_bits (cl_fields funct3 uimm (base - 8) (reg - 8)))
        (funct3 % 2 ^ 3)
        uimm
        base
        reg
cl_fields-IsCompressedAccess funct3 uimm base reg b r (four, small) =
    let at = read_at (cl_fields funct3 uimm (base - 8) (reg - 8)) refl in
    record {
      offset_read = rw (at 1, at 2, at 4) (cl_reassembled uimm (omega arith) four);
      base_read = rw (at 3) (ground (arith, b));
      reg_read = rw (at 5) (ground (arith, r));
      funct3_read = at 0;
      quadrant = at 6;
    }

-- What the manual reads from a load or store relative to the stack pointer.
pub record IsStackLoad (w funct3 uimm rd : ℕ) : Type 0 where
  pub offset_read : lwsp_offset w ≡ uimm
  pub rd_read : bits w 7 5 ≡ rd
  pub funct3_read : bits w 13 3 ≡ funct3
  pub quadrant : bits w 0 2 ≡ 2

pub record IsStackStore (w funct3 uimm rs2 : ℕ) : Type 0 where
  pub offset_read : swsp_offset w ≡ uimm
  pub rs2_read : bits w 2 5 ≡ rs2
  pub funct3_read : bits w 13 3 ≡ funct3
  pub quadrant : bits w 0 2 ≡ 2

lwsp_fields-IsStackLoad :
    (funct3 uimm rd : ℕ)
    → rd < 32
    → WordOffset 252 uimm
    → IsStackLoad (pack_bits (lwsp_fields funct3 uimm rd)) (funct3 % 2 ^ 3) uimm rd
lwsp_fields-IsStackLoad funct3 uimm rd lt (four, small) =
    let at = read_at (lwsp_fields funct3 uimm rd) refl in
    record {
      offset_read = rw (at 4, at 1, at 3) (lwsp_reassembled uimm (omega arith) four);
      rd_read = rw (at 2) (omega arith);
      funct3_read = at 0;
      quadrant = at 5;
    }

swsp_fields-IsStackStore :
    (funct3 uimm rs2 : ℕ)
    → rs2 < 32
    → WordOffset 252 uimm
    → IsStackStore (pack_bits (swsp_fields funct3 uimm rs2)) (funct3 % 2 ^ 3) uimm rs2
swsp_fields-IsStackStore funct3 uimm rs2 lt (four, small) =
    let at = read_at (swsp_fields funct3 uimm rs2) refl in
    record {
      offset_read = rw (at 2, at 1) (swsp_reassembled uimm (omega arith) four);
      rs2_read = rw (at 3) (omega arith);
      funct3_read = at 0;
      quadrant = at 4;
    }

abbrev pub Compressible : ℕ → ℕ → Type 0
Compressible reg base = (between 8 reg 15 ≡ true) × (between 8 base 15 ≡ true)

word_offset :
    (most uimm : ℕ) → (((uimm % 4 == 0) && between 0 uimm most) ≡ true) ↔ WordOffset most uimm
word_offset most uimm =
    (λ t. (ground (arith, t), ground (arith, t)), λ (f, s). ground (arith, f, s))

-- The assertions on two registers and an offset.
access_checks :
    (uimm base reg : ℕ)
    → (((between 8 reg 15 && between 8 base 15) && ((uimm % 4 == 0) && between 0 uimm 124)) ≡ true)
      ↔ (Compressible reg base × WordOffset 124 uimm)
access_checks uimm base reg = (
  λ t.
      let c = word_offset 124 uimm in
      ((ground (arith, t), ground (arith, t)), c.0 (ground (arith, t))),
  λ ((r, b), f). let o = (word_offset 124 uimm).1 f in ground (arith, r, b, o),
)

cl_type-Given :
    (funct3 uimm base reg : ℕ)
    → Given
        (Compressible reg base × WordOffset 124 uimm)
        (λ w. IsCompressedAccess w (funct3 % 2 ^ 3) uimm base reg)
        (asserting (between 8 reg 15 && between 8 base 15) (
          asserting
            ((uimm % 4 == 0) && between 0 uimm 124)
            (some (pack_bits (cl_fields funct3 uimm (base - 8) (reg - 8))))))
cl_type-Given funct3 uimm base reg =
    given (between 8 reg 15 && between 8 base 15) ((uimm % 4 == 0) && between 0 uimm 124) _
      (Compressible reg base × WordOffset 124 uimm)
      (λ w. IsCompressedAccess w (funct3 % 2 ^ 3) uimm base reg) (access_checks uimm base reg)
      (λ ((r, b), f). cl_fields-IsCompressedAccess funct3 uimm base reg b r f)

cl_type-eq :
    (funct3 uimm base reg : ℕ)
    → cl_type funct3 uimm base reg
      ≡ asserting (between 8 reg 15 && between 8 base 15) (
          asserting
            ((uimm % 4 == 0) && between 0 uimm 124)
            (some (pack_bits (cl_fields funct3 uimm (base - 8) (reg - 8)))))
unfolding with_reg asserting
cl_type-eq funct3 uimm base reg = elim (Bool-cases (between 8 reg 15)) [
  | inr n ↦ rw n refl
  | inl r ↦ elim (Bool-cases (between 8 base 15)) [
    | inr n ↦ rw (r, n) refl
    | inl b ↦ rw (r, b, compress_reg-eq base b, compress_reg-eq reg r) refl
  ]
]

access :
    (funct3 uimm base reg : ℕ)
    → Given
        (Compressible reg base × WordOffset 124 uimm)
        (λ w. IsCompressedAccess w (funct3 % 2 ^ 3) uimm base reg)
        (cl_type funct3 uimm base reg)
access funct3 uimm base reg =
    subst
      (Given (Compressible reg base × WordOffset 124 uimm)
        (λ w. IsCompressedAccess w (funct3 % 2 ^ 3) uimm base reg))
      (sym (cl_type-eq funct3 uimm base reg)) (cl_type-Given funct3 uimm base reg)

stack_checks :
    (uimm low reg : ℕ)
    → ((between low reg 31 && ((uimm % 4 == 0) && between 0 uimm 252)) ≡ true)
      ↔ ((between low reg 31 ≡ true) × WordOffset 252 uimm)
stack_checks uimm low reg = (
  λ t. let c = word_offset 252 uimm in (ground (arith, t), c.0 (ground (arith, t))),
  λ (r, f). let o = (word_offset 252 uimm).1 f in ground (arith, r, o),
)

stack_load :
    (funct3 uimm low rd : ℕ)
    → Given
        ((between low rd 31 ≡ true) × WordOffset 252 uimm)
        (λ w. IsStackLoad w (funct3 % 2 ^ 3) uimm rd)
        (asserting (between low rd 31) (
          asserting
            ((uimm % 4 == 0) && between 0 uimm 252)
            (some (pack_bits (lwsp_fields funct3 uimm rd)))))
stack_load funct3 uimm low rd =
    given (between low rd 31) ((uimm % 4 == 0) && between 0 uimm 252) _
      ((between low rd 31 ≡ true) × WordOffset 252 uimm)
      (λ w. IsStackLoad w (funct3 % 2 ^ 3) uimm rd) (stack_checks uimm low rd)
      (λ (r, f). lwsp_fields-IsStackLoad funct3 uimm rd (ground (arith, r)) f)

stack_store :
    (funct3 uimm rs2 : ℕ)
    → Given
        ((between 0 rs2 31 ≡ true) × WordOffset 252 uimm)
        (λ w. IsStackStore w (funct3 % 2 ^ 3) uimm rs2)
        (asserting (between 0 rs2 31) (
          asserting
            ((uimm % 4 == 0) && between 0 uimm 252)
            (some (pack_bits (swsp_fields funct3 uimm rs2)))))
stack_store funct3 uimm rs2 =
    given (between 0 rs2 31) ((uimm % 4 == 0) && between 0 uimm 252) _
      ((between 0 rs2 31 ≡ true) × WordOffset 252 uimm)
      (λ w. IsStackStore w (funct3 % 2 ^ 3) uimm rs2) (stack_checks uimm 0 rs2)
      (λ (r, f). swsp_fields-IsStackStore funct3 uimm rs2 (ground (arith, r)) f)

-- The 16-bit loads and stores through a register encode two registers of x8 to x15 and a multiple of
-- four up to 124, those relative to the stack pointer any register (a lw not x0) and a multiple of
-- four up to 252; every other call fails its assertion. The manual reads the offset, the registers
-- and the codes back from the word.
pub c_memory-decoded :
    (reg base uimm : ℕ)
    → Given
        (Compressible reg base × WordOffset 124 uimm)
        (λ w. IsCompressedAccess w 2 uimm base reg)
        (enc_c_lw reg base uimm)
      × Given
          (Compressible reg base × WordOffset 124 uimm)
          (λ w. IsCompressedAccess w 6 uimm base reg)
          (enc_c_sw base reg uimm)
      × Given
          (Compressible reg base × WordOffset 124 uimm)
          (λ w. IsCompressedAccess w 3 uimm base reg)
          (enc_c_flw reg base uimm)
      × Given
          (Compressible reg base × WordOffset 124 uimm)
          (λ w. IsCompressedAccess w 7 uimm base reg)
          (enc_c_fsw base reg uimm)
      × Given
          ((between 1 reg 31 ≡ true) × WordOffset 252 uimm)
          (λ w. IsStackLoad w 2 uimm reg)
          (enc_c_lwsp reg uimm)
      × Given
          ((between 0 reg 31 ≡ true) × WordOffset 252 uimm)
          (λ w. IsStackLoad w 3 uimm reg)
          (enc_c_flwsp reg uimm)
      × Given
          ((between 0 reg 31 ≡ true) × WordOffset 252 uimm)
          (λ w. IsStackStore w 6 uimm reg)
          (enc_c_swsp reg uimm)
      × Given
          ((between 0 reg 31 ≡ true) × WordOffset 252 uimm)
          (λ w. IsStackStore w 7 uimm reg)
          (enc_c_fswsp reg uimm)
unfolding enc_c_lw enc_c_sw enc_c_flw enc_c_fsw enc_c_lwsp enc_c_flwsp enc_c_swsp enc_c_fswsp
c_memory-decoded reg base uimm = (
  access 2 uimm base reg,
  access 6 uimm base reg,
  access 3 uimm base reg,
  access 7 uimm base reg,
  stack_load 2 uimm 1 reg,
  stack_load 3 uimm 0 reg,
  stack_store 6 uimm reg,
  stack_store 7 uimm reg,
)
