-- ===== src/Encode.antt =====
-- verif/encoders/instruction_encode.py: the instruction formats as fields of a 32-bit word. An int
-- that is only masked after a caller has masked it is a natural number; the offsets and immediates
-- that a format masks itself are signed. A ValidationError is a value.
pub mod Opcode
pub mod Funct3
pub mod FpFunct7
pub mod Funct5
pub mod Fields
pub mod Compressed
pub mod CompressedAlu
pub mod CompressedOffsets
pub mod CompressedMemory
pub mod Decode
pub mod Immediates
pub mod Tests
pub mod Length
pub mod Words
pub mod Halfwords
pub mod Formats
pub mod Integer
pub mod Float
use Opcode
use Funct3
use frost.Prelude.{
  ℕ, ◌+◌, ◌*◌, ◌/◌, ◌%◌, ◌^◌, Bool, not, ◌&&◌, List, [], ◌∷◌, ◌==◌, if◌then◌else◌, bit_or, ℤ, pos,
  negsuc, leb_ℤ, low_bits,
}

-- A field of an instruction word: its mask is `2 ** width - 1`.
pub record Field : Type 0 where
  pub value : ℕ
  pub position : ℕ
  pub width : ℕ

abbrev pub field : ℕ → ℕ → ℕ → Field
field value position width = record { value = value; position = position; width = width }

-- `(value & mask) << position`
unfoldable pub placed : Field → ℕ
placed f = (f.value % 2 ^ f.width) * 2 ^ f.position

unfoldable pub pack_from : ℕ → List Field → ℕ
pack_from result [] = result
pack_from result (f ∷ fields) = pack_from (bit_or result (placed f)) fields

abbrev pub pack_bits : List Field → ℕ
pack_bits fields = pack_from 0 fields

-- What the formats with an offset return.
pub data ValidationError : Type 0 where
  odd_offset out_of_range : ValidationError

pub data Encoded : Type 0 where
  word : ℕ → Encoded
  invalid : ValidationError → Encoded

-- The fields of each format, as its `encode` passes them to `_pack_bits`.
abbrev pub r_fields : ℕ → ℕ → ℕ → ℕ → ℕ → ℕ → List Field
r_fields funct7 rs2 rs1 funct3 rd opcode =
    field funct7 25 7
    ∷ field rs2 20 5
    ∷ field rs1 15 5
    ∷ field funct3 12 3
    ∷ field rd 7 5
    ∷ field opcode 0 7
    ∷ []

unfoldable pub r_type : ℕ → ℕ → ℕ → ℕ → ℕ → ℕ → ℕ
r_type funct7 rs2 rs1 funct3 rd opcode = pack_bits (r_fields funct7 rs2 rs1 funct3 rd opcode)

abbrev pub i_fields : ℕ → ℕ → ℕ → ℕ → ℕ → List Field
i_fields immediate rs1 funct3 rd opcode =
    field immediate 20 12
    ∷ field rs1 15 5
    ∷ field funct3 12 3
    ∷ field rd 7 5
    ∷ field opcode 0 7
    ∷ []

unfoldable pub i_type : ℕ → ℕ → ℕ → ℕ → ℕ → ℕ
i_type immediate rs1 funct3 rd opcode = pack_bits (i_fields immediate rs1 funct3 rd opcode)

-- Of the immediate, masked to 12 bits.
abbrev pub s_fields : ℕ → ℕ → ℕ → ℕ → ℕ → List Field
s_fields immediate_value rs2 rs1 funct3 opcode =
    field ((immediate_value / 2 ^ 5) % 2 ^ 7) 25 7
    ∷ field rs2 20 5
    ∷ field rs1 15 5
    ∷ field funct3 12 3
    ∷ field (immediate_value % 2 ^ 5) 7 5
    ∷ field opcode 0 7
    ∷ []

unfoldable pub s_type : ℤ → ℕ → ℕ → ℕ → ℕ → ℕ
s_type immediate rs2 rs1 funct3 opcode =
    pack_bits (s_fields (low_bits 12 immediate) rs2 rs1 funct3 opcode)

-- `immediate >> k`, masked to `w` bits.
abbrev pub slice : ℕ → ℕ → ℕ → ℕ
slice immediate k w = (immediate / 2 ^ k) % 2 ^ w

-- Of the offset, masked to 13 bits.
abbrev pub b_fields : ℕ → ℕ → ℕ → ℕ → ℕ → List Field
b_fields immediate rs2 rs1 funct3 opcode =
    field (slice immediate 12 1) 31 1
    ∷ field (slice immediate 5 6) 25 6
    ∷ field rs2 20 5
    ∷ field rs1 15 5
    ∷ field funct3 12 3
    ∷ field (slice immediate 1 4) 8 4
    ∷ field (slice immediate 11 1) 7 1
    ∷ field opcode 0 7
    ∷ []

-- The checks of an offset before its fields are packed.
abbrev pub checked : ℤ → ℤ → ℤ → ℕ → Encoded
checked offset minimum maximum encoded =
    if not (low_bits 1 offset == 0)
    then invalid ValidationError.odd_offset
    else (if not (leb_ℤ minimum offset && leb_ℤ offset maximum)
        then invalid ValidationError.out_of_range
        else word encoded)

abbrev pub minimum_branch_offset : ℤ
minimum_branch_offset = negsuc 4095

abbrev pub maximum_branch_offset : ℤ
maximum_branch_offset = pos 4094

unfoldable pub b_type : ℤ → ℕ → ℕ → ℕ → ℕ → Encoded
b_type branch_offset rs2 rs1 funct3 opcode =
    checked branch_offset minimum_branch_offset maximum_branch_offset
      (pack_bits (b_fields (low_bits 13 branch_offset) rs2 rs1 funct3 opcode))

-- Of the offset, masked to 21 bits.
abbrev pub j_fields : ℕ → ℕ → ℕ → List Field
j_fields immediate rd opcode =
    field (slice immediate 20 1) 31 1
    ∷ field (slice immediate 1 10) 21 10
    ∷ field (slice immediate 11 1) 20 1
    ∷ field (slice immediate 12 8) 12 8
    ∷ field rd 7 5
    ∷ field opcode 0 7
    ∷ []

abbrev pub minimum_jump_offset : ℤ
minimum_jump_offset = negsuc 1048575

abbrev pub maximum_jump_offset : ℤ
maximum_jump_offset = pos 1048574

unfoldable pub j_type : ℤ → ℕ → ℕ → Encoded
j_type jump_offset rd opcode =
    checked jump_offset minimum_jump_offset maximum_jump_offset
      (pack_bits (j_fields (low_bits 21 jump_offset) rd opcode))

abbrev pub amo_fields : ℕ → ℕ → ℕ → ℕ → ℕ → ℕ → List Field
amo_fields funct5 rs2 rs1 rd aq rl =
    field funct5 27 5
    ∷ field aq 26 1
    ∷ field rl 25 1
    ∷ field rs2 20 5
    ∷ field rs1 15 5
    ∷ field Funct3.word 12 3
    ∷ field rd 7 5
    ∷ field Opcode.amo 0 7
    ∷ []

unfoldable pub amo_type : ℕ → ℕ → ℕ → ℕ → ℕ → ℕ → ℕ
amo_type funct5 rs2 rs1 rd aq rl = pack_bits (amo_fields funct5 rs2 rs1 rd aq rl)

abbrev pub r4_fields : ℕ → ℕ → ℕ → ℕ → ℕ → ℕ → ℕ → List Field
r4_fields rs3 rs2 rs1 rounding_mode rd opcode fmt =
    field rs3 27 5
    ∷ field fmt 25 2
    ∷ field rs2 20 5
    ∷ field rs1 15 5
    ∷ field rounding_mode 12 3
    ∷ field rd 7 5
    ∷ field opcode 0 7
    ∷ []

unfoldable pub r4_type : ℕ → ℕ → ℕ → ℕ → ℕ → ℕ → ℕ → ℕ
r4_type rs3 rs2 rs1 rounding_mode rd opcode fmt =
    pack_bits (r4_fields rs3 rs2 rs1 rounding_mode rd opcode fmt)

abbrev pub fp_fields : ℕ → ℕ → ℕ → ℕ → ℕ → List Field
fp_fields funct7 rs2 rs1 rounding_mode rd =
    field funct7 25 7
    ∷ field rs2 20 5
    ∷ field rs1 15 5
    ∷ field rounding_mode 12 3
    ∷ field rd 7 5
    ∷ field Opcode.op_fp 0 7
    ∷ []

unfoldable pub fp_type : ℕ → ℕ → ℕ → ℕ → ℕ → ℕ
fp_type funct7 rs2 rs1 rounding_mode rd = pack_bits (fp_fields funct7 rs2 rs1 rounding_mode rd)

abbrev pub u_fields : ℕ → ℕ → ℕ → List Field
u_fields immediate_20bit rd opcode =
    field immediate_20bit 12 20 ∷ field rd 7 5 ∷ field opcode 0 7 ∷ []

unfoldable pub u_type : ℕ → ℕ → ℕ → ℕ
u_type immediate_20bit rd opcode = pack_bits (u_fields immediate_20bit rd opcode)
