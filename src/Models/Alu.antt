-- ===== src/Models/Alu.antt =====
-- verif/models/alu_model.py: the evaluators on register values, which are not negative. Those of
-- the loads take the memory.
use Prim.Native.Nat.{bit_and}
use frost.Prelude.{
  ℕ, ◌+◌, ◌*◌, ◌-◌, ◌/◌, ◌%◌, ◌^◌, Bool, not, ◌==◌, if◌then◌else◌, ltb, bit_or, bit_xor, bit,
  mask32, mask64, to_int, ltb_ℤ, low_bits, sub_int,
}
use frost.Models.{sign_extend, to_signed32, to_unsigned32}
use frost.Models.Memory.{Memory, read_byte, read_word}

-- `limit_shift_amount`
abbrev pub limited : ℕ → ℕ
limited shift_amount = shift_amount % 2 ^ 5

unfoldable pub add : ℕ → ℕ → ℕ
add operand_a operand_b = mask32 (operand_a + operand_b)

unfoldable pub sub : ℕ → ℕ → ℕ
sub operand_a operand_b = low_bits 32 (sub_int operand_a operand_b)

unfoldable pub and_rv : ℕ → ℕ → ℕ
and_rv operand_a operand_b = bit_and operand_a operand_b

unfoldable pub or_rv : ℕ → ℕ → ℕ
or_rv operand_a operand_b = bit_or operand_a operand_b

unfoldable pub xor : ℕ → ℕ → ℕ
xor operand_a operand_b = bit_xor operand_a operand_b

unfoldable pub sll : ℕ → ℕ → ℕ
sll value shift_amount = mask32 (value * 2 ^ limited shift_amount)

unfoldable pub srl : ℕ → ℕ → ℕ
srl value shift_amount = mask32 (value / 2 ^ limited shift_amount)

unfoldable pub slt : ℕ → ℕ → ℕ
slt operand_a operand_b = to_int (ltb_ℤ (to_signed32 operand_a) (to_signed32 operand_b))

unfoldable pub sltu : ℕ → ℕ → ℕ
sltu operand_a operand_b = to_int (ltb (mask32 operand_a) (mask32 operand_b))

-- `_load_halfword_from_memory`
unfoldable pub load_halfword_from_memory : Memory → ℕ → Bool → ℕ
load_halfword_from_memory memory memory_address is_signed =
    let a = (memory_address / 2) * 2 in
    let halfword_value = bit_or (read_byte memory a) (read_byte memory (a + 1) * 2 ^ 8) in
    if is_signed then low_bits 32 (sign_extend halfword_value 16) else mask32 halfword_value

unfoldable pub lw : Memory → ℕ → ℕ
lw memory memory_address = read_word memory ((memory_address / 4) * 4)

unfoldable pub ld : Memory → ℕ → ℕ
ld memory memory_address =
    let a = (memory_address / 8) * 8 in
    mask64 (bit_or (read_word memory (a + 4) * 2 ^ 32) (read_word memory a))

unfoldable pub lb : Memory → ℕ → ℕ
lb memory memory_address = low_bits 32 (sign_extend (read_byte memory memory_address) 8)

unfoldable pub lbu : Memory → ℕ → ℕ
lbu memory memory_address = mask32 (read_byte memory memory_address)

unfoldable pub lh : Memory → ℕ → ℕ
lh memory memory_address = load_halfword_from_memory memory memory_address Bool.true

unfoldable pub lhu : Memory → ℕ → ℕ
lhu memory memory_address = load_halfword_from_memory memory memory_address Bool.false

unfoldable pub mulhu : ℕ → ℕ → ℕ
mulhu operand_a operand_b = mask32 ((to_unsigned32 operand_a * to_unsigned32 operand_b) / 2 ^ 32)

-- `DIVISION_BY_ZERO_QUOTIENT`
abbrev pub division_by_zero_quotient : ℕ
division_by_zero_quotient = 0xFFFFFFFF

unfoldable pub divu : ℕ → ℕ → ℕ
divu dividend divisor =
    if to_unsigned32 divisor == 0
    then division_by_zero_quotient
    else mask32 (to_unsigned32 dividend / to_unsigned32 divisor)

unfoldable pub remu : ℕ → ℕ → ℕ
remu dividend divisor =
    if to_unsigned32 divisor == 0
    then to_unsigned32 dividend
    else mask32 (to_unsigned32 dividend % to_unsigned32 divisor)

unfoldable pub sh1add : ℕ → ℕ → ℕ
sh1add operand_a operand_b = mask32 (operand_a * 2 ^ 1 + operand_b)

unfoldable pub sh2add : ℕ → ℕ → ℕ
sh2add operand_a operand_b = mask32 (operand_a * 2 ^ 2 + operand_b)

unfoldable pub sh3add : ℕ → ℕ → ℕ
sh3add operand_a operand_b = mask32 (operand_a * 2 ^ 3 + operand_b)

unfoldable pub bset : ℕ → ℕ → ℕ
bset operand_a operand_b = mask32 (bit_or operand_a (2 ^ limited operand_b))

unfoldable pub bext : ℕ → ℕ → ℕ
bext operand_a operand_b = bit operand_a (limited operand_b)

unfoldable pub max_rv : ℕ → ℕ → ℕ
max_rv operand_a operand_b =
    if ltb_ℤ (to_signed32 operand_b) (to_signed32 operand_a) then operand_a else operand_b

unfoldable pub maxu : ℕ → ℕ → ℕ
maxu operand_a operand_b =
    if ltb (mask32 operand_b) (mask32 operand_a) then operand_a else operand_b

unfoldable pub min_rv : ℕ → ℕ → ℕ
min_rv operand_a operand_b =
    if ltb_ℤ (to_signed32 operand_a) (to_signed32 operand_b) then operand_a else operand_b

unfoldable pub minu : ℕ → ℕ → ℕ
minu operand_a operand_b =
    if ltb (mask32 operand_a) (mask32 operand_b) then operand_a else operand_b

unfoldable pub rol : ℕ → ℕ → ℕ
rol value shift_amount =
    let s = limited shift_amount in mask32 (bit_or (value * 2 ^ s) (value / 2 ^ (32 - s)))

unfoldable pub ror : ℕ → ℕ → ℕ
ror value shift_amount =
    let s = limited shift_amount in mask32 (bit_or (value / 2 ^ s) (value * 2 ^ (32 - s)))

unfoldable pub sext_b : ℕ → ℕ
sext_b value = low_bits 32 (sign_extend (value % 2 ^ 8) 8)

unfoldable pub sext_h : ℕ → ℕ
sext_h value = low_bits 32 (sign_extend (value % 2 ^ 16) 16)

unfoldable pub zext_h : ℕ → ℕ
zext_h value = value % 2 ^ 16

unfoldable pub czero_eqz : ℕ → ℕ → ℕ
czero_eqz operand_a operand_b = if mask32 operand_b == 0 then 0 else mask32 operand_a

unfoldable pub czero_nez : ℕ → ℕ → ℕ
czero_nez operand_a operand_b = if not (mask32 operand_b == 0) then 0 else mask32 operand_a

unfoldable pub amoswap : ℕ → ℕ → ℕ
amoswap old_value rs2_value = mask32 rs2_value

unfoldable pub amoadd : ℕ → ℕ → ℕ
amoadd old_value rs2_value = mask32 (old_value + rs2_value)

unfoldable pub amoxor : ℕ → ℕ → ℕ
amoxor old_value rs2_value = mask32 (bit_xor old_value rs2_value)

unfoldable pub amoand : ℕ → ℕ → ℕ
amoand old_value rs2_value = mask32 (bit_and old_value rs2_value)

unfoldable pub amoor : ℕ → ℕ → ℕ
amoor old_value rs2_value = mask32 (bit_or old_value rs2_value)

unfoldable pub amomin : ℕ → ℕ → ℕ
amomin old_value rs2_value =
    mask32 (if ltb_ℤ (to_signed32 old_value) (to_signed32 rs2_value) then old_value else rs2_value)

unfoldable pub amomax : ℕ → ℕ → ℕ
amomax old_value rs2_value =
    mask32 (if ltb_ℤ (to_signed32 rs2_value) (to_signed32 old_value) then old_value else rs2_value)

unfoldable pub amominu : ℕ → ℕ → ℕ
amominu old_value rs2_value =
    if ltb (mask32 old_value) (mask32 rs2_value) then old_value else rs2_value

unfoldable pub amomaxu : ℕ → ℕ → ℕ
amomaxu old_value rs2_value =
    if ltb (mask32 rs2_value) (mask32 old_value) then old_value else rs2_value
