-- ===== src/Models.antt =====
-- verif/models and verif/utils/riscv_utils.py: the conversions that the instruction-level models
-- share. Register values are natural numbers.
pub mod Memory
pub mod ReadWrite
pub mod MemoryHistory
pub mod Alu
pub mod Branch
pub mod Signed
pub mod Bitmanip
pub mod Muldiv
pub mod Products
pub mod Division
pub mod Quotients
pub mod Shuffle
pub mod Rotate
pub mod Tests
use frost.Prelude.{ℕ, ◌*◌, ◌-◌, ◌%◌, ◌^◌, ℤ, sub_int, bit, mask32}

-- `(val & (sign - 1)) - (val & sign)`
unfoldable pub sign_extend : ℕ → ℕ → ℤ
sign_extend val bits = sub_int (val % 2 ^ (bits - 1)) (bit val (bits - 1) * 2 ^ (bits - 1))

unfoldable pub to_signed32 : ℕ → ℤ
to_signed32 val = sign_extend (mask32 val) 32

abbrev pub to_unsigned32 : ℕ → ℕ
to_unsigned32 val = mask32 val
