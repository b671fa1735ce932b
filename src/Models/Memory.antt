-- ===== src/Models/Memory.antt =====
-- verif/models/memory_model.py: class MemoryModel without its simulator handles, that is the
-- dictionary of bytes. Addresses and values are not negative.
use frost.Prelude.{
  ℕ, ◌+◌, ◌*◌, ◌/◌, ◌%◌, ◌^◌, ◌==◌, if◌then◌else◌, bit_or, mask32, List, [], ◌∷◌, Option, none,
  some,
}

-- `ram_bytes`: what `get` finds for each key.
pub record Memory : Type 0 where
  pub ram_bytes : ℕ → Option ℕ

-- `{}`
abbrev pub no_bytes : Memory
no_bytes = record { ram_bytes = λ address. none }

-- `address & MEMORY_ADDRESS_MASK`
abbrev pub key : ℕ → ℕ
key address = address % 2 ^ 16

abbrev pub or_zero : Option ℕ → ℕ
or_zero none = 0
or_zero (some b) = b

unfoldable pub read_byte : Memory → ℕ → ℕ
read_byte m address = or_zero (m.ram_bytes (key address))

unfoldable pub write_byte : Memory → ℕ → ℕ → Memory
write_byte m address value = record {
  ram_bytes = λ k. if k == key address then some (value % 2 ^ 8) else m.ram_bytes k;
}

-- `address & MEMORY_WORD_ALIGN_MASK` and `address & MEMORY_DWORD_ALIGN_MASK`
abbrev pub word_aligned : ℕ → ℕ
word_aligned address = ((address % 2 ^ 32) / 4) * 4

abbrev pub dword_aligned : ℕ → ℕ
dword_aligned address = ((address % 2 ^ 32) / 8) * 8

unfoldable pub read_word : Memory → ℕ → ℕ
read_word m address =
    let a = word_aligned address in
    bit_or
      (bit_or (bit_or (read_byte m a) (read_byte m (a + 1) * 2 ^ 8)) (read_byte m (a + 2) * 2 ^ 16))
      (read_byte m (a + 3) * 2 ^ 24)

unfoldable pub write_word : Memory → ℕ → ℕ → Memory
write_word m address value =
    let a = word_aligned address in
    let m1 = write_byte m a (value % 2 ^ 8) in
    let m2 = write_byte m1 (a + 1) ((value / 2 ^ 8) % 2 ^ 8) in
    let m3 = write_byte m2 (a + 2) ((value / 2 ^ 16) % 2 ^ 8) in
    write_byte m3 (a + 3) ((value / 2 ^ 24) % 2 ^ 8)

unfoldable pub read_dword : Memory → ℕ → ℕ
read_dword m address =
    let a = dword_aligned address in bit_or (read_word m a) (read_word m (a + 4) * 2 ^ 32)

unfoldable pub write_dword : Memory → ℕ → ℕ → Memory
write_dword m address value =
    let a = dword_aligned address in
    write_word (write_word m a (mask32 value)) (a + 4) (mask32 (value / 2 ^ 32))

-- The loop of `__init__` over the rows of the simulated memory from `row` on.
unfoldable pub load_rows : Memory → ℕ → List ℕ → Memory
load_rows m row [] = m
load_rows m row (value ∷ rows) = load_rows (write_dword m (row * 8) value) (row + 1) rows
