-- ===== src/Models/Bitmanip.antt =====
-- verif/models/alu_model.py: the evaluators that permute or count bits. A loop over bit numbers is a
-- recursion on how many are left.
use frost.Prelude.{ℕ, zero, suc, ◌+◌, ◌*◌, ◌/◌, ◌%◌, ◌^◌, ◌==◌, if◌then◌else◌, bit, bit_or, mask32}

-- `if value & (1 << from): result |= 1 << to`
unfoldable pub copy_bit : ℕ → ℕ → ℕ → ℕ → ℕ
copy_bit value from to result = if bit value from == 1 then bit_or result (2 ^ to) else result

-- The loop of `zip_rv` from bit `i` on, `n` times.
unfoldable pub zip_from : ℕ → ℕ → ℕ → ℕ → ℕ
zip_from value i zero result = result
zip_from value i (suc n) result =
    zip_from value (i + 1) n (copy_bit value (i + 16) (2 * i + 1) (copy_bit value i (2 * i) result))

unfoldable pub zip_rv : ℕ → ℕ
zip_rv value = zip_from (mask32 value) 0 16 0

-- The loop of `unzip` from bit `i` on, `n` times.
unfoldable pub unzip_from : ℕ → ℕ → ℕ → ℕ → ℕ
unzip_from value i zero result = result
unzip_from value i (suc n) result =
    unzip_from value (i + 1) n
      (copy_bit value (2 * i + 1) (i + 16) (copy_bit value (2 * i) i result))

unfoldable pub unzip : ℕ → ℕ
unzip value = unzip_from (mask32 value) 0 16 0

unfoldable pub rev8 : ℕ → ℕ
rev8 value =
    let v = mask32 value in
    let byte0 = (v / 2 ^ 0) % 2 ^ 8 in
    let byte1 = (v / 2 ^ 8) % 2 ^ 8 in
    let byte2 = (v / 2 ^ 16) % 2 ^ 8 in
    let byte3 = (v / 2 ^ 24) % 2 ^ 8 in
    bit_or (bit_or (bit_or (byte0 * 2 ^ 24) (byte1 * 2 ^ 16)) (byte2 * 2 ^ 8)) byte3

unfoldable pub pack : ℕ → ℕ → ℕ
pack operand_a operand_b = bit_or ((operand_b % 2 ^ 16) * 2 ^ 16) (operand_a % 2 ^ 16)

unfoldable pub packh : ℕ → ℕ → ℕ
packh operand_a operand_b = bit_or ((operand_b % 2 ^ 8) * 2 ^ 8) (operand_a % 2 ^ 8)

-- The loop of `clz` down from bit `i - 1`.
unfoldable pub clz_from : ℕ → ℕ → ℕ → ℕ
clz_from value zero count = count
clz_from value (suc i) count =
    let rest = clz_from value i (count + 1) in if bit value i == 1 then count else rest

unfoldable pub clz : ℕ → ℕ
clz value = if mask32 value == 0 then 32 else clz_from (mask32 value) 32 0

-- The loop of `ctz` up from bit `i`, at most `n` times.
unfoldable pub ctz_from : ℕ → ℕ → ℕ → ℕ → ℕ
ctz_from value i zero count = count
ctz_from value i (suc n) count =
    let rest = ctz_from value (i + 1) n (count + 1) in if bit value i == 1 then count else rest

unfoldable pub ctz : ℕ → ℕ
ctz value = if mask32 value == 0 then 32 else ctz_from (mask32 value) 0 32 0
