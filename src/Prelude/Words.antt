-- ===== src/Prelude/Words.antt =====
-- Fixed-width words: `x & (2 ^ k - 1)` of a Python int that is not negative is `x % 2 ^ k`.
use Prim.Native.Nat.{ℕ, zero, suc, ◌+◌, ◌-◌, ◌/◌, ◌%◌, ◌^◌, ◌<◌}
use mathlib.Core.Path.{◌≡◌}
use mathlib.Core.Bool.{Bool, true, ◌&&◌}
use native.Mathlib.Omega.{arith}

-- `x & MASK32` and `x & MASK64`.
abbrev pub mask32 : ℕ → ℕ
mask32 x = x % 2 ^ 32

abbrev pub mask64 : ℕ → ℕ
mask64 x = x % 2 ^ 64

-- `XLEN` of verif/config.py for the 32-bit core; with FROST_RV64=1 in the environment it is 64.
abbrev pub xlen : ℕ
xlen = 32

-- `x & ((1 << XLEN) - 1)`, the MASK32 of both memory queues.
abbrev pub mask_xlen : ℕ → ℕ
mask_xlen x = x % 2 ^ xlen

-- `(mask >> k) & 1`
abbrev pub bit : ℕ → ℕ → ℕ
bit mask k = (mask / 2 ^ k) % 2

-- Python's `(a - b) % m` of two ints that are not negative: the result lies in [0, m).
abbrev pub sub_mod : ℕ → ℕ → ℕ → ℕ
sub_mod m a b = (a + (m - b % m)) % m

-- A test of every number below a bound, by evaluation.
abbrev pub all_below : ℕ → (ℕ → Bool) → Bool
all_below zero p = true
all_below (suc n) p = p n && all_below n p

pub all_below_sound : (n : ℕ) (p : ℕ → Bool) (x : ℕ) → all_below n p ≡ true → x < n → p x ≡ true
all_below_sound zero p x h lt = absurd (omega arith)
all_below_sound (suc n) p x h lt = ground (arith, all_below_sound n p x)
