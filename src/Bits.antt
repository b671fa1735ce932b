-- ===== src/Bits.antt =====
-- The bits of a number: those of `a | b`, of `x << p`, of `x >> p` and of `x & (2 ** w - 1)`, and that
-- they determine it.
use Prim.Native.Nat.{max, digits, bit_or-bitwise}
use native.Mathlib.Nat.{
  pow-suc, one-le-pow, div-div-eq-div-mul, div-add-mod, mul_assoc, add-mul-mod_self_left,
  mod-eq_of_lt, mod-lt, pow-le-pow_right,
}
use frost.Prelude.{
  ℕ, zero, suc, ◌+◌, ◌*◌, ◌-◌, ◌/◌, ◌%◌, ◌^◌, ◌≤◌, ◌<◌, ◌≡◌, refl, sym, ap, ◌∙◌, arith, leb, ltb,
  if◌then◌else◌, bit, bit_or,
}

-- One digit of `|`, with no fuel.
abbrev or_digits : ℕ → ℕ → ℕ → ℕ
or_digits n a b = digits (λ c. c) max n a b

-- Fuel that reaches the number does not count.
or_digits-enough : (n m a b : ℕ) → a ≤ n → a ≤ m → or_digits n a b ≡ or_digits m a b
or_digits-enough zero zero a b h k = refl
or_digits-enough zero (suc m) a b h k = let z : a ≡ 0 = omega arith in rw z refl
or_digits-enough (suc n) zero a b h k = let z : a ≡ 0 = omega arith in rw z refl
or_digits-enough (suc n) (suc m) zero b h k = refl
or_digits-enough (suc n) (suc m) (suc a) b h k =
    ap (λ d. d * 2 + max (suc a % 2) (b % 2))
      (or_digits-enough n m (suc a / 2) (b / 2) (omega arith) (omega arith))

zero-bit_or : (b : ℕ) → bit_or 0 b ≡ b
zero-bit_or b = bit_or-bitwise 0 b

pub bit_or_step : (a b : ℕ) → bit_or a b ≡ bit_or (a / 2) (b / 2) * 2 + max (a % 2) (b % 2)
bit_or_step zero b = ground (arith, zero-bit_or b, zero-bit_or (b / 2))
bit_or_step (suc a) b = omega (
  arith,
  bit_or-bitwise (suc a) b,
  bit_or-bitwise (suc a / 2) (b / 2),
  or_digits-enough a (suc a / 2) (suc a / 2) (b / 2) (omega arith) (omega arith),
)

pub two-pow-suc : (k : ℕ) → 2 ^ suc k ≡ 2 * 2 ^ k
two-pow-suc k = omega (arith, pow-suc 2 k)

pub bit-suc : (a k : ℕ) → bit a (suc k) ≡ bit (a / 2) k
bit-suc a k =
    ap (λ d. (a / d) % 2) (two-pow-suc k) ∙ ap (λ d. d % 2) (sym (div-div-eq-div-mul a 2 (2 ^ k)))

pub bit-zero : (a : ℕ) → bit a 0 ≡ a % 2
bit-zero a = omega arith

pub bit-bit_or : (k a b : ℕ) → bit (bit_or a b) k ≡ max (bit a k) (bit b k)
bit-bit_or zero a b = ground (arith, bit_or_step a b)
bit-bit_or (suc k) a b =
    let half : bit_or a b / 2 ≡ bit_or (a / 2) (b / 2) = ground (arith, bit_or_step a b) in
    rw (bit-suc (bit_or a b) k, bit-suc a k, bit-suc b k, half) (bit-bit_or k (a / 2) (b / 2))

pub bit-div : (p a k : ℕ) → bit (a / 2 ^ p) k ≡ bit a (p + k)
bit-div zero a k = let e : a / 1 ≡ a = omega arith in let f : 0 + k ≡ k = omega arith in rw (e, f)
bit-div (suc p) a k =
    let half : a / 2 ^ suc p ≡ a / 2 / 2 ^ p =
      ap (λ d. a / d) (two-pow-suc p) ∙ sym (div-div-eq-div-mul a 2 (2 ^ p)) in
    let f : suc p + k ≡ suc (p + k) = omega arith in
    rw (half, f, bit-suc a (p + k)) (bit-div p (a / 2) k)

-- The lowest bit and the rest, of a remainder and of a shift.
pub mod-half : (w a : ℕ) → a % 2 ^ suc w ≡ (a / 2 % 2 ^ w) * 2 + a % 2
mod-half w a =
    let whole : a ≡ (a / 2 % 2 ^ w) * 2 + a % 2 + 2 ^ suc w * (a / 2 / 2 ^ w) = omega (
      arith,
      div-add-mod (a / 2) (2 ^ w),
      ap (λ d. d * (a / 2 / 2 ^ w)) (two-pow-suc w) ∙ mul_assoc 2 (2 ^ w) (a / 2 / 2 ^ w),
    ) in
    let small : a / 2 % 2 ^ w < 2 ^ w = mod-lt (a / 2) (one-le-pow w 2 (omega arith)) in
    ap (λ x. x % 2 ^ suc w) whole
    ∙ add-mul-mod_self_left ((a / 2 % 2 ^ w) * 2 + a % 2) (2 ^ suc w) (a / 2 / 2 ^ w)
    ∙ mod-eq_of_lt (omega (arith, small, two-pow-suc w))

shift-half : (p a : ℕ) → a * 2 ^ suc p ≡ (a * 2 ^ p) * 2
shift-half p a = ap (λ d. a * d) (pow-suc 2 p) ∙ sym (mul_assoc a (2 ^ p) 2)

pub zero-bit : (k : ℕ) → bit 0 k ≡ 0
zero-bit zero = refl
zero-bit (suc k) = bit-suc 0 k ∙ zero-bit k

pub bit-mod : (w a k : ℕ) → bit (a % 2 ^ w) k ≡ (if ltb k w then bit a k else 0)
bit-mod zero a k = let e : a % 1 ≡ 0 = omega arith in rw (e, zero-bit k) (ground arith)
bit-mod (suc w) a zero = rw (mod-half w a) (ground arith)
bit-mod (suc w) a (suc k) =
    let e : a % 2 ^ suc w / 2 ≡ a / 2 % 2 ^ w = omega (arith, mod-half w a) in
    rw (bit-suc (a % 2 ^ suc w) k, e, bit-suc a k, bit-mod w (a / 2) k) (ground arith)

pub bit-shift : (p a k : ℕ) → bit (a * 2 ^ p) k ≡ (if leb p k then bit a (k - p) else 0)
bit-shift zero a k = let e : a * 1 ≡ a = omega arith in rw e (ground arith)
bit-shift (suc p) a zero = rw (shift-half p a) (ground arith)
bit-shift (suc p) a (suc k) =
    let e : a * 2 ^ suc p / 2 ≡ a * 2 ^ p = omega (arith, shift-half p a) in
    rw (bit-suc (a * 2 ^ suc p) k, e, bit-shift p a k) (ground arith)

pub bits-ext : (w a b : ℕ) → a < 2 ^ w → b < 2 ^ w → ((k : ℕ) → k < w → bit a k ≡ bit b k) → a ≡ b
bits-ext zero a b h k same = omega arith
bits-ext (suc w) a b h k same = omega (
  arith,
  same 0 (omega arith),
  bits-ext w (a / 2) (b / 2) (omega (arith, two-pow-suc w)) (omega (arith, two-pow-suc w))
      (λ i lt. sym (bit-suc a i) ∙ same (suc i) (omega arith) ∙ bit-suc b i),
)

pub bit_or_lt : (n a b : ℕ) → a < 2 ^ n → b < 2 ^ n → bit_or a b < 2 ^ n
bit_or_lt zero a b h k =
    let ea : a ≡ 0 = omega arith in let eb : b ≡ 0 = omega arith in rw (ea, eb) (omega arith)
bit_or_lt (suc n) a b h k = omega (
  arith,
  two-pow-suc n,
  bit_or_step a b,
  bit_or_lt n (a / 2) (b / 2) (omega (arith, two-pow-suc n)) (omega (arith, two-pow-suc n)),
)

pub shift_lt : (p w n a : ℕ) → a < 2 ^ w → p + w ≤ n → a * 2 ^ p < 2 ^ n
shift_lt zero w n a h k =
    let wide : 2 ^ w ≤ 2 ^ n = pow-le-pow_right {n = 2} (omega arith) (omega arith) in omega arith
shift_lt (suc p) w zero a h k = absurd (omega arith)
shift_lt (suc p) w (suc n) a h k =
    omega (arith, shift-half p a, two-pow-suc n, shift_lt p w n a h (omega arith))

-- `a | x << p` is a sum when `a` has `p` bits.
pub bit_or-shift : (p a x : ℕ) → a < 2 ^ p → bit_or a (x * 2 ^ p) ≡ a + x * 2 ^ p
bit_or-shift zero a x h =
    let z : a ≡ 0 = omega arith in
    let e : x * 1 ≡ x = omega arith in rw (z, e) (omega (arith, zero-bit_or x))
bit_or-shift (suc p) a x h = omega (
  arith,
  two-pow-suc p,
  shift-half p x,
  bit_or_step a (x * 2 ^ suc p),
  bit_or-shift p (a / 2) x (omega (arith, two-pow-suc p)),
  halved,
)
  where
    halved : bit_or (a / 2) (x * 2 ^ suc p / 2) ≡ bit_or (a / 2) (x * 2 ^ p)
    halved = ap (bit_or (a / 2)) (omega (arith, shift-half p x))

-- The highest bit of a remainder and the rest.
pub mod-high : (w a : ℕ) → a % 2 ^ suc w ≡ a % 2 ^ w + bit a w * 2 ^ w
mod-high zero a = omega arith
mod-high (suc w) a = omega (
  arith,
  mod-half (suc w) a,
  mod-half w a,
  mod-high w (a / 2),
  shift-half w (bit (a / 2) w),
  ap (λ b. b * 2 ^ suc w) (bit-suc a w),
)
