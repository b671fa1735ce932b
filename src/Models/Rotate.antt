-- ===== src/Models/Rotate.antt =====
-- Rotations, bit by bit.
use native.Mathlib.Nat.{mod-eq_of_lt}
use frost.Prelude.{
  ℕ, ◌+◌, ◌*◌, ◌-◌, ◌/◌, ◌%◌, ◌^◌, ◌≤◌, ◌<◌, ◌≡◌, sym, ap, ◌∙◌, inl, inr, arith, leb, bit, bit_or,
  Bool-cases,
}
use frost.Bits.{bit-bit_or, bit-div, bit-mod, bit-shift, bits-ext}
use frost.Models.Alu.{limited, rol, ror}

-- A word has no bit at 32 or above.
pub no_bit : (v k : ℕ) → v < 2 ^ 32 → 32 ≤ k → bit v k ≡ 0
no_bit v k lt h =
    ap (λ x. bit x k) (sym (mod-eq_of_lt {n = v} {m = 2 ^ 32} lt)) ∙ bit-mod 32 v k ∙ ground arith

-- Bit `k` of a word rotated left comes from as many bits below, round the word.
rol-bit : (v s k : ℕ) → v < 2 ^ 32 → k < 32 → bit (rol v s) k ≡ bit v ((k + (32 - s % 32)) % 32)
unfolding rol
rol-bit v s k lt h =
    rw
      (
        bit-mod 32 (bit_or (v * 2 ^ limited s) (v / 2 ^ (32 - limited s))) k,
        bit-bit_or k (v * 2 ^ limited s) (v / 2 ^ (32 - limited s)),
        bit-shift (limited s) v k,
        bit-div (32 - limited s) v k,
      )
      (elim (Bool-cases (leb (limited s) k)) [
        | inl up ↦
            let z : bit v (32 - limited s + k) ≡ 0 =
              no_bit v (32 - limited s + k) lt (ground arith) in
            let e : (k + (32 - s % 32)) % 32 ≡ k - limited s = ground arith in
            rw (up, z, e) (ground arith)
        | inr down ↦
            let e : (k + (32 - s % 32)) % 32 ≡ 32 - limited s + k = ground arith in
            rw (down, e) (ground arith)
      ])

-- Bit `k` of a word rotated right comes from as many bits above, round the word.
ror-bit : (v s k : ℕ) → v < 2 ^ 32 → k < 32 → bit (ror v s) k ≡ bit v ((k + s % 32) % 32)
unfolding ror
ror-bit v s k lt h =
    rw
      (
        bit-mod 32 (bit_or (v / 2 ^ limited s) (v * 2 ^ (32 - limited s))) k,
        bit-bit_or k (v / 2 ^ limited s) (v * 2 ^ (32 - limited s)),
        bit-shift (32 - limited s) v k,
        bit-div (limited s) v k,
      )
      (elim (Bool-cases (leb (32 - limited s) k)) [
        | inl up ↦
            let z : bit v (limited s + k) ≡ 0 = no_bit v (limited s + k) lt (ground arith) in
            let e : (k + s % 32) % 32 ≡ k - (32 - limited s) = ground arith in
            rw (up, z, e) (ground arith)
        | inr down ↦
            let e : (k + s % 32) % 32 ≡ limited s + k = ground arith in rw (down, e) (ground arith)
      ])

rol_lt : (v s : ℕ) → rol v s < 2 ^ 32
unfolding rol
rol_lt v s = omega arith

ror_lt : (v s : ℕ) → ror v s < 2 ^ 32
unfolding ror
ror_lt v s = omega arith

-- On words, rotating left and rotating right by the same amount undo each other, whatever the amount.
pub ror-rol : (v s : ℕ) → v < 2 ^ 32 → (ror (rol v s) s ≡ v) × (rol (ror v s) s ≡ v)
ror-rol v s lt = (
  bits-ext 32 (ror (rol v s) s) v (ror_lt (rol v s) s) lt (λ k h.
      ror-bit (rol v s) s k (rol_lt v s) h
      ∙ rol-bit v s ((k + s % 32) % 32) lt (omega arith)
      ∙ ap (bit v) (ground arith)),
  bits-ext 32 (rol (ror v s) s) v (rol_lt (ror v s) s) lt (λ k h.
      rol-bit (ror v s) s k (ror_lt v s) h
      ∙ ror-bit v s ((k + (32 - s % 32)) % 32) lt (omega arith)
      ∙ ap (bit v) (ground arith)),
)
