-- ===== src/Models/Signed.antt =====
-- Sign extension is the value of the two's complement word, and the comparisons agree on it.
use mathlib.Core.Option
use frost.Prelude.{
  ℕ, zero, suc, ◌+◌, ◌*◌, ◌-◌, ◌%◌, ◌^◌, ◌<◌, ◌≡◌, refl, ap, ◌∙◌, true, false, not, some, arith,
  ltb, ◌==◌, if◌then◌else◌, bit, mask32, pos, negsuc, signed, ltb_ℤ, sub_int, Bool-cases, inl, inr,
}
use native.Mathlib.Nat.{mod-lt, one-le-pow}
use frost.Bits.{mod-high, two-pow-suc}
use frost.Models.{sign_extend, to_signed32}
use frost.Models.Alu.{slt, sltu, max_rv, min_rv, maxu, minu}
use frost.Models.Branch.{branch_taken_decision}

-- `sign_extend(val, bits)` is the int whose two's complement word of so many bits is the low part of
-- the value, at every width.
pub sign_extend-signed : (val w : ℕ) → sign_extend val (suc w) ≡ signed (suc w) (val % 2 ^ suc w)
unfolding sign_extend
sign_extend-signed val w =
    let half : suc w - 1 ≡ w = omega arith in
    let small : val % 2 ^ w < 2 ^ w = mod-lt val (one-le-pow w 2 (omega arith)) in
    rw (half, mod-high w val)
      (split (val % 2 ^ w) (bit val w) (2 ^ w) (2 ^ suc w) small (omega arith) (two-pow-suc w))
  where
    split :
        (low high half whole : ℕ)
        → low < half
        → high < 2
        → whole ≡ 2 * half
        → sub_int low (high * half) ≡ (
            if ltb (low + high * half) half
            then pos (low + high * half)
            else negsuc (whole - 1 - (low + high * half)))
    split low zero half whole h b e =
        let none_high : 0 * half ≡ 0 = omega arith in rw none_high (ground arith)
    split low (suc zero) half whole h b e =
        let one_high : 1 * half ≡ half = omega arith in rw one_high (ground arith)
    split low (suc (suc n)) half whole h b e = absurd (omega arith)

-- Two words with the same value are the same.
to_signed32-injective :
    (a b : ℕ)
    → a < 2 ^ 32
    → b < 2 ^ 32
    → ltb_ℤ (to_signed32 a) (to_signed32 b) ≡ false
    → ltb_ℤ (to_signed32 b) (to_signed32 a) ≡ false
    → a ≡ b
unfolding to_signed32
to_signed32-injective a b la lb p q =
    signed-injective a b la lb (rw (value a la, value b lb) at p) (rw (value b lb, value a la) at q)
  where
    value : (x : ℕ) → x < 2 ^ 32 → sign_extend (mask32 x) 32 ≡ signed 32 x
    value x lx = sign_extend-signed (mask32 x) 31 ∙ ap (signed 32) (omega arith)

    signed-injective :
        (x y : ℕ)
        → x < 2 ^ 32
        → y < 2 ^ 32
        → ltb_ℤ (signed 32 x) (signed 32 y) ≡ false
        → ltb_ℤ (signed 32 y) (signed 32 x) ≡ false
        → x ≡ y
    signed-injective x y lx ly p q = ground arith

-- The branches take the decisions of the set-if-less-than operations, signed and unsigned, and each
-- of the six mnemonics is the negation of its opposite.
pub branches-slt :
    (a b : ℕ)
    → (branch_taken_decision "blt" a b ≡ some (slt a b == 1))
      × (branch_taken_decision "bltu" a b ≡ some (sltu a b == 1))
      × (branch_taken_decision "bge" a b ≡ Option.map not (branch_taken_decision "blt" a b))
      × (branch_taken_decision "bgeu" a b ≡ Option.map not (branch_taken_decision "bltu" a b))
      × (branch_taken_decision "bne" a b ≡ Option.map not (branch_taken_decision "beq" a b))
unfolding branch_taken_decision slt sltu
branches-slt a b = (
  elim (Bool-cases (ltb_ℤ (to_signed32 a) (to_signed32 b))) [
    | inl t ↦ rw t refl
    | inr t ↦ rw t refl
  ],
  elim (Bool-cases (ltb (mask32 a) (mask32 b))) [ inl t ↦ rw t refl | inr t ↦ rw t refl ],
  refl,
  refl,
  refl,
)

module _ (a b : ℕ) where
  -- The signed order is not both ways.
  asymmetric :
      ltb_ℤ (to_signed32 a) (to_signed32 b) ≡ true
      → ltb_ℤ (to_signed32 b) (to_signed32 a) ≡ true
      → ⊥
  asymmetric p q = ground arith

  irreflexive : ltb_ℤ (to_signed32 a) (to_signed32 a) ≡ false
  irreflexive = ground arith

signed_extremes :
    (a b : ℕ)
    → a < 2 ^ 32
    → b < 2 ^ 32
    → (min_rv a b + max_rv a b ≡ a + b) × (slt (max_rv a b) (min_rv a b) ≡ 0)
unfolding min_rv max_rv slt
signed_extremes a b la lb = elim (Bool-cases (ltb_ℤ (to_signed32 a) (to_signed32 b))) [
  | inl p ↦ elim (Bool-cases (ltb_ℤ (to_signed32 b) (to_signed32 a))) [
    | inl q ↦ absurd (asymmetric a b p q)
    | inr q ↦ rw (p, q) (refl, rw q refl)
  ]
  | inr p ↦ elim (Bool-cases (ltb_ℤ (to_signed32 b) (to_signed32 a))) [
    | inl q ↦ rw (p, q) (omega arith, rw p refl)
    | inr q ↦
        let same : a ≡ b = to_signed32-injective a b la lb p q in
        rw (p, q) (omega arith, rw (irreflexive b b) refl)
  ]
]

unsigned_extremes :
    (a b : ℕ)
    → a < 2 ^ 32
    → b < 2 ^ 32
    → (minu a b + maxu a b ≡ a + b) × (sltu (maxu a b) (minu a b) ≡ 0)
unfolding minu maxu sltu
unsigned_extremes a b la lb = (ground arith, ground arith)

-- For words the minimum and the maximum are the two operands, the smaller one first, in the signed
-- and in the unsigned order.
pub extremes-ordered :
    (a b : ℕ)
    → a < 2 ^ 32
    → b < 2 ^ 32
    → ((min_rv a b + max_rv a b ≡ a + b) × (slt (max_rv a b) (min_rv a b) ≡ 0))
      × ((minu a b + maxu a b ≡ a + b) × (sltu (maxu a b) (minu a b) ≡ 0))
extremes-ordered a b la lb = (signed_extremes a b la lb, unsigned_extremes a b la lb)
