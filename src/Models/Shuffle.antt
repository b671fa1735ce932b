-- ===== src/Models/Shuffle.antt =====
-- The bit shuffles, bit by bit.
use Prim.Native.Nat.{max}
use native.Mathlib.Nat.{pow-le-pow_right}
use frost.Prelude.{
  ℕ, zero, suc, ◌+◌, ◌*◌, ◌-◌, ◌/◌, ◌%◌, ◌^◌, ◌≤◌, ◌<◌, ◌≡◌, refl, ap, ◌∙◌, true, false, inl, inr,
  arith, leb, ltb, ◌==◌, ◌&&◌, if◌then◌else◌, bit, mask32, Bool-cases,
}
use frost.Bits.{bit-bit_or, bit-mod, bit-shift, bits-ext, bit_or_lt, zero-bit}
use frost.Models.Bitmanip.{copy_bit, zip_from, zip_rv, unzip_from, unzip}

bit-one : (k : ℕ) → bit 1 k ≡ (if k == 0 then 1 else 0)
bit-one k = bit-mod 1 1 k ∙ one_bit k
  where
    one_bit : (k : ℕ) → (if ltb k 1 then bit 1 k else 0) ≡ (if k == 0 then 1 else 0)
    one_bit zero = refl
    one_bit (suc k) = ground arith

-- Bit `k` of a number with one bit.
bit-power : (to k : ℕ) → bit (2 ^ to) k ≡ (if k == to then 1 else 0)
bit-power to k =
    ap (λ x. bit x k) (omega arith)
    ∙ bit-shift to 1 k
    ∙ ap (λ b. if leb to k then b else 0) (bit-one (k - to))
    ∙ ground arith

bit-copy_bit :
    (v from to r k : ℕ)
    → bit (copy_bit v from to r) k ≡ (if k == to then max (bit r k) (bit v from) else bit r k)
unfolding copy_bit
bit-copy_bit v from to r k = elim (Bool-cases (bit v from == 1)) [
  | inl o ↦ rw (o, bit-bit_or k r (2 ^ to), bit-power to k) (on (bit r k) (bit v from) o)
  | inr z ↦ rw z (off (bit r k) (bit v from) z (bit-lt v from))
]
  where
    bit-lt : (v k : ℕ) → bit v k < 2
    bit-lt v k = omega arith

    on :
        (a b : ℕ)
        → (b == 1) ≡ true
        → max a (if k == to then 1 else 0) ≡ (if k == to then max a b else a)
    on a b o = ground arith

    off : (a b : ℕ) → (b == 1) ≡ false → b < 2 → a ≡ (if k == to then max a b else a)
    off a b z lt = ground arith

-- The bit of a word that `zip_rv` puts at bit `k`.
abbrev zip_source : ℕ → ℕ
zip_source k = if k % 2 == 0 then k / 2 else k / 2 + 16

-- One round of the loop, bit by bit.
zip_round :
    (v i r k : ℕ)
    → bit (copy_bit v (i + 16) (2 * i + 1) (copy_bit v i (2 * i) r)) k
      ≡ (if k / 2 == i then max (bit r k) (bit v (zip_source k)) else bit r k)
zip_round v i r k =
    bit-copy_bit v (i + 16) (2 * i + 1) (copy_bit v i (2 * i) r) k
    ∙ ap (λ b. if k == 2 * i + 1 then max b (bit v (i + 16)) else b) (bit-copy_bit v i (2 * i) r k)
    ∙ elim (Bool-cases (k == 2 * i)) [
      | inl e ↦ let h : zip_source k ≡ i = ground arith in rw h (ground arith)
      | inr n ↦ elim (Bool-cases (k == 2 * i + 1)) [
        | inl e ↦ let h : zip_source k ≡ i + 16 = ground arith in rw h (ground arith)
        | inr m ↦ ground arith
      ]
    ]

bit-zip_from :
    (n v i r k : ℕ)
    → bit (zip_from v i n r) k ≡ (
        if leb i (k / 2) && ltb (k / 2) (i + n)
        then max (bit r k) (bit v (zip_source k))
        else bit r k)
unfolding zip_from
bit-zip_from zero v i r k = ground arith
bit-zip_from (suc n) v i r k =
    bit-zip_from n v (i + 1) (copy_bit v (i + 16) (2 * i + 1) (copy_bit v i (2 * i) r)) k
    ∙ rw (zip_round v i r k) (ground arith)

-- The bit of a word that `unzip` puts at bit `k`.
abbrev unzip_source : ℕ → ℕ
unzip_source k = if ltb k 16 then 2 * k else 2 * (k - 16) + 1

unzip_round :
    (v i r k : ℕ)
    → i < 16
    → k < 32
    → bit (copy_bit v (2 * i + 1) (i + 16) (copy_bit v (2 * i) i r)) k
      ≡ (if k % 16 == i then max (bit r k) (bit v (unzip_source k)) else bit r k)
unzip_round v i r k li lk =
    bit-copy_bit v (2 * i + 1) (i + 16) (copy_bit v (2 * i) i r) k
    ∙ ap (λ b. if k == i + 16 then max b (bit v (2 * i + 1)) else b) (bit-copy_bit v (2 * i) i r k)
    ∙ elim (Bool-cases (k == i)) [
      | inl e ↦ let h : unzip_source k ≡ 2 * i = ground arith in rw h (ground arith)
      | inr n ↦ elim (Bool-cases (k == i + 16)) [
        | inl e ↦ let h : unzip_source k ≡ 2 * i + 1 = ground arith in rw h (ground arith)
        | inr m ↦ ground arith
      ]
    ]

bit-unzip_from :
    (n v i r k : ℕ)
    → i + n ≤ 16
    → k < 32
    → bit (unzip_from v i n r) k ≡ (
        if leb i (k % 16) && ltb (k % 16) (i + n)
        then max (bit r k) (bit v (unzip_source k))
        else bit r k)
unfolding unzip_from
bit-unzip_from zero v i r k h lk = ground arith
bit-unzip_from (suc n) v i r k h lk =
    bit-unzip_from n v (i + 1) (copy_bit v (2 * i + 1) (i + 16) (copy_bit v (2 * i) i r)) k
      (omega arith) lk
    ∙ rw (unzip_round v i r k (omega arith) lk) (ground arith)

-- A bit that is copied to a place in a word leaves a word.
copy_bit_lt : (v from to r : ℕ) → to < 32 → r < 2 ^ 32 → copy_bit v from to r < 2 ^ 32
unfolding copy_bit
copy_bit_lt v from to r h lt = elim (Bool-cases (bit v from == 1)) [
  | inl e ↦ rw e (
      bit_or_lt 32 r (2 ^ to) lt
        (omega (arith, pow-le-pow_right {n = 2} (omega arith) {i = to} {j = 31} (omega arith))))
  | inr n ↦ rw n lt
]

zip_from_lt : (n v i r : ℕ) → i + n ≤ 16 → r < 2 ^ 32 → zip_from v i n r < 2 ^ 32
unfolding zip_from
zip_from_lt zero v i r h lt = lt
zip_from_lt (suc n) v i r h lt = zip_from_lt n v (i + 1) _ (omega arith) (
    copy_bit_lt v (i + 16) (2 * i + 1) _ (omega arith) (copy_bit_lt v i (2 * i) r (omega arith) lt))

unzip_from_lt : (n v i r : ℕ) → i + n ≤ 16 → r < 2 ^ 32 → unzip_from v i n r < 2 ^ 32
unfolding unzip_from
unzip_from_lt zero v i r h lt = lt
unzip_from_lt (suc n) v i r h lt = unzip_from_lt n v (i + 1) _ (omega arith) (
    copy_bit_lt v (2 * i + 1) (i + 16) _ (omega arith) (copy_bit_lt v (2 * i) i r (omega arith) lt))

-- Bit `k` of a word that `zip_rv` shuffled.
bit-zip_rv : (v k : ℕ) → v < 2 ^ 32 → k < 32 → bit (zip_rv v) k ≡ bit v (zip_source k)
unfolding zip_rv
bit-zip_rv v k lt lk =
    let word : v % 2 ^ 32 ≡ v = omega arith in
    rw word (bit-zip_from 16 v 0 0 k ∙ rw (zero-bit k) (ground arith))

bit-unzip : (v k : ℕ) → v < 2 ^ 32 → k < 32 → bit (unzip v) k ≡ bit v (unzip_source k)
unfolding unzip
bit-unzip v k lt lk =
    let word : v % 2 ^ 32 ≡ v = omega arith in
    rw word (bit-unzip_from 16 v 0 0 k (omega arith) lk ∙ rw (zero-bit k) (ground arith))

zip_rv_lt : (v : ℕ) → zip_rv v < 2 ^ 32
unfolding zip_rv
zip_rv_lt v = zip_from_lt 16 (mask32 v) 0 0 (omega arith) (omega arith)

unzip_lt : (v : ℕ) → unzip v < 2 ^ 32
unfolding unzip
unzip_lt v = unzip_from_lt 16 (mask32 v) 0 0 (omega arith) (omega arith)

-- On words, the interleaving and the deinterleaving of the bits undo each other.
pub unzip-zip_rv : (v : ℕ) → v < 2 ^ 32 → (unzip (zip_rv v) ≡ v) × (zip_rv (unzip v) ≡ v)
unzip-zip_rv v lt = (
  bits-ext 32 (unzip (zip_rv v)) v (unzip_lt (zip_rv v)) lt (λ k h.
      bit-unzip (zip_rv v) k (zip_rv_lt v) h
      ∙ bit-zip_rv v (unzip_source k) lt (ground arith)
      ∙ ap (bit v) (ground arith)),
  bits-ext 32 (zip_rv (unzip v)) v (zip_rv_lt (unzip v)) lt (λ k h.
      bit-zip_rv (unzip v) k (unzip_lt v) h
      ∙ bit-unzip v (zip_source k) lt (ground arith)
      ∙ ap (bit v) (ground arith)),
)
