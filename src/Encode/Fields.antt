-- ===== src/Encode/Fields.antt =====
-- What packing fields into a word promises: fields that do not overlap are read back.
use native.Mathlib.Nat.{one-le-pow, mod-lt}
use frost.Prelude.{
  ℕ, ◌+◌, ◌-◌, ◌/◌, ◌%◌, ◌^◌, ◌<◌, ◌≡◌, refl, sym, ap₂, ◌∙◌, Bool, true, ◌&&◌, ◌||◌, List, [], ◌∷◌,
  map, arith, leb, ltb, if◌then◌else◌, bit, bit_or,
}
use frost.Bits.{bit-bit_or, bit-div, bit-mod, bit-shift, bits-ext, bit_or_lt, shift_lt, zero-bit}
use frost.Encode.{Field, placed, pack_from, pack_bits}

-- The bits of a word at a field's place, and the value that a field has there.
abbrev pub read : ℕ → Field → ℕ
read word f = (word / 2 ^ f.position) % 2 ^ f.width

abbrev pub content : Field → ℕ
content f = f.value % 2 ^ f.width

-- Two fields have no bit in common.
abbrev pub apart : Field → Field → Bool
apart f g = leb (f.position + f.width) g.position || leb (g.position + g.width) f.position

abbrev pub all_apart : Field → List Field → Bool
all_apart f [] = true
all_apart f (g ∷ gs) = apart f g && all_apart f gs

abbrev pub disjoint : List Field → Bool
disjoint [] = true
disjoint (f ∷ fs) = all_apart f fs && disjoint fs

abbrev pub within : ℕ → List Field → Bool
within n [] = true
within n (f ∷ fs) = leb (f.position + f.width) n && within n fs

bit-placed :
    (f : Field) (k : ℕ)
    → bit (placed f) k ≡ (
        if leb f.position k
        then (if ltb (k - f.position) f.width then bit f.value (k - f.position) else 0)
        else 0)
unfolding placed
bit-placed f k =
    rw (bit-shift f.position (f.value % 2 ^ f.width) k, bit-mod f.width f.value (k - f.position))
      refl

bit-read :
    (word : ℕ) (f : Field) (k : ℕ) → k < f.width → bit (read word f) k ≡ bit word (f.position + k)
bit-read word f k h =
    rw (bit-mod f.width (word / 2 ^ f.position) k, bit-div f.position word k) (ground arith)

read_lt : (word : ℕ) (f : Field) → read word f < 2 ^ f.width
read_lt word f = mod-lt (word / 2 ^ f.position) (one-le-pow f.width 2 (omega arith))

-- A field elsewhere is not seen, and one in an empty place is seen as it is.
read-other :
    (word : ℕ) (f g : Field) → apart f g ≡ true → read (bit_or word (placed g)) f ≡ read word f
read-other word f g h =
    bits-ext f.width (read (bit_or word (placed g)) f) (read word f)
      (read_lt (bit_or word (placed g)) f) (read_lt word f)
      (λ k lt.
        rw
          (
            bit-read (bit_or word (placed g)) f k lt,
            bit-bit_or (f.position + k) word (placed g),
            bit-placed g (f.position + k),
            bit-read word f k lt,
          )
          (ground arith))

read-same : (word : ℕ) (f : Field) → read word f ≡ 0 → read (bit_or word (placed f)) f ≡ content f
read-same word f h =
    bits-ext f.width (read (bit_or word (placed f)) f) (content f)
      (read_lt (bit_or word (placed f)) f) (mod-lt f.value (one-le-pow f.width 2 (omega arith)))
      (λ k lt.
        rw
          (
            bit-read (bit_or word (placed f)) f k lt,
            bit-bit_or (f.position + k) word (placed f),
            bit-placed f (f.position + k),
            ← bit-read word f k lt,
            h,
            bit-mod f.width f.value k,
          )
          (ground arith))

-- What the places of the fields hold.
abbrev pub read_all : ℕ → List Field → List ℕ
read_all word fs = map (read word) fs

-- The places of the fields are empty.
data Empty (word : ℕ) : List Field → Type 0 where
  empty-nil : Empty word []
  empty-cons : {f : Field} {fs : List Field} → read word f ≡ 0 → Empty word fs → Empty word (f ∷ fs)

still-Empty :
    (word : ℕ) (g : Field) (fs : List Field)
    → all_apart g fs ≡ true
    → Empty word fs
    → Empty (bit_or word (placed g)) fs
still-Empty word g [] h e = empty-nil
still-Empty word g (f ∷ fs) h (empty-cons z e) =
    empty-cons (read-other word f g (ground (arith, h)) ∙ z)
      (still-Empty word g fs (ground (arith, h)) e)

read-later :
    (word : ℕ) (f : Field) (gs : List Field)
    → all_apart f gs ≡ true
    → read (pack_from word gs) f ≡ read word f
unfolding pack_from
read-later word f [] h = refl
read-later word f (g ∷ gs) h =
    read-later (bit_or word (placed g)) f gs (ground (arith, h))
    ∙ read-other word f g (ground (arith, h))

read_all-pack_from :
    (word : ℕ) (fs : List Field)
    → disjoint fs ≡ true
    → Empty word fs
    → read_all (pack_from word fs) fs ≡ map content fs
unfolding pack_from
read_all-pack_from word [] h e = refl
read_all-pack_from word (f ∷ fs) h (empty-cons z e) =
    ap₂ ◌∷◌ (read-later (bit_or word (placed f)) f fs (ground (arith, h)) ∙ read-same word f z) (
      read_all-pack_from (bit_or word (placed f)) fs (ground (arith, h))
        (still-Empty word f fs (ground (arith, h)) e))

zero-Empty : (fs : List Field) → Empty 0 fs
zero-Empty [] = empty-nil
zero-Empty (f ∷ fs) =
    empty-cons
      (bits-ext f.width (read 0 f) 0 (read_lt 0 f) (one-le-pow f.width 2 (omega arith))
        (λ k lt. bit-read 0 f k lt ∙ zero-bit (f.position + k) ∙ sym (zero-bit k)))
      (zero-Empty fs)

-- Packed fields of which no two overlap are read back, each cut to its width.
pub read_all-pack_bits :
    (fs : List Field) → disjoint fs ≡ true → read_all (pack_bits fs) fs ≡ map content fs
read_all-pack_bits fs h = read_all-pack_from 0 fs h (zero-Empty fs)

placed_lt : (n : ℕ) (f : Field) → leb (f.position + f.width) n ≡ true → placed f < 2 ^ n
unfolding placed
placed_lt n f h =
    shift_lt f.position f.width n (f.value % 2 ^ f.width)
      (mod-lt f.value (one-le-pow f.width 2 (omega arith))) (ground (arith, h))

pack_from_lt :
    (n word : ℕ) (fs : List Field) → within n fs ≡ true → word < 2 ^ n → pack_from word fs < 2 ^ n
unfolding pack_from
pack_from_lt n word [] h lt = lt
pack_from_lt n word (f ∷ fs) h lt =
    pack_from_lt n (bit_or word (placed f)) fs (ground (arith, h))
      (bit_or_lt n word (placed f) lt (placed_lt n f (ground (arith, h))))

-- The word is as wide as the fields reach.
pub pack_bits_lt : (n : ℕ) (fs : List Field) → within n fs ≡ true → pack_bits fs < 2 ^ n
pack_bits_lt n fs h = pack_from_lt n 0 fs h (one-le-pow n 2 (omega arith))
