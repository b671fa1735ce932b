-- ===== src/Models/ReadWrite.antt =====
-- What a read returns after a write, byte by byte, word by word and row by row.
use frost.Prelude.{
  ℕ, ◌+◌, ◌*◌, ◌/◌, ◌%◌, ◌^◌, ◌<◌, ◌≡◌, refl, ◌∙◌, arith, ◌==◌, if◌then◌else◌, Bool-cases, inl, inr,
}
use frost.Bits.{bit_or-shift}
use frost.Models.Memory.{
  Memory, key, read_byte, write_byte, word_aligned, dword_aligned, read_word, write_word,
  read_dword, write_dword,
}

-- The dictionary holds bytes.
pub record IsBytes (m : Memory) : Type 0 where
  pub byte_lt : (address : ℕ) → read_byte m address < 2 ^ 8

-- The number of the word, and of the row of eight bytes, that an address lies in.
abbrev pub word_of : ℕ → ℕ
word_of address = key address / 4

abbrev pub row_of : ℕ → ℕ
row_of address = key address / 8

read_byte-write_byte :
    (m : Memory) (a v x : ℕ)
    → read_byte (write_byte m a v) x ≡ (if key x == key a then v % 2 ^ 8 else read_byte m x)
unfolding read_byte write_byte
read_byte-write_byte m a v x = elim (Bool-cases (key x == key a)) [
  | inl e ↦ rw e refl
  | inr n ↦ rw n refl
]

pub write_byte-IsBytes : (m : Memory) (a v : ℕ) → IsBytes m → IsBytes (write_byte m a v)
write_byte-IsBytes m a v i = record {
  byte_lt = λ x. rw (read_byte-write_byte m a v x) (elim (Bool-cases (key x == key a)) [
    | inl e ↦ rw e (omega arith)
    | inr n ↦ rw n (i.byte_lt x)
  ]);
}

key-word_aligned : (a k : ℕ) → k < 4 → key (word_aligned a + k) ≡ word_of a * 4 + k
key-word_aligned a k h = omega arith

-- Byte `k` of a word.
abbrev byte_of : ℕ → ℕ → ℕ
byte_of v k =
    if k == 0
    then v % 2 ^ 8
    else (if k == 1
        then (v / 2 ^ 8) % 2 ^ 8
        else (if k == 2 then (v / 2 ^ 16) % 2 ^ 8 else (v / 2 ^ 24) % 2 ^ 8))

-- A byte of a word after a write of a word.
read_byte-write_word :
    (m : Memory) (a v b k : ℕ)
    → k < 4
    → read_byte (write_word m a v) (word_aligned b + k)
      ≡ (if word_of b == word_of a then byte_of v k else read_byte m (word_aligned b + k))
unfolding write_word
read_byte-write_word m a v b k h =
    rw
      (
        read_byte-write_byte
            (write_byte
              (write_byte (write_byte m (word_aligned a) (v % 2 ^ 8)) (word_aligned a + 1)
                ((v / 2 ^ 8) % 2 ^ 8))
              (word_aligned a + 2) ((v / 2 ^ 16) % 2 ^ 8))
            (word_aligned a + 3) ((v / 2 ^ 24) % 2 ^ 8) (word_aligned b + k),
        read_byte-write_byte
            (write_byte (write_byte m (word_aligned a) (v % 2 ^ 8)) (word_aligned a + 1)
              ((v / 2 ^ 8) % 2 ^ 8))
            (word_aligned a + 2) ((v / 2 ^ 16) % 2 ^ 8) (word_aligned b + k),
        read_byte-write_byte (write_byte m (word_aligned a) (v % 2 ^ 8)) (word_aligned a + 1)
            ((v / 2 ^ 8) % 2 ^ 8) (word_aligned b + k),
        read_byte-write_byte m (word_aligned a) (v % 2 ^ 8) (word_aligned b + k),
        key-word_aligned b k h,
        key-word_aligned a 3 (omega arith),
        key-word_aligned a 2 (omega arith),
        key-word_aligned a 1 (omega arith),
        zero_key,
      )
      (decide (word_of a) (word_of b) (read_byte m (word_aligned b + k)))
  where
    zero_key : key (word_aligned a) ≡ word_of a * 4
    zero_key = omega arith

    decide :
        (i j other : ℕ)
        → (if j * 4 + k == i * 4 + 3
            then (v / 2 ^ 24) % 2 ^ 8 % 2 ^ 8
            else (if j * 4 + k == i * 4 + 2
                then (v / 2 ^ 16) % 2 ^ 8 % 2 ^ 8
                else (if j * 4 + k == i * 4 + 1
                    then (v / 2 ^ 8) % 2 ^ 8 % 2 ^ 8
                    else (if j * 4 + k == i * 4 then v % 2 ^ 8 % 2 ^ 8 else other))))
          ≡ (if j == i then byte_of v k else other)
    decide i j other = ground arith

pub write_word-IsBytes : (m : Memory) (a v : ℕ) → IsBytes m → IsBytes (write_word m a v)
unfolding write_word
write_word-IsBytes m a v i =
    write_byte-IsBytes _ _ _
      (write_byte-IsBytes _ _ _ (write_byte-IsBytes _ _ _ (write_byte-IsBytes m _ _ i)))

word_sum : (b0 b1 b2 b3 : ℕ) → ℕ
word_sum b0 b1 b2 b3 = b0 + b1 * 2 ^ 8 + b2 * 2 ^ 16 + b3 * 2 ^ 24

-- A word is the sum of its bytes.
read_word-sum :
    (m : Memory) (a : ℕ)
    → IsBytes m
    → read_word m a
      ≡ word_sum
          (read_byte m (word_aligned a + 0))
          (read_byte m (word_aligned a + 1))
          (read_byte m (word_aligned a + 2))
          (read_byte m (word_aligned a + 3))
unfolding read_word word_sum
read_word-sum m a i =
    let z : word_aligned a ≡ word_aligned a + 0 = omega arith in
    let b0 = i.byte_lt (word_aligned a) in
    let b1 = i.byte_lt (word_aligned a + 1) in
    let b2 = i.byte_lt (word_aligned a + 2) in
    rw
      (
        bit_or-shift 8 (read_byte m (word_aligned a)) (read_byte m (word_aligned a + 1)) b0,
        bit_or-shift 16 (read_byte m (word_aligned a) + read_byte m (word_aligned a + 1) * 2 ^ 8)
            (read_byte m (word_aligned a + 2)) (omega arith),
        bit_or-shift 24
            (read_byte m (word_aligned a)
              + read_byte m (word_aligned a + 1) * 2 ^ 8
              + read_byte m (word_aligned a + 2) * 2 ^ 16)
            (read_byte m (word_aligned a + 3)) (omega arith),
        ← z,
      )
      refl

-- A word that is read after a word was written: the low 32 bits of the value at any address in the
-- same word of the 64 KiB, and what was there before at every other.
pub read_word-write_word :
    (m : Memory) (a v b : ℕ)
    → IsBytes m
    → read_word (write_word m a v) b
      ≡ (if word_of b == word_of a then v % 2 ^ 32 else read_word m b)
unfolding word_sum
read_word-write_word m a v b i =
    rw
      (
        read_word-sum (write_word m a v) b (write_word-IsBytes m a v i),
        read_byte-write_word m a v b 0 (omega arith),
        read_byte-write_word m a v b 1 (omega arith),
        read_byte-write_word m a v b 2 (omega arith),
        read_byte-write_word m a v b 3 (omega arith),
        read_word-sum m b i,
      )
      (elim (Bool-cases (word_of b == word_of a)) [
        | inl e ↦ rw e (omega arith)
        | inr n ↦ rw n refl
      ])

row-low : (a : ℕ) → word_of (dword_aligned a) ≡ row_of a * 2
row-low a = omega arith

row-high : (a : ℕ) → word_of (dword_aligned a + 4) ≡ row_of a * 2 + 1
row-high a = omega arith

halves :
    (w r s v other : ℕ)
    → s ≡ w / 2
    → (if w == r * 2 + 1
        then (v / 2 ^ 32) % 2 ^ 32 % 2 ^ 32
        else (if w == r * 2 then v % 2 ^ 32 % 2 ^ 32 else other))
      ≡ (if s == r then (if w % 2 == 0 then v % 2 ^ 32 else (v / 2 ^ 32) % 2 ^ 32) else other)
halves w r s v other h = ground arith

-- A word after a write of a row: the half of the value, or as before.
pub read_word-write_dword :
    (m : Memory) (a v b : ℕ)
    → IsBytes m
    → read_word (write_dword m a v) b ≡ (
        if row_of b == row_of a
        then (if word_of b % 2 == 0 then v % 2 ^ 32 else (v / 2 ^ 32) % 2 ^ 32)
        else read_word m b)
unfolding write_dword
read_word-write_dword m a v b i =
    rw
      (
        read_word-write_word (write_word m (dword_aligned a) (v % 2 ^ 32)) (dword_aligned a + 4)
            ((v / 2 ^ 32) % 2 ^ 32) b (write_word-IsBytes m (dword_aligned a) (v % 2 ^ 32) i),
        read_word-write_word m (dword_aligned a) (v % 2 ^ 32) b i,
        row-high a,
        row-low a,
      )
      (halves (word_of b) (row_of a) (row_of b) v (read_word m b) (omega arith))

pub write_dword-IsBytes : (m : Memory) (a v : ℕ) → IsBytes m → IsBytes (write_dword m a v)
unfolding write_dword
write_dword-IsBytes m a v i = write_word-IsBytes _ _ _ (write_word-IsBytes m (dword_aligned a) _ i)

-- A row that is read after a row was written: the low 64 bits of the value at any address in the
-- same row of the 64 KiB, and what was there before at every other.
pub read_dword-write_dword :
    (m : Memory) (a v b : ℕ)
    → IsBytes m
    → read_dword (write_dword m a v) b
      ≡ (if row_of b == row_of a then v % 2 ^ 64 else read_dword m b)
unfolding read_dword
read_dword-write_dword m a v b i =
    let low : row_of (dword_aligned b) ≡ row_of b = omega arith in
    let high : row_of (dword_aligned b + 4) ≡ row_of b = omega arith in
    let even : word_of (dword_aligned b) % 2 ≡ 0 = omega arith in
    let odd : word_of (dword_aligned b + 4) % 2 ≡ 1 = omega arith in
    rw
      (
        read_word-write_dword m a v (dword_aligned b) i,
        read_word-write_dword m a v (dword_aligned b + 4) i,
        low,
        high,
        even,
        odd,
      )
      (elim (Bool-cases (row_of b == row_of a)) [
        | inr n ↦ rw n refl
        | inl e ↦
            rw e (bit_or-shift 32 (v % 2 ^ 32) ((v / 2 ^ 32) % 2 ^ 32) (omega arith) ∙ omega arith)
      ])
