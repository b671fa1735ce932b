-- ===== src/Models/MemoryHistory.antt =====
-- The memory from its initialization on, over every sequence of writes.
use frost.Prelude.{
  ℕ, suc, ◌+◌, ◌*◌, ◌-◌, ◌%◌, ◌^◌, ◌≤◌, ◌<◌, ◌≡◌, ◌∙◌, arith, ◌==◌, ◌&&◌, if◌then◌else◌, List, [],
  ◌∷◌, length, get_or, leb, ltb, Bool-cases, inl, inr,
}
use frost.Models.Memory.{
  Memory, no_bytes, read_byte, write_byte, write_word, read_dword, write_dword, load_rows,
}
use frost.Models.ReadWrite.{
  IsBytes, row_of, write_byte-IsBytes, write_word-IsBytes, write_dword-IsBytes,
  read_dword-write_dword,
}

load_rows-read_dword :
    (m : Memory) (row x : ℕ) (rows : List ℕ)
    → IsBytes m
    → row + length rows ≤ 2 ^ 13
    → x < 2 ^ 13
    → read_dword (load_rows m row rows) (x * 8) ≡ (
        if leb row x && ltb x (row + length rows)
        then get_or rows (x - row) 0 % 2 ^ 64
        else read_dword m (x * 8))
unfolding load_rows
load_rows-read_dword m row x [] i fit lt = ground arith
load_rows-read_dword m row x (v ∷ rows) i fit lt =
    let rest =
      load_rows-read_dword (write_dword m (row * 8) v) (row + 1) x rows
        (write_dword-IsBytes m (row * 8) v i) (omega arith) lt in
    let first = read_dword-write_dword m (row * 8) v (x * 8) i in
    let rx : row_of (x * 8) ≡ x = omega arith in
    let rr : row_of (row * 8) ≡ row = omega arith in
    let here = (rw (rx, rr) at first) in
    rest ∙ elim (Bool-cases (x == row)) [
      | inl e ↦ let z : x - row ≡ 0 = ground arith in rw (here, e, z) (ground arith)
      | inr n ↦
          rw (here, n)
            (elim (Bool-cases (leb row x)) [
              | inr under ↦ rw under (ground arith)
              | inl above ↦
                  let z : x - row ≡ suc (x - (row + 1)) = ground arith in rw z (ground arith)
            ])
    ]

-- `{}` holds no byte, so every byte reads as zero.
no_bytes-IsBytes : IsBytes no_bytes
no_bytes-IsBytes = record { byte_lt = λ x. unfold read_byte in omega arith }

-- `__init__` copies the simulated memory: of up to 2 ^ 13 rows each reads back as its low 64 bits.
pub init-read_dword :
    (rows : List ℕ) (x : ℕ)
    → length rows ≤ 2 ^ 13
    → x < length rows
    → read_dword (load_rows no_bytes 0 rows) (x * 8) ≡ get_or rows x 0 % 2 ^ 64
init-read_dword rows x fit lt =
    let all = load_rows-read_dword no_bytes 0 x rows no_bytes-IsBytes (omega arith) (omega arith) in
    let z : x - 0 ≡ x = omega arith in all ∙ rw z (ground arith)

-- The calls that change the memory.
pub data Step (m : Memory) : Memory → Type 0 where
  writes_byte : (a v : ℕ) → Step m (write_byte m a v)
  writes_word : (a v : ℕ) → Step m (write_word m a v)
  writes_dword : (a v : ℕ) → Step m (write_dword m a v)

pub data Reach : Memory → Type 0 where
  start : (rows : List ℕ) → Reach (load_rows no_bytes 0 rows)
  next : {m n : Memory} → Reach m → Step m n → Reach n

load_rows-IsBytes :
    (m : Memory) (row : ℕ) (rows : List ℕ) → IsBytes m → IsBytes (load_rows m row rows)
unfolding load_rows
load_rows-IsBytes m row [] i = i
load_rows-IsBytes m row (v ∷ rows) i =
    load_rows-IsBytes (write_dword m (row * 8) v) (row + 1) rows
      (write_dword-IsBytes m (row * 8) v i)

-- Whatever is written, a byte that is read has eight bits.
pub Reach-IsBytes : {m : Memory} → Reach m → IsBytes m
Reach-IsBytes (start rows) = load_rows-IsBytes no_bytes 0 rows no_bytes-IsBytes
Reach-IsBytes (next {m = m} h (writes_byte a v)) = write_byte-IsBytes m a v (Reach-IsBytes h)
Reach-IsBytes (next {m = m} h (writes_word a v)) = write_word-IsBytes m a v (Reach-IsBytes h)
Reach-IsBytes (next {m = m} h (writes_dword a v)) = write_dword-IsBytes m a v (Reach-IsBytes h)
