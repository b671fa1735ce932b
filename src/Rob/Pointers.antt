-- ===== src/Rob/Pointers.antt =====
-- Arithmetic of head and tail pointers modulo 64 over 32 slots, as reorder_buffer_model.py has it.
use frost.Prelude.{
  ℕ, ◌+◌, ◌%◌, ◌≤◌, ◌<◌, ◌≡◌, ◌≢◌, refl, Bool, true, false, not, arith, ltb, ◌==◌, if◌then◌else◌,
  bit_xor, all_below, all_below_sound, sub_mod,
}

-- The XOR test of `full`, over all pairs of pointers.
abbrev full_row : ℕ → ℕ → Bool
full_row t h = if bit_xor t h == 32 then sub_mod 64 t h == 32 else not (sub_mod 64 t h == 32)

full_table : all_below 64 (λ t. all_below 64 (full_row t)) ≡ true
full_table = refl

pub xor-eq-count : (t h : ℕ) → t < 64 → h < 64 → (bit_xor t h == 32) ≡ (sub_mod 64 t h == 32)
xor-eq-count t h ht hh = ground (
  arith,
  all_below_sound 64 (full_row t) h
      (all_below_sound 64 (λ t. all_below 64 (full_row t)) t full_table ht) hh,
)

-- Whether slot `i` lies in the window from `h` to `t`.
abbrev pub inside : ℕ → ℕ → ℕ → Bool
inside h t i = ltb (sub_mod 32 i (h % 32)) (sub_mod 64 t h)

-- Moving the tail takes in the slot at the tail.
pub inside-push :
    (h t i : ℕ)
    → h < 64
    → t < 64
    → i < 32
    → sub_mod 64 t h < 32
    → inside h ((t + 1) % 64) i ≡ (if t % 32 == i then true else inside h t i)
inside-push h t i hh ht hi room = ground arith

-- Moving the head leaves out the slot at the head.
pub inside-pop :
    (h t i : ℕ)
    → h < 64
    → t < 64
    → i < 32
    → 0 < sub_mod 64 t h
    → sub_mod 64 t h ≤ 32
    → inside ((h + 1) % 64) t i ≡ (if h % 32 == i then false else inside h t i)
inside-pop h t i hh ht hi some_entry room = ground arith

-- Cutting the window after the slot `f`: the slots from `f + 1` up to the tail go.
abbrev pub between : ℕ → ℕ → ℕ → Bool
between idx tail i = ltb (sub_mod 32 i idx) (sub_mod 32 tail idx)

pub inside-cut :
    (h t f i : ℕ)
    → h < 64
    → t < 64
    → f < 32
    → i < 32
    → sub_mod 64 t h ≤ 32
    → inside h t f ≡ true
    → inside h ((h + sub_mod 32 f (h % 32) + 1) % 64) i
      ≡ (if between ((f + 1) % 32) (t % 32) i then false else inside h t i)
inside-cut h t f i hh ht hf hi room live = ground arith

-- One round of the loop leaves one slot less.
pub between-next :
    (idx tail i : ℕ)
    → idx < 32
    → tail < 32
    → i < 32
    → idx ≢ tail
    → between idx tail i ≡ (if idx == i then true else between ((idx + 1) % 32) tail i)
between-next idx tail i h1 h2 h3 ne = ground arith

-- The slots that a cut drops lie in the window.
pub inside-between :
    (h t f i : ℕ)
    → h < 64
    → t < 64
    → f < 32
    → i < 32
    → sub_mod 64 t h ≤ 32
    → inside h t f ≡ true
    → between ((f + 1) % 32) (t % 32) i ≡ true
    → inside h t i ≡ true
inside-between h t f i hh ht hf hi room live b = ground arith

-- The slots at least as old as the cut stay.
pub between-kept :
    (h t f k : ℕ)
    → h < 64
    → t < 64
    → f < 32
    → sub_mod 64 t h ≤ 32
    → inside h t f ≡ true
    → k ≤ sub_mod 32 f (h % 32)
    → between ((f + 1) % 32) (t % 32) ((h + k) % 32) ≡ false
between-kept h t f k hh ht hf room live le = ground arith
