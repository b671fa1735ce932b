-- ===== src/Rob/Clear.antt =====
-- `flush_all` and `reset`: the queue is empty afterwards, and `flush_all` reports how many entries
-- it dropped.
use frost.Prelude.{
  ℕ, zero, suc, ◌+◌, ◌≤◌, ◌<◌, ◌≡◌, refl, sym, ap, ◌∙◌, Bool, true, false, List, [], ◌∷◌, map,
  arith, ◌==◌, leb, if◌then◌else◌, sub_mod, get_or, length, length-map, get_or-map_lt, count_if,
  to_int, all_below, all_below_sound,
}
use frost.Rob.{Rob, count}
use frost.Rob.Types.{Entry, blank_entry}
use frost.Rob.Flush.{invalidate, flush_all, wipe, reset}
use frost.Rob.Pointers.{inside}
use frost.Rob.Inv.{Window, IsValid}
use frost.Rob.Serial.{IsSerial, resting}
use frost.Rob.Refine.{contents, length-contents}

-- The number of slots from `i` on, of `n`, that pass a test of the index.
tally : (ℕ → Bool) → ℕ → ℕ → ℕ
tally p i zero = 0
tally p i (suc n) = to_int (p i) + tally p (suc i) n

abbrev tally_row : ℕ → ℕ → Bool
tally_row t h = if leb (sub_mod 64 t h) 32 then tally (inside h t) 0 32 == sub_mod 64 t h else true

-- A window of up to 32 slots has as many slots as its pointers say, over all pairs of pointers.
tally_table : all_below 64 (λ t. all_below 64 (tally_row t)) ≡ true
unfolding tally
tally_table = refl

tally-inside :
    (t h : ℕ) → t < 64 → h < 64 → sub_mod 64 t h ≤ 32 → tally (inside h t) 0 32 ≡ sub_mod 64 t h
tally-inside t h ht hh room = ground (
  arith,
  all_below_sound 64 (tally_row t) h
      (all_below_sound 64 (λ t. all_below 64 (tally_row t)) t tally_table ht) hh,
)

-- Counting the elements of a list is counting its indices.
count_if-tally {ℓ} :
    {A : Type ℓ} (p : A → Bool) (d : A) (xs : List A) (q : ℕ → Bool) (i : ℕ)
    → ((k : ℕ) → k < length xs → q (i + k) ≡ p (get_or xs k d))
    → count_if p xs ≡ tally q i (length xs)
unfolding tally
count_if-tally p d [] q i h = refl
count_if-tally p d (x ∷ xs) q i h = ground (
  arith,
  ap q (same i) ∙ h 0 (omega arith),
  count_if-tally p d xs q (suc i) (λ k lt. ap q (shift i k) ∙ h (suc k) (omega arith)),
)
  where
    same : (n : ℕ) → n ≡ n + 0
    same n = omega arith

    shift : (n k : ℕ) → suc n + k ≡ n + suc k
    shift n k = omega arith

valid-invalidate : (e : Entry) → (invalidate e).valid ≡ false
unfolding invalidate
valid-invalidate e = refl

-- A buffer whose slots are all invalid is valid when its pointers are equal.
cleared :
    (es : List Entry) (h : ℕ)
    → length es ≡ 32
    → h < 64
    → ((i : ℕ) → i < 32 → (get_or es i blank_entry).valid ≡ false)
    → Window es h h
cleared es h sz lt none_valid = record {
  sized = sz;
  head_in = lt;
  tail_in = lt;
  room = omega arith;
  live = λ i hi. rw (none_valid i hi) (ground arith);
}

-- A full flush empties the queue, reports how many entries were in it, and keeps the invariant.
pub flush_all_refines :
    (r : Rob)
    → IsValid r
    → ((flush_all r).0 ≡ length (contents r))
      × (contents (flush_all r).1 ≡ [])
      × IsValid (flush_all r).1
unfolding flush_all
flush_all_refines r v = (
  counted ∙ sym (length-contents r),
  nothing,
  record {
    window =
        cleared (map invalidate r.entries) r.head_ptr (length-map invalidate r.entries ∙ v.sized)
          v.head_in
          (λ i hi.
            ap (λ (e : Entry). e.valid)
              (get_or-map_lt invalidate r.entries i blank_entry blank_entry
                (omega (arith, v.sized)))
            ∙ valid-invalidate (get_or r.entries i blank_entry));
  },
)
  where
    zero_count : sub_mod 64 r.head_ptr r.head_ptr ≡ 0
    zero_count = omega arith

    nothing : contents (flush_all r).1 ≡ []
    nothing = rw zero_count

    counted : (flush_all r).0 ≡ count r
    counted =
        count_if-tally (λ (e : Entry). e.valid) blank_entry r.entries (inside r.head_ptr r.tail_ptr)
          0
          (λ k lt.
            ap (inside r.head_ptr r.tail_ptr) (omega arith)
            ∙ sym (v.live k (omega (arith, v.sized))))
        ∙ ap (tally (inside r.head_ptr r.tail_ptr) 0) v.sized
        ∙ tally-inside r.tail_ptr r.head_ptr v.tail_in v.head_in v.room

-- A reset leaves an empty queue and idle serialization, and keeps the invariant.
pub reset_refines : (r : Rob) → IsValid r → (contents (reset r) ≡ []) × IsValid (reset r)
unfolding reset
reset_refines r v = (
  refl,
  record {
    window =
        cleared (map wipe r.entries) 0 (length-map wipe r.entries ∙ v.sized) (omega arith) (λ i hi.
          ap (λ (e : Entry). e.valid)
            (get_or-map_lt wipe r.entries i blank_entry blank_entry (omega (arith, v.sized))));
  },
)

pub flush_all-IsSerial : (r : Rob) → IsSerial (flush_all r).1
unfolding flush_all
flush_all-IsSerial r = resting refl

pub reset-IsSerial : (r : Rob) → IsSerial (reset r)
unfolding reset
reset-IsSerial r = resting refl
