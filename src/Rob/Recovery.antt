-- ===== src/Rob/Recovery.antt =====
-- `flush_partial` and `flush_all`: the loop ends, the younger entries go, and no other is touched.
use frost.Prelude.{
  ℕ, zero, suc, ◌+◌, ◌%◌, ◌<◌, ◌≡◌, ◌≢◌, refl, sym, ap, ◌∙◌, inl, inr, Bool, true, false, List,
  arith, some, ◌==◌, if◌then◌else◌, Bool-cases, sub_mod, get_or, set, length, length-set,
  get_or-set, take, to_int,
}
use frost.Ring.{window-ext, take-window}
use frost.Rob.{Rob, entry_at, count, head_idx, tail_idx, empty, head_entry}
use frost.Rob.Types.{Entry, blank_entry}
use frost.Rob.Flush.{invalidate, flush_slot, flush_loop, close_flush, tail_after, flush_partial}
use frost.Rob.Pointers.{inside, inside-cut, between, between-next, inside-between, between-kept}
use frost.Rob.Inv.{Window, IsValid}
use frost.Rob.Refine.{contents, length-contents}

abbrev at : List Entry → ℕ → Entry
at es i = get_or es i blank_entry

-- What the loop from `idx` to `tail` leaves: the slots between are invalid, the others as before.
record Flushed (es : List Entry) (idx tail : ℕ) (es' : List Entry) : Type 0 where
  sized : length es' ≡ 32
  slots :
      (i : ℕ) → i < 32 → at es' i ≡ (if between idx tail i then invalidate (at es i) else at es i)

-- The slots between are valid.
abbrev AllValid : List Entry → ℕ → ℕ → Type 0
AllValid es idx tail = (i : ℕ) → i < 32 → between idx tail i ≡ true → (at es i).valid ≡ true

module _ (idx tail : ℕ) (es : List Entry) (h1 : idx < 32) (h2 : tail < 32) (sz : length es ≡ 32)
    (ne : idx ≢ tail) (all : AllValid es idx tail) where
  head_valid : (at es idx).valid ≡ true
  head_valid = all idx h1 (ground arith)

  slot_write : flush_slot es idx ≡ set es idx (invalidate (at es idx))
  slot_write = rw head_valid

  at-flush_slot :
      (i : ℕ) → at (flush_slot es idx) i ≡ (if idx == i then invalidate (at es idx) else at es i)
  at-flush_slot i =
      rw (slot_write, get_or-set es idx i (invalidate (at es idx)) blank_entry (omega arith))

  rest_valid : AllValid (flush_slot es idx) ((idx + 1) % 32) tail
  rest_valid i hi b =
      let i_ne : (idx == i) ≡ false = ground (arith, b) in
      rw (at-flush_slot i, i_ne) (all i hi (rw (between-next idx tail i h1 h2 hi ne, i_ne) b))

  -- One round before the rest.
  Flushed-next :
      (es' : List Entry)
      → Flushed (flush_slot es idx) ((idx + 1) % 32) tail es'
      → Flushed es idx tail es'
  Flushed-next es' f = record { sized = f.sized; slots = λ i hi. f.slots i hi ∙ step i hi }
    where
      step :
          (i : ℕ)
          → i < 32
          → (if between ((idx + 1) % 32) tail i
              then invalidate (at (flush_slot es idx) i)
              else at (flush_slot es idx) i)
            ≡ (if between idx tail i then invalidate (at es i) else at es i)
      step i hi = ground (arith, at-flush_slot i, between-next idx tail i h1 h2 hi ne)

-- With fuel for the distance the loop ends, and counts the slots, if all of them are valid.
flush_loop-Flushed :
    (fuel idx tail : ℕ) (es : List Entry) (n : ℕ)
    → idx < 32
    → tail < 32
    → length es ≡ 32
    → sub_mod 32 tail idx < fuel
    → AllValid es idx tail
    → (es' : List Entry) × (flush_loop fuel idx tail es n ≡ some (es', n + sub_mod 32 tail idx))
      × Flushed es idx tail es'
unfolding flush_loop
flush_loop-Flushed zero idx tail es n h1 h2 sz fu all = absurd (omega arith)
flush_loop-Flushed (suc fuel) idx tail es n h1 h2 sz fu all = elim (Bool-cases (idx == tail)) [
  | inl e ↦
      let same : idx ≡ tail = ground arith in
      (es, ground arith, record { sized = sz; slots = λ i hi. ground arith })
  | inr e ↦
      let ne : idx ≢ tail = ground arith in
      let rest =
        flush_loop-Flushed fuel ((idx + 1) % 32) tail (flush_slot es idx)
          (n + to_int (at es idx).valid) (omega arith) h2
          (rw (slot_write idx tail es h1 h2 sz ne all) (length-set es idx _ ∙ sz))
          (omega (arith, ne)) (rest_valid idx tail es h1 h2 sz ne all) in
      (
        rest.0,
        ground (arith, rest.1, head_valid idx tail es h1 h2 sz ne all),
        Flushed-next idx tail es h1 h2 sz ne all rest.0 rest.2,
      )
]

-- How many entries are at least as old as the slot's.
abbrev pub kept : Rob → ℕ → ℕ
kept r f = suc (sub_mod 32 f (head_idx r))

valid-if-invalidate :
    (b : Bool) (e : Entry) (x : Bool)
    → e.valid ≡ x
    → (if b then invalidate e else e).valid ≡ (if b then false else x)
unfolding invalidate
valid-if-invalidate true e x h = refl
valid-if-invalidate false e x h = h

module _ (r : Rob) (f : ℕ) (v : IsValid r) (lt : f < 32) (live : (entry_at r f).valid ≡ true) where
  inside_f : inside r.head_ptr r.tail_ptr f ≡ true
  inside_f = sym (v.live f lt) ∙ live

  loop :
      (es' : List Entry) × (flush_loop 32 ((f + 1) % 32) (tail_idx r) r.entries 0
        ≡ some (es', 0 + sub_mod 32 (tail_idx r) ((f + 1) % 32)))
      × Flushed r.entries ((f + 1) % 32) (tail_idx r) es'
  loop =
      flush_loop-Flushed 32 ((f + 1) % 32) (tail_idx r) r.entries 0 (omega arith) (omega arith)
        v.sized (omega arith)
        (λ i hi b.
          v.live i hi
          ∙ inside-between r.head_ptr r.tail_ptr f i v.head_in v.tail_in lt hi v.room inside_f b)

  abbrev cut : Rob
  cut = record r {
    entries = loop.0;
    tail_ptr = tail_after r f;
    total_flushes = r.total_flushes + 1;
  }

  cut-Window : Window loop.0 r.head_ptr (tail_after r f)
  cut-Window = record {
    sized = loop.2.sized;
    head_in = v.head_in;
    tail_in = omega arith;
    room = omega (arith, v.head_in);
    live = λ i hi.
        rw
          (
            loop.2.slots i hi,
            inside-cut r.head_ptr r.tail_ptr f i v.head_in v.tail_in lt hi v.room inside_f,
          )
          (valid-if-invalidate (between ((f + 1) % 32) (tail_idx r) i) (at r.entries i)
            (inside r.head_ptr r.tail_ptr i) (v.live i hi));
  }

  count-cut : sub_mod 64 (tail_after r f) r.head_ptr ≡ kept r f
  count-cut = omega (arith, v.head_in)

  contents-cut : contents cut ≡ take (kept r f) (contents r)
  contents-cut =
      rw
        (
          count-cut,
          take-window 32 (λ i. at r.entries i) r.head_ptr (count r) (kept r f)
              (ground (arith, inside_f)),
        )
        (window-ext 32 (λ i. at loop.0 i) (λ i. at r.entries i) r.head_ptr (kept r f)
          (λ k hk. rw (
            loop.2.slots ((r.head_ptr + k) % 32) (omega arith),
            between-kept r.head_ptr r.tail_ptr f k v.head_in v.tail_in lt v.room inside_f
                (omega arith),
          )))

  -- A partial flush after a tag in flight terminates, cuts the queue behind that tag's entry,
  -- reports how many entries it dropped, and keeps the invariant.
  pub flush_partial_refines :
      (n : ℕ) × (r' : Rob) × (flush_partial r f ≡ some (n, r'))
      × (contents r' ≡ take (kept r f) (contents r))
      × (n + kept r f ≡ length (contents r))
      × IsValid r'
  unfolding flush_partial
  flush_partial_refines = (
    0 + sub_mod 32 (tail_idx r) ((f + 1) % 32),
    cut,
    rw (loop.1),
    contents-cut,
    ground (arith, inside_f, length-contents r, v.head_in, v.tail_in, v.room),
    record { window = cut-Window },
  )

  -- The entry at the head stays, since it is at least as old as the flushed tag's.
  pub flush_partial-head :
      (n : ℕ) (r' : Rob)
      → flush_partial r f ≡ some (n, r')
      → (r'.serial_state ≡ r.serial_state) × (empty r' ≡ false) × (head_entry r' ≡ head_entry r)
  unfolding flush_partial
  flush_partial-head n r' e =
      let flushed = ap (close_flush r f) loop.1 in
      let same : cut ≡ r' = cc (e, flushed) in
      rw (← same) (refl, ground (arith, v.head_in), head_kept)
    where
      head_kept : head_entry cut ≡ head_entry r
      head_kept =
          let zero_steps : (r.head_ptr + 0) % 32 ≡ head_idx r = omega arith in
          let spared =
            between-kept r.head_ptr r.tail_ptr f 0 v.head_in v.tail_in lt v.room inside_f
              (omega arith) in
          let spared' : between ((f + 1) % 32) (tail_idx r) (head_idx r) ≡ false =
            rw zero_steps at spared in
          rw (loop.2.slots (head_idx r) (omega arith), spared')
