-- ===== src/StoreQueue/Head.antt =====
-- The drain at the head: the write that completes frees the head entry, and the head moves on to
-- the next store, or to the tail if there is none.
use frost.Prelude.{
  ℕ, zero, suc, ◌+◌, ◌%◌, ◌≤◌, ◌<◌, ◌≡◌, ◌≢◌, refl, sym, ap, ◌∙◌, ◌⊎◌, inl, inr, Bool, true, false,
  not, ◌&&◌, some, List, [], ◌∷◌, arith, Bool-cases, ltb, ◌==◌, if◌then◌else◌, sub_mod, get_or,
  get_or-set, set, length, length-set, drop, select, count_if,
}
use mathlib.Core.Option
use frost.Ring.{window-congr}
use frost.Ring.Slots.{ring, ring-set}
use frost.Ring.Select.{select-window_turn, select-window_none}
use frost.StoreQueue.{
  StoreQueue, Entry, blank_entry, head_idx, entry_at, count, sent_entry, mem_write_done,
  advance_loop, collapse, advance_head,
}
use frost.StoreQueue.Live.{is_valid, stores, inside, IsValid, outside}

-- With an entry, `count` is not zero.
count-zero :
    (es : List Entry) (i : ℕ) → count_if is_valid es ≡ 0 → (get_or es i blank_entry).valid ≡ false
count-zero [] i e = refl
count-zero (x ∷ es) zero e = ground arith
count-zero (x ∷ es) (suc i) e = ground (arith, count-zero es i)

-- Without one it is.
count-none :
    (es : List Entry)
    → ((i : ℕ) → i < length es → (get_or es i blank_entry).valid ≡ false)
    → count_if is_valid es ≡ 0
count-none [] h = refl
count-none (x ∷ es) h =
    ground (arith, h 0 (omega arith), count-none es (λ i lt. h (suc i) (omega arith)))

-- The head slot holds a store, or there is none and the pointers meet.
abbrev pub IsSettled : StoreQueue → Type 0
IsSettled q = ((entry_at q (head_idx q)).valid ≡ true) ⊎ ((count q ≡ 0) × (q.head_ptr ≡ q.tail_ptr))

inside-pop :
    (h t i : ℕ)
    → h < 16
    → t < 16
    → i < 8
    → sub_mod 16 t h ≤ 8
    → inside h t i ≡ true
    → h % 8 ≢ i
    → inside ((h + 1) % 16) t i ≡ true
inside-pop h t i hh ht hi room v ne = ground arith

-- Moving the head past an entry that is not valid.
module _ (q : StoreQueue) (v : IsValid q) (gone : (entry_at q (head_idx q)).valid ≡ false) where
  abbrev moved : StoreQueue
  moved = record q { head_ptr = (q.head_ptr + 1) % 16 }

  moved-stores : stores moved ≡ stores q
  moved-stores =
      ap (select is_valid) (
        window-congr 8 (λ i. entry_at q i) ((q.head_ptr + 1) % 16) (suc q.head_ptr) 8 (omega arith))
      ∙ select-window_turn is_valid 8 (λ i. entry_at q i) q.head_ptr 7 (omega arith) gone

  moved-IsValid : 0 < sub_mod 16 q.tail_ptr q.head_ptr → IsValid moved
  moved-IsValid pos = record {
    window = record {
      sized = v.sized;
      head_in = omega arith;
      tail_in = v.tail_in;
      room = omega (arith, v.head_in, v.tail_in, v.room);
      within = λ i hi u.
          inside-pop q.head_ptr q.tail_ptr i v.head_in v.tail_in hi v.room (v.within i hi u)
            (λ e. cc (u, gone, e));
    };
  }

-- A queue with a store has a window.
window_pos : (q : StoreQueue) → IsValid q → count q ≢ 0 → 0 < sub_mod 16 q.tail_ptr q.head_ptr
window_pos q v ne = elim (Bool-cases (ltb 0 (sub_mod 16 q.tail_ptr q.head_ptr))) [
  | inl pos ↦ ground arith
  | inr no_window ↦ absurd (
      ne
        (count-none q.entries (λ i lt. outside i v.window (omega (arith, v.sized)) (ground arith))))
]

-- What the loop leaves, when it ends.
record Advanced (q q' : StoreQueue) : Type 0 where
  kept : stores q' ≡ stores q
  valid : IsValid q'
  stopped : (not (count q' == 0) && not (entry_at q' (head_idx q')).valid) ≡ false

advance_loop-Advanced :
    (fuel : ℕ) (q : StoreQueue)
    → IsValid q
    → sub_mod 16 q.tail_ptr q.head_ptr < fuel
    → (q' : StoreQueue) × (advance_loop fuel q ≡ some q') × Advanced q q'
unfolding advance_loop
advance_loop-Advanced zero q v lt = absurd (omega arith)
advance_loop-Advanced (suc fuel) q v lt =
    elim (Bool-cases (not (count q == 0) && not (entry_at q (head_idx q)).valid)) [
      | inr stop ↦ (q, rw (stop, advance_loop), record { kept = refl; valid = v; stopped = stop })
      | inl go ↦
          let gone : (entry_at q (head_idx q)).valid ≡ false = ground arith in
          let some_store : count q ≢ 0 = ground arith in
          let pos = window_pos q v some_store in
          let rest =
            advance_loop-Advanced fuel (moved q v gone) (moved-IsValid q v gone pos)
              (omega (arith, v.head_in, v.tail_in, pos)) in
          (
            rest.0,
            rw (go, advance_loop) rest.1,
            record {
              kept = rest.2.kept ∙ moved-stores q v gone;
              valid = rest.2.valid;
              stopped = rest.2.stopped;
            },
          )
    ]

collapsed-IsValid :
    (q : StoreQueue) → IsValid q → count q ≡ 0 → IsValid (record q { head_ptr = q.tail_ptr })
collapsed-IsValid q v nil = record {
  window = record {
    sized = v.sized;
    head_in = v.tail_in;
    tail_in = v.tail_in;
    room = omega arith;
    within = λ i hi u. absurd (cc (u, count-zero q.entries i nil));
  };
}

no_stores : (q : StoreQueue) (h : ℕ) → count q ≡ 0 → stores (record q { head_ptr = h }) ≡ []
no_stores q h nil =
    select-window_none is_valid 8 (λ i. entry_at q i) h 8
      (λ k lt. count-zero q.entries ((h + k) % 8) nil)

-- `advance_head` terminates. It changes no store, leaves the head at a store or, if there is none,
-- at the tail, and keeps the invariant.
pub advance_head_refines :
    (q : StoreQueue)
    → IsValid q
    → (q' : StoreQueue) × (advance_head q ≡ some q')
      × (stores q' ≡ stores q)
      × IsSettled q'
      × IsValid q'
unfolding advance_head collapse
advance_head_refines q v =
    let (q', e, a) = advance_loop-Advanced 9 q v (omega (arith, v.room)) in
    elim (Bool-cases (count q' == 0)) [
      | inl zero_count ↦
          let none : count q' ≡ 0 = ground arith in
          (
            record q' { head_ptr = q'.tail_ptr },
            ap (Option.map collapse) e ∙ rw zero_count,
            no_stores q' q'.tail_ptr none ∙ sym (no_stores q' q'.head_ptr none) ∙ a.kept,
            inr (none, refl),
            collapsed-IsValid q' a.valid none,
          )
      | inr more ↦ (
        q',
        ap (Option.map collapse) e ∙ rw more,
        a.kept,
        inl (ground (arith, a.stopped)),
        a.valid,
      )
    ]

valid-sent_entry : (e : Entry) → (sent_entry e).valid ≡ false
unfolding sent_entry
valid-sent_entry e = refl

drop_first :
    (b : Bool) (x : Entry) (rest : List Entry)
    → rest ≡ (if b then drop 1 (if b then x ∷ rest else rest) else (if b then x ∷ rest else rest))
drop_first true x rest = refl
drop_first false x rest = refl

-- Freeing the head slot.
module _ (q : StoreQueue) (v : IsValid q) where
  abbrev freed : StoreQueue
  freed = record q {
    entries = set q.entries (head_idx q) (sent_entry (entry_at q (head_idx q)));
    write_outstanding = false;
  }

  rest : List Entry
  rest = select is_valid (ring blank_entry 8 q.entries (suc q.head_ptr) 7)

  freed-stores :
      stores freed ≡ (if (entry_at q (head_idx q)).valid then drop 1 (stores q) else stores q)
  unfolding rest
  freed-stores =
      ap (select is_valid) (
        ring-set blank_entry 8 q.entries q.head_ptr 8 0 (head_idx q)
          (sent_entry (entry_at q (head_idx q))) (omega (arith, v.sized)) (omega arith)
          (omega arith) (omega arith))
      ∙ ap (λ b. if b then sent_entry (entry_at q (head_idx q)) ∷ rest else rest)
          (valid-sent_entry (entry_at q (head_idx q)))
      ∙ drop_first (entry_at q (head_idx q)).valid (entry_at q (head_idx q)) rest

  freed-IsValid : IsValid freed
  freed-IsValid = record {
    window = record {
      sized = length-set q.entries (head_idx q) (sent_entry (entry_at q (head_idx q))) ∙ v.sized;
      head_in = v.head_in;
      tail_in = v.tail_in;
      room = v.room;
      within = λ i hi u. v.within i hi (was i u);
    };
  }
    where
      was : (i : ℕ) → (entry_at freed i).valid ≡ true → (entry_at q i).valid ≡ true
      was i u = ground (
        arith,
        u,
        valid-sent_entry (entry_at q (head_idx q)),
        get_or-set q.entries (head_idx q) i (sent_entry (entry_at q (head_idx q))) blank_entry
            (omega (arith, v.sized)),
      )

-- A completed write takes the head entry off, if a write was outstanding and the head holds a
-- store, and otherwise takes none; no write is outstanding afterwards, and the invariant holds.
pub mem_write_done_refines :
    (q : StoreQueue)
    → IsValid q
    → (stores (mem_write_done q) ≡ (
        if q.write_outstanding && (entry_at q (head_idx q)).valid
        then drop 1 (stores q)
        else stores q))
      × ((mem_write_done q).write_outstanding ≡ false)
      × IsValid (mem_write_done q)
mem_write_done_refines q v = elim (Bool-cases q.write_outstanding) [
  | inr idle ↦
      let same : mem_write_done q ≡ q = unfold mem_write_done in rw idle in
      rw (same, idle) (refl, refl, record { window = v.window })
  | inl busy ↦
      let done : mem_write_done q ≡ freed q v = unfold mem_write_done in rw busy in
      rw (done, busy) (freed-stores q v, refl, freed-IsValid q v)
]
