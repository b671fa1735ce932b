-- ===== src/Rob/Inv.antt =====
-- The representation invariant of the reorder buffer: the pointers stay in range, at most 32
-- entries are in flight, and the valid slots are exactly those between head and tail.
use frost.Prelude.{
  ℕ, ◌+◌, ◌%◌, ◌≤◌, ◌<◌, ◌≡◌, refl, sym, ◌∙◌, true, false, ltb, inl, inr, List, arith, ◌==◌,
  Bool-cases, sub_mod, get_or, set, length, length-set, get_or-set, get_or-replicate,
}
use frost.Rob.{
  Rob, init, full, count, entry_at, new_entry, allocate, cdb_write, store_complete, branch_update,
  set_checkpoint, put, write_result, mark_done, attach_checkpoint, resolve_branch,
}
use frost.Rob.Types.{
  Entry, blank_entry, AllocationRequest, CdbWrite, BranchUpdate, Result, ok, raised,
}
use frost.Rob.Pointers.{inside, xor-eq-count, inside-push, inside-pop}

-- The invariant of the slots and the two pointers.
pub record Window (es : List Entry) (h t : ℕ) : Type 0 where
  pub sized : length es ≡ 32
  pub head_in : h < 64
  pub tail_in : t < 64
  pub room : sub_mod 64 t h ≤ 32
  pub live : (i : ℕ) → i < 32 → (get_or es i blank_entry).valid ≡ inside h t i

pub record IsValid (r : Rob) : Type 0 where
  pub window : Window r.entries r.head_ptr r.tail_ptr
  pub open window use *

-- A write that keeps the slot's valid bit.
pub Window-set :
    {es : List Entry} {h t : ℕ} (i : ℕ) (e : Entry)
    → Window es h t
    → i < 32
    → e.valid ≡ (get_or es i blank_entry).valid
    → Window (set es i e) h t
Window-set {es} {h} {t} i e w lt same = record {
  sized = length-set es i e ∙ w.sized;
  head_in = w.head_in;
  tail_in = w.tail_in;
  room = w.room;
  live = λ j hj.
      rw (get_or-set es i j e blank_entry (omega (arith, w.sized))) (elim (Bool-cases (i == j)) [
        | inl eq ↦ rw eq (let ij : i ≡ j = ground arith in same ∙ rw ij (w.live j hj))
        | inr ne ↦ rw ne (w.live j hj)
      ]);
}

-- A valid entry at the tail, and the tail moved past it.
pub Window-push :
    {es : List Entry} {h t : ℕ} (e : Entry)
    → Window es h t
    → e.valid ≡ true
    → sub_mod 64 t h < 32
    → Window (set es (t % 32) e) h ((t + 1) % 64)
Window-push {es} {h} {t} e w ve lt = record {
  sized = length-set es (t % 32) e ∙ w.sized;
  head_in = w.head_in;
  tail_in = omega arith;
  room = omega (arith, w.head_in, w.tail_in);
  live = λ j hj.
      rw
        (
          get_or-set es (t % 32) j e blank_entry (omega (arith, w.sized)),
          inside-push h t j w.head_in w.tail_in hj lt,
        )
        (elim (Bool-cases (t % 32 == j)) [ inl eq ↦ rw eq ve | inr ne ↦ rw ne (w.live j hj) ]);
}

-- The head's entry made invalid, and the head moved past it.
pub Window-pop :
    {es : List Entry} {h t : ℕ} (e : Entry)
    → Window es h t
    → e.valid ≡ false
    → 0 < sub_mod 64 t h
    → Window (set es (h % 32) e) ((h + 1) % 64) t
Window-pop {es} {h} {t} e w ve lt = record {
  sized = length-set es (h % 32) e ∙ w.sized;
  head_in = omega arith;
  tail_in = w.tail_in;
  room = omega (arith, w.head_in, w.tail_in, w.room);
  live = λ j hj.
      rw
        (
          get_or-set es (h % 32) j e blank_entry (omega (arith, w.sized)),
          inside-pop h t j w.head_in w.tail_in hj lt w.room,
        )
        (elim (Bool-cases (h % 32 == j)) [ inl eq ↦ rw eq ve | inr ne ↦ rw ne (w.live j hj) ]);
}

pub valid-write_result : (w : CdbWrite) (e : Entry) → (write_result w e).valid ≡ e.valid
unfolding write_result
valid-write_result w e = refl

pub valid-mark_done : (e : Entry) → (mark_done e).valid ≡ e.valid
unfolding mark_done
valid-mark_done e = refl

pub valid-attach_checkpoint : (id : ℕ) (e : Entry) → (attach_checkpoint id e).valid ≡ e.valid
unfolding attach_checkpoint
valid-attach_checkpoint id e = refl

pub valid-resolve_branch : (u : BranchUpdate) (e : Entry) → (resolve_branch u e).valid ≡ e.valid
unfolding resolve_branch
valid-resolve_branch u e = refl

pub init-IsValid : IsValid init
unfolding init
init-IsValid = record {
  window = record {
    sized = refl;
    head_in = omega arith;
    tail_in = omega arith;
    room = omega arith;
    live = λ i h. rw (get_or-replicate 32 i blank_entry) (ground arith);
  };
}

pub full-eq-count : (r : Rob) → IsValid r → full r ≡ (count r == 32)
unfolding full
full-eq-count r v = xor-eq-count r.tail_ptr r.head_ptr v.tail_in v.head_in

pub valid-new_entry : (req : AllocationRequest) → (new_entry req).valid ≡ true
unfolding new_entry
valid-new_entry req = ground arith

pub not_full : (r : Rob) → IsValid r → full r ≡ false → count r < 32
not_full r v f =
    let e : false ≡ (count r == 32) = sym f ∙ full-eq-count r v in
    let room : count r ≤ 32 = v.room in ground arith

pub allocate-IsValid : (r : Rob) (req : AllocationRequest) → IsValid r → IsValid (allocate r req).1
unfolding allocate
allocate-IsValid r req v = elim (Bool-cases (full r)) [
  | inl f ↦ rw f (record { window = v.window })
  | inr f ↦ rw f (record {
    window = Window-push (new_entry req) v.window (valid-new_entry req) (not_full r v f);
  })
]

-- What a method that may raise leaves: the new state, or the old one.
abbrev pub after : Rob → Result Rob → Rob
after r (ok r') = r'
after r (raised e) = r

put-IsValid :
    (r : Rob) (i : ℕ) (e : Entry)
    → IsValid r
    → i < 32
    → e.valid ≡ (entry_at r i).valid
    → IsValid (put r i e)
put-IsValid r i e v lt same = record { window = Window-set i e v.window lt same }

pub cdb_write-IsValid : (r : Rob) (w : CdbWrite) → IsValid r → IsValid (after r (cdb_write r w))
unfolding cdb_write
cdb_write-IsValid r w v = elim (Bool-cases (entry_at r (w.tag % 32)).valid) [
  | inr a ↦ rw a v
  | inl a ↦ rw a (elim (Bool-cases (entry_at r (w.tag % 32)).done) [
    | inl d ↦ rw d v
    | inr d ↦ rw d (put-IsValid r (w.tag % 32) _ v (omega arith) (valid-write_result w _))
  ])
]

pub store_complete-IsValid :
    (r : Rob) (tag : ℕ) → IsValid r → IsValid (after r (store_complete r tag))
unfolding store_complete
store_complete-IsValid r tag v = elim (Bool-cases (entry_at r (tag % 32)).valid) [
  | inr a ↦ rw a v
  | inl a ↦ rw a (elim (Bool-cases (entry_at r (tag % 32)).done) [
    | inl d ↦ rw d v
    | inr d ↦ rw d (put-IsValid r (tag % 32) _ v (omega arith) (valid-mark_done _))
  ])
]

pub set_checkpoint-IsValid :
    (r : Rob) (tag id : ℕ) → IsValid r → IsValid (after r (set_checkpoint r tag id))
unfolding set_checkpoint
set_checkpoint-IsValid r tag id v = elim (Bool-cases (ltb tag (length r.entries))) [
  | inr out ↦ rw out v
  | inl inside ↦ rw inside (elim (Bool-cases (entry_at r tag).valid) [
    | inr a ↦ rw a v
    | inl a ↦ rw a (put-IsValid r tag _ v (ground (arith, v.sized)) (valid-attach_checkpoint id _))
  ])
]

pub branch_update-IsValid :
    (r : Rob) (u : BranchUpdate) → IsValid r → IsValid (after r (branch_update r u))
unfolding branch_update
branch_update-IsValid r u v = elim (Bool-cases (entry_at r (u.tag % 32)).valid) [
  | inr a ↦ rw a v
  | inl a ↦ rw a (elim (Bool-cases (entry_at r (u.tag % 32)).is_branch) [
    | inr b ↦ rw b v
    | inl b ↦ rw b (record {
      window = Window-set (u.tag % 32) _ v.window (omega arith) (valid-resolve_branch u _);
    })
  ])
]
