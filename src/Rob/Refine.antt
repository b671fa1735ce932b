-- ===== src/Rob/Refine.antt =====
-- A valid reorder buffer behaves as the queue of the entries between its pointers, oldest first.
use frost.Prelude.{
  ℕ, suc, ◌+◌, ◌%◌, ◌<◌, ◌≡◌, refl, sym, ap, ◌∙◌, inl, inr, true, false, List, [], ◌∷◌, ◌++◌, some,
  arith, ◌==◌, Bool-cases, sub_mod, set, length, get_or, get_or-set,
}
use mathlib.Core.Option
use frost.Ring.{length-window, window-suc, window-congr}
use frost.Ring.Slots.{ring, ring-set_outside}
use frost.Rob.{Rob, full, empty, count, entry_at, head_idx, head_entry, new_entry, allocate}
use frost.Rob.Types.{
  Entry, blank_entry, AllocationRequest, ExpectedCommit, Result, ok, raised, RobError,
}
use frost.Rob.Commit.{check_serial_stall, can_commit, retire, expected_commit, commit}
use frost.Rob.Inv.{IsValid, full-eq-count, not_full, Window, Window-pop}
use frost.Rob.Queue.{enqueue, dequeue}

-- The entries in flight, oldest first.
abbrev pub contents : Rob → List Entry
contents r = ring blank_entry 32 r.entries r.head_ptr (count r)

pub length-contents : (r : Rob) → length (contents r) ≡ count r
length-contents r = length-window 32 (λ i. entry_at r i) r.head_ptr (count r)

-- The tag of the entry at a position of the queue.
abbrev pub tag_at : Rob → ℕ → ℕ
tag_at r p = (head_idx r + p) % 32

module _ {es : List Entry} {h t : ℕ} (w : Window es h t) where
  -- An entry written at the tail comes last.
  pub ring-push :
      (e : Entry)
      → sub_mod 64 t h < 32
      → ring blank_entry 32 (set es (t % 32) e) h (sub_mod 64 ((t + 1) % 64) h)
        ≡ ring blank_entry 32 es h (sub_mod 64 t h) ++ e ∷ []
  ring-push e lt =
      let c' : sub_mod 64 ((t + 1) % 64) h ≡ suc (sub_mod 64 t h) =
        omega (arith, w.head_in, w.tail_in) in
      let at : (h + sub_mod 64 t h) % 32 ≡ t % 32 = omega (arith, w.head_in, w.tail_in) in
      let inside : t % 32 < length es = omega (arith, w.sized) in
      rw
        (
          c',
          window-suc 32 (λ i. get_or (set es (t % 32) e) i blank_entry) h (sub_mod 64 t h),
          at,
          get_or-set es (t % 32) (t % 32) e blank_entry inside,
          ring-set_outside blank_entry 32 es h (sub_mod 64 t h) (t % 32) e inside
              (λ k hk q. omega (arith, w.head_in, w.tail_in)),
        )
        (ground arith)

  -- The front entry goes, and what is written in its slot is not seen.
  ring-pop :
      (e : Entry)
      → 0 < sub_mod 64 t h
      → ring blank_entry 32 es h (sub_mod 64 t h)
        ≡ get_or es (h % 32) blank_entry
          ∷ ring blank_entry 32 (set es (h % 32) e) ((h + 1) % 64) (sub_mod 64 t ((h + 1) % 64))
  ring-pop e lt =
      let c' : sub_mod 64 t h ≡ suc (sub_mod 64 t ((h + 1) % 64)) =
        omega (arith, w.head_in, w.tail_in) in
      let inside : h % 32 < length es = omega (arith, w.sized) in
      rw c' (
        ap (◌∷◌ (get_or es (h % 32) blank_entry)) (
          window-congr 32 (λ i. get_or es i blank_entry) (suc h) ((h + 1) % 64)
            (sub_mod 64 t ((h + 1) % 64)) (omega arith)
          ∙ sym (
              ring-set_outside blank_entry 32 es ((h + 1) % 64) (sub_mod 64 t ((h + 1) % 64))
                (h % 32) e inside (λ k hk q. omega (arith, w.head_in, w.tail_in, w.room)))))

-- `allocate` succeeds exactly when the queue takes another entry, appends the new entry, and
-- returns the tag of its position.
pub allocate_refines :
    (r : Rob) (req : AllocationRequest)
    → IsValid r
    → let (t, r') = allocate r req in
      let (p, q) = enqueue (contents r) (new_entry req) in
      (t ≡ Option.map (tag_at r) p) × (contents r' ≡ q)
unfolding allocate enqueue
allocate_refines r req v = elim (Bool-cases (full r)) [
  | inl f ↦
      let e : true ≡ (count r == 32) = sym f ∙ full-eq-count r v in
      rw (f, length-contents r, ← e) (refl, refl)
  | inr f ↦
      let e : false ≡ (count r == 32) = sym f ∙ full-eq-count r v in
      rw (f, length-contents r, ← e)
        (
          ap some (omega (arith, v.head_in, v.tail_in)),
          ring-push v.window (new_entry req) (not_full r v f),
        )
]

-- The check before a commit changes the serialization state alone.
pub can_commit-frame :
    (r : Rob) → (can_commit r).1 ≡ record r { serial_state = (can_commit r).1.serial_state }
unfolding can_commit check_serial_stall
can_commit-frame r = ground arith

-- It passes only on a finished entry at the head.
pub can_commit-ready :
    (r : Rob)
    → (can_commit r).0 ≡ true
    → (empty r ≡ false) × ((head_entry r).valid ≡ true) × ((head_entry r).done ≡ true)
unfolding can_commit
can_commit-ready r h = ground arith

-- A commit whose check passes retires the head entry.
pub commit-retire :
    (r : Rob)
    → (can_commit r).0 ≡ true
    → commit r
      ≡ (ok (retire r).0, record (retire r).1 { serial_state = (can_commit r).1.serial_state })
unfolding commit retire
commit-retire r may = rw may (
    ap {B = Result ExpectedCommit × Rob} (λ x. (ok (retire x).0, (retire x).1))
      (can_commit-frame r))

pub commit-raised :
    (r : Rob)
    → (can_commit r).0 ≡ false
    → commit r ≡ (raised RobError.cannot_commit, (can_commit r).1)
unfolding commit
commit-raised r stuck = rw stuck

pub retire_refines :
    (r : Rob)
    → IsValid r
    → empty r ≡ false
    → dequeue (contents r) ≡ some (head_entry r, contents (retire r).1)
unfolding dequeue retire
retire_refines r v ne = rw (
    ring-pop v.window (record (head_entry r) { valid = false })
      (ground (arith, v.head_in, v.tail_in)))

pub retire-IsValid : (r : Rob) → IsValid r → empty r ≡ false → IsValid (retire r).1
unfolding retire
retire-IsValid r v ne = record {
  window =
      Window-pop (record (head_entry r) { valid = false }) v.window refl
        (ground (arith, v.head_in, v.tail_in));
}

-- A commit that succeeds takes the front entry off the queue and reports it under its tag.
pub commit_refines :
    (r : Rob) (c : ExpectedCommit)
    → IsValid r
    → (commit r).0 ≡ ok c
    → (dequeue (contents r) ≡ some (head_entry r, contents (commit r).1))
      × (c ≡ expected_commit r.mepc (head_idx r) (head_entry r))
unfolding retire
commit_refines r c v h = elim (Bool-cases (can_commit r).0) [
  | inl may ↦
      rw (commit-retire r may)
        (retire_refines r v (can_commit-ready r may).0, cc (h, commit-retire r may))
  | inr stuck ↦ absurd (cc (h, commit-raised r stuck))
]

-- `commit` keeps the invariant, also when it raises.
pub commit-IsValid : (r : Rob) → IsValid r → IsValid (commit r).1
commit-IsValid r v = elim (Bool-cases (can_commit r).0) [
  | inl may ↦
      rw (commit-retire r may)
        (record { window = (retire-IsValid r v (can_commit-ready r may).0).window })
  | inr stuck ↦ rw (commit-raised r stuck, can_commit-frame r) (record { window = v.window })
]
