-- ===== src/Rob/Writes.antt =====
-- A result from the common data bus changes one entry of the queue, the one of its tag.
use frost.Prelude.{
  ℕ, zero, suc, ◌+◌, ◌%◌, ◌≤◌, ◌<◌, ◌≡◌, refl, sym, ap, ◌∙◌, inl, inr, true, false, List, [], ◌∷◌,
  Option, some, none, arith, ltb, Bool-cases, sub_mod, get_or, set, length,
}
use frost.Ring.{get_or-window}
use frost.Ring.Slots.{ring-set}
use frost.Rob.{Rob, count, head_idx, entry_at, put, write_result, cdb_write}
use frost.Rob.Types.{Entry, blank_entry, CdbWrite, Result, ok, raised}
use frost.Rob.Inv.{IsValid}
use frost.Rob.Queue.{update_at, complete}
use frost.Rob.Refine.{contents, length-contents}

-- The position of a tag in the queue.
abbrev pub age : Rob → ℕ → ℕ
age r i = sub_mod 32 i (head_idx r)

update_at_lt :
    (f : Entry → Entry) (p : ℕ) (q : List Entry)
    → p < length q
    → update_at f p q ≡ some (set q p (f (get_or q p blank_entry)))
unfolding update_at
update_at_lt f p [] h = elim h [ ]
update_at_lt f zero (e ∷ q) h = refl
update_at_lt f (suc p) (e ∷ q) h = rw (update_at_lt f p q (omega arith))

update_at_ge : (f : Entry → Entry) (p : ℕ) (q : List Entry) → length q ≤ p → update_at f p q ≡ none
unfolding update_at
update_at_ge f p [] h = refl
update_at_ge f zero (e ∷ q) h = elim h [ ]
update_at_ge f (suc p) (e ∷ q) h = rw (update_at_ge f p q (omega arith))

set-get_or : (q : List Entry) (p : ℕ) → set q p (get_or q p blank_entry) ≡ q
set-get_or [] p = refl
set-get_or (e ∷ q) zero = refl
set-get_or (e ∷ q) (suc p) = ap (◌∷◌ e) (set-get_or q p)

module _ (r : Rob) (i : ℕ) (v : IsValid r) (lt : i < 32) where
  slot : (r.head_ptr + age r i) % 32 ≡ i
  slot = omega arith

  pub live-age : (entry_at r i).valid ≡ ltb (age r i) (length (contents r))
  live-age = v.live i lt ∙ ap (ltb (age r i)) (sym (length-contents r))

  pub get_or-contents : age r i < count r → get_or (contents r) (age r i) blank_entry ≡ entry_at r i
  get_or-contents h =
      get_or-window 32 (λ j. entry_at r j) r.head_ptr (count r) (age r i) blank_entry h
      ∙ ap (entry_at r) slot

  pub contents-put : (e : Entry) → contents (put r i e) ≡ set (contents r) (age r i) e
  contents-put e =
      ring-set blank_entry 32 r.entries r.head_ptr (count r) (age r i) i e (omega (arith, v.sized))
        v.room (omega arith) (sym slot)

-- What a caller sees: the queue afterwards, or that the call raised.
abbrev pub seen : Result Rob → Option (List Entry)
seen (ok r) = some (contents r)
seen (raised e) = none

-- `cdb_write` raises exactly when its tag is not in flight, and otherwise completes the entry at
-- the tag's position and no other; an entry that is done keeps its first result.
pub cdb_write_refines :
    (r : Rob) (w : CdbWrite)
    → IsValid r
    → seen (cdb_write r w) ≡ update_at (complete w) (age r (w.tag % 32)) (contents r)
unfolding cdb_write complete
cdb_write_refines r w v = elim (Bool-cases (entry_at r (w.tag % 32)).valid) [
  | inr a ↦ rw (a, update_at_ge _ (age r i) (contents r) (behind a))
  | inl a ↦
      rw (a, update_at_lt _ (age r i) (contents r) (before a), get_or-contents r i v lt (before' a))
        (elim (Bool-cases (entry_at r (w.tag % 32)).done) [
          | inl d ↦ rw d (
              ap some (
                sym (
                  ap (set (contents r) (age r i)) (sym (get_or-contents r i v lt (before' a)))
                  ∙ set-get_or (contents r) (age r i))))
          | inr d ↦ rw d (ap some (contents-put r i v lt (write_result w (entry_at r i))))
        ])
]
  where
    i : ℕ
    i = w.tag % 32

    lt : i < 32
    lt = omega arith

    before : (entry_at r i).valid ≡ true → age r i < length (contents r)
    before a =
        let e : true ≡ ltb (age r i) (length (contents r)) = sym a ∙ live-age r i v lt in
        ground arith

    before' : (entry_at r i).valid ≡ true → age r i < count r
    before' a = omega (arith, before a, length-contents r)

    behind : (entry_at r i).valid ≡ false → length (contents r) ≤ age r i
    behind a =
        let e : false ≡ ltb (age r i) (length (contents r)) = sym a ∙ live-age r i v lt in
        ground arith
