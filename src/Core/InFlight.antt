-- ===== src/Core/InFlight.antt =====
-- The destinations of the entries in flight in the reorder buffer, and the invariant that joins them
-- to the alias table: a register waits for its youngest producer.
use mathlib.Core.Option
use frost.Prelude.{
  ℕ, zero, suc, ◌+◌, ◌%◌, ◌<◌, ◌≡◌, refl, sym, ap, ◌∙◌, inl, inr, List, ◌∷◌, map, Option, none,
  some, arith, ◌==◌, ltb, Bool-cases, sub_mod, get_or, set, length, get_or-set, assign,
}
use frost.Ring.{window, window-ext}
use frost.Ring.Slots.{ring}
use frost.Rob.{
  Rob, entry_at, cdb_write, branch_update, set_checkpoint, write_result, resolve_branch,
  attach_checkpoint, new_entry,
}
use frost.Rob.Types.{
  Entry, blank_entry, AllocationRequest, CdbWrite, BranchUpdate, Result, ok, raised,
}
use frost.Rob.Inv as rob
use frost.Rob.Refine.{tag_at}
use frost.Rat.Mapping as table
use frost.Rat.Mapping.{mapping}
use frost.Core.{Core, rob_or, ok_or_none}
use frost.Core.Renaming.{Dest, dest_of, producer}

abbrev pub dests_of : List Entry → ℕ → ℕ → List Dest
dests_of es h t = map dest_of (ring blank_entry 32 es h (sub_mod 64 t h))

-- The destinations in flight, oldest first.
abbrev pub dests : Rob → List Dest
dests r = dests_of r.entries r.head_ptr r.tail_ptr

-- Each register waits for the tag of its youngest producer in flight, or for none.
pub record IsRenamed (c : Core) : Type 0 where
  pub queue : rob.IsValid c.rob
  pub table : table.IsValid c.rat
  pub waits :
      (rf reg : ℕ)
      → mapping c.rat rf reg ≡ Option.map (tag_at c.rob) (producer rf reg (dests c.rob))

-- A call on the buffer that hands out no tag and retires nothing.
pub record Keeps (r r' : Rob) : Type 0 where
  pub still_valid : rob.IsValid r'
  pub same_head : r'.head_ptr ≡ r.head_ptr
  pub same_dests : dests r' ≡ dests r

-- A buffer with the same head and these destinations in flight, and a table that goes with them.
pub renewed-IsRenamed :
    (c : Core) (r : Rob) (q : List Dest)
    → rob.IsValid r
    → table.IsValid c.rat
    → r.head_ptr ≡ c.rob.head_ptr
    → dests r ≡ q
    → ((rf reg : ℕ) → mapping c.rat rf reg ≡ Option.map (tag_at c.rob) (producer rf reg q))
    → IsRenamed (record c { rob = r })
renewed-IsRenamed c r q v w head ds waits = record {
  queue = v;
  table = w;
  waits = λ rf reg. rw (ds, head) (waits rf reg);
}

pub kept-IsRenamed :
    (c : Core) (r' : Rob) → IsRenamed c → Keeps c.rob r' → IsRenamed (record c { rob = r' })
kept-IsRenamed c r' i k =
    renewed-IsRenamed c r' (dests c.rob) k.still_valid i.table k.same_head k.same_dests i.waits

map-window :
    (g : Entry → Dest) (f : ℕ → Entry) (p n : ℕ)
    → map g (window 32 f p n) ≡ window 32 (λ i. g (f i)) p n
map-window g f p zero = refl
map-window g f p (suc n) = ap (◌∷◌ (g (f (p % 32)))) (map-window g f (suc p) n)

-- A write that keeps its entry's destination.
pub set-dests :
    (es : List Entry) (h t i : ℕ) (e : Entry)
    → i < length es
    → dest_of e ≡ dest_of (get_or es i blank_entry)
    → dests_of (set es i e) h t ≡ dests_of es h t
set-dests es h t i e lt same =
    map-window dest_of (λ j. get_or (set es i e) j blank_entry) h (sub_mod 64 t h)
    ∙ window-ext 32 (λ j. dest_of (get_or (set es i e) j blank_entry))
        (λ j. dest_of (get_or es j blank_entry)) h (sub_mod 64 t h) (λ k _. at ((h + k) % 32))
    ∙ sym (map-window dest_of (λ j. get_or es j blank_entry) h (sub_mod 64 t h))
  where
    at : (j : ℕ) → dest_of (get_or (set es i e) j blank_entry) ≡ dest_of (get_or es j blank_entry)
    at j = rw (get_or-set es i j e blank_entry lt) (elim (Bool-cases (i == j)) [
      | inr ne ↦ rw ne refl
      | inl eq ↦ rw eq (let ij : i ≡ j = ground arith in same ∙ rw ij refl)
    ])

dest-write_result : (w : CdbWrite) (e : Entry) → dest_of (write_result w e) ≡ dest_of e
unfolding write_result
dest-write_result w e = refl

dest-resolve_branch : (u : BranchUpdate) (e : Entry) → dest_of (resolve_branch u e) ≡ dest_of e
unfolding resolve_branch
dest-resolve_branch u e = refl

dest-attach_checkpoint : (id : ℕ) (e : Entry) → dest_of (attach_checkpoint id e) ≡ dest_of e
unfolding attach_checkpoint
dest-attach_checkpoint id e = refl

abbrev pub dest_of_request : AllocationRequest → Dest
dest_of_request req = record {
  dest_valid = req.dest_valid;
  dest_rf = req.dest_rf;
  dest_reg = req.dest_reg;
}

pub dest-new_entry : (req : AllocationRequest) → dest_of (new_entry req) ≡ dest_of_request req
unfolding new_entry
dest-new_entry req = elim (Bool-cases req.is_jal) [
  | inl j ↦ rw j (ground arith)
  | inr j ↦
      rw j (elim (Bool-cases req.is_jalr) [
        | inl k ↦ rw k (ground arith)
        | inr k ↦ rw k (ground arith)
      ])
]

module _ (r : Rob) (v : rob.IsValid r) where
  unchanged : Keeps r r
  unchanged = record { still_valid = v; same_head = refl; same_dests = refl }

  pub cdb_write-Keeps : (w : CdbWrite) → Keeps r (rob_or r (cdb_write r w))
  unfolding cdb_write
  cdb_write-Keeps w =
      let same = rob.cdb_write-IsValid r w v in
      elim (Bool-cases (entry_at r (w.tag % 32)).valid) [
        | inr a ↦ rw a unchanged
        | inl a ↦ rw a (elim (Bool-cases (entry_at r (w.tag % 32)).done) [
          | inl d ↦ rw d unchanged
          | inr d ↦ rw d (record {
            still_valid = (rw (a, d) at same);
            same_head = refl;
            same_dests =
                set-dests r.entries r.head_ptr r.tail_ptr (w.tag % 32) _ (omega (arith, v.sized))
                  (dest-write_result w (entry_at r (w.tag % 32)));
          })
        ])
      ]

  pub branch_update-Keeps : (u : BranchUpdate) → Keeps r (rob.after r (branch_update r u))
  unfolding branch_update
  branch_update-Keeps u =
      let same = rob.branch_update-IsValid r u v in
      elim (Bool-cases (entry_at r (u.tag % 32)).valid) [
        | inr a ↦ rw a unchanged
        | inl a ↦ rw a (elim (Bool-cases (entry_at r (u.tag % 32)).is_branch) [
          | inr b ↦ rw b unchanged
          | inl b ↦ rw b (record {
            still_valid = (rw (a, b) at same);
            same_head = refl;
            same_dests =
                set-dests r.entries r.head_ptr r.tail_ptr (u.tag % 32) _ (omega (arith, v.sized))
                  (dest-resolve_branch u (entry_at r (u.tag % 32)));
          })
        ])
      ]

  pub set_checkpoint-Keeps : (tag id : ℕ) → Keeps r (rob.after r (set_checkpoint r tag id))
  unfolding set_checkpoint
  set_checkpoint-Keeps tag id =
      let same = rob.set_checkpoint-IsValid r tag id v in
      elim (Bool-cases (ltb tag (length r.entries))) [
        | inr a ↦ rw a unchanged
        | inl a ↦ rw a (elim (Bool-cases (entry_at r tag).valid) [
          | inr b ↦ rw b unchanged
          | inl b ↦ rw b (record {
            still_valid = (rw (a, b) at same);
            same_head = refl;
            same_dests =
                set-dests r.entries r.head_ptr r.tail_ptr tag _ (ground arith)
                  (dest-attach_checkpoint id (entry_at r tag));
          })
        ])
      ]

pub ok_or_none-after : (r r' : Rob) (x : Result Rob) → ok_or_none x ≡ some r' → rob.after r x ≡ r'
ok_or_none-after r r' (ok s) h = ground (arith, h)
ok_or_none-after r r' (raised e) h = absurd (cc h)

-- A write that succeeds is to a register in range.
pub assigned_lt {ℓ κ} :
    {A : Type ℓ} {B : Type κ} (f : List A → B) (xs : List A) (i : ℕ) (a : A) (b : B)
    → Option.map f (assign xs i a) ≡ some b
    → i < length xs
assigned_lt f xs i a b h = elim (Bool-cases (ltb i (length xs))) [
  | inl t ↦ ground arith
  | inr t ↦ let e : none ≡ some b = (rw t at h) in absurd (cc e)
]

-- What the calls of the core that may raise return.
abbrev pub returns {ℓ} : {A : Type ℓ} → A → Core → Option (A × Core)
returns a c = some (a, c)
