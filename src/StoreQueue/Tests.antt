-- ===== src/StoreQueue/Tests.antt =====
-- The store queue at concrete inputs.
use frost.Prelude.{
  ◌+◌, ◌%◌, ◌≡◌, refl, ◌⊎◌, true, false, not, ◌&&◌, some, [], ◌∷◌, ◌++◌, drop, select, replicate,
  if◌then◌else◌,
}
use frost.StoreQueue.{
  StoreQueue, Store, init, full, head_idx, entry_at, blank_entry, new_entry, alloc, commit,
  mem_write_done, advance_head, partial_flush, kill_entry, last_survivor,
}
use frost.StoreQueue.Live.{stores, IsValid}
use frost.StoreQueue.Alloc.{alloc_refines}
use frost.StoreQueue.Head.{IsSettled, advance_head_refines, mem_write_done_refines}
use frost.StoreQueue.Recovery.{survives, partial_flush_refines}
use frost.StoreQueue.History.{Reach, start, next, allocs, commits, Reach-window}

abbrev word : Store
word = record {
  rob_tag = 3;
  is_fp = false;
  size = 2;
  is_sc = false;
  addr_valid = false;
  address = 0;
  is_mmio = false;
}

abbrev conditional : Store
conditional = record word { rob_tag = 4; is_sc = true }

-- One store, and then a second.
abbrev one : StoreQueue
one = record {
  entries = new_entry word ∷ replicate 7 blank_entry;
  head_ptr = 0;
  tail_ptr = 1;
  write_outstanding = false;
}

abbrev two : StoreQueue
two = record {
  entries = new_entry word ∷ new_entry conditional ∷ replicate 6 blank_entry;
  head_ptr = 0;
  tail_ptr = 2;
  write_outstanding = false;
}

Reach-one : Reach one
unfolding alloc
Reach-one = next start (allocs word true one refl)

Reach-two : Reach two
unfolding alloc
Reach-two = next Reach-one (allocs conditional true two refl)

one-IsValid : IsValid one
one-IsValid = Reach-window Reach-one

two-IsValid : IsValid two
two-IsValid = Reach-window Reach-two

alloc_refines_example :
    (q' : StoreQueue) × (alloc one conditional ≡ some (not (full one), q'))
    × (stores q' ≡ (if full one then stores one else stores one ++ new_entry conditional ∷ []))
    × IsValid q'
alloc_refines_example = alloc_refines one conditional one-IsValid

partial_flush_refines_example :
    let q' = partial_flush two 3 3 in
    (stores q' ≡ select (survives 3 3) (stores two))
    × ((q'.tail_ptr ≡ q'.head_ptr) ⊎ ((entry_at q' ((q'.tail_ptr + 7) % 8)).valid ≡ true))
    × IsValid q'
partial_flush_refines_example = partial_flush_refines two 3 3 two-IsValid

advance_head_refines_example :
    (q' : StoreQueue) × (advance_head two ≡ some q')
    × (stores q' ≡ stores two)
    × IsSettled q'
    × IsValid q'
advance_head_refines_example = advance_head_refines two two-IsValid

mem_write_done_refines_example :
    (stores (mem_write_done two) ≡ (
      if two.write_outstanding && (entry_at two (head_idx two)).valid
      then drop 1 (stores two)
      else stores two))
    × ((mem_write_done two).write_outstanding ≡ false)
    × IsValid (mem_write_done two)
mem_write_done_refines_example = mem_write_done_refines two two-IsValid

Reach-window_example : IsValid (commit init 3)
Reach-window_example = Reach-window (next start (commits 3))

-- The younger, uncommitted store goes, and the tail follows it.
flush_drops_younger : (partial_flush two 3 3).tail_ptr ≡ 1
unfolding new_entry partial_flush kill_entry last_survivor
flush_drops_younger = refl
