-- ===== src/StoreQueue/History.antt =====
-- Every sequence of calls on the store queue, in any order.
use frost.Prelude.{ℕ, ◌≡◌, Bool, some}
use frost.StoreQueue.{
  StoreQueue, Store, init, alloc, sc_discard, addr_update, data_update, commit, mem_write_initiate,
  mem_write_done, advance_head, flush_all, reset, partial_flush,
}
use frost.StoreQueue.Live.{IsValid, init-IsValid}
use frost.StoreQueue.Alloc.{alloc_refines}
use frost.StoreQueue.Updates.{updates_refine, sc_discard_refines}
use frost.StoreQueue.Head.{advance_head_refines, mem_write_done_refines}
use frost.StoreQueue.Recovery.{partial_flush_refines}

pub data Step (q : StoreQueue) : StoreQueue → Type 0 where
  allocs : (s : Store) (taken : Bool) (q' : StoreQueue) → alloc q s ≡ some (taken, q') → Step q q'
  discards : (tag : ℕ) → Step q (sc_discard q tag)
  addresses : (tag address : ℕ) (mmio : Bool) → Step q (addr_update q tag address mmio)
  values : (tag value : ℕ) → Step q (data_update q tag value)
  commits : (tag : ℕ) → Step q (commit q tag)
  initiates : Step q (mem_write_initiate q)
  completes : Step q (mem_write_done q)
  advances : (q' : StoreQueue) → advance_head q ≡ some q' → Step q q'
  clears : Step q (flush_all q)
  cuts : (flush_tag rob_head_tag : ℕ) → Step q (partial_flush q flush_tag rob_head_tag)

pub data Reach : StoreQueue → Type 0 where
  start : Reach init
  next : {q s : StoreQueue} → Reach q → Step q s → Reach s

Step-IsValid : {q s : StoreQueue} → Step q s → IsValid q → IsValid s
Step-IsValid {q = q} (allocs s taken q' e) v =
    let (p, f, _, w) = alloc_refines q s v in let same : p ≡ q' = cc in rw (← same) w
Step-IsValid {q = q} (discards tag) v = (sc_discard_refines q tag v).1
Step-IsValid {q = q} (addresses tag address mmio) v = (updates_refine q tag address 0 mmio v).3
Step-IsValid {q = q} (values tag value) v = (updates_refine q tag 0 value Bool.true v).4
Step-IsValid {q = q} (commits tag) v = (updates_refine q tag 0 0 Bool.true v).5
Step-IsValid initiates v = unfold mem_write_initiate in record { window = v.window }
Step-IsValid {q = q} completes v = (mem_write_done_refines q v).2
Step-IsValid {q = q} (advances q' e) v =
    let (p, f, _, _, w) = advance_head_refines q v in let same : p ≡ q' = cc in rw (← same) w
Step-IsValid clears v = unfold flush_all reset in init-IsValid
Step-IsValid {q = q} (cuts flush_tag rob_head_tag) v =
    (partial_flush_refines q flush_tag rob_head_tag v).2

-- After any sequence of calls every valid slot lies between head and tail, and head and tail are
-- at most eight apart.
pub Reach-window : {q : StoreQueue} → Reach q → IsValid q
Reach-window start = init-IsValid
Reach-window (next h st) = Step-IsValid st (Reach-window h)
