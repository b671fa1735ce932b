-- ===== src/Rob/History.antt =====
-- Every sequence of calls: the methods of the model in any order, and signals from outside that
-- may change at any time. A partial flush is given the tag of an entry in flight.
use frost.Prelude.{ℕ, ◌<◌, ◌≡◌, refl, Bool, true, some}
use frost.Rob.{
  Rob, init, entry_at, allocate, cdb_write, store_complete, branch_update, set_checkpoint,
}
use frost.Rob.Types.{AllocationRequest, CdbWrite, BranchUpdate}
use frost.Rob.Commit.{can_commit, commit}
use frost.Rob.Flush.{flush_partial, flush_all, reset}
use frost.Rob.Inv.{
  IsValid, after, init-IsValid, allocate-IsValid, cdb_write-IsValid, store_complete-IsValid,
  set_checkpoint-IsValid, branch_update-IsValid,
}
use frost.Rob.Refine.{can_commit-frame, commit-IsValid}
use frost.Rob.Waiting.{
  IsSerial-head, IsSerial-frame, allocate-IsSerial, set_checkpoint-IsSerial, cdb_write-IsSerial,
  store_complete-IsSerial, branch_update-IsSerial,
}
use frost.Rob.Serial.{commit-IsSerial, IsSerial, resting, can_commit-IsSerial}
use frost.Rob.Clear.{flush_all_refines, reset_refines, flush_all-IsSerial, reset-IsSerial}
use frost.Rob.Recovery.{flush_partial_refines, flush_partial-head}

-- The signals that the surroundings drive.
pub record Signals : Type 0 where
  pub sq_committed_empty : Bool
  pub csr_done : Bool
  pub mret_done : Bool
  pub trap_taken : Bool
  pub interrupt_pending : Bool
  pub mepc : ℕ

abbrev pub drive : Rob → Signals → Rob
drive r s = record r {
  sq_committed_empty = s.sq_committed_empty;
  csr_done = s.csr_done;
  mret_done = s.mret_done;
  trap_taken = s.trap_taken;
  interrupt_pending = s.interrupt_pending;
  mepc = s.mepc;
}

pub data Step (r : Rob) : Rob → Type 0 where
  allocates : (req : AllocationRequest) → Step r (allocate r req).1
  checkpoints : (tag id : ℕ) → Step r (after r (set_checkpoint r tag id))
  writes : (w : CdbWrite) → Step r (after r (cdb_write r w))
  completes : (tag : ℕ) → Step r (after r (store_complete r tag))
  resolves : (u : BranchUpdate) → Step r (after r (branch_update r u))
  checks : Step r (can_commit r).1
  commits : Step r (commit r).1
  cuts :
      (f n : ℕ) (r' : Rob)
      → f < 32
      → (entry_at r f).valid ≡ true
      → flush_partial r f ≡ some (n, r')
      → Step r r'
  clears : Step r (flush_all r).1
  resets : Step r (reset r)
  signals : (s : Signals) → Step r (drive r s)

pub data Reach : Rob → Type 0 where
  start : Reach init
  next : {r s : Rob} → Reach r → Step r s → Reach s

Step-IsValid : {r s : Rob} → Step r s → IsValid r → IsValid s
Step-IsValid {r = r} (allocates req) v = allocate-IsValid r req v
Step-IsValid {r = r} (checkpoints tag id) v = set_checkpoint-IsValid r tag id v
Step-IsValid {r = r} (writes w) v = cdb_write-IsValid r w v
Step-IsValid {r = r} (completes tag) v = store_complete-IsValid r tag v
Step-IsValid {r = r} (resolves u) v = branch_update-IsValid r u v
Step-IsValid {r = r} checks v = rw (can_commit-frame r) (record { window = v.window })
Step-IsValid {r = r} commits v = commit-IsValid r v
Step-IsValid {r = r} (cuts f n s lt live e) v =
    let (n', s', e', c, m, v') = flush_partial_refines r f v lt live in
    let same : s' ≡ s = cc in rw (← same) v'
Step-IsValid {r = r} clears v = (flush_all_refines r v).2
Step-IsValid {r = r} resets v = (reset_refines r v).1
Step-IsValid (signals s) v = record { window = v.window }

Step-IsSerial : {r s : Rob} → Step r s → IsValid r → IsSerial r → IsSerial s
Step-IsSerial {r = r} (allocates req) v k = allocate-IsSerial r req v k
Step-IsSerial {r = r} (checkpoints tag id) v k = set_checkpoint-IsSerial r tag id v k
Step-IsSerial {r = r} (writes w) v k = cdb_write-IsSerial r w v k
Step-IsSerial {r = r} (completes tag) v k = store_complete-IsSerial r tag v k
Step-IsSerial {r = r} (resolves u) v k = branch_update-IsSerial r u v k
Step-IsSerial {r = r} checks v k = can_commit-IsSerial r k
Step-IsSerial {r = r} commits v k = commit-IsSerial r k
Step-IsSerial {r = r} (cuts f n s lt live e) v k =
    let (a, b, c) = flush_partial-head r f v lt live n s e in IsSerial-head r s a (λ _. (b, c)) k
Step-IsSerial {r = r} clears v k = flush_all-IsSerial r
Step-IsSerial {r = r} resets v k = reset-IsSerial r
Step-IsSerial {r = r} (signals s) v k = IsSerial-frame r (drive r s) refl (λ h. (h, refl)) k

init-IsSerial : IsSerial init
unfolding init
init-IsSerial = resting refl

-- After any history the slots and pointers are consistent, and the serialization state machine
-- rests or waits for what the finished head entry needs.
pub Reach-IsValid : {r : Rob} → Reach r → IsValid r × IsSerial r
Reach-IsValid start = (init-IsValid, init-IsSerial)
Reach-IsValid (next h st) =
    let (v, k) = Reach-IsValid h in (Step-IsValid st v, Step-IsSerial st v k)
