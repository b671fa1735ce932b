-- ===== src/Rob/Tests.antt =====
-- The reorder buffer at concrete inputs.
use frost.Prelude.{ℕ, ◌≡◌, refl, true, false, ◌⊎◌, some, arith, length, take, ◌+◌}
use frost.Rob.{
  Rob, init, full, entry_at, head_idx, head_entry, new_entry, allocate, cdb_write, write_result,
}
use frost.Rob.Types.{SerialState, AllocationRequest, CdbWrite, RobError, ok, raised}
use frost.Rob.Commit.{check_serial_stall, serial_stall, can_commit, retire, expected_commit, commit}
use frost.Rob.Flush.{flush_partial}
use frost.Rob.Inv.{IsValid, after, init-IsValid, allocate-IsValid}
use frost.Rob.Queue.{enqueue, dequeue, update_at, complete}
use frost.Rob.Refine.{contents, tag_at, allocate_refines, commit_refines}
use frost.Rob.Recovery.{kept, flush_partial_refines}
use frost.Rob.Serial.{
  IsSerial, waiting, wait_kind, signal, is_ready, can_commit-signal, can_commit-twice,
  commit-can_commit,
}
use frost.Rob.Writes.{age, seen, cdb_write_refines}
use frost.Rob.History.{start, next, allocates, Reach-IsValid}
use mathlib.Core.Option

-- `AllocationRequest()`
abbrev pub plain : AllocationRequest
plain = record {
  pc = 0;
  rs_type = 0;
  dest_rf = 0;
  dest_reg = 0;
  dest_valid = false;
  is_store = false;
  is_fp_store = false;
  is_branch = false;
  predicted_taken = false;
  predicted_target = 0;
  branch_target = 0;
  is_call = false;
  is_return = false;
  link_addr = 0;
  is_jal = false;
  is_jalr = false;
  is_csr = false;
  is_fence = false;
  is_fence_i = false;
  is_wfi = false;
  is_mret = false;
  is_amo = false;
  is_lr = false;
  is_sc = false;
  is_compressed = false;
  csr_addr = 0;
  csr_op = 0;
  csr_write_data = 0;
  has_fp_flags = false;
}

abbrev jal : AllocationRequest
jal = record plain {
  is_jal = true;
  is_branch = true;
  pc = 64;
  link_addr = 68;
  branch_target = 128;
  dest_reg = 1;
  dest_valid = true;
}

abbrev csr : AllocationRequest
csr = record plain { is_csr = true; dest_reg = 5; dest_valid = true }

abbrev one_jal : Rob
one_jal = (allocate init jal).1

abbrev pub two : Rob
two = (allocate one_jal plain).1

abbrev result : CdbWrite
result = record { tag = 33; value = 7; exception = false; exc_cause = 0; fp_flags = 0 }

one_jal-IsValid : IsValid one_jal
one_jal-IsValid = allocate-IsValid init jal init-IsValid

pub two-IsValid : IsValid two
two-IsValid = allocate-IsValid one_jal plain one_jal-IsValid

-- A JAL commits at once; it was predicted not taken, so the front end is sent to its target.
commit-jal : (commit one_jal).0 ≡ ok (expected_commit 0 0 (new_entry jal))
unfolding commit can_commit check_serial_stall serial_stall retire allocate init new_entry full
    expected_commit
commit-jal = refl

redirect-jal : (expected_commit 0 0 (new_entry jal)).redirect_pc ≡ 128
unfolding expected_commit new_entry
redirect-jal = refl

allocate_refines_example :
    let (t, r') = allocate one_jal plain in
    let (p, q) = enqueue (contents one_jal) (new_entry plain) in
    (t ≡ Option.map (tag_at one_jal) p) × (contents r' ≡ q)
allocate_refines_example = allocate_refines one_jal plain one_jal-IsValid

commit_refines_example :
    (dequeue (contents one_jal) ≡ some (head_entry one_jal, contents (commit one_jal).1))
    × (expected_commit 0 0 (new_entry jal)
        ≡ expected_commit one_jal.mepc (head_idx one_jal) (head_entry one_jal))
commit_refines_example =
    commit_refines one_jal (expected_commit 0 0 (new_entry jal)) one_jal-IsValid commit-jal

cdb_write_refines_example :
    seen (cdb_write two result) ≡ update_at (complete result) (age two 1) (contents two)
cdb_write_refines_example = cdb_write_refines two result two-IsValid

pub head_live : (entry_at two 0).valid ≡ true
unfolding allocate init new_entry full
head_live = refl

flush_partial_refines_example :
    (n : ℕ) × (r' : Rob) × (flush_partial two 0 ≡ some (n, r'))
    × (contents r' ≡ take (kept two 0) (contents two))
    × (n + kept two 0 ≡ length (contents two))
    × IsValid r'
flush_partial_refines_example = flush_partial_refines two 0 two-IsValid (omega arith) head_live

-- A CSR access at the head, finished, with the CSR unit's answer there.
abbrev csr_done : Rob
csr_done = record (after init (cdb_write (allocate init csr).1 (record result { tag = 0 }))) {
  serial_state = SerialState.csr_exec;
  csr_done = true;
}

csr_done_waits : wait_kind (head_entry csr_done) ≡ SerialState.csr_exec
unfolding allocate init new_entry full cdb_write write_result
csr_done_waits = refl

csr_done_ready : is_ready csr_done ≡ true
unfolding allocate init new_entry full cdb_write write_result
csr_done_ready = refl

csr_done_passes : (can_commit csr_done).0 ≡ true
unfolding allocate init new_entry full cdb_write write_result can_commit check_serial_stall
    serial_stall
csr_done_passes = refl

csr_done-IsSerial : IsSerial csr_done
unfolding allocate init new_entry full cdb_write write_result
csr_done-IsSerial = waiting refl refl

can_commit-signal_example : signal csr_done (wait_kind (head_entry csr_done)) ≡ true
can_commit-signal_example = can_commit-signal csr_done csr_done-IsSerial csr_done_passes

csr_done_signal : signal csr_done (wait_kind (head_entry csr_done)) ≡ true
unfolding allocate init new_entry full cdb_write write_result
csr_done_signal = refl

can_commit-twice_example :
    ((can_commit csr_done).0 ≡ true) ⊎ ((can_commit (can_commit csr_done).1).0 ≡ true)
can_commit-twice_example =
    can_commit-twice csr_done csr_done-IsSerial csr_done_ready csr_done_signal

commit-can_commit_example : (commit (can_commit csr_done).1).0 ≡ raised RobError.cannot_commit
unfolding allocate init new_entry full cdb_write write_result
commit-can_commit_example = commit-can_commit csr_done csr_done_passes refl

Reach-IsValid_example : IsValid one_jal × IsSerial one_jal
Reach-IsValid_example = Reach-IsValid (next start (allocates jal))
