-- ===== src/Rob.antt =====
-- verif/cocotb_tests/tomasulo/reorder_buffer/reorder_buffer_model.py: class ReorderBufferModel.
-- A method that mutates the object returns the new state; one that raises returns the exception.
-- The depth is the default, REORDER_BUFFER_DEPTH, which every user of the class takes.
pub mod Types
pub mod Commit
pub mod Flush
pub mod Pointers
pub mod Queue
pub mod Refine
pub mod Recovery
pub mod Tests
pub mod Writes
pub mod Waiting
pub mod History
pub mod Serial
pub mod Clear
pub mod Inv
use frost.Prelude.{
  ℕ, zero, suc, ◌+◌, ◌%◌, ◌^◌, Bool, true, false, not, ◌&&◌, ◌||◌, Option, none, some, List, [],
  ◌∷◌, ◌++◌, map, ltb, ◌==◌, if◌then◌else◌, mask32, mask64, sub_mod, bit_xor, get_or, set, length,
  replicate, count_if, to_int,
}
use Types.{
  SerialState, Entry, blank_entry, AllocationRequest, CdbWrite, BranchUpdate, ExpectedCommit,
  RobError, Result, ok, raised,
}

pub record Rob : Type 0 where
  pub entries : List Entry
  pub head_ptr : ℕ
  pub tail_ptr : ℕ
  pub serial_state : SerialState
  pub sq_committed_empty : Bool
  pub csr_done : Bool
  pub mret_done : Bool
  pub trap_taken : Bool
  pub interrupt_pending : Bool
  pub mepc : ℕ
  pub expected_commits : List ExpectedCommit
  pub expected_alloc_responses : List (Bool × ℕ)
  pub total_allocations : ℕ
  pub total_commits : ℕ
  pub total_flushes : ℕ
  pub mispredictions : ℕ

-- `ReorderBufferModel()`
unfoldable pub init : Rob
init = record {
  entries = replicate 32 blank_entry;
  head_ptr = 0;
  tail_ptr = 0;
  serial_state = SerialState.idle;
  sq_committed_empty = true;
  csr_done = false;
  mret_done = false;
  trap_taken = false;
  interrupt_pending = false;
  mepc = 0;
  expected_commits = [];
  expected_alloc_responses = [];
  total_allocations = 0;
  total_commits = 0;
  total_flushes = 0;
  mispredictions = 0;
}

abbrev pub head_idx : Rob → ℕ
head_idx r = r.head_ptr % 32

abbrev pub tail_idx : Rob → ℕ
tail_idx r = r.tail_ptr % 32

unfoldable pub full : Rob → Bool
full r = bit_xor r.tail_ptr r.head_ptr == 32

abbrev pub empty : Rob → Bool
empty r = r.tail_ptr == r.head_ptr

abbrev pub count : Rob → ℕ
count r = sub_mod 64 r.tail_ptr r.head_ptr

-- `self.entries[i]`
abbrev pub entry_at : Rob → ℕ → Entry
entry_at r i = get_or r.entries i blank_entry

abbrev pub head_entry : Rob → Entry
head_entry r = entry_at r (head_idx r)

-- `allocate`, up to "Handle JAL": the fields that are copied or cleared.
init_entry : AllocationRequest → Entry
init_entry req = record {
  valid = true;
  done = false;
  exception = false;
  exc_cause = 0;
  pc = mask32 req.pc;
  dest_rf = req.dest_rf;
  dest_reg = req.dest_reg;
  dest_valid = req.dest_valid;
  value = 0;
  is_store = req.is_store;
  is_fp_store = req.is_fp_store;
  is_branch = req.is_branch;
  branch_taken = false;
  branch_target = (if req.is_jal then mask32 req.branch_target else 0);
  predicted_taken = req.predicted_taken;
  predicted_target = mask32 req.predicted_target;
  mispredicted = false;
  is_call = req.is_call;
  is_return = req.is_return;
  is_jal = req.is_jal;
  is_jalr = req.is_jalr;
  has_checkpoint = false;
  checkpoint_id = 0;
  fp_flags = 0;
  has_fp_flags = req.has_fp_flags;
  is_csr = req.is_csr;
  is_fence = req.is_fence;
  is_fence_i = req.is_fence_i;
  is_wfi = req.is_wfi;
  is_mret = req.is_mret;
  is_amo = req.is_amo;
  is_lr = req.is_lr;
  is_sc = req.is_sc;
  is_compressed = req.is_compressed;
  csr_addr = req.csr_addr;
  csr_op = req.csr_op;
  csr_write_data = req.csr_write_data;
}

-- A JAL is done at once and carries the link address; a JALR carries it and waits.
link_jump : AllocationRequest → Entry → Entry
link_jump req e =
    if req.is_jal
    then record e {
      done = true;
      value = mask64 req.link_addr;
      branch_taken = true;
      mispredicted =
          not req.predicted_taken || not (mask32 req.predicted_target == mask32 req.branch_target);
    }
    else (if req.is_jalr then record e { value = mask64 req.link_addr } else e)

-- A serializing instruction is done at dispatch.
mark_serial : AllocationRequest → Entry → Entry
mark_serial req e =
    if req.is_wfi || (req.is_fence || (req.is_fence_i || req.is_mret))
    then record e { done = true }
    else e

-- The entry that `allocate` leaves in its slot.
unfoldable pub new_entry : AllocationRequest → Entry
unfolding init_entry link_jump mark_serial
new_entry req = mark_serial req (link_jump req (init_entry req))

unfoldable pub allocate : Rob → AllocationRequest → Option ℕ × Rob
allocate r req =
    if full r
    then (
      none,
      record r { expected_alloc_responses = r.expected_alloc_responses ++ (false, 0) ∷ [] },
    )
    else (
      some (tail_idx r),
      record r {
        entries = set r.entries (tail_idx r) (new_entry req);
        tail_ptr = (r.tail_ptr + 1) % 64;
        total_allocations = r.total_allocations + 1;
        expected_alloc_responses = r.expected_alloc_responses ++ (true, tail_idx r) ∷ [];
      },
    )

-- The writes of one entry: `set_checkpoint`, `cdb_write`, `store_complete` and `branch_update`.
unfoldable pub attach_checkpoint : ℕ → Entry → Entry
attach_checkpoint id e = record e { has_checkpoint = true; checkpoint_id = id }

unfoldable pub write_result : CdbWrite → Entry → Entry
write_result w e = record e {
  done = true;
  value = mask64 w.value;
  exception = w.exception;
  exc_cause = w.exc_cause;
  fp_flags = w.fp_flags;
}

unfoldable pub mark_done : Entry → Entry
mark_done e = record e { done = true }

unfoldable pub resolve_branch : BranchUpdate → Entry → Entry
resolve_branch u e = record e {
  branch_taken = u.taken;
  branch_target = mask32 u.target;
  mispredicted = u.mispredicted;
  done = (if not e.is_jal then true else e.done);
}

abbrev pub put : Rob → ℕ → Entry → Rob
put r i e = record r { entries = set r.entries i e }

unfoldable pub set_checkpoint : Rob → ℕ → ℕ → Result Rob
set_checkpoint r tag id =
    if not (ltb tag (length r.entries))
    then raised (RobError.index_out_of_range tag)
    else (if (entry_at r tag).valid
        then ok (put r tag (attach_checkpoint id (entry_at r tag)))
        else ok r)

unfoldable pub cdb_write : Rob → CdbWrite → Result Rob
cdb_write r w =
    let i = w.tag % 32 in
    if not (entry_at r i).valid
    then raised (RobError.invalid_entry w.tag)
    else (if (entry_at r i).done then ok r else ok (put r i (write_result w (entry_at r i))))

unfoldable pub store_complete : Rob → ℕ → Result Rob
store_complete r tag =
    let i = tag % 32 in
    if not (entry_at r i).valid
    then raised (RobError.invalid_entry tag)
    else (if (entry_at r i).done then ok r else ok (put r i (mark_done (entry_at r i))))

unfoldable pub branch_update : Rob → BranchUpdate → Result Rob
branch_update r u =
    let i = u.tag % 32 in
    if not (entry_at r i).valid
    then raised (RobError.invalid_entry u.tag)
    else (if not (entry_at r i).is_branch
        then raised (RobError.non_branch u.tag)
        else ok (record r {
          entries = set r.entries i (resolve_branch u (entry_at r i));
          mispredictions = r.mispredictions + to_int u.mispredicted;
        }))
