-- ===== src/Rob/Commit.antt =====
-- reorder_buffer_model.py: `_check_serial_stall`, `can_commit` and `commit`. All three may change
-- the serialization state, also when `commit` raises.
use frost.Prelude.{
  ℕ, ◌+◌, ◌%◌, Bool, true, false, not, ◌&&◌, ◌||◌, ◌∷◌, [], ◌++◌, if◌then◌else◌, mask32, set,
}
use frost.Rob.{Rob, head_idx, empty, head_entry}
use frost.Rob.Types.{SerialState, Entry, ExpectedCommit, RobError, Result, ok, raised}

-- The branch `serial_state == IDLE`: whether to stall, and the next state.
unfoldable pub idle_stall : Rob → Entry → Bool × SerialState
idle_stall r e =
    if e.exception
    then (true, SerialState.trap_wait)
    else (if e.is_wfi
        then (if not r.interrupt_pending
            then (true, SerialState.wfi_wait)
            else (false, SerialState.idle))
        else (if e.is_csr
            then (true, SerialState.csr_exec)
            else (if e.is_fence || e.is_fence_i
                then (if not r.sq_committed_empty
                    then (true, SerialState.wait_sq)
                    else (false, SerialState.idle))
                else (if e.is_amo || e.is_lr
                    then (false, SerialState.idle)
                    else (if e.is_mret
                        then (true, SerialState.mret_exec)
                        else (false, SerialState.idle))))))

-- A waiting state stalls until its signal is up, and then goes back to IDLE.
unfoldable pub wait_for : SerialState → Bool → Bool × SerialState
wait_for s done = if not done then (true, s) else (false, SerialState.idle)

unfoldable pub serial_stall : SerialState → Rob → Entry → Bool × SerialState
unfolding idle_stall wait_for
serial_stall SerialState.idle r e = idle_stall r e
serial_stall SerialState.wait_sq r e = wait_for SerialState.wait_sq r.sq_committed_empty
serial_stall SerialState.csr_exec r e = wait_for SerialState.csr_exec r.csr_done
serial_stall SerialState.mret_exec r e = wait_for SerialState.mret_exec r.mret_done
serial_stall SerialState.wfi_wait r e = wait_for SerialState.wfi_wait r.interrupt_pending
serial_stall SerialState.trap_wait r e = wait_for SerialState.trap_wait r.trap_taken

-- `_check_serial_stall`
unfoldable pub check_serial_stall : Rob → Bool × Rob
check_serial_stall r =
    if empty r
    then (false, r)
    else (if not (head_entry r).valid || not (head_entry r).done
        then (false, r)
        else (let out = serial_stall r.serial_state r (head_entry r) in
            (out.0, record r { serial_state = out.1 })))

unfoldable pub can_commit : Rob → Bool × Rob
can_commit r =
    if empty r
    then (false, r)
    else (if not (head_entry r).valid || not (head_entry r).done
        then (false, r)
        else (let out = check_serial_stall r in (not out.0, out.1)))

-- `redirect_pc` of `commit`
unfoldable pub redirect_pc : ℕ → Entry → ℕ
redirect_pc mepc e =
    if e.is_mret
    then mask32 mepc
    else (if e.is_branch && e.mispredicted
        then (if e.branch_taken
            then e.branch_target
            else mask32 (e.pc + (if e.is_compressed then 2 else 4)))
        else 0)

-- The `ExpectedCommit` that `commit` builds from the head entry and its tag.
unfoldable pub expected_commit : ℕ → ℕ → Entry → ExpectedCommit
unfolding redirect_pc
expected_commit mepc tag e = record {
  valid = true;
  tag = tag;
  dest_rf = e.dest_rf;
  dest_reg = e.dest_reg;
  dest_valid = e.dest_valid;
  value = e.value;
  is_store = e.is_store;
  is_fp_store = e.is_fp_store;
  exception = e.exception;
  pc = e.pc;
  exc_cause = e.exc_cause;
  fp_flags = e.fp_flags;
  has_fp_flags = e.has_fp_flags;
  misprediction = e.is_branch && e.mispredicted;
  has_checkpoint = e.has_checkpoint;
  checkpoint_id = e.checkpoint_id;
  redirect_pc = redirect_pc mepc e;
  predicted_taken = e.predicted_taken;
  branch_taken = e.branch_taken;
  branch_target = e.branch_target;
  is_branch = e.is_branch;
  is_call = e.is_call;
  is_return = e.is_return;
  is_jal = e.is_jal;
  is_jalr = e.is_jalr;
  csr_addr = e.csr_addr;
  csr_op = e.csr_op;
  csr_write_data = e.csr_write_data;
  is_csr = e.is_csr;
  is_fence = e.is_fence;
  is_fence_i = e.is_fence_i;
  is_wfi = e.is_wfi;
  is_mret = e.is_mret;
  is_amo = e.is_amo;
  is_lr = e.is_lr;
  is_sc = e.is_sc;
}

-- The rest of `commit`, once the check has passed: report the head entry, free it, move the head.
unfoldable pub retire : Rob → ExpectedCommit × Rob
retire r =
    let e = head_entry r in
    let c = expected_commit r.mepc (head_idx r) e in
    (
      c,
      record r {
        entries = set r.entries (head_idx r) (record e { valid = false });
        head_ptr = (r.head_ptr + 1) % 64;
        total_commits = r.total_commits + 1;
        expected_commits = r.expected_commits ++ c ∷ [];
      },
    )

unfoldable pub commit : Rob → Result ExpectedCommit × Rob
commit r =
    let (may, r') = can_commit r in
    if not may
    then (raised RobError.cannot_commit, r')
    else (let (c, r'') = retire r' in (ok c, r''))
