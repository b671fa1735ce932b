-- ===== src/Rob/Types.antt =====
-- The data types of verif/cocotb_tests/tomasulo/reorder_buffer/reorder_buffer_model.py: entries,
-- requests, expected outputs, the serialization states and the exceptions that the model raises.
use frost.Prelude.{ℕ, Bool, false}

-- `SerialState`
pub data SerialState : Type 0 where
  idle wait_sq csr_exec mret_exec wfi_wait trap_wait : SerialState

-- `ReorderBufferEntry`
pub record Entry : Type 0 where
  pub valid : Bool
  pub done : Bool
  pub exception : Bool
  pub exc_cause : ℕ
  pub pc : ℕ
  pub dest_rf : ℕ
  pub dest_reg : ℕ
  pub dest_valid : Bool
  pub value : ℕ
  pub is_store : Bool
  pub is_fp_store : Bool
  pub is_branch : Bool
  pub branch_taken : Bool
  pub branch_target : ℕ
  pub predicted_taken : Bool
  pub predicted_target : ℕ
  pub mispredicted : Bool
  pub is_call : Bool
  pub is_return : Bool
  pub is_jal : Bool
  pub is_jalr : Bool
  pub has_checkpoint : Bool
  pub checkpoint_id : ℕ
  pub fp_flags : ℕ
  pub has_fp_flags : Bool
  pub is_csr : Bool
  pub is_fence : Bool
  pub is_fence_i : Bool
  pub is_wfi : Bool
  pub is_mret : Bool
  pub is_amo : Bool
  pub is_lr : Bool
  pub is_sc : Bool
  pub is_compressed : Bool
  pub csr_addr : ℕ
  pub csr_op : ℕ
  pub csr_write_data : ℕ

-- `ReorderBufferEntry()`: the defaults of the dataclass.
abbrev pub blank_entry : Entry
blank_entry = record {
  valid = false;
  done = false;
  exception = false;
  exc_cause = 0;
  pc = 0;
  dest_rf = 0;
  dest_reg = 0;
  dest_valid = false;
  value = 0;
  is_store = false;
  is_fp_store = false;
  is_branch = false;
  branch_taken = false;
  branch_target = 0;
  predicted_taken = false;
  predicted_target = 0;
  mispredicted = false;
  is_call = false;
  is_return = false;
  is_jal = false;
  is_jalr = false;
  has_checkpoint = false;
  checkpoint_id = 0;
  fp_flags = 0;
  has_fp_flags = false;
  is_csr = false;
  is_fence = false;
  is_fence_i = false;
  is_wfi = false;
  is_mret = false;
  is_amo = false;
  is_lr = false;
  is_sc = false;
  is_compressed = false;
  csr_addr = 0;
  csr_op = 0;
  csr_write_data = 0;
}

-- `AllocationRequest`
pub record AllocationRequest : Type 0 where
  pub pc : ℕ
  pub rs_type : ℕ
  pub dest_rf : ℕ
  pub dest_reg : ℕ
  pub dest_valid : Bool
  pub is_store : Bool
  pub is_fp_store : Bool
  pub is_branch : Bool
  pub predicted_taken : Bool
  pub predicted_target : ℕ
  pub branch_target : ℕ
  pub is_call : Bool
  pub is_return : Bool
  pub link_addr : ℕ
  pub is_jal : Bool
  pub is_jalr : Bool
  pub is_csr : Bool
  pub is_fence : Bool
  pub is_fence_i : Bool
  pub is_wfi : Bool
  pub is_mret : Bool
  pub is_amo : Bool
  pub is_lr : Bool
  pub is_sc : Bool
  pub is_compressed : Bool
  pub csr_addr : ℕ
  pub csr_op : ℕ
  pub csr_write_data : ℕ
  pub has_fp_flags : Bool

-- `CDBWrite`
pub record CdbWrite : Type 0 where
  pub tag : ℕ
  pub value : ℕ
  pub exception : Bool
  pub exc_cause : ℕ
  pub fp_flags : ℕ

-- `BranchUpdate`
pub record BranchUpdate : Type 0 where
  pub tag : ℕ
  pub taken : Bool
  pub target : ℕ
  pub mispredicted : Bool

-- `ExpectedCommit`
pub record ExpectedCommit : Type 0 where
  pub valid : Bool
  pub tag : ℕ
  pub dest_rf : ℕ
  pub dest_reg : ℕ
  pub dest_valid : Bool
  pub value : ℕ
  pub is_store : Bool
  pub is_fp_store : Bool
  pub exception : Bool
  pub pc : ℕ
  pub exc_cause : ℕ
  pub fp_flags : ℕ
  pub has_fp_flags : Bool
  pub misprediction : Bool
  pub has_checkpoint : Bool
  pub checkpoint_id : ℕ
  pub redirect_pc : ℕ
  pub predicted_taken : Bool
  pub branch_taken : Bool
  pub branch_target : ℕ
  pub is_branch : Bool
  pub is_call : Bool
  pub is_return : Bool
  pub is_jal : Bool
  pub is_jalr : Bool
  pub csr_addr : ℕ
  pub csr_op : ℕ
  pub csr_write_data : ℕ
  pub is_csr : Bool
  pub is_fence : Bool
  pub is_fence_i : Bool
  pub is_wfi : Bool
  pub is_mret : Bool
  pub is_amo : Bool
  pub is_lr : Bool
  pub is_sc : Bool

-- What the methods raise, with the tag that the message names.
pub data RobError : Type 0 where
  invalid_entry : ℕ → RobError
  non_branch : ℕ → RobError
  index_out_of_range : ℕ → RobError
  cannot_commit : RobError

pub data Result (A : Type 0) : Type 0 where
  ok : A → Result A
  raised : RobError → Result A
