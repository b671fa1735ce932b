-- ===== src/LoadQueue.antt =====
-- verif/cocotb_tests/tomasulo/load_queue/lq_model.py: class LQModel, at its default depth LQ_DEPTH:
-- the state, allocation, address update and the choice of the next load. Every method returns the
-- new state.
pub mod Memory
pub mod Scan
pub mod Choice
pub mod Recovery
mod Tests
use frost.Prelude.{
  ℕ, zero, suc, ◌+◌, ◌%◌, Bool, true, false, not, ◌&&◌, ◌||◌, Option, none, some, List, [], ◌∷◌,
  map, ltb, ◌==◌, if◌then◌else◌, mask_xlen, mask64, sub_mod, get_or, set, replicate, count_if,
}

-- `LQEntry`; the field `data` is called `value` here.
pub record Entry : Type 0 where
  pub valid : Bool
  pub rob_tag : ℕ
  pub is_fp : Bool
  pub addr_valid : Bool
  pub address : ℕ
  pub size : ℕ
  pub sign_ext : Bool
  pub is_mmio : Bool
  pub issued : Bool
  pub data_valid : Bool
  pub value : ℕ
  pub forwarded : Bool
  pub is_lr : Bool
  pub is_amo : Bool
  pub amo_op : ℕ
  pub amo_rs2 : ℕ

-- `LQEntry()`; the default size is MEM_SIZE_WORD.
abbrev pub blank_entry : Entry
blank_entry = record {
  valid = false;
  rob_tag = 0;
  is_fp = false;
  addr_valid = false;
  address = 0;
  size = 2;
  sign_ext = false;
  is_mmio = false;
  issued = false;
  data_valid = false;
  value = 0;
  forwarded = false;
  is_lr = false;
  is_amo = false;
  amo_op = 0;
  amo_rs2 = 0;
}

-- `FuComplete`
pub record FuComplete : Type 0 where
  pub valid : Bool
  pub tag : ℕ
  pub value : ℕ
  pub exception : Bool
  pub exc_cause : ℕ
  pub fp_flags : ℕ

abbrev pub idle : FuComplete
idle = record { valid = false; tag = 0; value = 0; exception = false; exc_cause = 0; fp_flags = 0 }

pub record LoadQueue : Type 0 where
  pub entries : List Entry
  pub head_ptr : ℕ
  pub tail_ptr : ℕ
  pub mem_outstanding : Bool
  pub issued_idx : ℕ
  pub cdb_stage : FuComplete
  pub reservation_valid : Bool
  pub reservation_addr : ℕ
  pub amo_state : ℕ
  pub amo_old_value : ℕ
  pub amo_entry_idx : ℕ

-- `LQModel()`
abbrev pub init : LoadQueue
init = record {
  entries = replicate 8 blank_entry;
  head_ptr = 0;
  tail_ptr = 0;
  mem_outstanding = false;
  issued_idx = 0;
  cdb_stage = idle;
  reservation_valid = false;
  reservation_addr = 0;
  amo_state = 0;
  amo_old_value = 0;
  amo_entry_idx = 0;
}

unfoldable pub reset : LoadQueue → LoadQueue
reset q = init

abbrev pub head_idx : LoadQueue → ℕ
head_idx q = q.head_ptr % 8

abbrev pub entry_at : LoadQueue → ℕ → Entry
entry_at q i = get_or q.entries i blank_entry

abbrev pub count : LoadQueue → ℕ
count q = count_if (λ (e : Entry). e.valid) q.entries

abbrev pub full : LoadQueue → Bool
full q = count q == 8

-- The arguments of `alloc`.
pub record Load : Type 0 where
  pub rob_tag : ℕ
  pub is_fp : Bool
  pub size : ℕ
  pub sign_ext : Bool
  pub is_lr : Bool
  pub is_amo : Bool
  pub amo_op : ℕ

unfoldable pub new_entry : Load → Entry
new_entry l = record {
  valid = true;
  rob_tag = l.rob_tag % 32;
  is_fp = l.is_fp;
  addr_valid = false;
  address = 0;
  size = l.size;
  sign_ext = l.sign_ext;
  is_mmio = false;
  issued = false;
  data_valid = false;
  value = 0;
  forwarded = false;
  is_lr = l.is_lr;
  is_amo = l.is_amo;
  amo_op = l.amo_op;
  amo_rs2 = 0;
}

-- The loop of `alloc`, with `n` rounds left: the pointer steps over valid slots.
unfoldable pub alloc_ptr : LoadQueue → ℕ → ℕ → ℕ
alloc_ptr q zero ptr = ptr
alloc_ptr q (suc n) ptr =
    let rest = alloc_ptr q n ((ptr + 1) % 16) in
    if not (entry_at q (ptr % 8)).valid then ptr else rest

unfoldable pub alloc : LoadQueue → Load → Bool × LoadQueue
alloc q l =
    let ptr = alloc_ptr q 8 q.tail_ptr in
    if full q then (false, q) else (
      true,
      record q { entries = set q.entries (ptr % 8) (new_entry l); tail_ptr = (ptr + 1) % 16 },
    )

unfoldable pub addr_entry : ℕ → ℕ → Bool → ℕ → Entry → Entry
addr_entry rob_tag address is_mmio amo_rs2 e =
    if e.valid && (not e.addr_valid && (e.rob_tag == rob_tag % 32))
    then record e {
      addr_valid = true;
      address = mask_xlen address;
      is_mmio = is_mmio;
      amo_rs2 = mask_xlen amo_rs2;
    }
    else e

unfoldable pub addr_update : LoadQueue → ℕ → ℕ → Bool → ℕ → LoadQueue
addr_update q rob_tag address is_mmio amo_rs2 = record q {
  entries = map (addr_entry rob_tag address is_mmio amo_rs2) q.entries;
}

-- The first slot, of the `n` at `i` places behind the head and on, whose entry passes a test.
unfoldable pub first_behind : (Entry → Bool) → LoadQueue → ℕ → ℕ → Option ℕ
first_behind p q i zero = none
first_behind p q i (suc n) =
    let rest = first_behind p q (i + 1) n in
    if p (entry_at q ((head_idx q + i) % 8)) then some ((head_idx q + i) % 8) else rest

-- The first slot in the list, from `i` on, whose entry passes a test.
unfoldable pub first_slot : (Entry → Bool) → ℕ → List Entry → Option ℕ
first_slot p i [] = none
first_slot p i (e ∷ es) = let rest = first_slot p (i + 1) es in if p e then some i else rest

-- The three tests of `_issue_scan`.
abbrev pub has_data : Entry → Bool
has_data e = e.valid && e.data_valid

abbrev pub issues_at_head : ℕ → Bool → Entry → Bool
issues_at_head rob_head_tag sq_committed_empty e =
    e.valid
    && ((e.rob_tag == rob_head_tag % 32)
        && (e.addr_valid
            && (not e.issued
                && (not e.data_valid
                    && (not e.is_mmio && (not e.is_lr && (not e.is_amo || sq_committed_empty)))))))

abbrev pub may_issue : ℕ → Bool → Entry → Bool
may_issue rob_head_tag sq_committed_empty e =
    (e.valid && (e.addr_valid && (not e.issued && not e.data_valid)))
    && (not (e.is_lr && not (e.rob_tag == rob_head_tag % 32))
        && not (e.is_amo && (not (e.rob_tag == rob_head_tag % 32) || not sq_committed_empty)))

abbrev pub or_else : Option ℕ → Option ℕ → Option ℕ
or_else none b = b
or_else (some a) b = some a

-- `_issue_scan`: the slot whose data goes out, and the slot that goes to memory.
unfoldable pub issue_scan : LoadQueue → ℕ → Bool → Option ℕ × Option ℕ
issue_scan q rob_head_tag sq_committed_empty = (
  first_behind has_data q 0 8,
  or_else (first_slot (issues_at_head rob_head_tag sq_committed_empty) 0 q.entries)
      (first_behind (may_issue rob_head_tag sq_committed_empty) q 0 8),
)
