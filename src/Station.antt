-- ===== src/Station.antt =====
-- verif/cocotb_tests/tomasulo/reservation_station/rs_model.py: class RSModel, at any depth.
-- Every method returns the new state. The fields src1_ready, src1_tag and src1_value of an entry
-- are one record here, `src1`, and so for the other two sources.
pub mod Dispatch
pub mod Issue
pub mod Recovery
mod Tests
use frost.Prelude.{
  ℕ, zero, suc, ◌+◌, ◌-◌, ◌%◌, Bool, true, false, not, ◌&&◌, Option, none, some, List, [], ◌∷◌, map,
  ltb, leb, ◌==◌, if◌then◌else◌, mask32, mask64, sub_mod, get_or, set, length, replicate, any_of,
  count_if,
}

pub record Source : Type 0 where
  pub ready : Bool
  pub tag : ℕ
  pub value : ℕ

-- The fields that an issue passes on and no method reads: from `op` on, without the sources.
pub record Payload : Type 0 where
  pub op : ℕ
  pub imm : ℕ
  pub use_imm : Bool
  pub rm : ℕ
  pub branch_target : ℕ
  pub predicted_taken : Bool
  pub predicted_target : ℕ
  pub is_fp_mem : Bool
  pub mem_size : ℕ
  pub mem_signed : Bool
  pub csr_addr : ℕ
  pub csr_imm : ℕ
  pub pc : ℕ

-- `RSEntry`
pub record Entry : Type 0 where
  pub valid : Bool
  pub rob_tag : ℕ
  pub src1 : Source
  pub src2 : Source
  pub src3 : Source
  pub payload : Payload

abbrev pub blank_source : Source
blank_source = record { ready = false; tag = 0; value = 0 }

abbrev pub blank_payload : Payload
blank_payload = record {
  op = 0;
  imm = 0;
  use_imm = false;
  rm = 0;
  branch_target = 0;
  predicted_taken = false;
  predicted_target = 0;
  is_fp_mem = false;
  mem_size = 0;
  mem_signed = false;
  csr_addr = 0;
  csr_imm = 0;
  pc = 0;
}

-- `RSEntry()`
abbrev pub blank_entry : Entry
blank_entry = record {
  valid = false;
  rob_tag = 0;
  src1 = blank_source;
  src2 = blank_source;
  src3 = blank_source;
  payload = blank_payload;
}

abbrev pub is_ready : Entry → Bool
is_ready e = e.valid && (e.src1.ready && (e.src2.ready && e.src3.ready))

pub record Station : Type 0 where
  pub depth : ℕ
  pub entries : List Entry
  pub strict_alloc_timing : Bool
  pub alloc_blocked : List ℕ

-- `RSModel(depth)`
abbrev pub init : ℕ → Station
init depth = record {
  depth = depth;
  entries = replicate depth blank_entry;
  strict_alloc_timing = false;
  alloc_blocked = [];
}

unfoldable pub reset : Station → Station
reset s = record s { entries = replicate s.depth blank_entry; alloc_blocked = [] }

unfoldable pub tick : Station → Station
tick s = record s { alloc_blocked = [] }

unfoldable pub is_full : Station → Bool
is_full s = not (any_of (λ e. not e.valid) s.entries)

abbrev pub count : Station → ℕ
count s = count_if (λ (e : Entry). e.valid) s.entries

-- `count() >= depth - 1`; of a station without slots the right side is negative.
unfoldable pub is_full_for_2 : Station → Bool
is_full_for_2 s = leb s.depth (count s + 1)

abbrev pub is_blocked : List ℕ → ℕ → Bool
is_blocked blocked i = any_of (λ b. b == i) blocked

-- `_find_free`, in the slots from `i` on.
unfoldable pub free_from : List ℕ → ℕ → List Entry → Option ℕ
free_from blocked i [] = none
free_from blocked i (e ∷ es) =
    let rest = free_from blocked (i + 1) es in
    if not e.valid && not (is_blocked blocked i) then some i else rest

abbrev pub find_free : Station → Option ℕ
find_free s = free_from s.alloc_blocked 0 s.entries

-- The arguments of `dispatch`, without those of the bus.
pub record Request : Type 0 where
  pub rob_tag : ℕ
  pub src1 : Source
  pub src2 : Source
  pub src3 : Source
  pub payload : Payload

-- `cdb_valid`, `cdb_tag` and `cdb_value`.
pub record Bus : Type 0 where
  pub valid : Bool
  pub tag : ℕ
  pub value : ℕ

-- A source of the new entry, with the value of the same cycle's broadcast if it waits for it.
unfoldable pub bypass : Bus → Source → Source
bypass cdb src =
    if not src.ready && (cdb.valid && (src.tag % 32 == cdb.tag % 32))
    then record { ready = true; tag = src.tag % 32; value = mask64 cdb.value }
    else record { ready = src.ready; tag = src.tag % 32; value = mask64 src.value }

unfoldable pub masked : Payload → Payload
masked p = record {
  op = p.op;
  imm = mask32 p.imm;
  use_imm = p.use_imm;
  rm = p.rm % 8;
  branch_target = mask32 p.branch_target;
  predicted_taken = p.predicted_taken;
  predicted_target = mask32 p.predicted_target;
  is_fp_mem = p.is_fp_mem;
  mem_size = p.mem_size % 4;
  mem_signed = p.mem_signed;
  csr_addr = p.csr_addr % 4096;
  csr_imm = p.csr_imm % 32;
  pc = mask32 p.pc;
}

abbrev pub new_entry : Request → Bus → Entry
new_entry r cdb = record {
  valid = true;
  rob_tag = r.rob_tag % 32;
  src1 = bypass cdb r.src1;
  src2 = bypass cdb r.src2;
  src3 = bypass cdb r.src3;
  payload = masked r.payload;
}

abbrev pub place : Station → Request → Bus → Option ℕ → Option ℕ × Station
place s r cdb none = (none, s)
place s r cdb (some i) = (some i, record s { entries = set s.entries i (new_entry r cdb) })

unfoldable pub dispatch : Station → Request → Bus → Option ℕ × Station
dispatch s r cdb = place s r cdb (find_free s)

-- The body of the loop of `cdb_snoop`, for one source and for an entry.
unfoldable pub wake : ℕ → ℕ → Source → Source
wake tag value src =
    if not src.ready && (src.tag == tag % 32)
    then record src { ready = true; value = mask64 value }
    else src

unfoldable pub snoop_entry : ℕ → ℕ → Entry → Entry
snoop_entry tag value e = if not e.valid then e else record e {
  src1 = wake tag value e.src1;
  src2 = wake tag value e.src2;
  src3 = wake tag value e.src3;
}

unfoldable pub cdb_snoop : Station → ℕ → ℕ → Station
cdb_snoop s tag value = record s { entries = map (snoop_entry tag value) s.entries }
