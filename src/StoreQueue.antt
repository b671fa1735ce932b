-- ===== src/StoreQueue.antt =====
-- verif/cocotb_tests/tomasulo/store_queue/sq_model.py: class SQModel, at its default depth SQ_DEPTH.
-- Every method returns the new state. `none` is the AssertionError of `alloc`, and in
-- `advance_head` a loop that has run out of fuel.
pub mod Live
pub mod History
mod Tests
pub mod Head
pub mod Recovery
pub mod Updates
pub mod Alloc
use mathlib.Core.Option
use frost.Prelude.{
  ℕ, zero, suc, ◌+◌, ◌%◌, Bool, true, false, not, ◌&&◌, Option, none, some, List, [], map, leb, ltb,
  ◌==◌, if◌then◌else◌, mask_xlen, mask64, sub_mod, get_or, set, replicate, count_if, any_of,
}

-- `SQEntry`
pub record Entry : Type 0 where
  pub valid : Bool
  pub rob_tag : ℕ
  pub is_fp : Bool
  pub addr_valid : Bool
  pub address : ℕ
  pub data_valid : Bool
  pub value : ℕ
  pub size : ℕ
  pub is_mmio : Bool
  pub committed : Bool
  pub sent : Bool
  pub is_sc : Bool

-- `SQEntry()`; the default size is MEM_SIZE_WORD. The field `data` is called `value` here.
abbrev pub blank_entry : Entry
blank_entry = record {
  valid = false;
  rob_tag = 0;
  is_fp = false;
  addr_valid = false;
  address = 0;
  data_valid = false;
  value = 0;
  size = 2;
  is_mmio = false;
  committed = false;
  sent = false;
  is_sc = false;
}

pub record StoreQueue : Type 0 where
  pub entries : List Entry
  pub head_ptr : ℕ
  pub tail_ptr : ℕ
  pub write_outstanding : Bool

-- `SQModel()`
abbrev pub init : StoreQueue
init = record {
  entries = replicate 8 blank_entry;
  head_ptr = 0;
  tail_ptr = 0;
  write_outstanding = false;
}

-- `is_younger`, on tags of five bits.
abbrev pub is_younger : ℕ → ℕ → ℕ → Bool
is_younger entry_tag flush_tag head = ltb (sub_mod 32 flush_tag head) (sub_mod 32 entry_tag head)

unfoldable pub reset : StoreQueue → StoreQueue
reset q = init

abbrev pub head_idx : StoreQueue → ℕ
head_idx q = q.head_ptr % 8

abbrev pub tail_idx : StoreQueue → ℕ
tail_idx q = q.tail_ptr % 8

abbrev pub entry_at : StoreQueue → ℕ → Entry
entry_at q i = get_or q.entries i blank_entry

abbrev pub count : StoreQueue → ℕ
count q = count_if (λ (e : Entry). e.valid) q.entries

abbrev pub window_occupancy : StoreQueue → ℕ
window_occupancy q = sub_mod 16 q.tail_ptr q.head_ptr

abbrev pub full : StoreQueue → Bool
full q = leb 8 (window_occupancy q)

-- The arguments of `alloc`.
pub record Store : Type 0 where
  pub rob_tag : ℕ
  pub is_fp : Bool
  pub size : ℕ
  pub is_sc : Bool
  pub addr_valid : Bool
  pub address : ℕ
  pub is_mmio : Bool

-- The entry that `alloc` leaves in its slot.
unfoldable pub new_entry : Store → Entry
new_entry s = record {
  valid = true;
  rob_tag = s.rob_tag % 32;
  is_fp = s.is_fp;
  addr_valid = s.addr_valid;
  address = mask_xlen s.address;
  data_valid = false;
  value = 0;
  size = s.size;
  is_mmio = s.is_mmio;
  committed = false;
  sent = false;
  is_sc = s.is_sc;
}

unfoldable pub alloc : StoreQueue → Store → Option (Bool × StoreQueue)
alloc q s =
    if full q
    then some (false, q)
    else (if (entry_at q (tail_idx q)).valid
        then none
        else some (
          true,
          record q {
            entries = set q.entries (tail_idx q) (new_entry s);
            tail_ptr = (q.tail_ptr + 1) % 16;
          },
        ))

-- No committed store waits for its write.
unfoldable pub committed_empty : StoreQueue → Bool
committed_empty q = not (any_of (λ e. e.valid && e.committed) q.entries)

-- The loops over all entries change each entry by its own fields.
unfoldable pub discard_entry : ℕ → Entry → Entry
discard_entry rob_tag e =
    if e.valid && (e.is_sc && (e.rob_tag == rob_tag % 32)) then record e { valid = false } else e

unfoldable pub sc_discard : StoreQueue → ℕ → StoreQueue
sc_discard q rob_tag = record q { entries = map (discard_entry rob_tag) q.entries }

unfoldable pub addr_entry : ℕ → ℕ → Bool → Entry → Entry
addr_entry rob_tag address is_mmio e =
    if e.valid && (not e.addr_valid && (e.rob_tag == rob_tag % 32))
    then record e { addr_valid = true; address = mask_xlen address; is_mmio = is_mmio }
    else e

unfoldable pub addr_update : StoreQueue → ℕ → ℕ → Bool → StoreQueue
addr_update q rob_tag address is_mmio = record q {
  entries = map (addr_entry rob_tag address is_mmio) q.entries;
}

unfoldable pub data_entry : ℕ → ℕ → Entry → Entry
data_entry rob_tag value e =
    if e.valid && (not e.data_valid && (e.rob_tag == rob_tag % 32))
    then record e { data_valid = true; value = mask64 value }
    else e

unfoldable pub data_update : StoreQueue → ℕ → ℕ → StoreQueue
data_update q rob_tag value = record q { entries = map (data_entry rob_tag value) q.entries }

unfoldable pub commit_entry : ℕ → Entry → Entry
commit_entry rob_tag e =
    if e.valid && (not e.committed && (e.rob_tag == rob_tag % 32))
    then record e { committed = true }
    else e

unfoldable pub commit : StoreQueue → ℕ → StoreQueue
commit q rob_tag = record q { entries = map (commit_entry rob_tag) q.entries }

unfoldable pub mem_write_initiate : StoreQueue → StoreQueue
mem_write_initiate q = record q { write_outstanding = true }

unfoldable pub sent_entry : Entry → Entry
sent_entry e = record e { valid = false; sent = true }

unfoldable pub mem_write_done : StoreQueue → StoreQueue
mem_write_done q = if not q.write_outstanding then q else record q {
  entries = set q.entries (head_idx q) (sent_entry (entry_at q (head_idx q)));
  write_outstanding = false;
}

-- `while self.count and not self.entries[self.head_idx].valid`
unfoldable pub advance_loop : ℕ → StoreQueue → Option StoreQueue
advance_loop zero q = none
advance_loop (suc fuel) q = elim (not (count q == 0) && not (entry_at q (head_idx q)).valid) [
  | true ↦ advance_loop fuel (record q { head_ptr = (q.head_ptr + 1) % 16 })
  | false ↦ some q
]

unfoldable pub collapse : StoreQueue → StoreQueue
collapse q = if count q == 0 then record q { head_ptr = q.tail_ptr } else q

-- Eight slots, and the test that ends the loop.
unfoldable pub advance_head : StoreQueue → Option StoreQueue
advance_head q = Option.map collapse (advance_loop 9 q)

unfoldable pub flush_all : StoreQueue → StoreQueue
flush_all q = reset q

-- The first loop of `partial_flush`.
abbrev pub is_killed : ℕ → ℕ → Entry → Bool
is_killed flush_tag rob_head_tag e =
    e.valid && (not e.committed && is_younger e.rob_tag (flush_tag % 32) (rob_head_tag % 32))

unfoldable pub kill_entry : ℕ → ℕ → Entry → Entry
kill_entry flush_tag rob_head_tag e =
    if is_killed flush_tag rob_head_tag e then record e { valid = false } else e

-- The second loop: the last offset from the head, of the `n` from `offset` on, with a valid entry.
unfoldable pub last_survivor : StoreQueue → ℕ → ℕ → Option ℕ → Option ℕ
last_survivor q offset zero last = last
last_survivor q offset (suc n) last =
    last_survivor q (offset + 1) n
      (if (entry_at q ((head_idx q + offset) % 8)).valid then some offset else last)

abbrev pub tail_behind : StoreQueue → Option ℕ → ℕ
tail_behind q none = q.head_ptr
tail_behind q (some offset) = (q.head_ptr + offset + 1) % 16

unfoldable pub partial_flush : StoreQueue → ℕ → ℕ → StoreQueue
partial_flush q flush_tag rob_head_tag =
    let q' = record q { entries = map (kill_entry flush_tag rob_head_tag) q.entries } in
    record q' { tail_ptr = tail_behind q' (last_survivor q' 0 8 none) }
