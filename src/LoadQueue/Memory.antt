-- ===== src/LoadQueue/Memory.antt =====
-- lq_model.py: forwarding, memory requests and responses, atomics, and the output stage.
use frost.Prelude.{
  ℕ, zero, suc, ◌+◌, ◌*◌, ◌/◌, ◌%◌, ◌^◌, Bool, true, false, not, ◌&&◌, ◌||◌, Option, none, some,
  ◌==◌, leb, if◌then◌else◌, mask_xlen, mask64, set, bit_or,
}
use frost.LoadQueue.{Entry, FuComplete, LoadQueue, idle, head_idx, entry_at, count, issue_scan}

-- `sign_extend_byte(val, unsigned)` and `sign_extend_half(val, unsigned)`
unfoldable pub sign_extend_byte : ℕ → Bool → ℕ
sign_extend_byte val unsigned =
    let v = val % 256 in if not unsigned && leb 128 v then bit_or v 4294967040 else v

unfoldable pub sign_extend_half : ℕ → Bool → ℕ
sign_extend_half val unsigned =
    let v = val % 65536 in if not unsigned && leb 32768 v then bit_or v 4294901760 else v

-- `load_unit_model`: MEM_SIZE_BYTE is 0, MEM_SIZE_HALF is 1.
unfoldable pub load_unit_model : ℕ → Bool → ℕ → ℕ → ℕ
load_unit_model size sign_ext address raw_data =
    let raw = mask64 raw_data in
    if size == 0
    then mask_xlen (sign_extend_byte ((raw / 2 ^ (8 * (address % 8))) % 256) (not sign_ext))
    else (if size == 1
        then mask_xlen
            (sign_extend_half ((raw / 2 ^ (16 * ((address / 2) % 4))) % 65536) (not sign_ext))
        else mask_xlen (raw / 2 ^ (32 * ((address / 4) % 2))))

-- `SQForwardResult`
pub record SqForwardResult : Type 0 where
  pub matched : Bool
  pub can_forward : Bool
  pub value : ℕ

-- The slot for memory, at the arguments' defaults.
abbrev pub mem_slot : LoadQueue → Option ℕ
mem_slot q = (issue_scan q 0 true).1

abbrev pub put : LoadQueue → ℕ → Entry → LoadQueue
put q i e = record q { entries = set q.entries i e }

abbrev pub forward_at : LoadQueue → SqForwardResult → Option ℕ → LoadQueue
forward_at q f none = q
forward_at q f (some i) =
    let e = entry_at q i in
    if f.can_forward && (not e.is_mmio && (not e.is_lr && not e.is_amo))
    then put q i (record e { data_valid = true; forwarded = true; value = mask64 f.value })
    else q

unfoldable pub apply_forward : LoadQueue → SqForwardResult → LoadQueue
apply_forward q f = forward_at q f (mem_slot q)

abbrev pub hit_at : LoadQueue → Option ℕ → LoadQueue
hit_at q none = q
hit_at q (some i) =
    let e = entry_at q i in
    if e.is_mmio || (e.is_lr || e.is_amo) then q else put q i (record e { data_valid = true })

unfoldable pub cache_hit_complete : LoadQueue → LoadQueue
cache_hit_complete q = hit_at q (mem_slot q)

-- The request that `issue_to_memory` returns: address and size.
abbrev pub issue_at : LoadQueue → Bool → SqForwardResult → Option ℕ → Option (ℕ × ℕ) × LoadQueue
issue_at q all_older_known f none = (none, q)
issue_at q all_older_known f (some i) =
    let e = entry_at q i in
    if q.mem_outstanding || not (all_older_known && not f.matched) then (none, q) else (
      some (e.address, e.size),
      record q {
        entries = set q.entries i (record e { issued = true });
        mem_outstanding = true;
        issued_idx = i;
      },
    )

unfoldable pub issue_to_memory : LoadQueue → Bool → SqForwardResult → Option (ℕ × ℕ) × LoadQueue
issue_to_memory q all_older_known f = issue_at q all_older_known f (mem_slot q)

-- A load takes its data; the request is answered.
abbrev pub capture : LoadQueue → ℕ → LoadQueue
capture q value =
    let e = entry_at q q.issued_idx in
    record q {
      entries = set q.entries q.issued_idx (record e { value = value; data_valid = true });
      mem_outstanding = false;
    }

unfoldable pub mem_response : LoadQueue → ℕ → LoadQueue
mem_response q raw_data =
    let e = entry_at q q.issued_idx in
    let beat = mask64 raw_data in
    let processed = mask64 (load_unit_model e.size e.sign_ext e.address beat) in
    if not q.mem_outstanding
    then q
    else (if e.is_amo
        then record q {
          amo_old_value = mask_xlen (beat / 2 ^ (32 * ((e.address / 4) % 2)));
          amo_entry_idx = q.issued_idx;
          amo_state = 1;
          mem_outstanding = false;
        }
        else (if e.is_lr
            then record (capture q processed) {
              reservation_valid = true;
              reservation_addr = e.address;
            }
            else (if e.size == 3 then capture q beat else capture q processed)))

unfoldable pub mem_response_drain : LoadQueue → ℕ → LoadQueue
mem_response_drain q raw_data =
    if not q.mem_outstanding
    then q
    else (if not (entry_at q q.issued_idx).valid
        then record q { mem_outstanding = false }
        else mem_response q raw_data)

unfoldable pub amo_write_done : LoadQueue → LoadQueue
amo_write_done q =
    let e = entry_at q q.amo_entry_idx in
    if not (q.amo_state == 1) then q else record q {
      entries =
          set q.entries q.amo_entry_idx
            (record e { value = mask64 q.amo_old_value; data_valid = true });
      amo_state = 0;
    }

unfoldable pub sc_clear_reservation : LoadQueue → LoadQueue
sc_clear_reservation q = record q { reservation_valid = false }

unfoldable pub reservation_snoop_invalidate : LoadQueue → LoadQueue
reservation_snoop_invalidate q = record q { reservation_valid = false }

-- The value of a completion: an FP word is boxed in ones.
abbrev pub boxed : Entry → ℕ
boxed e =
    if e.is_fp
    then (if e.size == 3 then mask64 e.value else bit_or (4294967295 * 2 ^ 32) (mask_xlen e.value))
    else mask_xlen e.value

abbrev pub capture_at : LoadQueue → Option ℕ → LoadQueue
capture_at q none = q
capture_at q (some i) =
    let e = entry_at q i in
    record q {
      entries = set q.entries i (record e { valid = false });
      cdb_stage = record idle { valid = true; tag = e.rob_tag; value = mask64 (boxed e) };
    }

-- `_capture_ready_fu_complete`
unfoldable pub capture_ready : LoadQueue → LoadQueue
capture_ready q = if q.cdb_stage.valid then q else capture_at q (issue_scan q 0 true).0

unfoldable pub get_fu_complete : LoadQueue → FuComplete × LoadQueue
get_fu_complete q = ((capture_ready q).cdb_stage, capture_ready q)

unfoldable pub free_cdb_entry : LoadQueue → LoadQueue
free_cdb_entry q = record q { cdb_stage = idle }

-- `while self.count and not self.entries[self.head_idx].valid`; `none` means that the fuel ran out.
unfoldable pub advance_loop : ℕ → LoadQueue → Option LoadQueue
advance_loop zero q = none
advance_loop (suc fuel) q = elim (not (count q == 0) && not (entry_at q (head_idx q)).valid) [
  | true ↦ advance_loop fuel (record q { head_ptr = (q.head_ptr + 1) % 16 })
  | false ↦ some q
]

unfoldable pub advance_head : LoadQueue → Option LoadQueue
advance_head q = advance_loop 9 q
