-- ===== src/LoadQueue/Tests.antt =====
-- The load queue at concrete inputs.
use frost.Prelude.{ℕ, ◌≡◌, refl, ◌⊎◌, true, false, none, some, ◌∷◌, select, replicate}
use frost.LoadQueue.{
  LoadQueue, Load, init, blank_entry, entry_at, new_entry, first_slot, first_behind, issue_scan,
}
use frost.LoadQueue.Memory.{advance_head}
use frost.LoadQueue.Scan.{Advanced, load_advance_settles}
use frost.LoadQueue.Choice.{eligible, scan-eligible}
use frost.LoadQueue.Recovery.{partial_flush, loads, staged, survives, load_flush_keeps}

abbrev word : Load
word = record {
  rob_tag = 9;
  is_fp = false;
  size = 2;
  sign_ext = false;
  is_lr = false;
  is_amo = false;
  amo_op = 0;
}

-- One load, which has been sent to memory; the head pointer is behind it.
abbrev busy : LoadQueue
busy = record init {
  entries =
      blank_entry
      ∷ record (new_entry word) { addr_valid = true; issued = true }
      ∷ replicate 6 blank_entry;
  tail_ptr = 2;
  mem_outstanding = true;
  issued_idx = 1;
}

load_advance_settles_example : (q' : LoadQueue) × (advance_head busy ≡ some q') × Advanced busy q'
load_advance_settles_example = load_advance_settles busy refl

-- The same load before it is sent, and an older one whose address is not known.
abbrev ready : LoadQueue
ready = record init {
  entries =
      new_entry word
      ∷ record (new_entry word) { rob_tag = 10; addr_valid = true }
      ∷ replicate 6 blank_entry;
  tail_ptr = 2;
}

scan_chooses : (issue_scan ready 9 true).1 ≡ some 1
unfolding issue_scan first_slot first_behind new_entry
scan_chooses = refl

scan-eligible_example :
    ((i : ℕ) × ((issue_scan ready 9 true).1 ≡ some i) × (eligible 9 true (entry_at ready i) ≡ true))
    ⊎ ((issue_scan ready 9 true).1 ≡ none)
scan-eligible_example = scan-eligible ready 9 true

load_flush_keeps_example :
    (loads (partial_flush busy 8 3) ≡ select (λ e. survives 8 3 e.rob_tag) (loads busy))
    × (staged (partial_flush busy 8 3) ≡ select (λ c. survives 8 3 c.tag) (staged busy))
    × ((partial_flush busy 8 3).mem_outstanding ≡ busy.mem_outstanding)
    × ((partial_flush busy 8 3).tail_ptr ≡ busy.tail_ptr)
load_flush_keeps_example = load_flush_keeps busy 8 3
