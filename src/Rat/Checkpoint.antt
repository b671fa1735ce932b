-- ===== src/Rat/Checkpoint.antt =====
-- The checkpoint operations of rat_model.py: save, restore, free, bulk free, and the free slot.
use mathlib.Core.Option
use frost.Prelude.{
  ℕ, zero, suc, ◌+◌, ◌%◌, ◌^◌, ◌-◌, Bool, true, false, not, ◌&&◌, ◌||◌, Option, none, some, List,
  [], ◌∷◌, map, ltb, ◌==◌, if◌then◌else◌, sub_mod, bit, bit_xor, get_elem?, assign, ◌>>=◌,
}
use frost.Rat.{Rat, Entry, Slot, free_slot}

-- An entry of a snapshot, with the epoch bit of its producer.
unfoldable pub stamped : ℕ → Entry → Entry
stamped epochs e = record { valid = e.valid; tag = e.tag; epoch = bit epochs e.tag }

-- The rename of the same cycle that goes into the saved image: (dest_rf, dest_reg, rob_tag).
pub record Overlay : Type 0 where
  pub dest_rf : ℕ
  pub dest_reg : ℕ
  pub rob_tag : ℕ

abbrev pub overlay_entry : ℕ → Overlay → Entry
overlay_entry epochs o = record {
  valid = true;
  tag = o.rob_tag % 32;
  epoch = bit_xor (bit epochs (o.rob_tag % 32)) 1;
}

abbrev pub overlay_int : ℕ → Option Overlay → List Entry → Option (List Entry)
overlay_int epochs none b = some b
overlay_int epochs (some o) b =
    if (o.dest_rf == 0) && not (o.dest_reg == 0)
    then assign b o.dest_reg (overlay_entry epochs o)
    else some b

abbrev pub overlay_fp : ℕ → Option Overlay → List Entry → Option (List Entry)
overlay_fp epochs none b = some b
overlay_fp epochs (some o) b =
    if o.dest_rf == 0 then some b else assign b o.dest_reg (overlay_entry epochs o)

-- The arguments of `checkpoint_save` after the slot's number.
pub record Save : Type 0 where
  pub branch_tag : ℕ
  pub ras_tos : ℕ
  pub ras_valid_count : ℕ
  pub overlay : Option Overlay
  pub rob_entry_epoch : ℕ

abbrev pub saved_slot : Save → List Entry → List Entry → Slot
saved_slot s int_rat fp_rat = record {
  valid = true;
  branch_tag = s.branch_tag % 32;
  branch_epoch = bit_xor (bit s.rob_entry_epoch (s.branch_tag % 32)) 1;
  ras_tos = s.ras_tos;
  ras_valid_count = s.ras_valid_count;
  int_rat = int_rat;
  fp_rat = fp_rat;
}

abbrev pub with_checkpoints : Rat → List Slot → Rat
with_checkpoints m slots = record m { checkpoints = slots }

unfoldable pub checkpoint_save : Rat → ℕ → Save → Option Rat
checkpoint_save m checkpoint_id s = do
  int_rat ← overlay_int s.rob_entry_epoch s.overlay (map (stamped s.rob_entry_epoch) m.int_rat)
  fp_rat ← overlay_fp s.rob_entry_epoch s.overlay (map (stamped s.rob_entry_epoch) m.fp_rat)
  Option.map (with_checkpoints m) (assign m.checkpoints checkpoint_id (saved_slot s int_rat fp_rat))

-- The view of the reorder buffer that a restore is given.
pub record Window : Type 0 where
  pub rob_entry_valid : Option ℕ
  pub rob_entry_epoch : ℕ
  pub rob_head_tag : ℕ

-- `ALL_ROB_ENTRIES_VALID`
abbrev pub valid_mask : Option ℕ → ℕ
valid_mask none = 2 ^ 32 - 1
valid_mask (some mask) = mask

abbrev pub check_epochs : Option ℕ → Bool
check_epochs none = false
check_epochs (some mask) = true

-- A tag is in flight and, where epochs are checked, in the epoch of the snapshot.
abbrev pub is_live : Window → ℕ → ℕ → Bool
is_live w tag epoch =
    (bit (valid_mask w.rob_entry_valid) tag == 1)
    && (not (check_epochs w.rob_entry_valid) || (bit w.rob_entry_epoch tag == epoch % 2))

-- `_restored_tag_still_live`; ages are six bits wide.
unfoldable pub restored_tag_still_live : Window → ℕ → ℕ → ℕ → ℕ → Bool
restored_tag_still_live w restored_tag restored_epoch branch_tag branch_epoch =
    let tag = restored_tag % 32 in
    let branch = branch_tag % 32 in
    let head = w.rob_head_tag % 32 in
    is_live w branch branch_epoch
    && (is_live w tag restored_epoch && ltb (sub_mod 64 tag head) (sub_mod 64 branch head))

unfoldable pub restored_entry : Window → Slot → Entry → Entry
restored_entry w slot e = record e {
  valid = e.valid && restored_tag_still_live w e.tag e.epoch slot.branch_tag slot.branch_epoch;
}

abbrev pub restore_from : Rat → Window → Slot → Option (Rat × (ℕ × ℕ))
restore_from m w slot =
    if not slot.valid
    then none
    else some (
      record m {
        int_rat = map (restored_entry w slot) slot.int_rat;
        fp_rat = map (restored_entry w slot) slot.fp_rat;
      },
      (slot.ras_tos, slot.ras_valid_count),
    )

unfoldable pub checkpoint_restore : Rat → ℕ → Window → Option (Rat × (ℕ × ℕ))
checkpoint_restore m checkpoint_id w = do
  slot ← get_elem? m.checkpoints checkpoint_id
  restore_from m w slot

unfoldable pub checkpoint_free : Rat → ℕ → Option Rat
checkpoint_free m checkpoint_id = do
  slot ← get_elem? m.checkpoints checkpoint_id
  Option.map (with_checkpoints m) (assign m.checkpoints checkpoint_id (free_slot slot))

-- The loop of `checkpoint_bulk_free` over the `n` slots from `checkpoint_id` on.
unfoldable pub bulk_loop : ℕ → ℕ → ℕ → Rat → Option Rat
bulk_loop free_mask checkpoint_id zero m = some m
bulk_loop free_mask checkpoint_id (suc n) m = do
  m' ← (if bit free_mask checkpoint_id == 1 then checkpoint_free m checkpoint_id else some m)
  bulk_loop free_mask (checkpoint_id + 1) n m'

unfoldable pub checkpoint_bulk_free : Rat → ℕ → Option Rat
checkpoint_bulk_free m free_mask = bulk_loop free_mask 0 8 m

-- The search of `checkpoint_available` in the slots from `i` on.
unfoldable pub free_slot_from : ℕ → List Slot → Bool × ℕ
free_slot_from i [] = (false, 0)
free_slot_from i (s ∷ slots) =
    let rest = free_slot_from (i + 1) slots in if not s.valid then (true, i) else rest

unfoldable pub checkpoint_available : Rat → Bool × ℕ
checkpoint_available m = free_slot_from 0 m.checkpoints
