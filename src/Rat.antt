-- ===== src/Rat.antt =====
-- verif/cocotb_tests/tomasulo/register_alias_table/rat_model.py: class RATModel.
-- Every method returns the new state; `none` is an IndexError of a register or checkpoint number
-- out of range, or the AssertionError of `checkpoint_restore`.
pub mod Checkpoint
pub mod Mapping
pub mod Put
pub mod Rename
pub mod Overlay
pub mod Image
pub mod Restore
pub mod Slots
pub mod Clear
pub mod History
pub mod Tests
use mathlib.Core.Option
use frost.Prelude.{
  ℕ, zero, suc, ◌+◌, ◌%◌, ◌^◌, ◌-◌, Bool, true, false, not, ◌&&◌, Option, none, some, List, [], ◌∷◌,
  map, ltb, ◌==◌, if◌then◌else◌, mask64, sub_mod, bit, bit_xor, get_or, set, replicate, get_elem?,
  assign,
}

-- `RATEntry`
pub record Entry : Type 0 where
  pub valid : Bool
  pub tag : ℕ
  pub epoch : ℕ

abbrev pub blank_entry : Entry
blank_entry = record { valid = false; tag = 0; epoch = 0 }

-- `LookupResult`
pub record LookupResult : Type 0 where
  pub renamed : Bool
  pub tag : ℕ
  pub value : ℕ

-- `CheckpointSlot`
pub record Slot : Type 0 where
  pub valid : Bool
  pub branch_tag : ℕ
  pub branch_epoch : ℕ
  pub ras_tos : ℕ
  pub ras_valid_count : ℕ
  pub int_rat : List Entry
  pub fp_rat : List Entry

abbrev pub blank_slot : Slot
blank_slot = record {
  valid = false;
  branch_tag = 0;
  branch_epoch = 0;
  ras_tos = 0;
  ras_valid_count = 0;
  int_rat = replicate 32 blank_entry;
  fp_rat = replicate 32 blank_entry;
}

pub record Rat : Type 0 where
  pub int_rat : List Entry
  pub fp_rat : List Entry
  pub checkpoints : List Slot

-- `RATModel()`
abbrev pub init : Rat
init = record {
  int_rat = replicate 32 blank_entry;
  fp_rat = replicate 32 blank_entry;
  checkpoints = replicate 8 blank_slot;
}

unfoldable pub reset : Rat → Rat
reset m = init

-- What both lookups make of an entry.
abbrev pub found : Entry → ℕ → LookupResult
found e value =
    if e.valid
    then record { renamed = true; tag = e.tag; value = value }
    else record { renamed = false; tag = 0; value = value }

unfoldable pub lookup_int : Rat → ℕ → ℕ → Option LookupResult
lookup_int m addr regfile_data =
    if addr == 0
    then some (record { renamed = false; tag = 0; value = 0 })
    else Option.map (λ e. found e (mask64 regfile_data)) (get_elem? m.int_rat addr)

unfoldable pub lookup_fp : Rat → ℕ → ℕ → Option LookupResult
lookup_fp m addr regfile_data =
    Option.map (λ e. found e (mask64 regfile_data)) (get_elem? m.fp_rat addr)

-- `RATEntry(valid=True, tag=rob_tag & MASK_TAG)`
abbrev pub renamed_to : ℕ → Entry
renamed_to rob_tag = record { valid = true; tag = rob_tag % 32; epoch = 0 }

abbrev pub with_int : Rat → List Entry → Rat
with_int m b = record m { int_rat = b }

abbrev pub with_fp : Rat → List Entry → Rat
with_fp m b = record m { fp_rat = b }

unfoldable pub rename : Rat → ℕ → ℕ → ℕ → Option Rat
rename m dest_rf dest_reg rob_tag =
    if dest_rf == 0
    then (if dest_reg == 0
        then some m
        else Option.map (with_int m) (assign m.int_rat dest_reg (renamed_to rob_tag)))
    else Option.map (with_fp m) (assign m.fp_rat dest_reg (renamed_to rob_tag))

unfoldable pub clear_entry : ℕ → Entry → Entry
clear_entry tag e = if e.valid && (e.tag == tag % 32) then record e { valid = false } else e

-- The entry is read and, if its tag matches, its valid bit cleared in place.
unfoldable pub commit : Rat → ℕ → ℕ → ℕ → Option Rat
commit m dest_rf dest_reg tag =
    if dest_rf == 0
    then (if dest_reg == 0
        then some m
        else Option.map (with_int m)
            (assign m.int_rat dest_reg (clear_entry tag (get_or m.int_rat dest_reg blank_entry))))
    else Option.map (with_fp m)
        (assign m.fp_rat dest_reg (clear_entry tag (get_or m.fp_rat dest_reg blank_entry)))

unfoldable pub invalid_entry : Entry → Entry
invalid_entry e = record e { valid = false }

unfoldable pub free_slot : Slot → Slot
free_slot s = record s { valid = false }

unfoldable pub flush_all : Rat → Rat
flush_all m = record {
  int_rat = map invalid_entry m.int_rat;
  fp_rat = map invalid_entry m.fp_rat;
  checkpoints = map free_slot m.checkpoints;
}
