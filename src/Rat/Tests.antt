-- ===== src/Rat/Tests.antt =====
-- The alias table at concrete inputs.
use frost.Prelude.{ℕ, ◌%◌, ◌≡◌, refl, ◌==◌, some, if◌then◌else◌, mask64, bit, bit_xor, arith}
use frost.Rat.{Rat, init, lookup_int, lookup_fp, commit}
use frost.Rat.Checkpoint.{Save, Window, checkpoint_restore}
use frost.Rat.Mapping.{mapping, IsValid, init-IsValid}
use frost.Rat.Rename.{answer, Renames, unless_tag, lookup-mapping, rename-mapping, commit-mapping}
use frost.Rat.Image.{image_at, keep}
use frost.Rat.Restore.{save_refines, restore-save}

-- x5 waits for tag 35 % 32.
abbrev pub busy : Rat
busy = (rename-mapping init 0 5 35 init-IsValid (omega arith)).0

pub busy-IsValid : IsValid busy
busy-IsValid = (rename-mapping init 0 5 35 init-IsValid (omega arith)).2.still_valid

-- A branch with tag 4, on a cycle that also renames x6 to tag 5; the branch is in epoch 1.
abbrev pub branch : Save
branch = record {
  branch_tag = 4;
  ras_tos = 2;
  ras_valid_count = 1;
  overlay = some (record { dest_rf = 0; dest_reg = 6; rob_tag = 5 });
  rob_entry_epoch = 0;
}

abbrev window : Window
window = record { rob_entry_valid = some 56; rob_entry_epoch = 48; rob_head_tag = 3 }

abbrev pub saved : Rat
saved = (save_refines busy 1 branch busy-IsValid (omega arith) refl).0

pub saved-IsValid : IsValid saved
saved-IsValid = (save_refines busy 1 branch busy-IsValid (omega arith) refl).4

commit-mapping_example :
    (m' : Rat) × (commit busy 0 5 3 ≡ some m') × Renames busy m' 0 5 (unless_tag (3 % 32))
commit-mapping_example = commit-mapping busy 0 5 3 busy-IsValid (omega arith)

lookup-mapping_example :
    (lookup_int busy 5 9 ≡ some (answer (mapping busy 0 5) (if 5 == 0 then 0 else mask64 9)))
    × (lookup_fp busy 5 9 ≡ some (answer (mapping busy 1 5) (mask64 9)))
lookup-mapping_example = lookup-mapping busy 5 9 busy-IsValid (omega arith)

restore-save_example :
    (n' : Rat) × (checkpoint_restore saved 1 window ≡ some (n', (2, 1)))
    × ((f r : ℕ)
        → mapping n' f r
          ≡ keep window (4 % 32) (bit_xor (bit 0 (4 % 32)) 1) (image_at busy branch f r))
    × (n'.checkpoints ≡ saved.checkpoints)
    × IsValid n'
restore-save_example =
    restore-save busy saved saved 1 branch window busy-IsValid saved-IsValid (omega arith) refl
      (save_refines busy 1 branch busy-IsValid (omega arith) refl).1 refl
