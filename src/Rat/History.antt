-- ===== src/Rat/History.antt =====
-- Every sequence of calls on the alias table, in any order.
use frost.Prelude.{ℕ, ◌<◌, ◌≡◌, true, some}
use frost.Rat.{Rat, init, rename, commit, flush_all, reset}
use frost.Rat.Checkpoint.{
  Save, Window, checkpoint_save, checkpoint_restore, checkpoint_free, checkpoint_bulk_free,
}
use frost.Rat.Mapping.{IsValid, init-IsValid}
use frost.Rat.Rename.{rename-mapping, commit-mapping}
use frost.Rat.Overlay.{fits}
use frost.Rat.Restore.{save_refines, restore-IsValid}
use frost.Rat.Slots.{free_refines, bulk_free_refines}
use frost.Rat.Clear.{flush_all_clears}

pub data Step (m : Rat) : Rat → Type 0 where
  renames : (rf reg tag : ℕ) (n : Rat) → reg < 32 → rename m rf reg tag ≡ some n → Step m n
  commits : (rf reg tag : ℕ) (n : Rat) → reg < 32 → commit m rf reg tag ≡ some n → Step m n
  saves :
      (id : ℕ) (s : Save) (n : Rat)
      → id < 8
      → fits s.overlay ≡ true
      → checkpoint_save m id s ≡ some n
      → Step m n
  restores :
      (id : ℕ) (w : Window) (n : Rat) (ras : ℕ × ℕ)
      → id < 8
      → checkpoint_restore m id w ≡ some (n, ras)
      → Step m n
  frees : (id : ℕ) (n : Rat) → id < 8 → checkpoint_free m id ≡ some n → Step m n
  bulk_frees : (mask : ℕ) (n : Rat) → checkpoint_bulk_free m mask ≡ some n → Step m n
  flushes : Step m (flush_all m)
  resets : Step m (reset m)

pub data Reach : Rat → Type 0 where
  start : Reach init
  next : {m n : Rat} → Reach m → Step m n → Reach n

Step-IsValid : {m n : Rat} → Step m n → IsValid m → IsValid n
Step-IsValid {m = m} (renames rf reg tag n lt e) v =
    let (p, f, w) = rename-mapping m rf reg tag v lt in
    let same : p ≡ n = cc in rw (← same) w.still_valid
Step-IsValid {m = m} (commits rf reg tag n lt e) v =
    let (p, f, w) = commit-mapping m rf reg tag v lt in
    let same : p ≡ n = cc in rw (← same) w.still_valid
Step-IsValid {m = m} (saves id s n lt h e) v =
    let (p, f, _, _, w) = save_refines m id s v lt h in let same : p ≡ n = cc in rw (← same) w
Step-IsValid {m = m} (restores id w n ras lt e) v = restore-IsValid m id w n ras v lt e
Step-IsValid {m = m} (frees id n lt e) v =
    let (p, f, w) = free_refines m id v lt in let same : p ≡ n = cc in rw (← same) w.still_valid
Step-IsValid {m = m} (bulk_frees mask n e) v =
    let (p, f, w) = bulk_free_refines m mask v in let same : p ≡ n = cc in rw (← same) w.still_valid
Step-IsValid {m = m} flushes v = (flush_all_clears m v).2
Step-IsValid resets v = unfold reset in init-IsValid

-- After any sequence of calls with numbers in range, both files have 32 entries with tags of five
-- bits, here and in all eight checkpoints, and x0 is never renamed.
pub Reach-table : {m : Rat} → Reach m → IsValid m
Reach-table start = init-IsValid
Reach-table (next h st) = Step-IsValid st (Reach-table h)
