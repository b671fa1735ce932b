-- ===== src/Rat/Restore.antt =====
-- `checkpoint_save` and `checkpoint_restore`: what comes back when a branch is undone.
use frost.Prelude.{
  ℕ, ◌%◌, ◌<◌, ◌≡◌, refl, ap, subst, ◌∙◌, true, false, Option, none, some, inl, inr, List, [], ◌∷◌,
  map, arith, ◌==◌, if◌then◌else◌, bit, bit_xor, get_or, set, length-set, get_or-set,
  get_elem?-get_or, assign_lt, Bool-cases, ==-path, ==-refl,
}
use frost.Rat.{Rat, Entry, Slot, blank_entry, blank_slot}
use frost.Rat.Checkpoint.{
  stamped, Save, saved_slot, with_checkpoints, checkpoint_save, Window, restored_entry,
  checkpoint_restore,
}
use frost.Rat.Mapping.{mapping, IsFile, IsSlot, IsValid, map-IsFile}
use frost.Rat.Overlay.{
  stamped_tag, over, fits, int_overlaid, fp_overlaid, int_fits, fp_fits, int_overlaid-IsFile,
  fp_overlaid-IsFile, int_overlaid-x0, int_overlaid-at, fp_overlaid-at,
}
use frost.Rat.Image.{image_at, keep, snapshot_at, restored_at}

-- What a save leaves in its slot.
abbrev int_saved : Rat → Save → List Entry
int_saved m s = int_overlaid s.rob_entry_epoch s.overlay (map (stamped s.rob_entry_epoch) m.int_rat)

abbrev fp_saved : Rat → Save → List Entry
fp_saved m s = fp_overlaid s.rob_entry_epoch s.overlay (map (stamped s.rob_entry_epoch) m.fp_rat)

abbrev slot_saved : Rat → Save → Slot
slot_saved m s = saved_slot s (int_saved m s) (fp_saved m s)

stamped-IsFile : (epochs : ℕ) {b : List Entry} → IsFile b → IsFile (map (stamped epochs) b)
stamped-IsFile epochs {b = b} f = map-IsFile (stamped epochs) b (λ e. unfold stamped in refl) f

stamped-x0 :
    (epochs : ℕ) (b : List Entry)
    → (get_or b 0 blank_entry).valid ≡ false
    → (get_or (map (stamped epochs) b) 0 blank_entry).valid ≡ false
stamped-x0 epochs [] h = refl
stamped-x0 epochs (e ∷ b) h = unfold stamped in h

module _ (m : Rat) (s : Save) (v : IsValid m) (h : fits s.overlay ≡ true) where
  int_stamped : IsFile (map (stamped s.rob_entry_epoch) m.int_rat)
  int_stamped = stamped-IsFile s.rob_entry_epoch v.int_file

  fp_stamped : IsFile (map (stamped s.rob_entry_epoch) m.fp_rat)
  fp_stamped = stamped-IsFile s.rob_entry_epoch v.fp_file

  slot_saved-IsSlot : IsSlot (slot_saved m s)
  slot_saved-IsSlot = record {
    int_file =
        int_overlaid-IsFile s.rob_entry_epoch (map (stamped s.rob_entry_epoch) m.int_rat)
          int_stamped s.overlay h;
    fp_file =
        fp_overlaid-IsFile s.rob_entry_epoch (map (stamped s.rob_entry_epoch) m.fp_rat) fp_stamped
          s.overlay h;
    x0_clear =
        int_overlaid-x0 s.rob_entry_epoch (map (stamped s.rob_entry_epoch) m.int_rat) int_stamped
          s.overlay h (stamped-x0 s.rob_entry_epoch m.int_rat v.x0_clear);
  }

  -- The slot's files show the image.
  slot_saved-image :
      (f r : ℕ)
      → stamped_tag (get_or (if f == 0 then int_saved m s else fp_saved m s) r blank_entry)
        ≡ image_at m s f r
  slot_saved-image f r = elim (Bool-cases (f == 0)) [
    | inl i ↦
        let z = ==-path f 0 i in
        rw (z) (
          int_overlaid-at s.rob_entry_epoch (map (stamped s.rob_entry_epoch) m.int_rat) int_stamped
            s.overlay r h
          ∙ ap (over s.rob_entry_epoch s.overlay 0 r) (snapshot_at s.rob_entry_epoch m.int_rat r))
    | inr i ↦ rw i (
        fp_overlaid-at s.rob_entry_epoch (map (stamped s.rob_entry_epoch) m.fp_rat) fp_stamped
          s.overlay f r i h
        ∙ ap (over s.rob_entry_epoch s.overlay f r) (snapshot_at s.rob_entry_epoch m.fp_rat r))
  ]

  save_succeeds :
      (id : ℕ)
      → id < 8
      → checkpoint_save m id s ≡ some (with_checkpoints m (set m.checkpoints id (slot_saved m s)))
  save_succeeds id lt =
      unfold checkpoint_save in
      rw
        (
          int_fits s.rob_entry_epoch (map (stamped s.rob_entry_epoch) m.int_rat) int_stamped
              s.overlay h,
          fp_fits s.rob_entry_epoch (map (stamped s.rob_entry_epoch) m.fp_rat) fp_stamped s.overlay
              h,
          assign_lt m.checkpoints id (slot_saved m s) (omega (arith, v.slots)),
        )
        refl

-- Replacing one slot by a well-formed one.
pub put_slot-IsValid :
    (m : Rat) (id : ℕ) (slot : Slot)
    → IsValid m
    → id < 8
    → IsSlot slot
    → IsValid (with_checkpoints m (set m.checkpoints id slot))
put_slot-IsValid m id slot v lt w = record {
  int_file = v.int_file;
  fp_file = v.fp_file;
  x0_clear = v.x0_clear;
  slots = length-set m.checkpoints id slot ∙ v.slots;
  slot = λ j h.
      rw (get_or-set m.checkpoints id j slot blank_slot (omega (arith, v.slots)))
        (elim (Bool-cases (id == j)) [ inl p ↦ rw p w | inr p ↦ rw p (v.slot j h) ]);
}

restored-IsFile :
    (w : Window) (s : Slot) {b : List Entry} → IsFile b → IsFile (map (restored_entry w s) b)
restored-IsFile w s {b = b} f =
    map-IsFile (restored_entry w s) b (λ e. unfold restored_entry in refl) f

restored-x0 :
    (w : Window) (s : Slot) (b : List Entry)
    → (get_or b 0 blank_entry).valid ≡ false
    → (get_or (map (restored_entry w s) b) 0 blank_entry).valid ≡ false
restored-x0 w s [] h = refl
restored-x0 w s (e ∷ b) h = unfold restored_entry in rw h refl

-- A restore from a valid checkpoint of a well-formed table.
abbrev restored : Rat → Window → Slot → Rat
restored n w s = record n {
  int_rat = map (restored_entry w s) s.int_rat;
  fp_rat = map (restored_entry w s) s.fp_rat;
}

restored-IsValid :
    (n : Rat) (w : Window) (s : Slot) → IsValid n → IsSlot s → IsValid (restored n w s)
restored-IsValid n w s v k = record {
  int_file = restored-IsFile w s k.int_file;
  fp_file = restored-IsFile w s k.fp_file;
  x0_clear = restored-x0 w s s.int_rat k.x0_clear;
  slots = v.slots;
  slot = v.slot;
}

restored-mapping :
    (n : Rat) (w : Window) (s : Slot) (f r : ℕ)
    → mapping (restored n w s) f r
      ≡ keep w s.branch_tag s.branch_epoch
          (stamped_tag (get_or (if f == 0 then s.int_rat else s.fp_rat) r blank_entry))
restored-mapping n w s f r = elim (Bool-cases (f == 0)) [
  | inl i ↦ rw i (restored_at w s s.int_rat r)
  | inr i ↦ rw i (restored_at w s s.fp_rat r)
]

-- Saving to a slot in range, with an overlay in range, never fails. It keeps the current map,
-- replaces that slot by a valid one, and keeps the table well formed.
pub save_refines :
    (m : Rat) (id : ℕ) (s : Save)
    → IsValid m
    → id < 8
    → fits s.overlay ≡ true
    → (m' : Rat) × (checkpoint_save m id s ≡ some m')
      × ((f r : ℕ) → mapping m' f r ≡ mapping m f r)
      × ((j : ℕ)
          → ((get_or m'.checkpoints j blank_slot).valid
              ≡ (if id == j then true else (get_or m.checkpoints j blank_slot).valid)))
      × IsValid m'
save_refines m id s v lt h = (
  with_checkpoints m (set m.checkpoints id (slot_saved m s)),
  save_succeeds m s v h id lt,
  (λ f r. refl),
  (λ j.
      rw (get_or-set m.checkpoints id j (slot_saved m s) blank_slot (omega (arith, v.slots)))
        (elim (Bool-cases (id == j)) [ inl p ↦ rw p refl | inr p ↦ rw p refl ])),
  put_slot-IsValid m id (slot_saved m s) v lt (slot_saved-IsSlot m s v h),
)

-- After a save, and any changes that leave its slot alone, a restore from that slot succeeds and
-- returns the saved stack pointers. The map is then that of the save, with the rename of the same
-- cycle over it, less the mappings to instructions that are no longer in flight in the saved epoch
-- or not older than the branch; if the branch is not in flight, nothing is mapped.
pub restore-save :
    (m m' n : Rat) (id : ℕ) (s : Save) (w : Window)
    → IsValid m
    → IsValid n
    → id < 8
    → fits s.overlay ≡ true
    → checkpoint_save m id s ≡ some m'
    → get_or n.checkpoints id blank_slot ≡ get_or m'.checkpoints id blank_slot
    → (n' : Rat) × (checkpoint_restore n id w ≡ some (n', (s.ras_tos, s.ras_valid_count)))
      × ((f r : ℕ)
          → mapping n' f r
            ≡ keep w
                (s.branch_tag % 32)
                (bit_xor (bit s.rob_entry_epoch (s.branch_tag % 32)) 1)
                (image_at m s f r))
      × (n'.checkpoints ≡ n.checkpoints)
      × IsValid n'
unfolding checkpoint_restore
restore-save m m' n id s w v u lt h e same = (
  restored n w (slot_saved m s),
  rw (get_elem?-get_or n.checkpoints id blank_slot (omega (arith, u.slots)), here) refl,
  (λ f r.
      restored-mapping n w (slot_saved m s) f r
      ∙ ap (keep w (s.branch_tag % 32) (bit_xor (bit s.rob_entry_epoch (s.branch_tag % 32)) 1))
          (slot_saved-image m s v h f r)),
  refl,
  restored-IsValid n w (slot_saved m s) u (slot_saved-IsSlot m s v h),
)
  where
    saved : m' ≡ with_checkpoints m (set m.checkpoints id (slot_saved m s))
    saved = let p = save_succeeds m s v h id lt in cc

    here : get_or n.checkpoints id blank_slot ≡ slot_saved m s
    here =
        same
        ∙ ap (λ (x : Rat). get_or x.checkpoints id blank_slot) saved
        ∙ get_or-set m.checkpoints id id (slot_saved m s) blank_slot (omega (arith, v.slots))
        ∙ rw (==-refl id) refl

abbrev table_after : Rat → Option (Rat × (ℕ × ℕ)) → Rat
table_after m none = m
table_after m (some p) = p.0

restored-or_same :
    (m : Rat) (id : ℕ) (w : Window)
    → IsValid m
    → id < 8
    → IsValid (table_after m (checkpoint_restore m id w))
unfolding checkpoint_restore
restored-or_same m id w v lt =
    rw (get_elem?-get_or m.checkpoints id blank_slot (omega (arith, v.slots)))
      (elim (Bool-cases (get_or m.checkpoints id blank_slot).valid) [
        | inl h ↦ rw h (restored-IsValid m w (get_or m.checkpoints id blank_slot) v (v.slot id lt))
        | inr h ↦ rw h v
      ])

-- A restore that succeeds keeps the table well formed.
pub restore-IsValid :
    (m : Rat) (id : ℕ) (w : Window) (n : Rat) (ras : ℕ × ℕ)
    → IsValid m
    → id < 8
    → checkpoint_restore m id w ≡ some (n, ras)
    → IsValid n
restore-IsValid m id w n ras v lt e =
    subst IsValid (ap (table_after m) e) (restored-or_same m id w v lt)
