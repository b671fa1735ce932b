-- ===== src/Rat/Overlay.antt =====
-- The rename of the same cycle in a saved image: one write into one of the two files.
use frost.Prelude.{
  ℕ, ◌%◌, ◌<◌, ◌≡◌, refl, Bool, true, false, not, ◌&&◌, Option, none, some, inl, inr, List, arith,
  ltb, ◌==◌, if◌then◌else◌, bit, bit_xor, get_or, set, get_or-set, assign_lt, Bool-cases, if_some,
  ltb→lt,
}
use frost.Rat.{Entry, blank_entry}
use frost.Rat.Checkpoint.{Overlay, overlay_entry, overlay_int, overlay_fp}
use frost.Rat.Mapping.{IsFile, set-IsFile}
use frost.Rat.Rename.{names}

-- A mapping with the epoch of its producer.
abbrev pub stamped_tag : Entry → Option (ℕ × ℕ)
stamped_tag e = if e.valid then some (e.tag, e.epoch) else none

abbrev pub with_epoch : ℕ → Option ℕ → Option (ℕ × ℕ)
with_epoch epochs none = none
with_epoch epochs (some t) = some (t, bit epochs t)

-- The mapping of a register in the image, given that of the snapshot.
abbrev pub over : ℕ → Option Overlay → ℕ → ℕ → Option (ℕ × ℕ) → Option (ℕ × ℕ)
over epochs none f r p = p
over epochs (some o) f r p =
    if names o.dest_rf o.dest_reg f r
    then some (o.rob_tag % 32, bit_xor (bit epochs (o.rob_tag % 32)) 1)
    else p

-- The registers that a save is given are in range.
abbrev pub fits : Option Overlay → Bool
fits none = true
fits (some o) = ltb o.dest_reg 32

abbrev pub int_overlaid : ℕ → Option Overlay → List Entry → List Entry
int_overlaid epochs none b = b
int_overlaid epochs (some o) b =
    if (o.dest_rf == 0) && not (o.dest_reg == 0)
    then set b o.dest_reg (overlay_entry epochs o)
    else b

abbrev pub fp_overlaid : ℕ → Option Overlay → List Entry → List Entry
fp_overlaid epochs none b = b
fp_overlaid epochs (some o) b =
    if o.dest_rf == 0 then b else set b o.dest_reg (overlay_entry epochs o)

module _ (epochs : ℕ) (b : List Entry) (sized : IsFile b) where
  pub int_fits :
      (o : Option Overlay) → fits o ≡ true → overlay_int epochs o b ≡ some (int_overlaid epochs o b)
  int_fits none h = refl
  int_fits (some o) h =
      rw
        (assign_lt b o.dest_reg (overlay_entry epochs o)
          (omega (arith, sized.sized, ltb→lt o.dest_reg 32 h)))
        (if_some ((o.dest_rf == 0) && not (o.dest_reg == 0))
          (set b o.dest_reg (overlay_entry epochs o)) b)

  pub fp_fits :
      (o : Option Overlay) → fits o ≡ true → overlay_fp epochs o b ≡ some (fp_overlaid epochs o b)
  fp_fits none h = refl
  fp_fits (some o) h =
      rw
        (assign_lt b o.dest_reg (overlay_entry epochs o)
          (omega (arith, sized.sized, ltb→lt o.dest_reg 32 h)))
        (if_some (o.dest_rf == 0) b (set b o.dest_reg (overlay_entry epochs o)))

  pub int_overlaid-IsFile : (o : Option Overlay) → fits o ≡ true → IsFile (int_overlaid epochs o b)
  int_overlaid-IsFile none h = sized
  int_overlaid-IsFile (some o) h = elim (Bool-cases ((o.dest_rf == 0) && not (o.dest_reg == 0))) [
    | inl c ↦ rw c (
        set-IsFile b o.dest_reg (overlay_entry epochs o) (ltb→lt o.dest_reg 32 h) (omega arith)
          sized)
    | inr c ↦ rw c sized
  ]

  pub fp_overlaid-IsFile : (o : Option Overlay) → fits o ≡ true → IsFile (fp_overlaid epochs o b)
  fp_overlaid-IsFile none h = sized
  fp_overlaid-IsFile (some o) h = elim (Bool-cases (o.dest_rf == 0)) [
    | inl c ↦ rw c sized
    | inr c ↦ rw c (
        set-IsFile b o.dest_reg (overlay_entry epochs o) (ltb→lt o.dest_reg 32 h) (omega arith)
          sized)
  ]

  pub int_overlaid-x0 :
      (o : Option Overlay)
      → fits o ≡ true
      → (get_or b 0 blank_entry).valid ≡ false
      → (get_or (int_overlaid epochs o b) 0 blank_entry).valid ≡ false
  int_overlaid-x0 none h x = x
  int_overlaid-x0 (some o) h x = elim (Bool-cases (o.dest_reg == 0)) [
    | inl z ↦ elim (Bool-cases (o.dest_rf == 0)) [ inl i ↦ rw (z, i) x | inr i ↦ rw (z, i) x ]
    | inr z ↦ elim (Bool-cases (o.dest_rf == 0)) [
      | inr i ↦ rw (z, i) x
      | inl i ↦
          rw
            (
              z,
              i,
              get_or-set b o.dest_reg 0 (overlay_entry epochs o) blank_entry
                  (omega (arith, sized.sized, ltb→lt o.dest_reg 32 h)),
              z,
            )
            x
    ]
  ]

  -- A written register shows the entry written.
  set-at :
      (reg r : ℕ) (e : Entry)
      → reg < 32
      → stamped_tag (get_or (set b reg e) r blank_entry)
        ≡ (if reg == r then stamped_tag e else stamped_tag (get_or b r blank_entry))
  set-at reg r e lt =
      rw (get_or-set b reg r e blank_entry (omega (arith, sized.sized)))
        (elim (Bool-cases (reg == r)) [ inl s ↦ rw s refl | inr s ↦ rw s refl ])

  pub int_overlaid-at :
      (o : Option Overlay) (r : ℕ)
      → fits o ≡ true
      → stamped_tag (get_or (int_overlaid epochs o b) r blank_entry)
        ≡ over epochs o 0 r (stamped_tag (get_or b r blank_entry))
  int_overlaid-at none r h = refl
  int_overlaid-at (some o) r h = elim (Bool-cases (o.dest_rf == 0)) [
    | inr i ↦ rw i refl
    | inl i ↦ elim (Bool-cases (o.dest_reg == 0)) [
      | inl z ↦ rw (i, z) refl
      | inr z ↦ rw (i, z) (set-at o.dest_reg r (overlay_entry epochs o) (ltb→lt o.dest_reg 32 h))
    ]
  ]

  pub fp_overlaid-at :
      (o : Option Overlay) (f r : ℕ)
      → (f == 0) ≡ false
      → fits o ≡ true
      → stamped_tag (get_or (fp_overlaid epochs o b) r blank_entry)
        ≡ over epochs o f r (stamped_tag (get_or b r blank_entry))
  fp_overlaid-at none f r n h = refl
  fp_overlaid-at (some o) f r n h = elim (Bool-cases (o.dest_rf == 0)) [
    | inl i ↦ rw (i, n) refl
    | inr i ↦ rw (i, n) (set-at o.dest_reg r (overlay_entry epochs o) (ltb→lt o.dest_reg 32 h))
  ]
