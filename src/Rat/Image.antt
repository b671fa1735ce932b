-- ===== src/Rat/Image.antt =====
-- The rename map in a checkpoint: what a save keeps of it, and what a restore keeps of that.
use frost.Prelude.{
  ℕ, zero, suc, ◌%◌, ◌<◌, ◌≡◌, refl, ap, ◌∙◌, Bool, ◌&&◌, Option, none, some, inl, inr, List, [],
  ◌∷◌, map, arith, ltb, if◌then◌else◌, sub_mod, get_or, get_or-map, Bool-cases,
}
use frost.Rat.{Rat, Entry, Slot, blank_entry}
use frost.Rat.Checkpoint.{stamped, Save, Window, is_live, restored_tag_still_live, restored_entry}
use frost.Rat.Mapping.{tag_of, mapping}
use frost.Rat.Overlay.{stamped_tag, with_epoch, over}

-- What a checkpoint keeps of the map: every mapping, and the rename of the same cycle over it.
abbrev pub image_at : Rat → Save → ℕ → ℕ → Option (ℕ × ℕ)
image_at m s f r =
    over s.rob_entry_epoch s.overlay f r (with_epoch s.rob_entry_epoch (mapping m f r))

-- What a restore keeps of it: the mapping to an instruction that is in flight and older than the
-- branch, if the branch is in flight too.
abbrev pub older : ℕ → ℕ → ℕ → Bool
older head a b = ltb (sub_mod 32 (a % 32) (head % 32)) (sub_mod 32 (b % 32) (head % 32))

abbrev pub keep : Window → ℕ → ℕ → Option (ℕ × ℕ) → Option ℕ
keep w branch branch_epoch none = none
keep w branch branch_epoch (some p) =
    if is_live w (branch % 32) branch_epoch
      && (is_live w (p.0 % 32) p.1 && older w.rob_head_tag p.0 branch)
    then some p.0
    else none

-- Six-bit ages of five-bit tags are in the order of five-bit ages.
age_order :
    (a b h : ℕ)
    → a < 32
    → b < 32
    → h < 32
    → ltb (sub_mod 64 a h) (sub_mod 64 b h) ≡ ltb (sub_mod 32 a h) (sub_mod 32 b h)
age_order a b h la lb lh = ground arith

still_live :
    (w : Window) (t e b be : ℕ)
    → restored_tag_still_live w t e b be
      ≡ (is_live w (b % 32) be && (is_live w (t % 32) e && older w.rob_head_tag t b))
unfolding restored_tag_still_live
still_live w t e b be =
    ap (λ x. is_live w (b % 32) be && (is_live w (t % 32) e && x))
      (age_order (t % 32) (b % 32) (w.rob_head_tag % 32) (omega arith) (omega arith) (omega arith))

restored-tag_of :
    (w : Window) (s : Slot) (e : Entry)
    → tag_of (restored_entry w s e) ≡ keep w s.branch_tag s.branch_epoch (stamped_tag e)
unfolding restored_entry
restored-tag_of w s e = elim (Bool-cases e.valid) [
  | inr v ↦ rw v refl
  | inl v ↦ rw (v, still_live w e.tag e.epoch s.branch_tag s.branch_epoch) refl
]

-- A default that is seen as another.
get_or_default {ℓ κ} :
    {A : Type ℓ} {B : Type κ} (g : A → B) (xs : List A) (i : ℕ) (d d' : A)
    → g d ≡ g d'
    → g (get_or xs i d) ≡ g (get_or xs i d')
get_or_default g [] i d d' h = h
get_or_default g (x ∷ xs) zero d d' h = refl
get_or_default g (x ∷ xs) (suc i) d d' h = get_or_default g xs i d d' h

stamped-seen :
    (epochs : ℕ) (e : Entry) → stamped_tag (stamped epochs e) ≡ with_epoch epochs (tag_of e)
unfolding stamped
stamped-seen epochs e = ground arith

-- One file of the snapshot, before the overlay.
pub snapshot_at :
    (epochs : ℕ) (b : List Entry) (r : ℕ)
    → stamped_tag (get_or (map (stamped epochs) b) r blank_entry)
      ≡ with_epoch epochs (tag_of (get_or b r blank_entry))
snapshot_at epochs b r =
    get_or_default stamped_tag (map (stamped epochs) b) r blank_entry (stamped epochs blank_entry)
      (unfold stamped in refl)
    ∙ ap stamped_tag (get_or-map (stamped epochs) b r blank_entry)
    ∙ stamped-seen epochs (get_or b r blank_entry)

-- One file of what is restored.
pub restored_at :
    (w : Window) (s : Slot) (b : List Entry) (r : ℕ)
    → tag_of (get_or (map (restored_entry w s) b) r blank_entry)
      ≡ keep w s.branch_tag s.branch_epoch (stamped_tag (get_or b r blank_entry))
restored_at w s b r =
    get_or_default tag_of (map (restored_entry w s) b) r blank_entry
      (restored_entry w s blank_entry) (unfold restored_entry in refl)
    ∙ ap tag_of (get_or-map (restored_entry w s) b r blank_entry)
    ∙ restored-tag_of w s (get_or b r blank_entry)
