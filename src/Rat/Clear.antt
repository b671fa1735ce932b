-- ===== src/Rat/Clear.antt =====
-- The full flush.
use frost.Prelude.{
  ℕ, zero, suc, ◌≡◌, refl, ap, ◌∙◌, false, none, inl, inr, List, [], ◌∷◌, map, ◌==◌, get_or,
  length-map, get_or-map, Bool-cases,
}
use frost.Rat.{Rat, Entry, Slot, blank_entry, blank_slot, free_slot, invalid_entry, flush_all}
use frost.Rat.Mapping.{tag_of, mapping, IsFile, IsValid, map-IsFile}
use frost.Rat.Slots.{slot_valid, free-IsSlot}

unmapped : (b : List Entry) (r : ℕ) → tag_of (get_or (map invalid_entry b) r blank_entry) ≡ none
unmapped [] r = refl
unmapped (e ∷ b) zero = unfold invalid_entry in refl
unmapped (e ∷ b) (suc r) = unmapped b r

invalid-IsFile : {b : List Entry} → IsFile b → IsFile (map invalid_entry b)
invalid-IsFile {b = b} f = map-IsFile invalid_entry b (λ e. unfold invalid_entry in refl) f

-- A full flush leaves no mapping and no checkpoint, and keeps the table well formed.
pub flush_all_clears :
    (m : Rat)
    → IsValid m
    → ((f r : ℕ) → mapping (flush_all m) f r ≡ none)
      × ((j : ℕ) → slot_valid (flush_all m) j ≡ false)
      × IsValid (flush_all m)
unfolding flush_all free_slot
flush_all_clears m v = (
  λ f r. elim (Bool-cases (f == 0)) [
    | inl i ↦ rw i (unmapped m.int_rat r)
    | inr i ↦ rw i (unmapped m.fp_rat r)
  ],
  λ j. ap (λ (s : Slot). s.valid) (at_free j),
  record {
    int_file = invalid-IsFile v.int_file;
    fp_file = invalid-IsFile v.fp_file;
    x0_clear = x0 m.int_rat;
    slots = length-map free_slot m.checkpoints ∙ v.slots;
    slot = λ j h. rw (at_free j) (free-IsSlot (v.slot j h));
  },
)
  where
    at_free :
        (j : ℕ)
        → get_or (map free_slot m.checkpoints) j blank_slot
          ≡ free_slot (get_or m.checkpoints j blank_slot)
    at_free j = get_or-map free_slot m.checkpoints j blank_slot

    x0 : (b : List Entry) → (get_or (map invalid_entry b) 0 blank_entry).valid ≡ false
    x0 [] = refl
    x0 (e ∷ b) = unfold invalid_entry in refl
