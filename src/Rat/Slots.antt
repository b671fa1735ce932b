-- ===== src/Rat/Slots.antt =====
-- The checkpoint slots: freeing one or several, finding a free one, and the flush of everything.
use frost.Prelude.{
  ℕ, zero, suc, ◌+◌, ◌<◌, ◌≡◌, any_of, take, refl, ap, ◌∙◌, Bool, true, false, not, ◌&&◌, some, inl,
  inr, ◌⊎◌, List, [], ◌∷◌, arith, ltb, leb, ◌==◌, bit, get_or, set, length, get_or-set,
  get_elem?-get_or, assign_lt, Bool-cases, ==-path,
}
use frost.Rat.{Rat, Slot, blank_slot, free_slot}
use frost.Rat.Checkpoint.{
  with_checkpoints, checkpoint_free, bulk_loop, checkpoint_bulk_free, free_slot_from,
  checkpoint_available,
}
use frost.Rat.Mapping.{mapping, IsSlot, IsValid}
use frost.Rat.Restore.{put_slot-IsValid}

abbrev pub slot_valid : Rat → ℕ → Bool
slot_valid m j = (get_or m.checkpoints j blank_slot).valid

pub free-IsSlot : {s : Slot} → IsSlot s → IsSlot (free_slot s)
unfolding free_slot
free-IsSlot k = record { int_file = k.int_file; fp_file = k.fp_file; x0_clear = k.x0_clear }

-- What a call that frees the slots of a set does.
pub record Frees (m m' : Rat) (freed : ℕ → Bool) : Type 0 where
  pub same_map : (f r : ℕ) → mapping m' f r ≡ mapping m f r
  pub at_slot : (j : ℕ) → slot_valid m' j ≡ (slot_valid m j && not (freed j))
  pub still_valid : IsValid m'

-- Freeing a slot in range never fails; it makes that slot invalid, and keeps every other slot and
-- the map.
pub free_refines :
    (m : Rat) (id : ℕ)
    → IsValid m
    → id < 8
    → (m' : Rat) × (checkpoint_free m id ≡ some m') × Frees m m' (λ j. id == j)
unfolding checkpoint_free
free_refines m id v lt =
    let freed = free_slot (get_or m.checkpoints id blank_slot) in
    (
      with_checkpoints m (set m.checkpoints id freed),
      rw
          (
            get_elem?-get_or m.checkpoints id blank_slot (omega (arith, v.slots)),
            assign_lt m.checkpoints id freed (omega (arith, v.slots)),
          )
          refl,
      record {
        same_map = λ f r. refl;
        at_slot = λ j.
            rw (slot_valid, get_or-set m.checkpoints id j freed blank_slot (omega (arith, v.slots)))
              (elim (Bool-cases (id == j)) [
                | inl p ↦ rw p (unfold free_slot in ground arith)
                | inr p ↦ rw p (ground arith)
              ]);
        still_valid = put_slot-IsValid m id freed v lt (free-IsSlot (v.slot id lt));
      },
    )

-- The slots that the loop frees on its way from `i` over `n`.
abbrev freed_from : ℕ → ℕ → ℕ → ℕ → Bool
freed_from mask i n j = (leb i j && ltb j (i + n)) && (bit mask j == 1)

-- One round of the loop, where `d` is the mask's bit for `j`, and that for `i` is clear or set.
round_off :
    (i n j : ℕ) (b d : Bool)
    → ((i == j) ≡ true → d ≡ false)
    → (b && not ((leb (i + 1) j && ltb j (i + 1 + n)) && d))
      ≡ (b && not ((leb i j && ltb j (i + suc n)) && d))
round_off i n j b d h = ground arith

round_on :
    (i n j : ℕ) (b d : Bool)
    → ((i == j) ≡ true → d ≡ true)
    → ((b && not (i == j)) && not ((leb (i + 1) j && ltb j (i + 1 + n)) && d))
      ≡ (b && not ((leb i j && ltb j (i + suc n)) && d))
round_on i n j b d h = ground arith

same_bit :
    (mask i j : ℕ) (c : Bool) → (bit mask i == 1) ≡ c → (i == j) ≡ true → (bit mask j == 1) ≡ c
same_bit mask i j c h e = let p = ==-path i j e in rw (← p) h

bulk_refines :
    (mask i n : ℕ) (m : Rat)
    → IsValid m
    → i + n ≡ 8
    → (m' : Rat) × (bulk_loop mask i n m ≡ some m') × Frees m m' (freed_from mask i n)
unfolding bulk_loop
bulk_refines mask i zero m v e =
    (m, refl, record { same_map = λ f r. refl; at_slot = λ j. ground arith; still_valid = v })
bulk_refines mask i (suc n) m v e = elim (Bool-cases (bit mask i == 1)) [
  | inr c ↦
      let (m', g, fr) = bulk_refines mask (i + 1) n m v (omega arith) in
      (
        m',
        rw (c, g) refl,
        record {
          same_map = fr.same_map;
          at_slot = λ j.
              fr.at_slot j
              ∙ round_off i n j (slot_valid m j) (bit mask j == 1) (same_bit mask i j false c);
          still_valid = fr.still_valid;
        },
      )
  | inl c ↦
      let (m₁, g₁, fr₁) = free_refines m i v (omega arith) in
      let (m', g, fr) = bulk_refines mask (i + 1) n m₁ fr₁.still_valid (omega arith) in
      (
        m',
        rw (c, g₁, g) refl,
        record {
          same_map = λ f r. fr.same_map f r ∙ fr₁.same_map f r;
          at_slot = λ j.
              fr.at_slot j
              ∙ ap (λ x. x && not (freed_from mask (i + 1) n j)) (fr₁.at_slot j)
              ∙ round_on i n j (slot_valid m j) (bit mask j == 1) (same_bit mask i j true c);
          still_valid = fr.still_valid;
        },
      )
]

all_rounds :
    (j : ℕ) (b d : Bool) → (b && not ((leb 0 j && ltb j 8) && d)) ≡ (b && not (ltb j 8 && d))
all_rounds j b d = ground arith

-- Freeing by a mask never fails. It makes invalid exactly the eight slots whose bit is set, and
-- keeps the map.
pub bulk_free_refines :
    (m : Rat) (mask : ℕ)
    → IsValid m
    → (m' : Rat) × (checkpoint_bulk_free m mask ≡ some m')
      × Frees m m' (λ j. ltb j 8 && (bit mask j == 1))
unfolding checkpoint_bulk_free
bulk_free_refines m mask v =
    let (m', e, fr) = bulk_refines mask 0 8 m v refl in
    (
      m',
      e,
      record {
        same_map = fr.same_map;
        at_slot = λ j. fr.at_slot j ∙ all_rounds j (slot_valid m j) (bit mask j == 1);
        still_valid = fr.still_valid;
      },
    )

search_refines :
    (i : ℕ) (slots : List Slot)
    → ((k : ℕ) × (free_slot_from i slots ≡ (true, i + k))
        × (k < length slots)
        × ((get_or slots k blank_slot).valid ≡ false)
        × (any_of (λ s. not s.valid) (take k slots) ≡ false))
      ⊎ ((free_slot_from i slots ≡ (false, 0)) × (any_of (λ s. not s.valid) slots ≡ false))
unfolding free_slot_from
search_refines i [] = inr (refl, refl)
search_refines i (s ∷ slots) = elim (Bool-cases s.valid) [
  | inr h ↦ inl (0, rw h (ap (λ x. (true, x)) (omega arith)), omega arith, h, refl)
  | inl h ↦ elim (search_refines (i + 1) slots) [
    | inl (k, e, lt, f, u) ↦
        inl (suc k, rw (h, e) (ap (λ x. (true, x)) (omega arith)), omega arith, f, rw h u)
    | inr (e, u) ↦ inr (rw (h, e) refl, rw h u)
  ]
]

-- The search for a free slot answers the lowest one, or that there is none.
pub available_refines :
    (m : Rat)
    → IsValid m
    → ((id : ℕ) × (checkpoint_available m ≡ (true, id))
        × (id < 8)
        × (slot_valid m id ≡ false)
        × (any_of (λ s. not s.valid) (take id m.checkpoints) ≡ false))
      ⊎ ((checkpoint_available m ≡ (false, 0)) × (any_of (λ s. not s.valid) m.checkpoints ≡ false))
unfolding checkpoint_available
available_refines m v = elim (search_refines 0 m.checkpoints) [
  | inl (k, e, lt, f, u) ↦
      inl (k, e ∙ ap (λ x. (true, x)) (omega arith), omega (arith, v.slots), f, u)
  | inr p ↦ inr p
]
