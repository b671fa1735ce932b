-- ===== src/Rat/Mapping.antt =====
-- The rename map as a client sees it, the tag that each architectural register waits for, and the
-- invariant of the table.
use frost.Prelude.{
  ℕ, ◌<◌, ◌≡◌, refl, ◌∙◌, false, Option, none, inl, inr, some, List, map, arith, ◌==◌,
  if◌then◌else◌, get_or, set, replicate, length, length-set, length-map, get_or-set, get_or-map_lt,
  get_or-replicate, Bool-cases,
}
use frost.Rat.{Rat, Entry, Slot, blank_entry, blank_slot, init}

abbrev pub tag_of : Entry → Option ℕ
tag_of e = if e.valid then some e.tag else none

abbrev pub file : Rat → ℕ → List Entry
file m rf = if rf == 0 then m.int_rat else m.fp_rat

-- The tag of the instruction that will produce a register; `none` if the register file has it.
abbrev pub mapping : Rat → ℕ → ℕ → Option ℕ
mapping m rf reg = tag_of (get_or (file m rf) reg blank_entry)

-- A file of 32 registers whose tags have five bits.
pub record IsFile (b : List Entry) : Type 0 where
  pub sized : length b ≡ 32
  pub tags : (i : ℕ) → i < 32 → (get_or b i blank_entry).tag < 32

pub record IsSlot (s : Slot) : Type 0 where
  pub int_file : IsFile s.int_rat
  pub fp_file : IsFile s.fp_rat
  pub x0_clear : (get_or s.int_rat 0 blank_entry).valid ≡ false

-- Both files are well formed, here and in the checkpoints, and x0 is never renamed.
pub record IsValid (m : Rat) : Type 0 where
  pub int_file : IsFile m.int_rat
  pub fp_file : IsFile m.fp_rat
  pub x0_clear : (get_or m.int_rat 0 blank_entry).valid ≡ false
  pub slots : length m.checkpoints ≡ 8
  pub slot : (i : ℕ) → i < 8 → IsSlot (get_or m.checkpoints i blank_slot)

pub blank-IsFile : IsFile (replicate 32 blank_entry)
blank-IsFile = record {
  sized = refl;
  tags = λ i h. let e = get_or-replicate 32 i blank_entry in rw e (omega arith);
}

pub init-IsValid : IsValid init
init-IsValid = record {
  int_file = blank-IsFile;
  fp_file = blank-IsFile;
  x0_clear = refl;
  slots = refl;
  slot = λ i h.
      rw (get_or-replicate 8 i blank_slot)
        (record { int_file = blank-IsFile; fp_file = blank-IsFile; x0_clear = refl });
}

pub set-IsFile :
    (b : List Entry) (i : ℕ) (e : Entry) → i < 32 → e.tag < 32 → IsFile b → IsFile (set b i e)
set-IsFile b i e lt t f = record {
  sized = length-set b i e ∙ f.sized;
  tags = λ j h.
      rw (get_or-set b i j e blank_entry (omega (arith, f.sized)))
        (elim (Bool-cases (i == j)) [ inl p ↦ rw p t | inr p ↦ rw p (f.tags j h) ]);
}

pub map-IsFile :
    (g : Entry → Entry) (b : List Entry)
    → ((e : Entry) → (g e).tag ≡ e.tag)
    → IsFile b
    → IsFile (map g b)
map-IsFile g b same f = record {
  sized = length-map g b ∙ f.sized;
  tags = λ j h.
      rw (get_or-map_lt g b j blank_entry blank_entry (omega (arith, f.sized)))
        (omega (arith, f.tags j h, same (get_or b j blank_entry)));
}
