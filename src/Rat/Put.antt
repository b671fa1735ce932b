-- ===== src/Rat/Put.antt =====
-- Writing one register of one of the two files.
use frost.Prelude.{
  ℕ, ◌<◌, ◌≡◌, refl, false, not, ◌&&◌, inl, inr, arith, ◌==◌, if◌then◌else◌, set, get_or-set,
  Bool-cases,
}
use frost.Rat.{Rat, Entry, blank_entry}
use frost.Rat.Mapping.{tag_of, mapping, IsValid, set-IsFile}

abbrev pub int_put : Rat → ℕ → Entry → Rat
int_put m reg e = record m { int_rat = set m.int_rat reg e }

abbrev pub fp_put : Rat → ℕ → Entry → Rat
fp_put m reg e = record m { fp_rat = set m.fp_rat reg e }

module _ (m : Rat) (reg : ℕ) (e : Entry) (v : IsValid m) (lt : reg < 32) (t : e.tag < 32) where
  pub int_put-IsValid : (reg == 0) ≡ false → IsValid (int_put m reg e)
  int_put-IsValid nz = record {
    int_file = set-IsFile m.int_rat reg e lt t v.int_file;
    fp_file = v.fp_file;
    x0_clear =
        rw (get_or-set m.int_rat reg 0 e blank_entry (omega (arith, v.int_file.sized)), nz)
          v.x0_clear;
    slots = v.slots;
    slot = v.slot;
  }

  pub fp_put-IsValid : IsValid (fp_put m reg e)
  fp_put-IsValid = record {
    int_file = v.int_file;
    fp_file = set-IsFile m.fp_rat reg e lt t v.fp_file;
    x0_clear = v.x0_clear;
    slots = v.slots;
    slot = v.slot;
  }

  pub int_put-mapping :
      (rf r : ℕ)
      → mapping (int_put m reg e) rf r
        ≡ (if (rf == 0) && (reg == r) then tag_of e else mapping m rf r)
  int_put-mapping rf r = elim (Bool-cases (rf == 0)) [
    | inr f ↦ rw f refl
    | inl f ↦
        rw (f, get_or-set m.int_rat reg r e blank_entry (omega (arith, v.int_file.sized)))
          (elim (Bool-cases (reg == r)) [ inl s ↦ rw s refl | inr s ↦ rw s refl ])
  ]

  pub fp_put-mapping :
      (rf r : ℕ)
      → mapping (fp_put m reg e) rf r
        ≡ (if not (rf == 0) && (reg == r) then tag_of e else mapping m rf r)
  fp_put-mapping rf r = elim (Bool-cases (rf == 0)) [
    | inl f ↦ rw f refl
    | inr f ↦
        rw (f, get_or-set m.fp_rat reg r e blank_entry (omega (arith, v.fp_file.sized)))
          (elim (Bool-cases (reg == r)) [ inl s ↦ rw s refl | inr s ↦ rw s refl ])
  ]
