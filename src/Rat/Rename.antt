-- ===== src/Rat/Rename.antt =====
-- Lookup, rename, commit and flush against the rename map.
use frost.Prelude.{
  ℕ, ◌%◌, ◌<◌, ◌≡◌, refl, ap, ◌∙◌, Bool, true, false, not, ◌&&◌, Option, none, some, inl, inr, List,
  arith, ◌==◌, if◌then◌else◌, mask64, get_or, get_elem?-get_or, assign_lt, Bool-cases, ==-path,
  if_congr,
}
use frost.Rat.{
  Rat, Entry, LookupResult, blank_entry, lookup_int, lookup_fp, found, renamed_to, clear_entry,
  rename, commit,
}
use frost.Rat.Put.{
  int_put, fp_put, int_put-IsValid, fp_put-IsValid, int_put-mapping, fp_put-mapping,
}
use frost.Rat.Mapping.{tag_of, mapping, IsFile, IsValid}

-- What a lookup answers for a register of which the map says `o`.
abbrev pub answer : Option ℕ → ℕ → LookupResult
answer none value = record { renamed = false; tag = 0; value = value }
answer (some t) value = record { renamed = true; tag = t; value = value }

found-answer : (e : Entry) (value : ℕ) → found e value ≡ answer (tag_of e) value
found-answer e value = elim (Bool-cases e.valid) [ inl v ↦ rw v refl | inr v ↦ rw v refl ]

-- A lookup of a register in range answers what the rename map says, with the register file's value
-- cut to 64 bits; x0 reads as zero.
pub lookup-mapping :
    (m : Rat) (addr regfile_data : ℕ)
    → IsValid m
    → addr < 32
    → (lookup_int m addr regfile_data
        ≡ some (answer (mapping m 0 addr) (if addr == 0 then 0 else mask64 regfile_data)))
      × (lookup_fp m addr regfile_data ≡ some (answer (mapping m 1 addr) (mask64 regfile_data)))
unfolding lookup_int lookup_fp
lookup-mapping m addr value v lt = (
  elim (Bool-cases (addr == 0)) [
    | inl z ↦ let e = ==-path addr 0 z in rw (e, v.x0_clear) refl
    | inr z ↦
        rw (z, get_elem?-get_or m.int_rat addr blank_entry (omega (arith, v.int_file.sized)))
          (ap some (found-answer (get_or m.int_rat addr blank_entry) (mask64 value)))
  ],
  rw (get_elem?-get_or m.fp_rat addr blank_entry (omega (arith, v.fp_file.sized)))
      (ap some (found-answer (get_or m.fp_rat addr blank_entry) (mask64 value))),
)

-- Two pairs of file and number name one renamable register; x0 is none.
abbrev pub names : ℕ → ℕ → ℕ → ℕ → Bool
names dest_rf dest_reg rf reg =
    (if dest_rf == 0 then (rf == 0) && not (dest_reg == 0) else not (rf == 0)) && (dest_reg == reg)

-- A commit takes a mapping away only if it is its own.
abbrev pub unless_tag : ℕ → Option ℕ → Option ℕ
unless_tag tag none = none
unless_tag tag (some t) = if t == tag then none else some t

clear-tag_of : (tag : ℕ) (e : Entry) → tag_of (clear_entry tag e) ≡ unless_tag (tag % 32) (tag_of e)
unfolding clear_entry
clear-tag_of tag e = ground arith

clear_tag : (tag : ℕ) (e : Entry) → (clear_entry tag e).tag ≡ e.tag
unfolding clear_entry
clear_tag tag e = ground arith

-- What a call that writes register `reg` of file `rf` does, if the register's mapping becomes
-- `after` of what it was.
pub record Renames (m m' : Rat) (rf reg : ℕ) (after : Option ℕ → Option ℕ) : Type 0 where
  pub at_reg :
      (f r : ℕ)
      → mapping m' f r ≡ (if names rf reg f r then after (mapping m f r) else mapping m f r)
  pub same_checkpoints : m'.checkpoints ≡ m.checkpoints
  pub still_valid : IsValid m'

module _ (m : Rat) (reg : ℕ) (v : IsValid m) (lt : reg < 32) where
  -- A write that the call skips: x0.
  skipped :
      (rf : ℕ) (after : Option ℕ → Option ℕ)
      → (rf == 0) ≡ true
      → (reg == 0) ≡ true
      → Renames m m rf reg after
  skipped rf after i z = record {
    at_reg =
        λ f r. rw (i, z) (elim (Bool-cases (f == 0)) [ inl e ↦ rw e refl | inr e ↦ rw e refl ]);
    same_checkpoints = refl;
    still_valid = v;
  }

  module _ (e : Entry) (after : Option ℕ → Option ℕ) (t : e.tag < 32) where
    int_written :
        (rf : ℕ)
        → (rf == 0) ≡ true
        → (reg == 0) ≡ false
        → tag_of e ≡ after (mapping m 0 reg)
        → Renames m (int_put m reg e) rf reg after
    int_written rf i z g = record {
      at_reg = λ f r.
          rw (i, z)
            (int_put-mapping m reg e v lt t f r ∙ elim (Bool-cases (f == 0)) [
              | inr d ↦ rw d refl
              | inl d ↦ rw (==-path f 0 d) (
                  if_congr (reg == r) (mapping m 0 r)
                    (λ s. g ∙ ap (λ x. after (mapping m 0 x)) (==-path reg r s)))
            ]);
      same_checkpoints = refl;
      still_valid = int_put-IsValid m reg e v lt t z;
    }

    fp_written :
        (rf : ℕ)
        → (rf == 0) ≡ false
        → tag_of e ≡ after (mapping m 1 reg)
        → Renames m (fp_put m reg e) rf reg after
    fp_written rf i g = record {
      at_reg = λ f r. rw i (
          fp_put-mapping m reg e v lt t f r ∙ elim (Bool-cases (f == 0)) [
            | inl d ↦ rw d refl
            | inr d ↦ rw d (
                if_congr (reg == r) (mapping m 1 r)
                  (λ s. g ∙ ap (λ x. after (mapping m 1 x)) (==-path reg r s)))
          ]);
      same_checkpoints = refl;
      still_valid = fp_put-IsValid m reg e v lt t;
    }

-- Renaming a register in range never fails. It maps that register to the five bits of the tag (x0
-- to nothing), keeps every other mapping and all checkpoints, and keeps the table well formed.
pub rename-mapping :
    (m : Rat) (rf reg tag : ℕ)
    → IsValid m
    → reg < 32
    → (m' : Rat) × (rename m rf reg tag ≡ some m') × Renames m m' rf reg (λ _. some (tag % 32))
unfolding rename
rename-mapping m rf reg tag v lt = elim (Bool-cases (rf == 0)) [
  | inl i ↦ elim (Bool-cases (reg == 0)) [
    | inl z ↦ (m, rw (i, z) refl, skipped m reg v lt rf (λ _. some (tag % 32)) i z)
    | inr z ↦ (
      int_put m reg (renamed_to tag),
      rw (i, z, assign_lt m.int_rat reg (renamed_to tag) (omega (arith, v.int_file.sized))) refl,
      int_written m reg v lt (renamed_to tag) (λ _. some (tag % 32)) (omega arith) rf i z refl,
    )
  ]
  | inr i ↦ (
    fp_put m reg (renamed_to tag),
    rw (i, assign_lt m.fp_rat reg (renamed_to tag) (omega (arith, v.fp_file.sized))) refl,
    fp_written m reg v lt (renamed_to tag) (λ _. some (tag % 32)) (omega arith) rf i refl,
  )
]

abbrev cleared : ℕ → ℕ → List Entry → Entry
cleared tag reg b = clear_entry tag (get_or b reg blank_entry)

cleared-tag : (tag reg : ℕ) {b : List Entry} → reg < 32 → IsFile b → (cleared tag reg b).tag < 32
cleared-tag tag reg {b = b} lt f = rw (clear_tag tag (get_or b reg blank_entry)) (f.tags reg lt)

-- Committing a register in range never fails. It takes the register's mapping away if that is the
-- committed tag, keeps every other mapping and all checkpoints, and keeps the table well formed.
pub commit-mapping :
    (m : Rat) (rf reg tag : ℕ)
    → IsValid m
    → reg < 32
    → (m' : Rat) × (commit m rf reg tag ≡ some m') × Renames m m' rf reg (unless_tag (tag % 32))
unfolding commit
commit-mapping m rf reg tag v lt = elim (Bool-cases (rf == 0)) [
  | inl i ↦ elim (Bool-cases (reg == 0)) [
    | inl z ↦ (m, rw (i, z) refl, skipped m reg v lt rf (unless_tag (tag % 32)) i z)
    | inr z ↦ (
      int_put m reg (cleared tag reg m.int_rat),
      rw
          (
            i,
            z,
            assign_lt m.int_rat reg (cleared tag reg m.int_rat) (omega (arith, v.int_file.sized)),
          )
          refl,
      int_written m reg v lt (cleared tag reg m.int_rat) (unless_tag (tag % 32))
          (cleared-tag tag reg lt v.int_file) rf i z
          (clear-tag_of tag (get_or m.int_rat reg blank_entry)),
    )
  ]
  | inr i ↦ (
    fp_put m reg (cleared tag reg m.fp_rat),
    rw (i, assign_lt m.fp_rat reg (cleared tag reg m.fp_rat) (omega (arith, v.fp_file.sized))) refl,
    fp_written m reg v lt (cleared tag reg m.fp_rat) (unless_tag (tag % 32))
        (cleared-tag tag reg lt v.fp_file) rf i
        (clear-tag_of tag (get_or m.fp_rat reg blank_entry)),
  )
]
