-- ===== src/LoadQueue/Choice.antt =====
-- The choice of the next load for memory, and the load unit's sign extension.
use frost.Prelude.{
  ℕ, zero, suc, ◌+◌, ◌-◌, ◌*◌, ◌/◌, ◌%◌, ◌^◌, ◌<◌, ◌≡◌, refl, ap, ◌∙◌, ◌⊎◌, inl, inr, Bool, true,
  false, not, ◌&&◌, ◌||◌, none, some, List, [], ◌∷◌, arith, ◌==◌, if◌then◌else◌, leb, mask_xlen,
  mask64, get_or, bit_or, all_below, all_below_sound, Bool-cases, ==-path,
}
use frost.LoadQueue.{
  Entry, LoadQueue, blank_entry, head_idx, entry_at, first_behind, first_slot, issues_at_head,
  may_issue, issue_scan,
}
use frost.LoadQueue.Memory.{sign_extend_byte, load_unit_model}

slot_search :
    (p : Entry → Bool) (i : ℕ) (es : List Entry)
    → ((k : ℕ) × (first_slot p i es ≡ some (i + k)) × (p (get_or es k blank_entry) ≡ true))
      ⊎ (first_slot p i es ≡ none)
unfolding first_slot
slot_search p i [] = inr refl
slot_search p i (e ∷ es) = elim (Bool-cases (p e)) [
  | inl h ↦ inl (0, rw h (ap some (omega arith)), h)
  | inr h ↦ elim (slot_search p (i + 1) es) [
    | inl (k, f, r) ↦ inl (suc k, rw (h, f) (ap some (omega arith)), r)
    | inr f ↦ inr (rw (h, f) refl)
  ]
]

ring_search :
    (p : Entry → Bool) (q : LoadQueue) (i n : ℕ)
    → ((j : ℕ) × (first_behind p q i n ≡ some j) × (p (entry_at q j) ≡ true))
      ⊎ (first_behind p q i n ≡ none)
unfolding first_behind
ring_search p q i zero = inr refl
ring_search p q i (suc n) = elim (Bool-cases (p (entry_at q ((head_idx q + i) % 8)))) [
  | inl h ↦ inl ((head_idx q + i) % 8, rw h refl, h)
  | inr h ↦ elim (ring_search p q (i + 1) n) [
    | inl (j, f, r) ↦ inl (j, rw (h, f) refl, r)
    | inr f ↦ inr (rw (h, f) refl)
  ]
]

-- A load that may go to memory: its address is known, it waits for its data, a load-reserved is at
-- the buffer's head, and so is an atomic, for which all committed stores are written.
abbrev pub eligible : ℕ → Bool → Entry → Bool
eligible head drained e =
    (e.valid && (e.addr_valid && (not e.issued && not e.data_valid)))
    && ((not e.is_lr || (e.rob_tag == head % 32))
        && (not e.is_amo || ((e.rob_tag == head % 32) && drained)))

at_head-eligible :
    (h : ℕ) (d : Bool) (e : Entry) → issues_at_head h d e ≡ true → eligible h d e ≡ true
at_head-eligible h d e p = ground arith

may_issue-eligible : (h : ℕ) (d : Bool) (e : Entry) → may_issue h d e ≡ true → eligible h d e ≡ true
may_issue-eligible h d e p = ground arith

-- Every load that the scan chooses for memory is eligible.
pub scan-eligible :
    (q : LoadQueue) (head : ℕ) (drained : Bool)
    → ((i : ℕ) × ((issue_scan q head drained).1 ≡ some i)
        × (eligible head drained (entry_at q i) ≡ true))
      ⊎ ((issue_scan q head drained).1 ≡ none)
unfolding issue_scan
scan-eligible q head drained = elim (slot_search (issues_at_head head drained) 0 q.entries) [
  | inl (k, f, r) ↦
      let g : first_slot (issues_at_head head drained) 0 q.entries ≡ some k =
        f ∙ ap some (omega arith) in
      inl (k, rw g refl, at_head-eligible head drained (entry_at q k) r)
  | inr f ↦ elim (ring_search (may_issue head drained) q 0 8) [
    | inl (j, g, r) ↦ inl (j, rw (f, g) refl, may_issue-eligible head drained (entry_at q j) r)
    | inr g ↦ inr (rw (f, g) refl)
  ]
]

-- The byte that a load selects from its beat.
abbrev pub byte_of : ℕ → ℕ → ℕ
byte_of address raw = (mask64 raw / 2 ^ (8 * (address % 8))) % 256

ones_above : all_below 256 (λ v. bit_or v 4294967040 == v + 4294967040) ≡ true
ones_above = refl

byte_word :
    (signed : Bool) (b : ℕ)
    → b < 256
    → mask_xlen (sign_extend_byte b (not signed))
      ≡ (if signed && leb 128 b then b + (2 ^ 32 - 256) else b)
unfolding sign_extend_byte
byte_word false b lt = omega arith
byte_word true b lt =
    let m : b % 256 ≡ b = omega arith in
    let t : bit_or b 4294967040 ≡ b + 4294967040 =
      ==-path (bit_or b 4294967040) (b + 4294967040)
        (all_below_sound 256 (λ v. bit_or v 4294967040 == v + 4294967040) b ones_above lt) in
    rw m (elim (Bool-cases (leb 128 b)) [
      | inl h ↦ rw (h, t) (omega arith)
      | inr h ↦ rw h (omega arith)
    ])

-- A byte load gives the addressed byte of the beat, and for a signed load of a byte from 128 on the
-- word of the byte less 256.
pub load_byte_extends :
    (signed : Bool) (address raw : ℕ)
    → load_unit_model 0 signed address raw ≡ (
        if signed && leb 128 (byte_of address raw)
        then byte_of address raw + (2 ^ 32 - 256)
        else byte_of address raw)
unfolding load_unit_model
load_byte_extends signed address raw = byte_word signed (byte_of address raw) (omega arith)
