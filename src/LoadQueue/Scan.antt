-- ===== src/LoadQueue/Scan.antt =====
-- The loops of lq_model.py over the slots: `alloc` finds a slot, and `advance_head` ends.
use frost.Prelude.{
  ℕ, zero, suc, ◌+◌, ◌-◌, ◌%◌, ◌<◌, ◌≡◌, ◌≢◌, refl, ap, sym, ◌∙◌, ◌⊎◌, inl, inr, Bool, true, false,
  not, ◌&&◌, some, List, [], ◌∷◌, arith, ◌==◌, sub_mod, get_or, set, length, count_if, Bool-cases,
  ==-path,
}
use frost.LoadQueue.{
  Entry, LoadQueue, Load, blank_entry, head_idx, entry_at, count, full, new_entry, alloc_ptr, alloc,
}
use frost.LoadQueue.Memory.{advance_loop, advance_head}

abbrev is_valid : Entry → Bool
is_valid e = e.valid

-- Some entry is invalid, or they all count.
invalid_or_all :
    (es : List Entry)
    → ((i : ℕ) × (i < length es) × ((get_or es i blank_entry).valid ≡ false))
      ⊎ (count_if is_valid es ≡ length es)
invalid_or_all [] = inr refl
invalid_or_all (e ∷ es) = elim (Bool-cases e.valid) [
  | inr h ↦ inl (0, omega arith, h)
  | inl h ↦ elim (invalid_or_all es) [
    | inl (i, lt, f) ↦ inl (suc i, omega arith, f)
    | inr c ↦ inr (rw h (ap suc c))
  ]
]

-- Some entry is valid, or none counts.
valid_or_none :
    (es : List Entry)
    → ((i : ℕ) × (i < length es) × ((get_or es i blank_entry).valid ≡ true))
      ⊎ (count_if is_valid es ≡ 0)
valid_or_none [] = inr refl
valid_or_none (e ∷ es) = elim (Bool-cases e.valid) [
  | inl h ↦ inl (0, omega arith, h)
  | inr h ↦ elim (valid_or_none es) [
    | inl (i, lt, f) ↦ inl (suc i, omega arith, f)
    | inr c ↦ inr (rw h c)
  ]
]

count-set :
    (es : List Entry) (i : ℕ) (e : Entry)
    → i < length es
    → (get_or es i blank_entry).valid ≡ false
    → e.valid ≡ true
    → count_if is_valid (set es i e) ≡ suc (count_if is_valid es)
count-set [] i e lt f h = elim lt [ ]
count-set (x ∷ es) zero e lt f h = rw (h, f) refl
count-set (x ∷ es) (suc i) e lt f h = ground (arith, count-set es i e (omega arith) f h)

-- The walk stops at an invalid slot if one is near enough.
alloc_ptr-invalid :
    (q : LoadQueue) (n k ptr : ℕ)
    → k < n
    → (entry_at q ((ptr + k) % 8)).valid ≡ false
    → (entry_at q (alloc_ptr q n ptr % 8)).valid ≡ false
unfolding alloc_ptr
alloc_ptr-invalid q zero k ptr lt h = elim lt [ ]
alloc_ptr-invalid q (suc n) zero ptr lt h =
    let z : ptr + 0 ≡ ptr = omega arith in
    let f : (entry_at q (ptr % 8)).valid ≡ false =
      ap (λ x. (entry_at q (x % 8)).valid) (sym z) ∙ h in
    rw f f
alloc_ptr-invalid q (suc n) (suc k) ptr lt h = elim (Bool-cases (entry_at q (ptr % 8)).valid) [
  | inr f ↦ rw f f
  | inl v ↦
      let z : ((ptr + 1) % 16 + k) % 8 ≡ (ptr + suc k) % 8 = omega arith in
      rw v (
        alloc_ptr-invalid q n k ((ptr + 1) % 16) (omega arith)
          (ap (λ x. (entry_at q x).valid) z ∙ h))
]

distance : (i ptr : ℕ) → i < 8 → (ptr + sub_mod 8 i ptr) % 8 ≡ i
distance i ptr lt = omega arith

-- A queue of eight slots refuses a load exactly when all are valid. Otherwise the load takes a slot
-- that was not valid, the tail moves right behind it, and one more slot is valid.
pub load_alloc_places :
    (q : LoadQueue) (l : Load)
    → length q.entries ≡ 8
    → ((full q ≡ true) × (alloc q l ≡ (false, q)))
      ⊎ ((i : ℕ) × (ptr : ℕ) × (i ≡ ptr % 8)
          × ((entry_at q i).valid ≡ false)
          × (alloc q l ≡ (
            true,
            record q { entries = set q.entries i (new_entry l); tail_ptr = (ptr + 1) % 16 },
          ))
          × (count (alloc q l).1 ≡ suc (count q)))
unfolding alloc new_entry
load_alloc_places q l sized = elim (Bool-cases (full q)) [
  | inl f ↦ inl (f, rw f refl)
  | inr f ↦ elim (invalid_or_all q.entries) [
    | inr c ↦ absurd (ground arith)
    | inl (i, lt, h) ↦
        let ptr = alloc_ptr q 8 q.tail_ptr in
        let d : (q.tail_ptr + sub_mod 8 i q.tail_ptr) % 8 ≡ i =
          distance i q.tail_ptr (omega (arith, sized)) in
        let v : (entry_at q (ptr % 8)).valid ≡ false =
          alloc_ptr-invalid q 8 (sub_mod 8 i q.tail_ptr) q.tail_ptr (omega arith)
            (ap (λ x. (entry_at q x).valid) d ∙ h) in
        inr (
          ptr % 8,
          ptr,
          refl,
          v,
          rw f refl,
          rw f (count-set q.entries (ptr % 8) (new_entry l) (omega (arith, sized)) v refl),
        )
  ]
]

-- What `advance_head` leaves: the same entries, and the head at a load if there is one.
pub record Advanced (q q' : LoadQueue) : Type 0 where
  pub same_entries : q'.entries ≡ q.entries
  pub same_tail : q'.tail_ptr ≡ q.tail_ptr
  pub settled : (count q ≡ 0) ⊎ ((entry_at q' (head_idx q')).valid ≡ true)

at_rest :
    (q : LoadQueue)
    → (not (count q == 0) && not (entry_at q (head_idx q)).valid) ≡ false
    → (count q ≡ 0) ⊎ ((entry_at q (head_idx q)).valid ≡ true)
at_rest q stop = elim (Bool-cases (count q == 0)) [
  | inl c ↦ inl (==-path (count q) 0 c)
  | inr c ↦ inr (ground arith)
]

not_here :
    (q : LoadQueue) (k : ℕ)
    → (entry_at q ((q.head_ptr + k) % 8)).valid ≡ true
    → (entry_at q (head_idx q)).valid ≡ false
    → k ≢ 0
not_here q k h gone z =
    let p : (q.head_ptr + k) % 8 ≡ q.head_ptr % 8 = omega arith in
    let v : (entry_at q (head_idx q)).valid ≡ true = ap (λ x. (entry_at q x).valid) (sym p) ∙ h in
    ground arith

stays :
    (q : LoadQueue)
    → count q ≡ 0
    → (not (count q == 0) && not (entry_at q (head_idx q)).valid) ≡ false
stays q c = rw c refl

advance-at :
    (fuel k : ℕ) (q : LoadQueue)
    → k < fuel
    → (entry_at q ((q.head_ptr + k) % 8)).valid ≡ true
    → (q' : LoadQueue) × (advance_loop fuel q ≡ some q') × Advanced q q'
unfolding advance_loop
advance-at zero k q lt h = elim lt [ ]
advance-at (suc fuel) k q lt h =
    elim (Bool-cases (not (count q == 0) && not (entry_at q (head_idx q)).valid)) [
      | inr stop ↦ (
        q,
        rw (stop, advance_loop),
        record { same_entries = refl; same_tail = refl; settled = at_rest q stop },
      )
      | inl go ↦
          let gone : (entry_at q (head_idx q)).valid ≡ false = ground arith in
          let pos : k ≢ 0 = not_here q k h gone in
          let z : (q.head_ptr + k) % 8 ≡ ((q.head_ptr + 1) % 16 + (k - 1)) % 8 = omega arith in
          let rest =
            advance-at fuel (k - 1) (record q { head_ptr = (q.head_ptr + 1) % 16 })
              (omega (arith, pos)) (ap (λ x. (entry_at q x).valid) (sym z) ∙ h) in
          (
            rest.0,
            rw (go, advance_loop) rest.1,
            record {
              same_entries = rest.2.same_entries;
              same_tail = rest.2.same_tail;
              settled = rest.2.settled;
            },
          )
    ]

-- Advancing the head of a queue of eight slots ends. It changes no entry and not the tail, and
-- leaves the head at a load if there is one.
pub load_advance_settles :
    (q : LoadQueue)
    → length q.entries ≡ 8
    → (q' : LoadQueue) × (advance_head q ≡ some q') × Advanced q q'
unfolding advance_head advance_loop
load_advance_settles q sized = elim (valid_or_none q.entries) [
  | inr c ↦ (
    q,
    rw (stays q c, advance_loop),
    record { same_entries = refl; same_tail = refl; settled = inl c },
  )
  | inl (i, lt, h) ↦
      advance-at 9 (sub_mod 8 i q.head_ptr) q (omega arith)
        (ap (λ x. (entry_at q x).valid) (distance i q.head_ptr (omega (arith, sized))) ∙ h)
]
