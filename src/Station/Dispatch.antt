-- ===== src/Station/Dispatch.antt =====
-- `dispatch` and `cdb_snoop`: which slot an instruction takes, and that it misses no broadcast.
use frost.Prelude.{
  ℕ, zero, suc, ◌+◌, ◌<◌, ◌≡◌, ◌≢◌, refl, ap, sym, ◌∙◌, Bool, true, false, not, ◌&&◌, ◌⊎◌, inl, inr,
  none, some, List, [], ◌∷◌, map, arith, if◌then◌else◌, get_or, set, take, length, any_of,
  Bool-cases, Option-cases,
}
use frost.Station.{
  Station, Entry, Source, Request, Bus, blank_entry, is_blocked, free_from, find_free, bypass, wake,
  new_entry, dispatch, snoop_entry, cdb_snoop,
}
use frost.Station.Issue.{consume_issue}

-- Which of the slots from `i` on may be taken.
abbrev pub available : List ℕ → ℕ → List Entry → List Bool
available blocked i [] = []
available blocked i (e ∷ es) =
    (not e.valid && not (is_blocked blocked i)) ∷ available blocked (i + 1) es

abbrev pub slots_free : Station → List Bool
slots_free s = available s.alloc_blocked 0 s.entries

abbrev pub itself : Bool → Bool
itself b = b

free_search :
    (blocked : List ℕ) (i : ℕ) (es : List Entry)
    → ((k : ℕ) × (free_from blocked i es ≡ some (i + k))
        × (k < length es)
        × ((get_or es k blank_entry).valid ≡ false)
        × (is_blocked blocked (i + k) ≡ false)
        × (any_of itself (take k (available blocked i es)) ≡ false))
      ⊎ ((free_from blocked i es ≡ none) × (any_of itself (available blocked i es) ≡ false))
unfolding free_from
free_search blocked i [] = inr (refl, refl)
free_search blocked i (e ∷ es) = elim (Bool-cases (not e.valid && not (is_blocked blocked i))) [
  | inl h ↦
      let z : i ≡ i + 0 = omega arith in
      let b : is_blocked blocked i ≡ false = ground arith in
      inl
        (0, rw h (ap some z), omega arith, ground arith, ap (is_blocked blocked) (sym z) ∙ b, refl)
  | inr h ↦ elim (free_search blocked (i + 1) es) [
    | inl (k, f, lt, v, b, u) ↦
        let z : i + 1 + k ≡ i + suc k = omega arith in
        inl (
          suc k,
          rw (h, f) (ap some z),
          omega arith,
          v,
          ap (is_blocked blocked) (sym z) ∙ b,
          rw h u,
        )
    | inr (f, u) ↦ inr (rw (h, f) refl, rw h u)
  ]
]

-- A dispatch takes the lowest slot that is neither valid nor blocked, puts the new entry there and
-- changes no other; if there is none it refuses and changes nothing.
pub dispatch_chooses :
    (s : Station) (r : Request) (cdb : Bus)
    → ((k : ℕ) × (dispatch s r cdb
          ≡ (some k, record s { entries = set s.entries k (new_entry r cdb) }))
        × (k < length s.entries)
        × ((get_or s.entries k blank_entry).valid ≡ false)
        × (is_blocked s.alloc_blocked k ≡ false)
        × (any_of itself (take k (slots_free s)) ≡ false))
      ⊎ ((dispatch s r cdb ≡ (none, s)) × (any_of itself (slots_free s) ≡ false))
unfolding dispatch
dispatch_chooses s r cdb = elim (free_search s.alloc_blocked 0 s.entries) [
  | inr (f, u) ↦ inr (rw f refl, u)
  | inl (k, f, lt, v, b, u) ↦
      let z : 0 + k ≡ k = omega arith in
      let g : find_free s ≡ some k = f ∙ ap some z in
      inl (k, rw g refl, lt, v, ap (is_blocked s.alloc_blocked) (sym z) ∙ b, u)
]

blocked_self : (bs : List ℕ) (k j : ℕ) → j ≡ k → is_blocked (k ∷ bs) j ≢ false
blocked_self bs k j q c = ground arith

-- With exact allocation timing, no dispatch of the same cycle takes the slot of an entry that has
-- just been issued.
pub strict-no_reuse :
    (s : Station) (k : ℕ) (r : Request) (cdb : Bus)
    → s.strict_alloc_timing ≡ true
    → (dispatch (consume_issue s k) r cdb).0 ≢ some k
unfolding consume_issue
strict-no_reuse s k r cdb strict e = elim (dispatch_chooses (consume_issue s k) r cdb) [
  | inr (f, u) ↦ let p : none ≡ some k = sym (ap (λ x. x.0) f) ∙ e in cc
  | inl (j, f, lt, v, b, u) ↦
      let p : some j ≡ some k = sym (ap (λ x. x.0) f) ∙ e in
      let q : j ≡ k = cc in
      let c : is_blocked (k ∷ s.alloc_blocked) j ≡ false =
        ap (λ t. is_blocked (if t then k ∷ s.alloc_blocked else s.alloc_blocked) j) (sym strict)
        ∙ b in
      blocked_self s.alloc_blocked k j q c
]

map-set :
    {A : Type 0} (g : A → A) (xs : List A) (i : ℕ) (a : A)
    → map g (set xs i a) ≡ set (map g xs) i (g a)
map-set g [] i a = refl
map-set g (x ∷ xs) zero a = refl
map-set g (x ∷ xs) (suc i) a = ap (◌∷◌ (g x)) (map-set g xs i a)

snoop-valid : (tag value : ℕ) (e : Entry) → (snoop_entry tag value e).valid ≡ e.valid
unfolding snoop_entry
snoop-valid tag value e = ground arith

free-snoop :
    (tag value : ℕ) (blocked : List ℕ) (i : ℕ) (es : List Entry)
    → free_from blocked i (map (snoop_entry tag value) es) ≡ free_from blocked i es
unfolding free_from
free-snoop tag value blocked i [] = refl
free-snoop tag value blocked i (e ∷ es) =
    rw (snoop-valid tag value e, free-snoop tag value blocked (i + 1) es) refl

-- A bus on which nothing is broadcast.
abbrev pub quiet : Bus
quiet = record { valid = false; tag = 0; value = 0 }

wake-bypass :
    (cdb : Bus) (src : Source)
    → cdb.valid ≡ true
    → wake cdb.tag cdb.value (bypass quiet src) ≡ bypass cdb src
unfolding wake bypass
wake-bypass cdb src h = ground arith

snoop-new_entry :
    (r : Request) (cdb : Bus)
    → cdb.valid ≡ true
    → snoop_entry cdb.tag cdb.value (new_entry r quiet) ≡ new_entry r cdb
unfolding snoop_entry
snoop-new_entry r cdb h =
    rw (wake-bypass cdb r.src1 h, wake-bypass cdb r.src2 h, wake-bypass cdb r.src3 h) refl

-- A dispatch with the broadcast of its cycle is a dispatch without it that the same broadcast then
-- reaches: the instruction takes the same slot, and no wake-up is missed.
pub snoop-dispatch :
    (s : Station) (r : Request) (cdb : Bus)
    → cdb.valid ≡ true
    → ((dispatch (cdb_snoop s cdb.tag cdb.value) r cdb).0 ≡ (dispatch s r quiet).0)
      × ((dispatch (cdb_snoop s cdb.tag cdb.value) r cdb).1
          ≡ cdb_snoop (dispatch s r quiet).1 cdb.tag cdb.value)
unfolding dispatch cdb_snoop
snoop-dispatch s r cdb h =
    let f = free-snoop cdb.tag cdb.value s.alloc_blocked 0 s.entries in
    elim (Option-cases (find_free s)) [
      | inl n ↦ (rw (f, n) refl, rw (f, n) refl)
      | inr (k, n) ↦ (
        rw (f, n) refl,
        rw (f, n) rw
            (
              map-set (snoop_entry cdb.tag cdb.value) s.entries k (new_entry r quiet),
              snoop-new_entry r cdb h,
            )
            refl,
      )
    ]
