-- ===== src/StoreQueue/Live.antt =====
-- The stores that the queue holds, oldest first, and its representation invariant: every valid
-- slot lies between head and tail, which are at most eight apart.
use frost.Prelude.{
  ℕ, ◌%◌, ◌≤◌, ◌<◌, ◌≡◌, refl, sym, ap, ◌∙◌, Bool, true, false, inl, inr, List, map, arith, ltb,
  Bool-cases, sub_mod, get_or, length, select, length-map, get_or-map_lt, get_or-replicate,
}
use frost.Ring.Slots.{ring}
use frost.StoreQueue.{StoreQueue, Entry, blank_entry, init}

abbrev pub is_valid : Entry → Bool
is_valid e = e.valid

-- The valid entries in the order of the ring, from the head on.
abbrev pub stores : StoreQueue → List Entry
stores q = select is_valid (ring blank_entry 8 q.entries q.head_ptr 8)

-- Whether slot `i` lies in the window from `h` to `t`.
abbrev pub inside : ℕ → ℕ → ℕ → Bool
inside h t i = ltb (sub_mod 8 i (h % 8)) (sub_mod 16 t h)

pub record Window (es : List Entry) (h t : ℕ) : Type 0 where
  pub sized : length es ≡ 8
  pub head_in : h < 16
  pub tail_in : t < 16
  pub room : sub_mod 16 t h ≤ 8
  pub within : (i : ℕ) → i < 8 → (get_or es i blank_entry).valid ≡ true → inside h t i ≡ true

pub record IsValid (q : StoreQueue) : Type 0 where
  pub window : Window q.entries q.head_ptr q.tail_ptr
  pub open window use *

pub init-IsValid : IsValid init
init-IsValid = record {
  window = record {
    sized = refl;
    head_in = omega arith;
    tail_in = omega arith;
    room = omega arith;
    within = λ i h v. absurd (cc (v, ap is_valid (get_or-replicate 8 i blank_entry)));
  };
}

-- A slot outside the window is not valid.
pub outside :
    {es : List Entry} {h t : ℕ} (i : ℕ)
    → Window es h t
    → i < 8
    → inside h t i ≡ false
    → (get_or es i blank_entry).valid ≡ false
outside {es} {h} {t} i w lt out = elim (Bool-cases (get_or es i blank_entry).valid) [
  | inl v ↦ absurd (cc (out, w.within i lt v))
  | inr v ↦ v
]

-- Changes that make no slot valid keep the invariant.
pub Window-map :
    (g : Entry → Entry) {es : List Entry} {h t : ℕ}
    → Window es h t
    → ((e : Entry) → (g e).valid ≡ true → e.valid ≡ true)
    → Window (map g es) h t
Window-map g {es} {h} {t} w mono = record {
  sized = length-map g es ∙ w.sized;
  head_in = w.head_in;
  tail_in = w.tail_in;
  room = w.room;
  within = λ i hi v. w.within i hi (
      mono (get_or es i blank_entry) (
        sym (ap is_valid (get_or-map_lt g es i blank_entry blank_entry (omega (arith, w.sized))))
        ∙ v));
}
