-- ===== src/StoreQueue/Alloc.antt =====
-- Allocation at the tail.
use frost.Prelude.{
  ℕ, suc, ◌+◌, ◌-◌, ◌%◌, ◌<◌, ◌≡◌, refl, sym, ap, ◌∙◌, true, false, not, inl, inr, List, [], ◌∷◌,
  ◌++◌, arith, ◌==◌, if◌then◌else◌, Bool-cases, sub_mod, get_or, set, length, select, length-set,
  get_or-set, some, select-append,
}
use frost.Ring.Slots.{ring, ring-push}
use frost.Ring.Select.{select-window_cut}
use frost.StoreQueue.{
  StoreQueue, Entry, Store, blank_entry, tail_idx, full, new_entry, window_occupancy, alloc,
}
use frost.StoreQueue.Live.{is_valid, stores, inside, Window, IsValid, outside}

valid-new_entry : (s : Store) → (new_entry s).valid ≡ true
unfolding new_entry
valid-new_entry s = refl

inside-tail : (h t : ℕ) → h < 16 → t < 16 → sub_mod 16 t h < 8 → inside h t (t % 8) ≡ false
inside-tail h t hh ht lt = ground arith

inside-push :
    (h t i : ℕ)
    → h < 16
    → t < 16
    → i < 8
    → sub_mod 16 t h < 8
    → inside h ((t + 1) % 16) i ≡ (if t % 8 == i then true else inside h t i)
inside-push h t i hh ht hi lt = ground arith

behind_tail :
    (h t n j : ℕ)
    → h < 16
    → t < 16
    → n ≡ sub_mod 16 t h
    → n + j < 8
    → inside h t ((h + n + j) % 8) ≡ false
behind_tail h t n j hh ht e lt = ground arith

Window-push :
    {es : List Entry} {h t : ℕ} (e : Entry)
    → Window es h t
    → sub_mod 16 t h < 8
    → Window (set es (t % 8) e) h ((t + 1) % 16)
Window-push {es} {h} {t} e w lt = record {
  sized = length-set es (t % 8) e ∙ w.sized;
  head_in = w.head_in;
  tail_in = omega arith;
  room = omega (arith, w.head_in, w.tail_in);
  within = λ i hi v.
      rw (inside-push h t i w.head_in w.tail_in hi lt) (elim (Bool-cases (t % 8 == i)) [
        | inl eq ↦ rw eq
        | inr ne ↦
            let old : get_or (set es (t % 8) e) i blank_entry ≡ get_or es i blank_entry =
              rw (get_or-set es (t % 8) i e blank_entry (omega (arith, w.sized)), ne) in
            rw ne (w.within i hi (sym (ap is_valid old) ∙ v))
      ]);
}

module _ {es : List Entry} {h t : ℕ} (w : Window es h t) (lt : sub_mod 16 t h < 8) (e : Entry)
    (ve : e.valid ≡ true) where
  abbrev occ : ℕ
  occ = sub_mod 16 t h

  abbrev es' : List Entry
  es' = set es (t % 8) e

  in_range : t % 8 < length es
  in_range = omega (arith, w.sized)

  -- Only the slots up to the tail hold stores.
  before :
      select is_valid (ring blank_entry 8 es h 8) ≡ select is_valid (ring blank_entry 8 es h occ)
  before =
      select-window_cut is_valid 8 (λ i. get_or es i blank_entry) h occ (8 - occ) 8 (omega arith)
        (λ j lj.
          outside ((h + occ + j) % 8) w (omega arith)
            (behind_tail h t occ j w.head_in w.tail_in refl (omega arith)))

  after :
      select is_valid (ring blank_entry 8 es' h 8)
      ≡ select is_valid (ring blank_entry 8 es' h (suc occ))
  after =
      select-window_cut is_valid 8 (λ i. get_or es' i blank_entry) h (suc occ) (7 - occ) 8
        (omega arith)
        (λ j lj. outside ((h + suc occ + j) % 8) (Window-push e w lt) (omega arith) (
          behind_tail h ((t + 1) % 16) (suc occ) j w.head_in (omega arith)
            (omega (arith, w.head_in, w.tail_in)) (omega arith)))

  select-push :
      select is_valid (ring blank_entry 8 es' h 8)
      ≡ select is_valid (ring blank_entry 8 es h 8) ++ e ∷ []
  select-push =
      after
      ∙ ap (select is_valid) (
          ring-push blank_entry 8 es h occ (t % 8) e in_range lt
            (omega (arith, w.head_in, w.tail_in)))
      ∙ select-append is_valid (ring blank_entry 8 es h occ) (e ∷ [])
      ∙ rw (ve, before)

-- `alloc` never meets a valid entry at the tail. It refuses a store exactly when the window is
-- full; otherwise the store becomes the youngest, and the older ones stay as they are.
pub alloc_refines :
    (q : StoreQueue) (s : Store)
    → IsValid q
    → (q' : StoreQueue) × (alloc q s ≡ some (not (full q), q'))
      × (stores q' ≡ (if full q then stores q else stores q ++ new_entry s ∷ []))
      × IsValid q'
unfolding alloc
alloc_refines q s v = elim (Bool-cases (full q)) [
  | inl f ↦ (q, rw f, rw f, v)
  | inr f ↦
      let lt : window_occupancy q < 8 = ground arith in
      let free =
        outside (tail_idx q) v.window (omega arith)
          (inside-tail q.head_ptr q.tail_ptr v.head_in v.tail_in lt) in
      (
        pushed,
        rw (f, free),
        rw (f, select-push v.window lt (new_entry s) (valid-new_entry s)),
        record { window = Window-push (new_entry s) v.window lt },
      )
]
  where
    pushed : StoreQueue
    pushed = record q {
      entries = set q.entries (tail_idx q) (new_entry s);
      tail_ptr = (q.tail_ptr + 1) % 16;
    }
