-- ===== src/Station/Recovery.antt =====
-- rs_model.py: `flush_all`, `_should_flush_entry` and `partial_flush`.
use frost.Prelude.{
  ℕ, ◌≡◌, refl, Bool, true, false, not, ◌&&◌, List, [], ◌∷◌, map, arith, ltb, if◌then◌else◌,
  sub_mod, select,
}
use frost.Ring.Select.{select-map_drop}
use frost.Station.{Station, Entry}
use frost.Station.Issue.{release}

unfoldable pub flush_all : Station → Station
flush_all s = record s { entries = map release s.entries }

abbrev pub should_flush_entry : ℕ → ℕ → ℕ → Bool
should_flush_entry entry_tag flush_tag head =
    ltb (sub_mod 32 flush_tag head) (sub_mod 32 entry_tag head)

unfoldable pub flush_entry : ℕ → ℕ → Entry → Entry
flush_entry flush_tag head_tag e =
    if e.valid && should_flush_entry e.rob_tag flush_tag head_tag
    then record e { valid = false }
    else e

unfoldable pub partial_flush : Station → ℕ → ℕ → Station
partial_flush s flush_tag head_tag = record s {
  entries = map (flush_entry flush_tag head_tag) s.entries;
}

-- What waits in the station, by slot.
abbrev pub waiting : Station → List Entry
waiting s = select (λ (e : Entry). e.valid) s.entries

abbrev pub survives : ℕ → ℕ → Entry → Bool
survives flush_tag head_tag e = not (should_flush_entry e.rob_tag flush_tag head_tag)

empties : (es : List Entry) → select (λ (e : Entry). e.valid) (map release es) ≡ []
unfolding release
empties [] = refl
empties (e ∷ es) = empties es

-- A partial flush keeps exactly the instructions that are not younger than the flushed tag, as
-- they are and in their slots' order; a full flush keeps none.
pub flushes_keep :
    (s : Station) (flush_tag head_tag : ℕ)
    → (waiting (partial_flush s flush_tag head_tag)
        ≡ select (survives flush_tag head_tag) (waiting s))
      × (waiting (flush_all s) ≡ [])
unfolding partial_flush flush_all
flushes_keep s flush_tag head_tag = (
  select-map_drop (λ (e : Entry). e.valid) (flush_entry flush_tag head_tag)
      (survives flush_tag head_tag) s.entries (drops flush_tag head_tag) (same flush_tag head_tag),
  empties s.entries,
)
  where
    drops : (f h : ℕ) (e : Entry) → (flush_entry f h e).valid ≡ (e.valid && survives f h e)
    drops f h e = unfold flush_entry in ground arith

    same : (f h : ℕ) (e : Entry) → (flush_entry f h e).valid ≡ true → flush_entry f h e ≡ e
    same f h e v = unfold flush_entry in ground arith
