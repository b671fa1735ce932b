-- ===== src/Cdb/Tests.antt =====
-- The bus at concrete inputs: units 0, 2 and 4 request it.
use frost.Prelude.{
  ℕ, ◌≡◌, refl, Bool, true, false, some, List, [], ◌∷◌, ◌++◌, get_or, get_elem?, length, take,
}
use frost.Cdb.{FuComplete, idle, priority_order, lane, arbitrate}
use frost.Cdb.Adapter.{
  Cycle, init, step, waiting, all_arriving, all_taken, run, all_obey, run-conserves,
}
use frost.Cdb.Arbitration.{requesting, is_in, arbitrate_chooses}

abbrev done : FuComplete
done = record idle { valid = true; tag = 9; value = 7 }

abbrev three : List FuComplete
three = done ∷ idle ∷ done ∷ idle ∷ done ∷ idle ∷ idle ∷ idle ∷ []

arbitrate_chooses_example :
    let order = requesting three priority_order in
    (grants : List Bool) × (arbitrate three
      ≡ some (lane three (get_elem? order 0), (lane three (get_elem? order 1), grants)))
    × (length grants ≡ 8)
    × ((i : ℕ) → get_or grants i false ≡ is_in i (take 2 order))
arbitrate_chooses_example = arbitrate_chooses three refl

-- The ALU and the divider are served, the adder is not.
two_served : take 2 (requesting three priority_order) ≡ 0 ∷ 2 ∷ []
two_served = refl

-- A result waits for a cycle, goes out as the next one arrives, and that one waits.
abbrev cycles : List Cycle
cycles =
    record { fu_result = done; granted = false; flush = false }
    ∷ record { fu_result = record done { tag = 10 }; granted = true; flush = false }
    ∷ []

run-conserves_example :
    waiting init ++ all_arriving cycles ≡ all_taken init cycles ++ waiting (run init cycles)
run-conserves_example = run-conserves init cycles refl obeyed
  where
    obeyed : all_obey init cycles ≡ true
    obeyed = unfold step in refl
