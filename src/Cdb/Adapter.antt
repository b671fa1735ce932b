-- ===== src/Cdb/Adapter.antt =====
-- The holding register between a functional unit and the bus, and that it loses no result.
use frost.Prelude.{
  ◌≡◌, ap, sym, ◌∙◌, Bool, true, false, not, ◌&&◌, ◌||◌, List, [], ◌∷◌, ◌++◌, append_assoc,
  append-nil, arith, if◌then◌else◌,
}
use frost.Cdb.{FuComplete, idle}

pub record Adapter : Type 0 where
  pub result_pending : Bool
  pub held_result : FuComplete

-- `FuCdbAdapterModel()`
abbrev pub init : Adapter
init = record { result_pending = false; held_result = idle }

-- `AdapterOutput`
pub record AdapterOutput : Type 0 where
  pub fu_complete : FuComplete
  pub result_pending : Bool

unfoldable pub reset : Adapter → Adapter
reset a = init

unfoldable pub get_output : Adapter → FuComplete → AdapterOutput
get_output a fu_result = record {
  fu_complete = (if a.result_pending then a.held_result else fu_result);
  result_pending = a.result_pending;
}

-- The inputs of one clock cycle.
pub record Cycle : Type 0 where
  pub fu_result : FuComplete
  pub granted : Bool
  pub flush : Bool

unfoldable pub step : Adapter → Cycle → Adapter
step a c =
    if c.flush
    then init
    else (if a.result_pending && c.granted
        then (if c.fu_result.valid
            then record { held_result = c.fu_result; result_pending = true }
            else record a { result_pending = false })
        else (if not a.result_pending && (c.fu_result.valid && not c.granted)
            then record { held_result = c.fu_result; result_pending = true }
            else a))

-- The results that wait, that arrive in a cycle, and that the bus takes in it.
abbrev pub waiting : Adapter → List FuComplete
waiting a = if a.result_pending then a.held_result ∷ [] else []

abbrev pub arriving : Cycle → List FuComplete
arriving c = if c.fu_result.valid then c.fu_result ∷ [] else []

abbrev pub taken : Adapter → Cycle → List FuComplete
taken a c =
    let out = (get_output a c.fu_result).fu_complete in
    if c.granted && out.valid then out ∷ [] else []

-- The unit presents no new result while one waits without a grant, and the pipeline does not flush.
abbrev pub obeys : Adapter → Cycle → Bool
obeys a c = not c.flush && not (a.result_pending && (c.fu_result.valid && not c.granted))

-- A result that waits is a valid one.
abbrev pub holds_valid : Adapter → Bool
holds_valid a = not a.result_pending || a.held_result.valid

step_holds : (a : Adapter) (c : Cycle) → holds_valid a ≡ true → holds_valid (step a c) ≡ true
unfolding step
step_holds a c v = ground arith

-- In a cycle that obeys the protocol, what waited and what arrived is what the bus takes and what
-- waits then, in that order.
step-conserves :
    (a : Adapter) (c : Cycle)
    → holds_valid a ≡ true
    → obeys a c ≡ true
    → waiting a ++ arriving c ≡ taken a c ++ waiting (step a c)
unfolding step get_output
step-conserves a c v h = ground arith

-- A run over several cycles.
unfoldable pub run : Adapter → List Cycle → Adapter
run a [] = a
run a (c ∷ cs) = run (step a c) cs

abbrev pub all_arriving : List Cycle → List FuComplete
all_arriving [] = []
all_arriving (c ∷ cs) = arriving c ++ all_arriving cs

abbrev pub all_taken : Adapter → List Cycle → List FuComplete
all_taken a [] = []
all_taken a (c ∷ cs) = taken a c ++ all_taken (step a c) cs

abbrev pub all_obey : Adapter → List Cycle → Bool
all_obey a [] = true
all_obey a (c ∷ cs) = obeys a c && all_obey (step a c) cs

both : (b c : Bool) → (b && c) ≡ true → (b ≡ true) × (c ≡ true)
both b c h = ground arith

-- Over any run that obeys the protocol no result is lost, doubled or reordered: what waited at the
-- start and what arrived is what the bus took and what waits at the end.
pub run-conserves :
    (a : Adapter) (cs : List Cycle)
    → holds_valid a ≡ true
    → all_obey a cs ≡ true
    → waiting a ++ all_arriving cs ≡ all_taken a cs ++ waiting (run a cs)
unfolding run
run-conserves a [] v h = append-nil (waiting a)
run-conserves a (c ∷ cs) v h =
    let (o, rest) = both (obeys a c) (all_obey (step a c) cs) h in
    sym (append_assoc (waiting a) (arriving c) (all_arriving cs))
    ∙ ap (λ xs. xs ++ all_arriving cs) (step-conserves a c v o)
    ∙ append_assoc (taken a c) (waiting (step a c)) (all_arriving cs)
    ∙ ap (◌++◌ (taken a c)) (run-conserves (step a c) cs (step_holds a c v) rest)
    ∙ sym (append_assoc (taken a c) (all_taken (step a c) cs) (waiting (run (step a c) cs)))
