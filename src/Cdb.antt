-- ===== src/Cdb.antt =====
-- The common data bus: verif/cocotb_tests/tomasulo/cdb_arbiter/cdb_arbiter_model.py (`arbitrate`,
-- `_broadcast_from`) and fu_cdb_adapter/fu_cdb_adapter_model.py (class FuCdbAdapterModel, in
-- Cdb.Adapter).
pub mod Adapter
pub mod Arbitration
mod Tests
use frost.Prelude.{
  ℕ, ◌%◌, Bool, true, false, not, ◌&&◌, Option, none, some, List, [], ◌∷◌, ◌==◌, if◌then◌else◌,
  mask64, get_or, set, length, replicate,
}

-- `FuComplete`
pub record FuComplete : Type 0 where
  pub valid : Bool
  pub tag : ℕ
  pub value : ℕ
  pub exception : Bool
  pub exc_cause : ℕ
  pub fp_flags : ℕ

-- `FuComplete()`
abbrev pub idle : FuComplete
idle = record { valid = false; tag = 0; value = 0; exception = false; exc_cause = 0; fp_flags = 0 }

-- `CdbBroadcast`
pub record CdbBroadcast : Type 0 where
  pub valid : Bool
  pub tag : ℕ
  pub value : ℕ
  pub exception : Bool
  pub exc_cause : ℕ
  pub fp_flags : ℕ
  pub fu_type : ℕ

-- `CdbBroadcast()`
abbrev pub silent : CdbBroadcast
silent = record {
  valid = false;
  tag = 0;
  value = 0;
  exception = false;
  exc_cause = 0;
  fp_flags = 0;
  fu_type = 0;
}

-- `PRIORITY_ORDER`: MUL, MEM, ALU, ALU2, DIV, FP_DIV, FP_MUL, FP_ADD.
abbrev pub priority_order : List ℕ
priority_order = 1 ∷ 3 ∷ 0 ∷ 7 ∷ 2 ∷ 6 ∷ 5 ∷ 4 ∷ []

unfoldable pub broadcast_from : FuComplete → ℕ → CdbBroadcast
broadcast_from req fu_idx = record {
  valid = true;
  tag = req.tag % 32;
  value = mask64 req.value;
  exception = req.exception;
  exc_cause = req.exc_cause % 32;
  fp_flags = req.fp_flags % 32;
  fu_type = fu_idx;
}

abbrev pub request : List FuComplete → ℕ → FuComplete
request reqs i = get_or reqs i idle

-- `fu_idx != lane0_idx`
abbrev pub differs : Option ℕ → ℕ → Bool
differs none i = true
differs (some w) i = not (i == w)

-- The loops over the priority order: the first unit that requests the bus and is not the winner
-- of lane 0, if there is one.
unfoldable pub first_valid : List FuComplete → Option ℕ → List ℕ → Option ℕ
first_valid reqs lane0_idx [] = none
first_valid reqs lane0_idx (i ∷ order) =
    let rest = first_valid reqs lane0_idx order in
    if differs lane0_idx i && (request reqs i).valid then some i else rest

abbrev pub lane : List FuComplete → Option ℕ → CdbBroadcast
lane reqs none = silent
lane reqs (some i) = broadcast_from (request reqs i) i

abbrev pub grant : List Bool → Option ℕ → List Bool
grant grants none = grants
grant grants (some i) = set grants i true

-- `none` is the AssertionError on the number of requests.
unfoldable pub arbitrate : List FuComplete → Option (CdbBroadcast × (CdbBroadcast × List Bool))
arbitrate fu_completes =
    let winner = first_valid fu_completes none priority_order in
    let second = first_valid fu_completes winner priority_order in
    if length fu_completes == 8
    then some (
      lane fu_completes winner,
      (lane fu_completes second, grant (grant (replicate 8 false) winner) second),
    )
    else none
