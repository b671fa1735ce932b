-- ===== src/Core.antt =====
-- verif/cocotb_tests/tomasulo/tomasulo_wrapper/tomasulo_model.py: class TomasuloModel, the reorder
-- buffer, the alias table and six reservation stations as one. `none` is an exception of a part, or
-- that a loop ran out of fuel.
pub mod Undo
pub mod Renaming
pub mod History
pub mod InFlight
pub mod Consistent
pub mod Recoveries
pub mod Total
pub mod Dispatching
pub mod Retiring
mod Tests
use mathlib.Core.Option
use frost.Prelude.{
  ℕ, Bool, not, ◌&&◌, Option, none, some, List, [], ◌∷◌, map, if◌then◌else◌, get_or, get_elem?, set,
  ◌>>=◌,
}
use frost.Rob as rob
use frost.Rob.Types.{AllocationRequest, BranchUpdate, CdbWrite, ExpectedCommit, Result, ok, raised}
use frost.Rob.Commit as retiring
use frost.Rob.Flush as flush
use frost.Rat as rat
use frost.Rat.Checkpoint.{Window, Save, checkpoint_restore, checkpoint_save, checkpoint_available}
use frost.Station.Issue as issue
use frost.Station as station
use frost.Station.Recovery as recovery

pub record Core : Type 0 where
  pub rob : rob.Rob
  pub rat : rat.Rat
  pub stations : List station.Station

-- `TomasuloModel()`, with the stations in the order of RS_INT to RS_FDIV.
abbrev pub init : Core
init = record {
  rob = rob.init;
  rat = rat.init;
  stations = map station.init (16 ∷ 4 ∷ 8 ∷ 6 ∷ 4 ∷ 2 ∷ []);
}

unfoldable pub reset : Core → Core
reset c = record {
  rob = flush.reset c.rob;
  rat = rat.reset c.rat;
  stations = map station.reset c.stations;
}

unfoldable pub tick : Core → Core
tick c = record c { stations = map station.tick c.stations }

unfoldable pub flush_all : Core → Core
flush_all c = record {
  rob = (flush.flush_all c.rob).1;
  rat = rat.flush_all c.rat;
  stations = map recovery.flush_all c.stations;
}

unfoldable pub set_strict_alloc_timing : Core → Bool → Core
set_strict_alloc_timing c enabled = record c {
  stations = map {A = station.Station} (λ s. record s { strict_alloc_timing = enabled }) c.stations;
}

unfoldable pub rename_dest : rat.Rat → AllocationRequest → ℕ → Option rat.Rat
rename_dest m req tag = if req.dest_valid then rat.rename m req.dest_rf req.dest_reg tag else some m

abbrev pub ok_or_none : Result rob.Rob → Option rob.Rob
ok_or_none (ok r) = some r
ok_or_none (raised e) = none

-- The arguments of `dispatch` after the request.
pub record Branching : Type 0 where
  pub checkpoint_save : Bool
  pub ras_tos : ℕ
  pub ras_valid_count : ℕ

abbrev pub branch_save : Branching → ℕ → Save
branch_save b tag = record {
  branch_tag = tag;
  ras_tos = b.ras_tos;
  ras_valid_count = b.ras_valid_count;
  overlay = none;
  rob_entry_epoch = 0;
}

-- The free slot `id` takes the table, and the branch's entry notes the slot.
unfoldable pub checkpoint_branch : Core → Branching → ℕ → ℕ → Option Core
checkpoint_branch c b tag id = do
  m ← checkpoint_save c.rat id (branch_save b tag)
  r ← ok_or_none (rob.set_checkpoint c.rob tag id)
  some (record c { rob = r; rat = m })

-- Without a free slot the branch goes on without a checkpoint.
unfoldable pub save_branch : Core → Branching → ℕ → Option Core
save_branch c b tag =
    if b.checkpoint_save && (checkpoint_available c.rat).0
    then checkpoint_branch c b tag (checkpoint_available c.rat).1
    else some c

abbrev pub dispatched :
    Core → AllocationRequest → Branching → Option ℕ × rob.Rob → Option (Option ℕ × Core)
dispatched c req b (none, r) = some (none, record c { rob = r })
dispatched c req b (some tag, r) = do
  m ← rename_dest c.rat req tag
  c' ← save_branch (record c { rob = r; rat = m }) b tag
  some (some tag, c')

unfoldable pub dispatch : Core → AllocationRequest → Branching → Option (Option ℕ × Core)
dispatch c req b = dispatched c req b (rob.allocate c.rob req)

-- The dictionary that `try_commit` returns is a part of the `ExpectedCommit`.
abbrev pub committed :
    Core → Result ExpectedCommit × rob.Rob → Option (Option ExpectedCommit × Core)
committed c (raised e, r) = none
committed c (ok x, r) =
    if x.valid && x.dest_valid
    then Option.map (λ m. (some x, record c { rob = r; rat = m }))
        (rat.commit c.rat x.dest_rf x.dest_reg x.tag)
    else some (some x, record c { rob = r })

unfoldable pub try_commit : Core → Option (Option ExpectedCommit × Core)
try_commit c =
    let (may, r) = retiring.can_commit c.rob in
    if not may then some (none, record c { rob = r }) else committed c (retiring.commit r)

-- A write to an entry that is not in flight is ignored.
abbrev pub rob_or : rob.Rob → Result rob.Rob → rob.Rob
rob_or r (ok r') = r'
rob_or r (raised e) = r

unfoldable pub fu_complete : Core → CdbWrite → Core
fu_complete c w = record c {
  rob = rob_or c.rob (rob.cdb_write c.rob w);
  stations = map (λ s. station.cdb_snoop s w.tag w.value) c.stations;
}

-- The restore is given none of the buffer's state.
abbrev pub no_window : Window
no_window = record { rob_entry_valid = none; rob_entry_epoch = 0; rob_head_tag = 0 }

unfoldable pub misprediction_recovery : Core → ℕ → ℕ → Option Core
misprediction_recovery c checkpoint_id flush_tag = do
  p ← flush.flush_partial c.rob flush_tag
  q ← checkpoint_restore c.rat checkpoint_id no_window
  some (record {
    rob = p.1;
    rat = q.0;
    stations = map (λ s. recovery.partial_flush s flush_tag (rob.head_idx p.1)) c.stations;
  })

-- `branch_update` passes the exception of the buffer on.
unfoldable pub branch_update : Core → BranchUpdate → Option Core
branch_update c u = do r ← ok_or_none (rob.branch_update c.rob u); some (record c { rob = r })

abbrev pub rs_placed :
    Core → ℕ → station.Request → station.Bus → Option station.Station → Option ℕ × Core
rs_placed c rs_type req cdb none = (none, c)
rs_placed c rs_type req cdb (some s) =
    let (i, s') = station.dispatch s req cdb in
    (i, record c { stations = set c.stations rs_type s' })

-- A type that no station has, such as RS_NONE, is refused.
unfoldable pub rs_dispatch : Core → ℕ → station.Request → station.Bus → Option ℕ × Core
rs_dispatch c rs_type req cdb = rs_placed c rs_type req cdb (get_elem? c.stations rs_type)

abbrev pub rs_issued : Core → ℕ → Bool → Option station.Station → Option issue.IssueInfo × Core
rs_issued c rs_type fu_ready none = (none, c)
rs_issued c rs_type fu_ready (some s) =
    let (x, s') = issue.try_issue s fu_ready in
    (x, record c { stations = set c.stations rs_type s' })

unfoldable pub rs_try_issue : Core → ℕ → Bool → Option issue.IssueInfo × Core
rs_try_issue c rs_type fu_ready = rs_issued c rs_type fu_ready (get_elem? c.stations rs_type)
