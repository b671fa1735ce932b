-- ===== src/Core/Tests.antt =====
-- The core at a concrete input: a branch that is undone.
use frost.Prelude.{
  ℕ, ◌%◌, ◌≡◌, refl, some, map, take, select, arith, true, Option, none, bit, bit_xor,
}
use frost.Rob.{head_idx}
use frost.Rob.Refine.{contents}
use frost.Rob.Recovery.{kept}
use frost.Rob.Types.{AllocationRequest, ExpectedCommit}
use frost.Rob.Tests.{plain, two, two-IsValid, head_live}
use frost.Rat.Tests.{busy, busy-IsValid, branch, saved, saved-IsValid}
use frost.Rat.Mapping.{mapping}
use frost.Rat.Image.{image_at, keep}
use frost.Rat.Restore.{save_refines}
use frost.Station.Recovery.{waiting, survives}
use frost.Core.{
  Core, init, dispatch, try_commit, misprediction_recovery, no_window, Branching, rename_dest,
  save_branch, checkpoint_branch,
}
use frost.Rob as rob
use frost.Rat.{rename}
use frost.Rat.Checkpoint.{checkpoint_available, free_slot_from, checkpoint_save, stamped}
use frost.Core.Undo.{core_recovers}
use frost.Core.InFlight.{IsRenamed}
use frost.Core.Total.{has_room, next_tag, dispatch_returns}
use frost.Core.InFlight.{dests, dest_of_request}
use frost.Core.Renaming.{produces}
use frost.Core.Recoveries as recoveries
use frost.Rob.{entry_at}
use frost.Rob.Flush.{flush_partial, flush_loop}
use frost.Rat.Checkpoint.{checkpoint_restore}
use frost.Prelude.{if◌then◌else◌, ◌&&◌, [], ◌∷◌, ◌++◌}
use frost.Rob.{new_entry}
use frost.Rob.Commit.{can_commit, check_serial_stall, serial_stall, commit, retire, expected_commit}
use frost.Rat as rat
use frost.Rat.{clear_entry}
use frost.Core.History.{Reach, Reach-IsRenamed, start, next, dispatches, commits}

abbrev branching : Core
branching = record init { rob = two; rat = saved }

core_recovers_example :
    (c' : Core) × (misprediction_recovery branching 1 0 ≡ some c')
    × (contents c'.rob ≡ take (kept two 0) (contents two))
    × (map waiting c'.stations
        ≡ map (λ st. select (survives 0 (head_idx c'.rob)) (waiting st)) branching.stations)
    × ((g r : ℕ)
        → mapping c'.rat g r
          ≡ keep no_window (4 % 32) (bit_xor (bit 0 (4 % 32)) 1) (image_at busy branch g r))
core_recovers_example =
    core_recovers branching busy saved 1 0 branch two-IsValid (omega arith) head_live busy-IsValid
      saved-IsValid (omega arith) refl
      (save_refines busy 1 branch busy-IsValid (omega arith) refl).1 refl

-- x5 is written by two instructions, the first of them a branch, and the older one retires.
abbrev first : AllocationRequest
first = record plain { dest_valid = true; dest_reg = 5; is_fence = true; is_branch = true }

abbrev second : AllocationRequest
second = record plain { dest_valid = true; dest_reg = 5 }

abbrev with_checkpoint : Branching
with_checkpoint = record { checkpoint_save = true; ras_tos = 1; ras_valid_count = 1 }

-- The core that a call returns.
abbrev core_of {ℓ} : {A : Type ℓ} → Option (A × Core) → Core
core_of none = init
core_of (some (a, c)) = c

abbrev one : Core
one = core_of (dispatch init first with_checkpoint)

abbrev pair : Core
pair = core_of (dispatch one second with_checkpoint)

abbrev last : Core
last = core_of (try_commit pair)

one_returned : dispatch init first with_checkpoint ≡ some (some 0, one)
unfolding dispatch rob.allocate rob.full rob.new_entry rename_dest rename save_branch
    checkpoint_available free_slot_from checkpoint_branch checkpoint_save stamped rob.set_checkpoint
    rob.attach_checkpoint rob.init
one_returned = refl

pair_returned : dispatch one second with_checkpoint ≡ some (some 1, pair)
unfolding dispatch rob.allocate rob.full rob.new_entry rename_dest rename save_branch
    checkpoint_available free_slot_from checkpoint_branch checkpoint_save stamped rob.set_checkpoint
    rob.attach_checkpoint rob.init
pair_returned = refl

retired_as : Option (Option ExpectedCommit × Core) → Option ExpectedCommit
retired_as none = none
retired_as (some (x, c)) = x

pair_retires : try_commit pair ≡ some (retired_as (try_commit pair), last)
unfolding retired_as dispatch rob.allocate rob.full rob.new_entry rename_dest rename save_branch
    checkpoint_available free_slot_from checkpoint_branch checkpoint_save stamped rob.set_checkpoint
    rob.attach_checkpoint rob.init try_commit can_commit check_serial_stall serial_stall commit
    retire expected_commit rat.commit clear_entry
pair_retires = refl

last-Reach : Reach last
last-Reach =
    next
      (next (next start (dispatches first with_checkpoint (some 0) one one_returned))
        (dispatches second with_checkpoint (some 1) pair pair_returned))
      (commits (retired_as (try_commit pair)) last pair_retires)

Reach-IsRenamed_example : IsRenamed last
Reach-IsRenamed_example = Reach-IsRenamed last-Reach

-- The branch mispredicts, and the instruction behind it is dispatched again.
abbrev returned : Option Core → Core
returned none = init
returned (some c) = c

abbrev recovered : Core
recovered = returned (misprediction_recovery pair 0 0)

pair_recovers : misprediction_recovery pair 0 0 ≡ some recovered
unfolding dispatch rob.allocate rob.full rob.new_entry rename_dest rename save_branch
    checkpoint_available free_slot_from checkpoint_branch checkpoint_save stamped rob.set_checkpoint
    rob.attach_checkpoint rob.init misprediction_recovery flush_partial checkpoint_restore
    flush_loop
pair_recovers = refl

first_live : (entry_at pair.rob 0).valid ≡ true
unfolding dispatch rob.allocate rob.full rob.new_entry rename_dest rename save_branch
    checkpoint_available free_slot_from checkpoint_branch checkpoint_save stamped rob.set_checkpoint
    rob.attach_checkpoint rob.init
first_live = refl

recovered-Reach : recoveries.Reach recovered
recovered-Reach =
    recoveries.next
      (recoveries.next
        (recoveries.next recoveries.start
          (recoveries.calls one (dispatches first with_checkpoint (some 0) one one_returned)))
        (recoveries.calls pair (dispatches second with_checkpoint (some 1) pair pair_returned)))
      (recoveries.recovers 0 0 recovered (omega arith) (omega arith) first_live pair_recovers)

dispatch_returns_example :
    (c' : Core) × (dispatch recovered second with_checkpoint
      ≡ some ((if has_room recovered.rob then some (next_tag recovered.rob) else none), c'))
    × (dests c'.rob ≡ (
        if has_room recovered.rob
        then dests recovered.rob ++ dest_of_request second ∷ []
        else dests recovered.rob))
    × ((f r : ℕ)
        → mapping c'.rat f r ≡ (
            if has_room recovered.rob && produces f r (dest_of_request second)
            then some (next_tag recovered.rob)
            else mapping recovered.rat f r))
    × (c'.stations ≡ recovered.stations)
dispatch_returns_example =
    dispatch_returns recovered second with_checkpoint recovered-Reach (omega arith)
