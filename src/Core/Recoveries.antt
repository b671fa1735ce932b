-- ===== src/Core/Recoveries.antt =====
-- Every sequence of calls on the core, misprediction recoveries included.
use frost.Prelude.{
  ℕ, ◌<◌, ◌≡◌, Bool, true, map, Option, none, some, arith, Option-cases, inl, inr, ◌&&◌, get_elem?,
  Bool-cases,
}
use frost.Rob.{Rob, entry_at, head_idx}
use frost.Rob as rob
use frost.Rob.Types.{ExpectedCommit, BranchUpdate, Result, ok, raised}
use frost.Rob.Inv as buffer
use frost.Rob.Commit.{can_commit, commit}
use frost.Rob.Refine.{can_commit-frame, commit-IsValid}
use frost.Rob.Clear.{flush_all_refines, reset_refines}
use frost.Rob.Recovery.{flush_partial_refines}
use frost.Rat as rat
use frost.Rat.{Rat}
use frost.Rat.Mapping as table
use frost.Rat.Checkpoint.{checkpoint_restore}
use frost.Rat.Clear.{flush_all_clears}
use frost.Rat.Restore.{restore-IsValid}
use frost.Station as station
use frost.Station.{Station}
use frost.Rat.Mapping.{init-IsValid}
use frost.Core.Renaming.{Dest}
use frost.Station.Recovery.{partial_flush}
use frost.Core.{
  Core, init, reset, tick, flush_all, set_strict_alloc_timing, try_commit, fu_complete,
  branch_update, rs_dispatch, rs_try_issue, committed, ok_or_none, misprediction_recovery,
  no_window, rs_placed, rs_issued,
}
use frost.Core.InFlight.{returns, Keeps, cdb_write-Keeps, branch_update-Keeps, ok_or_none-after}
use frost.Core.Retiring.{commit_dest-mapping}
use frost.Core.History as history
use frost.Core.Consistent.{IsConsistent, dispatch-IsConsistent}

-- A recovery is given the tag of an entry in flight and the number of a checkpoint.
pub data Step (c : Core) : Core → Type 0 where
  calls : (d : Core) → history.Step c d → Step c d
  recovers :
      (id f : ℕ) (d : Core)
      → id < 8
      → f < 32
      → (entry_at c.rob f).valid ≡ true
      → misprediction_recovery c id f ≡ some d
      → Step c d

pub data Reach : Core → Type 0 where
  start : Reach init
  next : {c d : Core} → Reach c → Step c d → Reach d

recovered-IsConsistent :
    (c d : Core) (id f : ℕ)
    → IsConsistent c
    → id < 8
    → f < 32
    → (entry_at c.rob f).valid ≡ true
    → misprediction_recovery c id f ≡ some d
    → IsConsistent d
unfolding misprediction_recovery
recovered-IsConsistent c d id f i lt small live h =
    let (n, r, er, _, _, v) = flush_partial_refines c.rob f i.queue small live in
    elim (Option-cases (checkpoint_restore c.rat id no_window)) [
      | inl never ↦ let e : none ≡ some d = (rw (er, never) at h) in absurd (cc e)
      | inr (p, restores) ↦
          let m : Core = record {
            rob = r;
            rat = p.0;
            stations = map (λ (s : Station). partial_flush s f (head_idx r)) c.stations;
          } in
          let e : some m ≡ some d = (rw (er, restores) at h) in
          let e' : m ≡ d = ground (arith, e) in
          let w = restore-IsValid c.rat id no_window p.0 p.1 i.table lt restores in
          rw (← e') (record { queue = v; table = w })
    ]

-- What a commit of the buffer brings into the core.
committed-IsConsistent :
    (c c' : Core) (p : Result ExpectedCommit × Rob) (x : Option ExpectedCommit)
    → table.IsValid c.rat
    → buffer.IsValid p.1
    → committed c p ≡ some (x, c')
    → IsConsistent c'
committed-IsConsistent c c' (raised e, r) x w v h = absurd (cc h)
committed-IsConsistent c c' (ok y, r) x w v h = elim (Bool-cases (y.valid && y.dest_valid)) [
  | inr n ↦
      let e : returns (some y) (record c { rob = r }) ≡ returns x c' = (rw n at h) in
      let e' : record c { rob = r } ≡ c' = ground (arith, e) in
      rw (← e') (record { queue = v; table = w })
  | inl t ↦ elim (Option-cases (rat.commit c.rat y.dest_rf y.dest_reg y.tag)) [
    | inl n ↦ let e : none ≡ returns x c' = (rw (t, n) at h) in absurd (cc e)
    | inr (m, n) ↦
        let e : returns (some y) (record c { rob = r; rat = m }) ≡ returns x c' =
          (rw (t, n) at h) in
        let e' : record c { rob = r; rat = m } ≡ c' = ground (arith, e) in
        let d : Dest = record { dest_valid = true; dest_rf = y.dest_rf; dest_reg = y.dest_reg } in
        rw (← e') (record { queue = v; table = (commit_dest-mapping c.rat m d y.tag w n).0 })
  ]
]

try_commit-IsConsistent :
    (c c' : Core) (x : Option ExpectedCommit)
    → IsConsistent c
    → try_commit c ≡ some (x, c')
    → IsConsistent c'
unfolding try_commit
try_commit-IsConsistent c c' x i h =
    let r : Rob = (can_commit c.rob).1 in
    let v : buffer.IsValid r = rw (can_commit-frame c.rob) (record { window = i.queue.window }) in
    elim (Bool-cases (can_commit c.rob).0) [
      | inr n ↦
          let e : returns none (record c { rob = r }) ≡ returns x c' = (rw n at h) in
          let e' : record c { rob = r } ≡ c' = ground (arith, e) in
          rw (← e') (record { queue = v; table = i.table })
      | inl may ↦
          let e : committed c (commit r) ≡ returns x c' = (rw may at h) in
          committed-IsConsistent c c' (commit r) x i.table (commit-IsValid r v) e
    ]

-- The other calls.
placed-IsConsistent :
    (c : Core) (n : ℕ) (req : station.Request) (cdb : station.Bus) (s : Option Station)
    → IsConsistent c
    → IsConsistent (rs_placed c n req cdb s).1
placed-IsConsistent c n req cdb none i = i
placed-IsConsistent c n req cdb (some s) i = record { queue = i.queue; table = i.table }

issued-IsConsistent :
    (c : Core) (n : ℕ) (fu_ready : Bool) (s : Option Station)
    → IsConsistent c
    → IsConsistent (rs_issued c n fu_ready s).1
issued-IsConsistent c n fu_ready none i = i
issued-IsConsistent c n fu_ready (some s) i = record { queue = i.queue; table = i.table }

resolved-IsConsistent :
    (c d : Core) (u : BranchUpdate) → branch_update c u ≡ some d → IsConsistent c → IsConsistent d
unfolding branch_update
resolved-IsConsistent c d u h i = elim (Option-cases (ok_or_none (rob.branch_update c.rob u))) [
  | inl n ↦ let e : none ≡ some d = (rw n at h) in absurd (cc e)
  | inr (r, n) ↦
      let e : some (record c { rob = r }) ≡ some d = (rw n at h) in
      let e' : record c { rob = r } ≡ d = ground (arith, e) in
      let kept = branch_update-Keeps c.rob i.queue u in
      let at = ok_or_none-after c.rob r (rob.branch_update c.rob u) n in
      let same : Keeps c.rob r = (rw at at kept) in
      rw (← e') (record { queue = same.still_valid; table = i.table })
]

call-IsConsistent : {c d : Core} → history.Step c d → IsConsistent c → IsConsistent d
call-IsConsistent {c = c} (history.dispatches req b tag d h) i =
    dispatch-IsConsistent c d req b tag i h
call-IsConsistent {c = c} (history.commits x d h) i = try_commit-IsConsistent c d x i h
call-IsConsistent {c = c} (history.completes w) i =
    unfold fu_complete in
    record { queue = (cdb_write-Keeps c.rob i.queue w).still_valid; table = i.table }
call-IsConsistent {c = c} (history.resolves u d h) i = resolved-IsConsistent c d u h i
call-IsConsistent {c = c} (history.places rs_type req cdb) i =
    unfold rs_dispatch in placed-IsConsistent c rs_type req cdb (get_elem? c.stations rs_type) i
call-IsConsistent {c = c} (history.issues rs_type fu_ready) i =
    unfold rs_try_issue in issued-IsConsistent c rs_type fu_ready (get_elem? c.stations rs_type) i
call-IsConsistent {c = c} history.ticks i =
    unfold tick in record { queue = i.queue; table = i.table }
call-IsConsistent {c = c} (history.tightens enabled) i =
    unfold set_strict_alloc_timing in record { queue = i.queue; table = i.table }
call-IsConsistent {c = c} history.clears i =
    unfold flush_all in
    record {
      queue = (flush_all_refines c.rob i.queue).2;
      table = (flush_all_clears c.rat i.table).2;
    }
call-IsConsistent {c = c} history.resets i =
    unfold reset in
    unfold rat.reset in record { queue = (reset_refines c.rob i.queue).1; table = init-IsValid }
call-IsConsistent {c = c} (history.signals s) i = record {
  queue = record { window = i.queue.window };
  table = i.table;
}

-- After any history the buffer and the table are each well formed.
pub Reach-IsConsistent : {c : Core} → Reach c → IsConsistent c
Reach-IsConsistent start = record { queue = buffer.init-IsValid; table = init-IsValid }
Reach-IsConsistent (next {c = c} h (calls d st)) = call-IsConsistent st (Reach-IsConsistent h)
Reach-IsConsistent (next {c = c} h (recovers id f d lt small live e)) =
    recovered-IsConsistent c d id f (Reach-IsConsistent h) lt small live e
