-- ===== src/Core/History.antt =====
-- Every sequence of calls on the core in which mispredictions are undone by a full flush, and
-- signals from outside that may change at any time.
use mathlib.Core.Option
use frost.Prelude.{
  ℕ, ◌≡◌, refl, ap, ◌∙◌, sym, Bool, List, [], map, Option, none, some, arith, ◌==◌, get_elem?, set,
  Option-cases, get_or-replicate, inl, inr, Bool-cases,
}
use frost.Rob.{Rob}
use frost.Rob as rob
use frost.Rob.Types.{AllocationRequest, BranchUpdate, CdbWrite, ExpectedCommit}
use frost.Rob.Inv as buffer
use frost.Rob.Refine.{contents, tag_at}
use frost.Rob.Clear.{flush_all_refines, reset_refines}
use frost.Rob.History.{Signals, drive}
use frost.Rat as table
use frost.Rat.Mapping.{mapping, init-IsValid}
use frost.Rat.Clear.{flush_all_clears}
use frost.Station as station
use frost.Station.Issue.{try_issue}
use frost.Core.{
  Core, Branching, init, reset, tick, flush_all, set_strict_alloc_timing, dispatch, try_commit,
  fu_complete, branch_update, rs_dispatch, rs_try_issue, rs_placed, rs_issued, rob_or, ok_or_none,
}
use frost.Core.Renaming.{dest_of, producer}
use frost.Core.InFlight.{
  IsRenamed, kept-IsRenamed, cdb_write-Keeps, branch_update-Keeps, ok_or_none-after,
}
use frost.Core.Dispatching.{dispatch-IsRenamed}
use frost.Core.Retiring.{try_commit-IsRenamed}

pub data Step (c : Core) : Core → Type 0 where
  dispatches :
      (req : AllocationRequest) (b : Branching) (tag : Option ℕ) (d : Core)
      → dispatch c req b ≡ some (tag, d)
      → Step c d
  commits : (x : Option ExpectedCommit) (d : Core) → try_commit c ≡ some (x, d) → Step c d
  completes : (w : CdbWrite) → Step c (fu_complete c w)
  resolves : (u : BranchUpdate) (d : Core) → branch_update c u ≡ some d → Step c d
  places :
      (rs_type : ℕ) (req : station.Request) (cdb : station.Bus)
      → Step c (rs_dispatch c rs_type req cdb).1
  issues : (rs_type : ℕ) (fu_ready : Bool) → Step c (rs_try_issue c rs_type fu_ready).1
  ticks : Step c (tick c)
  tightens : (enabled : Bool) → Step c (set_strict_alloc_timing c enabled)
  clears : Step c (flush_all c)
  resets : Step c (reset c)
  signals : (s : Signals) → Step c (record c { rob = drive c.rob s })

pub data Reach : Core → Type 0 where
  start : Reach init
  next : {c d : Core} → Reach c → Step c d → Reach d

unmapped : (f r : ℕ) → mapping table.init f r ≡ none
unmapped f r = elim (Bool-cases (f == 0)) [
  | inl z ↦ rw (z, get_or-replicate 32 r table.blank_entry) refl
  | inr z ↦ rw (z, get_or-replicate 32 r table.blank_entry) refl
]

-- With nothing in flight and nothing mapped, no register waits.
idle-IsRenamed :
    (c : Core)
    → buffer.IsValid c.rob
    → contents c.rob ≡ []
    → frost.Rat.Mapping.IsValid c.rat
    → ((f r : ℕ) → mapping c.rat f r ≡ none)
    → IsRenamed c
unfolding producer
idle-IsRenamed c v nothing w clear = record {
  queue = v;
  table = w;
  waits = λ f r.
      clear f r ∙ ap (λ q. Option.map (tag_at c.rob) (producer f r (map dest_of q))) (sym nothing);
}

init-IsRenamed : IsRenamed init
init-IsRenamed =
    idle-IsRenamed init buffer.init-IsValid (unfold rob.init in refl) init-IsValid unmapped

-- The stations have no part in renaming.
stations-IsRenamed :
    (c : Core) (ss : List station.Station) → IsRenamed c → IsRenamed (record c { stations = ss })
stations-IsRenamed c ss i = record { queue = i.queue; table = i.table; waits = i.waits }

placed-IsRenamed :
    (c : Core) (n : ℕ) (req : station.Request) (cdb : station.Bus) (s : Option station.Station)
    → IsRenamed c
    → IsRenamed (rs_placed c n req cdb s).1
placed-IsRenamed c n req cdb none i = i
placed-IsRenamed c n req cdb (some s) i =
    stations-IsRenamed c (set c.stations n (station.dispatch s req cdb).1) i

issued-IsRenamed :
    (c : Core) (n : ℕ) (fu_ready : Bool) (s : Option station.Station)
    → IsRenamed c
    → IsRenamed (rs_issued c n fu_ready s).1
issued-IsRenamed c n fu_ready none i = i
issued-IsRenamed c n fu_ready (some s) i =
    stations-IsRenamed c (set c.stations n (try_issue s fu_ready).1) i

resolved-IsRenamed :
    (c d : Core) (u : BranchUpdate) → branch_update c u ≡ some d → IsRenamed c → IsRenamed d
unfolding branch_update
resolved-IsRenamed c d u h i = elim (Option-cases (ok_or_none (rob.branch_update c.rob u))) [
  | inl n ↦ let e : none ≡ some d = (rw n at h) in absurd (cc e)
  | inr (r, n) ↦
      let e : some (record c { rob = r }) ≡ some d = (rw n at h) in
      let e' : record c { rob = r } ≡ d = ground (arith, e) in
      let kept = branch_update-Keeps c.rob i.queue u in
      let at = ok_or_none-after c.rob r (rob.branch_update c.rob u) n in
      rw (← e') (kept-IsRenamed c r i (rw at at kept))
]

Step-IsRenamed : {c d : Core} → Step c d → IsRenamed c → IsRenamed d
Step-IsRenamed {c = c} (dispatches req b tag d h) i = dispatch-IsRenamed c d req b tag i h
Step-IsRenamed {c = c} (commits x d h) i = try_commit-IsRenamed c d x i h
Step-IsRenamed {c = c} (completes w) i =
    unfold fu_complete in
    stations-IsRenamed _ _
      (kept-IsRenamed c (rob_or c.rob (rob.cdb_write c.rob w)) i (cdb_write-Keeps c.rob i.queue w))
Step-IsRenamed {c = c} (resolves u d h) i = resolved-IsRenamed c d u h i
Step-IsRenamed {c = c} (places rs_type req cdb) i =
    unfold rs_dispatch in placed-IsRenamed c rs_type req cdb (get_elem? c.stations rs_type) i
Step-IsRenamed {c = c} (issues rs_type fu_ready) i =
    unfold rs_try_issue in issued-IsRenamed c rs_type fu_ready (get_elem? c.stations rs_type) i
Step-IsRenamed {c = c} ticks i = unfold tick in stations-IsRenamed c _ i
Step-IsRenamed {c = c} (tightens enabled) i =
    unfold set_strict_alloc_timing in stations-IsRenamed c _ i
Step-IsRenamed {c = c} clears i =
    unfold flush_all in
    let (_, nothing, v) = flush_all_refines c.rob i.queue in
    let (clear, _, w) = flush_all_clears c.rat i.table in
    idle-IsRenamed (flush_all c) v nothing w clear
Step-IsRenamed {c = c} resets i =
    unfold reset in
    unfold table.reset in
    let (nothing, v) = reset_refines c.rob i.queue in
    idle-IsRenamed (reset c) v nothing init-IsValid unmapped
Step-IsRenamed {c = c} (signals s) i = record {
  queue = record { window = i.queue.window };
  table = i.table;
  waits = i.waits;
}

-- After any history, each register waits for the tag of its youngest producer in flight.
pub Reach-IsRenamed : {c : Core} → Reach c → IsRenamed c
Reach-IsRenamed start = init-IsRenamed
Reach-IsRenamed (next h st) = Step-IsRenamed st (Reach-IsRenamed h)
