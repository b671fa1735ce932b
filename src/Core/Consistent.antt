-- ===== src/Core/Consistent.antt =====
-- The buffer and the table, each well formed, and the parts of a dispatch: an entry, a rename and, for
-- a branch that asks for it, a checkpoint.
use frost.Prelude.{
  ℕ, ◌<◌, ◌≡◌, refl, inl, inr, some, none, Option, arith, length, Bool-cases, Option-cases, lt→ltb,
}
use frost.Rob as rob
use frost.Rob.{Rob, full, tail_idx}
use frost.Rob.Types.{AllocationRequest}
use frost.Rob.Inv as buffer
use frost.Rat.{Rat}
use frost.Rat.Mapping as table
use frost.Rat.Mapping.{mapping}
use frost.Rat.Rename.{rename-mapping}
use frost.Rat.Restore.{save_refines}
use frost.Rat.Slots.{available_refines}
use frost.Core.{
  Core, Branching, ok_or_none, branch_save, rename_dest, checkpoint_branch, save_branch, dispatch,
}
use frost.Core.InFlight.{dests, returns, Keeps, set_checkpoint-Keeps, ok_or_none-after}
use frost.Core.Dispatching.{allocated-tag, refused-Keeps, rename_dest-mapping}

pub record IsConsistent (c : Core) : Type 0 where
  pub queue : buffer.IsValid c.rob
  pub table : table.IsValid c.rat

pub rename_dest_total :
    (m : Rat) (req : AllocationRequest) (tag : ℕ)
    → table.IsValid m
    → req.dest_reg < 32
    → (m' : Rat) × (rename_dest m req tag ≡ some m')
unfolding rename_dest
rename_dest_total m req tag v lt = elim (Bool-cases req.dest_valid) [
  | inr n ↦ (m, rw n refl)
  | inl d ↦ let (m', e, _) = rename-mapping m req.dest_rf req.dest_reg tag v lt in (m', rw d e)
]

set_checkpoint_total :
    (r : Rob) (tag id : ℕ)
    → tag < length r.entries
    → (r' : Rob) × (ok_or_none (rob.set_checkpoint r tag id) ≡ some r')
unfolding rob.set_checkpoint
set_checkpoint_total r tag id lt =
    rw (lt→ltb tag (length r.entries) lt) (elim (Bool-cases (rob.entry_at r tag).valid) [
      | inl a ↦ rw a (_, refl)
      | inr a ↦ rw a (r, refl)
    ])

-- A checkpoint changes neither what is in flight nor the map.
pub record Checkpoints (c c' : Core) : Type 0 where
  pub consistent : IsConsistent c'
  pub same_dests : dests c'.rob ≡ dests c.rob
  pub same_map : (f r : ℕ) → mapping c'.rat f r ≡ mapping c.rat f r
  pub same_stations : c'.stations ≡ c.stations

pub save_branch_total :
    (c : Core) (b : Branching) (tag : ℕ)
    → IsConsistent c
    → tag < length c.rob.entries
    → (c' : Core) × (save_branch c b tag ≡ some c') × Checkpoints c c'
unfolding save_branch checkpoint_branch
save_branch_total c b tag i lt = elim (Bool-cases b.checkpoint_save) [
  | inr n ↦ (c, rw n refl, alone)
  | inl s ↦ elim (available_refines c.rat i.table) [
    | inr (a, _) ↦ (c, rw (s, a) refl, alone)
    | inl (id, a, small, _, _) ↦
        let (m, saves, same, _, w) = save_refines c.rat id (branch_save b tag) i.table small refl in
        let (r, marks) = set_checkpoint_total c.rob tag id lt in
        let marked = set_checkpoint-Keeps c.rob i.queue tag id in
        let at = ok_or_none-after c.rob r (rob.set_checkpoint c.rob tag id) marks in
        let kept : Keeps c.rob r = (rw at at marked) in
        (
          record c { rob = r; rat = m },
          rw (s, a, saves, marks) refl,
          record {
            consistent = record { queue = kept.still_valid; table = w };
            same_dests = kept.same_dests;
            same_map = same;
            same_stations = refl;
          },
        )
  ]
]
  where
    alone : Checkpoints c c
    alone = record {
      consistent = i;
      same_dests = refl;
      same_map = λ f r. refl;
      same_stations = refl;
    }

-- The core after the allocation and the rename.
abbrev pub renamed : Core → AllocationRequest → Rat → Core
renamed c req m = record c { rob = (rob.allocate c.rob req).1; rat = m }

pub after_rename :
    (c : Core) (req : AllocationRequest) (b : Branching) (m : Rat)
    → IsConsistent c
    → rename_dest c.rat req (tail_idx c.rob) ≡ some m
    → (s : Core) × (save_branch (renamed c req m) b (tail_idx c.rob) ≡ some s)
      × Checkpoints (renamed c req m) s
after_rename c req b m i n =
    let v = buffer.allocate-IsValid c.rob req i.queue in
    save_branch_total (renamed c req m) b (tail_idx c.rob)
      (record { queue = v; table = (rename_dest-mapping c.rat m req (tail_idx c.rob) i.table n).0 })
      (omega (arith, v.sized))

-- Whatever the number of the destination is, a dispatch that returns leaves the parts consistent.
pub dispatch-IsConsistent :
    (c c' : Core) (req : AllocationRequest) (b : Branching) (t : Option ℕ)
    → IsConsistent c
    → dispatch c req b ≡ some (t, c')
    → IsConsistent c'
unfolding dispatch
dispatch-IsConsistent c c' req b t i h = elim (Bool-cases (full c.rob)) [
  | inl f ↦
      let (n, k) = refused-Keeps c.rob req i.queue f in
      let r : Rob = (rob.allocate c.rob req).1 in
      let e : returns none (record c { rob = r }) ≡ returns t c' = (rw n at h) in
      let e' : record c { rob = r } ≡ c' = ground (arith, e) in
      rw (← e') (record { queue = k.still_valid; table = i.table })
  | inr f ↦ elim (Option-cases (rename_dest c.rat req (tail_idx c.rob))) [
    | inl n ↦
        let e : none ≡ returns t c' = (rw (allocated-tag c.rob req f, n) at h) in absurd (cc e)
    | inr (m, n) ↦
        let (s, saved, marks) = after_rename c req b m i n in
        let e : returns (some (tail_idx c.rob)) s ≡ returns t c' =
          (rw (allocated-tag c.rob req f, n, saved) at h) in
        let e' : s ≡ c' = ground (arith, e) in rw (← e') marks.consistent
  ]
]
