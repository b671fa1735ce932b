-- ===== src/Core/Dispatching.antt =====
-- A dispatch keeps every register waiting for its youngest producer.
use frost.Prelude.{
  ℕ, ◌%◌, ◌<◌, ◌≡◌, refl, sym, ap, ◌∙◌, inl, inr, true, false, [], ◌∷◌, ◌++◌, map, Option, none,
  some, arith, ◌==◌, Bool-cases, Option-cases, if◌then◌else◌, length, length-map, map-append,
}
use frost.Rob as rob
use frost.Rob.{Rob, new_entry, tail_idx, full, empty, head_entry, head_idx}
use frost.Rob.Types.{AllocationRequest}
use frost.Rob.Inv as buffer
use frost.Rob.Inv.{not_full}
use frost.Rob.Refine.{contents, tag_at, length-contents, ring-push}
use frost.Rat.Mapping.{mapping}
use frost.Rat.Mapping as table
use frost.Rat as rat
use frost.Rat.{Rat}
use frost.Rat.Rename.{rename-mapping}
use frost.Rat.Restore.{save_refines}
use frost.Rat.Slots.{available_refines}
use frost.Core.{
  Core, Branching, rename_dest, save_branch, branch_save, ok_or_none, checkpoint_branch, dispatch,
}
use frost.Core.Renaming.{dest_of, produces, producer-append}
use frost.Core.InFlight.{
  assigned_lt, returns, dests, dest_of_request, dest-new_entry, IsRenamed, Keeps, kept-IsRenamed,
  renewed-IsRenamed, set_checkpoint-Keeps, ok_or_none-after,
}

rename-in_range :
    (m m' : Rat) (rf reg tag : ℕ) → table.IsValid m → rat.rename m rf reg tag ≡ some m' → reg < 32
unfolding rat.rename
rename-in_range m m' rf reg tag v h = elim (Bool-cases (rf == 0)) [
  | inr i ↦
      omega (arith, v.fp_file.sized, assigned_lt (rat.with_fp m) m.fp_rat reg _ m' (rw i at h))
  | inl i ↦ elim (Bool-cases (reg == 0)) [
    | inl z ↦ ground arith
    | inr z ↦
        omega (
          arith,
          v.int_file.sized,
          assigned_lt (rat.with_int m) m.int_rat reg _ m' (rw (i, z) at h),
        )
  ]
]

-- What a dispatch does to the table.
pub rename_dest-mapping :
    (m m' : Rat) (req : AllocationRequest) (tag : ℕ)
    → table.IsValid m
    → rename_dest m req tag ≡ some m'
    → table.IsValid m'
      × ((rf reg : ℕ)
          → mapping m' rf reg
            ≡ (if produces rf reg (dest_of_request req) then some (tag % 32) else mapping m rf reg))
unfolding rename_dest produces
rename_dest-mapping m m' req tag v h = elim (Bool-cases req.dest_valid) [
  | inr n ↦
      let e : some m ≡ some m' = (rw n at h) in
      let e' : m ≡ m' = ground (arith, e) in rw (← e', n) (v, λ rf reg. refl)
  | inl d ↦
      let call : rat.rename m req.dest_rf req.dest_reg tag ≡ some m' = (rw d at h) in
      let (p, f, w) =
        rename-mapping m req.dest_rf req.dest_reg tag v
          (rename-in_range m m' req.dest_rf req.dest_reg tag v call) in
      let same : p ≡ m' = cc in rw (← same, d) (w.still_valid, λ rf reg. w.at_reg rf reg)
]

saved-IsRenamed :
    (c c' : Core) (b : Branching) (tag id : ℕ)
    → IsRenamed c
    → id < 8
    → checkpoint_branch c b tag id ≡ some c'
    → IsRenamed c'
unfolding checkpoint_branch
saved-IsRenamed c c' b tag id i lt h =
    let (p, saves, same, _, w) = save_refines c.rat id (branch_save b tag) i.table lt refl in
    elim (Option-cases (ok_or_none (rob.set_checkpoint c.rob tag id))) [
      | inl n ↦ let e : none ≡ some c' = (rw (saves, n) at h) in absurd (cc e)
      | inr (r, n) ↦
          let e : some (record c { rob = r; rat = p }) ≡ some c' = (rw (saves, n) at h) in
          let e' : record c { rob = r; rat = p } ≡ c' = ground (arith, e) in
          let marked = set_checkpoint-Keeps c.rob i.queue tag id in
          let at = ok_or_none-after c.rob r (rob.set_checkpoint c.rob tag id) n in
          rw (← e') (
            kept-IsRenamed (record c { rat = p }) r
              (record {
                queue = i.queue;
                table = w;
                waits = λ rf reg. same rf reg ∙ i.waits rf reg;
              })
              (rw at at marked))
    ]

save_branch-IsRenamed :
    (c c' : Core) (b : Branching) (tag : ℕ)
    → IsRenamed c
    → save_branch c b tag ≡ some c'
    → IsRenamed c'
unfolding save_branch checkpoint_branch
save_branch-IsRenamed c c' b tag i h = elim (Bool-cases b.checkpoint_save) [
  | inr n ↦
      let e : some c ≡ some c' = (rw n at h) in let e' : c ≡ c' = ground (arith, e) in rw (← e') i
  | inl s ↦ elim (available_refines c.rat i.table) [
    | inl (id, a, lt, _, _) ↦
        let e : checkpoint_branch c b tag id ≡ some c' = (rw (s, a) at h) in
        saved-IsRenamed c c' b tag id i lt e
    | inr (a, _) ↦
        let e : some c ≡ some c' = (rw (s, a) at h) in
        let e' : c ≡ c' = ground (arith, e) in rw (← e') i
  ]
]

pub allocated-dests :
    (r : Rob) (req : AllocationRequest)
    → buffer.IsValid r
    → full r ≡ false
    → dests (rob.allocate r req).1 ≡ dests r ++ dest_of_request req ∷ []
unfolding rob.allocate
allocated-dests r req v f = rw f (
    ap (map dest_of) (ring-push v.window (new_entry req) (not_full r v f))
    ∙ map-append dest_of (contents r) (new_entry req ∷ [])
    ∙ ap (λ d. dests r ++ d ∷ []) (dest-new_entry req))

allocated-head :
    (r : Rob) (req : AllocationRequest)
    → full r ≡ false
    → (rob.allocate r req).1.head_ptr ≡ r.head_ptr
unfolding rob.allocate
allocated-head r req f = rw f refl

-- The new instruction is the youngest, under the tag that the buffer gives it.
allocated-IsRenamed :
    (c : Core) (m : Rat) (req : AllocationRequest)
    → IsRenamed c
    → full c.rob ≡ false
    → rename_dest c.rat req (tail_idx c.rob) ≡ some m
    → IsRenamed (record c { rob = (rob.allocate c.rob req).1; rat = m })
allocated-IsRenamed c m req i f h =
    let (valid, at) = rename_dest-mapping c.rat m req (tail_idx c.rob) i.table h in
    let tail : tag_at c.rob (length (dests c.rob)) ≡ tail_idx c.rob % 32 = omega (
      arith,
      length-map dest_of (contents c.rob),
      length-contents c.rob,
      i.queue.head_in,
      i.queue.tail_in,
    ) in
    renewed-IsRenamed (record c { rat = m }) (rob.allocate c.rob req).1
      (dests c.rob ++ dest_of_request req ∷ []) (buffer.allocate-IsValid c.rob req i.queue) valid
      (allocated-head c.rob req f) (allocated-dests c.rob req i.queue f)
      (λ rf reg.
        rw (at rf reg, producer-append rf reg (dests c.rob) (dest_of_request req))
          (elim (Bool-cases (produces rf reg (dest_of_request req))) [
            | inl w ↦ rw w (ap some (sym tail))
            | inr w ↦ rw w (i.waits rf reg)
          ]))

pub refused-Keeps :
    (r : Rob) (req : AllocationRequest)
    → buffer.IsValid r
    → full r ≡ true
    → (rob.allocate r req ≡ (none, (rob.allocate r req).1)) × Keeps r (rob.allocate r req).1
unfolding rob.allocate
refused-Keeps r req v f = rw f (
  refl,
  record { still_valid = record { window = v.window }; same_head = refl; same_dests = refl },
)

pub allocated-tag :
    (r : Rob) (req : AllocationRequest)
    → full r ≡ false
    → rob.allocate r req ≡ (some (tail_idx r), (rob.allocate r req).1)
unfolding rob.allocate
allocated-tag r req f = rw f refl

pub dispatch-IsRenamed :
    (c c' : Core) (req : AllocationRequest) (b : Branching) (t : Option ℕ)
    → IsRenamed c
    → dispatch c req b ≡ some (t, c')
    → IsRenamed c'
unfolding dispatch
dispatch-IsRenamed c c' req b t i h = elim (Bool-cases (full c.rob)) [
  | inl f ↦
      let (n, k) = refused-Keeps c.rob req i.queue f in
      let r : Rob = (rob.allocate c.rob req).1 in
      let e : returns none (record c { rob = r }) ≡ returns t c' = (rw n at h) in
      let e' : record c { rob = r } ≡ c' = ground (arith, e) in rw (← e') (kept-IsRenamed c r i k)
  | inr f ↦ elim (Option-cases (rename_dest c.rat req (tail_idx c.rob))) [
    | inl n ↦
        let e : none ≡ returns t c' = (rw (allocated-tag c.rob req f, n) at h) in absurd (cc e)
    | inr (m, n) ↦
        let r : Rob = (rob.allocate c.rob req).1 in
        let d : Core = record c { rob = r; rat = m } in
        elim (Option-cases (save_branch d b (tail_idx c.rob))) [
          | inl never ↦
              let e : none ≡ returns t c' = (rw (allocated-tag c.rob req f, n, never) at h) in
              absurd (cc e)
          | inr (s, saved) ↦
              let e : returns (some (tail_idx c.rob)) s ≡ returns t c' =
                (rw (allocated-tag c.rob req f, n, saved) at h) in
              let e' : s ≡ c' = ground (arith, e) in
              rw (← e') (
                save_branch-IsRenamed d s b (tail_idx c.rob) (allocated-IsRenamed c m req i f n)
                  saved)
        ]
  ]
]
