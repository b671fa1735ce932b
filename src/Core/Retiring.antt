-- ===== src/Core/Retiring.antt =====
-- A commit keeps every register waiting for its youngest producer.
use mathlib.Core.Option
use frost.Prelude.{
  ℕ, suc, ◌+◌, ◌%◌, ◌<◌, ◌≡◌, refl, sym, ap, ◌∙◌, inl, inr, false, List, [], ◌∷◌, map, Option, none,
  some, arith, ◌==◌, Bool-cases, Option-cases, if◌then◌else◌, length, length-map,
}
use frost.Rob.{Rob, empty, head_entry, head_idx}
use frost.Rob.Queue.{dequeue}
use frost.Rob.Types.{Entry, SerialState, ExpectedCommit, ok}
use frost.Rob.Inv as buffer
use frost.Rob.Inv.{not_full}
use frost.Rob.Commit.{can_commit, commit, retire, expected_commit}
use frost.Rob.Refine.{
  contents, tag_at, length-contents, can_commit-frame, can_commit-ready, commit-retire,
  commit-raised, retire_refines, retire-IsValid,
}
use frost.Rat.Mapping.{mapping}
use frost.Rat.Mapping as table
use frost.Rat as rat
use frost.Rat.{Rat}
use frost.Rat.Rename.{commit-mapping, unless_tag}
use frost.Core.{Core, committed, try_commit}
use frost.Core.Renaming.{Dest, dest_of, tag_from, produces, producer, producer-retire}
use frost.Core.InFlight.{assigned_lt, returns, dests, IsRenamed, Keeps, kept-IsRenamed}

commit-in_range :
    (m m' : Rat) (rf reg tag : ℕ) → table.IsValid m → rat.commit m rf reg tag ≡ some m' → reg < 32
unfolding rat.commit
commit-in_range m m' rf reg tag v h = elim (Bool-cases (rf == 0)) [
  | inr i ↦
      omega (arith, v.fp_file.sized, assigned_lt (rat.with_fp m) m.fp_rat reg _ m' (rw i at h))
  | inl i ↦ elim (Bool-cases (reg == 0)) [
    | inl z ↦ ground arith
    | inr z ↦
        omega (
          arith,
          v.int_file.sized,
          assigned_lt (rat.with_int m) m.int_rat reg _ m' (rw (i, z) at h),
        )
  ]
]

-- What a commit does to the table.
pub commit_dest-mapping :
    (m m' : Rat) (d : Dest) (tag : ℕ)
    → table.IsValid m
    → (if d.dest_valid then rat.commit m d.dest_rf d.dest_reg tag else some m) ≡ some m'
    → table.IsValid m'
      × ((rf reg : ℕ)
          → mapping m' rf reg ≡ (
              if produces rf reg d
              then unless_tag (tag % 32) (mapping m rf reg)
              else mapping m rf reg))
unfolding produces
commit_dest-mapping m m' d tag v h = elim (Bool-cases d.dest_valid) [
  | inr n ↦
      let e : some m ≡ some m' = (rw n at h) in
      let e' : m ≡ m' = ground (arith, e) in rw (← e', n) (v, λ rf reg. refl)
  | inl w ↦
      let call : rat.commit m d.dest_rf d.dest_reg tag ≡ some m' = (rw w at h) in
      let (p, f, x) =
        commit-mapping m d.dest_rf d.dest_reg tag v
          (commit-in_range m m' d.dest_rf d.dest_reg tag v call) in
      let same : p ≡ m' = cc in rw (← same, w) (x.still_valid, λ rf reg. x.at_reg rf reg)
]

dequeue-cons : (q q' : List Entry) (e : Entry) → dequeue q ≡ some (e, q') → q ≡ e ∷ q'
unfolding dequeue
dequeue-cons [] q' e h = absurd (cc h)
dequeue-cons (d ∷ q) q' e h = ground (arith, h)

module _ (r : Rob) (v : buffer.IsValid r) (ready : empty r ≡ false) where
  retired-dests : dests r ≡ dest_of (head_entry r) ∷ dests (retire r).1
  retired-dests =
      ap (map dest_of) (
        dequeue-cons (contents r) (contents (retire r).1) (head_entry r) (retire_refines r v ready))

  retired-room : length (dests (retire r).1) < 32
  retired-room =
      let whole : length (dests r) ≡ suc (length (dests (retire r).1)) = ap length retired-dests in
      omega (arith, whole, length-map dest_of (contents r), length-contents r, v.room)

  retired-head : head_idx (retire r).1 ≡ (head_idx r + 1) % 32
  retired-head = unfold retire in omega arith

-- The oldest instruction leaves the buffer, and the table if its mapping is still there.
retired-IsRenamed :
    (c : Core) (r : Rob) (m : Rat) (s : SerialState)
    → IsRenamed (record c { rob = r })
    → empty r ≡ false
    → (let d = dest_of (head_entry r) in
        if d.dest_valid then rat.commit c.rat d.dest_rf d.dest_reg (head_idx r) else some c.rat)
      ≡ some m
    → IsRenamed (record c { rob = record (retire r).1 { serial_state = s }; rat = m })
retired-IsRenamed c r m s i ready h =
    let (valid, at) = commit_dest-mapping c.rat m (dest_of (head_entry r)) (head_idx r) i.table h in
    record {
      queue = record { window = (retire-IsValid r i.queue ready).window };
      table = valid;
      waits = λ rf reg.
          let d : Dest = dest_of (head_entry r) in
          let q : List Dest = dests (retire r).1 in
          let before : mapping c.rat rf reg
              ≡ Option.map (tag_from (head_idx r)) (producer rf reg (d ∷ q)) =
            i.waits rf reg
            ∙ ap (λ x. Option.map (tag_at r) (producer rf reg x)) (retired-dests r i.queue ready) in
          let same : head_idx r % 32 ≡ head_idx r = omega arith in
          at rf reg
          ∙ rw (same, before) refl
          ∙ sym
              (producer-retire rf reg (head_idx r) d q (omega arith) (retired-room r i.queue ready))
          ∙ ap (λ h. Option.map (tag_from h) (producer rf reg q))
              (sym (retired-head r i.queue ready));
    }

checked-Keeps : (r : Rob) → buffer.IsValid r → Keeps r (can_commit r).1
checked-Keeps r v =
    rw (can_commit-frame r)
      (record { still_valid = record { window = v.window }; same_head = refl; same_dests = refl })

-- The table after the entry at the head is committed.
abbrev freed : Rat → Rob → Option Rat
freed m r =
    let d = dest_of (head_entry r) in
    if d.dest_valid then rat.commit m d.dest_rf d.dest_reg (head_idx r) else some m

committed-retire :
    (c : Core) (r r' : Rob)
    → committed c (ok (retire r).0, r')
      ≡ Option.map (λ m. (some (retire r).0, record c { rob = r'; rat = m })) (freed c.rat r)
unfolding retire expected_commit
committed-retire c r r' = elim (Bool-cases (head_entry r).dest_valid) [
  | inl d ↦ rw d refl
  | inr d ↦ rw d refl
]

committed-IsRenamed :
    (c c' : Core) (r : Rob) (x : Option ExpectedCommit)
    → IsRenamed (record c { rob = r })
    → committed c (commit r) ≡ some (x, c')
    → IsRenamed c'
committed-IsRenamed c c' r x i h = elim (Bool-cases (can_commit r).0) [
  | inr stuck ↦ let e : none ≡ returns x c' = (rw (commit-raised r stuck) at h) in absurd (cc e)
  | inl may ↦
      let s : SerialState = (can_commit r).1.serial_state in
      let d : Dest = dest_of (head_entry r) in
      let r' : Rob = record (retire r).1 { serial_state = s } in
      let e : committed c (ok (retire r).0, r') ≡ returns x c' = (rw (commit-retire r may) at h) in
      elim (Option-cases (freed c.rat r)) [
        | inl n ↦
            let a : none ≡ returns x c' = (rw (committed-retire c r r', n) at e) in absurd (cc a)
        | inr (m, n) ↦
            let a : returns (some (retire r).0) (record c { rob = r'; rat = m }) ≡ returns x c' =
              (rw (committed-retire c r r', n) at e) in
            let b : record c { rob = r'; rat = m } ≡ c' = ground (arith, a) in
            rw (← b) (retired-IsRenamed c r m s i (can_commit-ready r may).0 n)
      ]
]

pub try_commit-IsRenamed :
    (c c' : Core) (x : Option ExpectedCommit)
    → IsRenamed c
    → try_commit c ≡ some (x, c')
    → IsRenamed c'
unfolding try_commit
try_commit-IsRenamed c c' x i h =
    let r : Rob = (can_commit c.rob).1 in
    let j = kept-IsRenamed c r i (checked-Keeps c.rob i.queue) in
    elim (Bool-cases (can_commit c.rob).0) [
      | inr n ↦
          let e : returns none (record c { rob = r }) ≡ returns x c' = (rw n at h) in
          let e' : record c { rob = r } ≡ c' = ground (arith, e) in rw (← e') j
      | inl may ↦
          let e : committed c (commit r) ≡ returns x c' = (rw may at h) in
          committed-IsRenamed c c' r x j e
    ]
