-- ===== src/Core/Total.antt =====
-- What a dispatch returns and what it changes, in any history of the core.
use frost.Prelude.{
  ℕ, ◌%◌, ◌<◌, ◌≡◌, refl, ◌∙◌, inl, inr, true, false, Bool, none, some, ◌&&◌, [], ◌∷◌, ◌++◌, arith,
  length, ltb, Bool-cases, not, if◌then◌else◌,
}
use frost.Rob as rob
use frost.Rob.{Rob, full, tail_idx}
use frost.Rob.Types.{AllocationRequest}
use frost.Rob.Inv as buffer
use frost.Rob.Inv.{full-eq-count}
use frost.Rob.Refine.{contents, length-contents, tag_at}
use frost.Rat.Mapping.{mapping}
use frost.Core.{Core, Branching, dispatch}
use frost.Core.Renaming.{produces}
use frost.Core.InFlight.{dests, dest_of_request}
use frost.Core.Dispatching.{allocated-tag, allocated-dests, refused-Keeps, rename_dest-mapping}
use frost.Core.Consistent.{rename_dest_total, after_rename}
use frost.Core.Recoveries.{Reach, Reach-IsConsistent}

-- Fewer than 32 instructions are in flight.
abbrev pub has_room : Rob → Bool
has_room r = ltb (length (contents r)) 32

-- The tag of the queue's next position.
abbrev pub next_tag : Rob → ℕ
next_tag r = tag_at r (length (contents r))

has_room-full : (r : Rob) (t : Bool) → buffer.IsValid r → full r ≡ t → has_room r ≡ not t
has_room-full r t v f = ground (arith, full-eq-count r v, length-contents r, f, v.room)

next_tag-tail : (r : Rob) → buffer.IsValid r → next_tag r ≡ tail_idx r
next_tag-tail r v = omega (arith, length-contents r, v.head_in, v.tail_in)

-- After any sequence of calls, misprediction recoveries to a tag in flight with a checkpoint number
-- below 8 included, a dispatch whose destination number is below 32 returns. If 32 instructions are
-- in flight it hands out no tag and leaves the destinations in flight and the map as they are.
-- Otherwise it hands out the tag of the queue's next position, appends the destination, and, if the
-- instruction has a destination other than x0, maps that register to the tag; every other register
-- keeps its mapping. The stations are as before.
pub dispatch_returns :
    (c : Core) (req : AllocationRequest) (b : Branching)
    → Reach c
    → req.dest_reg < 32
    → (c' : Core) × (dispatch c req b
        ≡ some ((if has_room c.rob then some (next_tag c.rob) else none), c'))
      × (dests c'.rob
          ≡ (if has_room c.rob then dests c.rob ++ dest_of_request req ∷ [] else dests c.rob))
      × ((f r : ℕ)
          → mapping c'.rat f r ≡ (
              if has_room c.rob && produces f r (dest_of_request req)
              then some (next_tag c.rob)
              else mapping c.rat f r))
      × (c'.stations ≡ c.stations)
unfolding dispatch
dispatch_returns c req b h lt =
    let i = Reach-IsConsistent h in
    elim (Bool-cases (full c.rob)) [
      | inl f ↦
          let (e, k) = refused-Keeps c.rob req i.queue f in
          let no_room = has_room-full c.rob true i.queue f in
          (
            record c { rob = (rob.allocate c.rob req).1 },
            rw (no_room, e) refl,
            rw no_room k.same_dests,
            (λ g r. rw no_room refl),
            refl,
          )
      | inr f ↦
          let (m, n) = rename_dest_total c.rat req (tail_idx c.rob) i.table lt in
          let (s, saves, marks) = after_rename c req b m i n in
          let (_, at) = rename_dest-mapping c.rat m req (tail_idx c.rob) i.table n in
          let room = has_room-full c.rob false i.queue f in
          let tag = next_tag-tail c.rob i.queue in
          let low : tail_idx c.rob % 32 ≡ tail_idx c.rob = omega arith in
          (
            s,
            rw (room, tag, allocated-tag c.rob req f, n, saves) refl,
            rw room (marks.same_dests ∙ allocated-dests c.rob req i.queue f),
            (λ g r. rw (room, tag, marks.same_map g r, at g r, low) refl),
            marks.same_stations,
          )
    ]
