-- ===== src/Rob/Queue.antt =====
-- What the reorder buffer promises: a first-in first-out queue of at most 32 entries. Entries
-- enter at the back, retire at the front, and a recovery cuts the queue after an entry.
use mathlib.Core.Option
use frost.Prelude.{
  ℕ, zero, suc, List, [], ◌∷◌, ◌++◌, Option, none, some, length, ◌==◌, if◌then◌else◌,
}
use frost.Rob.{write_result}
use frost.Rob.Types.{Entry, CdbWrite}

-- The back of the queue takes an entry unless 32 are in flight; the result is its position.
unfoldable pub enqueue : List Entry → Entry → Option ℕ × List Entry
enqueue q e = if length q == 32 then (none, q) else (some (length q), q ++ e ∷ [])

-- The front entry and the rest.
unfoldable pub dequeue : List Entry → Option (Entry × List Entry)
dequeue [] = none
dequeue (e ∷ q) = some (e, q)

-- The queue with the entry at a position replaced; `none` behind its end.
unfoldable pub update_at : (Entry → Entry) → ℕ → List Entry → Option (List Entry)
update_at f p [] = none
update_at f zero (e ∷ q) = some (f e ∷ q)
update_at f (suc p) (e ∷ q) = Option.map (◌∷◌ e) (update_at f p q)

-- A result arrives once: an entry that is done keeps its first.
unfoldable pub complete : CdbWrite → Entry → Entry
complete w e = if e.done then e else write_result w e
