-- ===== src/Rob/Flush.antt =====
-- reorder_buffer_model.py: `flush_partial`, `flush_all` and `reset`.
use frost.Prelude.{
  ℕ, zero, suc, ◌+◌, ◌%◌, true, false, Option, none, some, List, [], map, ◌==◌, if◌then◌else◌,
  sub_mod, get_or, set, count_if, to_int,
}
use frost.Rob.{Rob, head_idx, tail_idx}
use frost.Rob.Types.{SerialState, Entry, blank_entry}

-- `entry.valid = False`
unfoldable pub invalidate : Entry → Entry
invalidate e = record e { valid = false }

-- The body of the loop of `flush_partial` at one index.
abbrev pub flush_slot : List Entry → ℕ → List Entry
flush_slot es i =
    if (get_or es i blank_entry).valid then set es i (invalidate (get_or es i blank_entry)) else es

-- `while idx != self.tail_idx`, on fuel: `none` means that the fuel ran out.
unfoldable pub flush_loop : ℕ → ℕ → ℕ → List Entry → ℕ → Option (List Entry × ℕ)
flush_loop zero idx tail es flushed = none
flush_loop (suc fuel) idx tail es flushed = elim (idx == tail) [
  | true ↦ some (es, flushed)
  | false ↦
      flush_loop fuel ((idx + 1) % 32) tail (flush_slot es idx)
        (flushed + to_int (get_or es idx blank_entry).valid)
]

-- The new tail pointer: one past the flushed tag's entry.
abbrev pub tail_after : Rob → ℕ → ℕ
tail_after r flush_tag = (r.head_ptr + sub_mod 32 flush_tag (head_idx r) + 1) % 64

-- The rest of `flush_partial`, once the loop has left the entries and their count.
abbrev pub close_flush : Rob → ℕ → Option (List Entry × ℕ) → Option (ℕ × Rob)
close_flush r flush_tag none = none
close_flush r flush_tag (some (es, flushed)) = some (
  flushed,
  record r { entries = es; tail_ptr = tail_after r flush_tag; total_flushes = r.total_flushes + 1 },
)

-- There are 32 slots, so 32 rounds bring the index to any tail.
unfoldable pub flush_partial : Rob → ℕ → Option (ℕ × Rob)
flush_partial r flush_tag =
    close_flush r flush_tag (flush_loop 32 ((flush_tag + 1) % 32) (tail_idx r) r.entries 0)

unfoldable pub flush_all : Rob → ℕ × Rob
flush_all r = (
  count_if (λ e. e.valid) r.entries,
  record r {
    entries = map invalidate r.entries;
    tail_ptr = r.head_ptr;
    serial_state = SerialState.idle;
    total_flushes = r.total_flushes + 1;
  },
)

-- `entry.valid = False; entry.done = False`
abbrev pub wipe : Entry → Entry
wipe e = record e { valid = false; done = false }

-- The inputs from outside (`mepc` and the handshake flags) keep their values.
unfoldable pub reset : Rob → Rob
reset r = record r {
  entries = map wipe r.entries;
  head_ptr = 0;
  tail_ptr = 0;
  serial_state = SerialState.idle;
  expected_commits = [];
  expected_alloc_responses = [];
  total_allocations = 0;
  total_commits = 0;
  total_flushes = 0;
  mispredictions = 0;
}
