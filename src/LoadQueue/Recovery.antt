-- ===== src/LoadQueue/Recovery.antt =====
-- lq_model.py: `flush_all` and `partial_flush`, and what survives them.
use frost.Prelude.{
  ℕ, ◌%◌, ◌≡◌, refl, ap, ◌∙◌, get_or-map, and_false, Bool, true, false, not, ◌&&◌, List, [], ◌∷◌,
  map, arith, ltb, if◌then◌else◌, sub_mod, select,
}
use frost.Ring.Select.{select-map_drop}
use frost.LoadQueue.{blank_entry, Entry, FuComplete, LoadQueue, idle, entry_at, reset}
use frost.LoadQueue.Memory.{mem_response_drain}

abbrev pub is_younger : ℕ → ℕ → ℕ → Bool
is_younger entry_tag flush_tag head = ltb (sub_mod 32 flush_tag head) (sub_mod 32 entry_tag head)

unfoldable pub flush_all : LoadQueue → LoadQueue
flush_all q = reset q

unfoldable pub kill_entry : ℕ → ℕ → Entry → Entry
kill_entry flush_tag rob_head_tag e =
    if e.valid && is_younger e.rob_tag (flush_tag % 32) (rob_head_tag % 32)
    then record e { valid = false }
    else e

unfoldable pub partial_flush : LoadQueue → ℕ → ℕ → LoadQueue
partial_flush q flush_tag rob_head_tag = record q {
  entries = map (kill_entry flush_tag rob_head_tag) q.entries;
  cdb_stage =
      (if q.cdb_stage.valid && is_younger q.cdb_stage.tag (flush_tag % 32) (rob_head_tag % 32)
        then idle
        else q.cdb_stage);
}

-- The loads in the queue, by slot, and the one whose result is staged.
abbrev pub loads : LoadQueue → List Entry
loads q = select (λ (e : Entry). e.valid) q.entries

abbrev pub staged : LoadQueue → List FuComplete
staged q = if q.cdb_stage.valid then q.cdb_stage ∷ [] else []

abbrev pub survives : ℕ → ℕ → ℕ → Bool
survives flush_tag rob_head_tag tag = not (is_younger tag (flush_tag % 32) (rob_head_tag % 32))

kill-valid : (f h : ℕ) (e : Entry) → (kill_entry f h e).valid ≡ (e.valid && survives f h e.rob_tag)
unfolding kill_entry
kill-valid f h e = ground arith

kill-same : (f h : ℕ) (e : Entry) → (kill_entry f h e).valid ≡ true → kill_entry f h e ≡ e
unfolding kill_entry
kill-same f h e v = ground arith

-- A partial flush keeps exactly the loads and the staged result that are not younger than the
-- flushed tag, as they are and in order; a request to memory stays outstanding.
pub load_flush_keeps :
    (q : LoadQueue) (f h : ℕ)
    → (loads (partial_flush q f h) ≡ select (λ e. survives f h e.rob_tag) (loads q))
      × (staged (partial_flush q f h) ≡ select (λ c. survives f h c.tag) (staged q))
      × ((partial_flush q f h).mem_outstanding ≡ q.mem_outstanding)
      × ((partial_flush q f h).tail_ptr ≡ q.tail_ptr)
unfolding partial_flush
load_flush_keeps q f h = (
  select-map_drop (λ (e : Entry). e.valid) (kill_entry f h) (λ e. survives f h e.rob_tag) q.entries
      (kill-valid f h) (kill-same f h),
  ground arith,
  refl,
  refl,
)

-- A slot after the flush.
flushed-at :
    (q : LoadQueue) (f h i : ℕ) → entry_at (partial_flush q f h) i ≡ kill_entry f h (entry_at q i)
unfolding partial_flush kill_entry
flushed-at q f h i = get_or-map (kill_entry f h) q.entries i blank_entry

-- Once a partial flush has hit the load that a request was sent for, the response changes no entry,
-- no reservation and no atomic: it only ends the request.
pub stale_response :
    (q : LoadQueue) (f h beat : ℕ)
    → q.mem_outstanding ≡ true
    → survives f h (entry_at q q.issued_idx).rob_tag ≡ false
    → mem_response_drain (partial_flush q f h) beat
      ≡ record (partial_flush q f h) { mem_outstanding = false }
unfolding mem_response_drain partial_flush
stale_response q f h beat out hit =
    let e = entry_at q q.issued_idx in
    let gone : (entry_at (partial_flush q f h) q.issued_idx).valid ≡ false =
      ap (λ (x : Entry). x.valid) (flushed-at q f h q.issued_idx)
      ∙ kill-valid f h e
      ∙ ap (λ b. e.valid && b) hit
      ∙ and_false e.valid in
    rw (out, gone) refl
