-- ===== src/StoreQueue/Updates.antt =====
-- The updates by tag: address, data, commit, and the discard of a failed store-conditional.
use frost.Prelude.{ℕ, ◌%◌, ◌≡◌, ap, ◌∙◌, Bool, true, not, ◌&&◌, map, arith, ◌==◌, select}
use frost.Ring.Slots.{ring}
use frost.Ring.Select.{ring-map, select-map, select-map_drop}
use frost.StoreQueue.{
  StoreQueue, Entry, blank_entry, discard_entry, sc_discard, addr_entry, addr_update, data_entry,
  data_update, commit_entry, commit,
}
use frost.StoreQueue.Live.{is_valid, stores, IsValid, Window-map}

-- A loop over the entries that keeps their valid bits.
module _ (g : Entry → Entry) (keeps : (e : Entry) → (g e).valid ≡ e.valid) (q : StoreQueue)
    (v : IsValid q) where
  abbrev mapped : StoreQueue
  mapped = record q { entries = map g q.entries }

  stores-mapped : stores mapped ≡ map g (stores q)
  stores-mapped =
      ap (select is_valid)
        (ring-map blank_entry 8 g q.entries q.head_ptr 8 (omega (arith, v.sized)) (omega arith))
      ∙ select-map is_valid g (ring blank_entry 8 q.entries q.head_ptr 8) keeps

  mapped-IsValid : IsValid mapped
  mapped-IsValid = record { window = Window-map g v.window (λ e h. ground (arith, keeps e)) }

-- A loop over the entries that makes some of them invalid.
module _ (g : Entry → Entry) (keep : Entry → Bool)
    (drops : (e : Entry) → (g e).valid ≡ (e.valid && keep e))
    (same : (e : Entry) → (g e).valid ≡ true → g e ≡ e) (q : StoreQueue) (v : IsValid q) where
  pub stores-dropped : stores (record q { entries = map g q.entries }) ≡ select keep (stores q)
  stores-dropped =
      ap (select is_valid)
        (ring-map blank_entry 8 g q.entries q.head_ptr 8 (omega (arith, v.sized)) (omega arith))
      ∙ select-map_drop is_valid g keep (ring blank_entry 8 q.entries q.head_ptr 8) drops same

  pub dropped-IsValid : IsValid (record q { entries = map g q.entries })
  dropped-IsValid = record { window = Window-map g v.window (λ e h. ground (arith, drops e)) }

valid-addr_entry : (t a : ℕ) (m : Bool) (e : Entry) → (addr_entry t a m e).valid ≡ e.valid
unfolding addr_entry
valid-addr_entry t a m e = ground arith

valid-data_entry : (t d : ℕ) (e : Entry) → (data_entry t d e).valid ≡ e.valid
unfolding data_entry
valid-data_entry t d e = ground arith

valid-commit_entry : (t : ℕ) (e : Entry) → (commit_entry t e).valid ≡ e.valid
unfolding commit_entry
valid-commit_entry t e = ground arith

-- The updates of address, data and commit keep the stores and their order: each store is changed
-- by its own test of the tag, and the invariant holds.
pub updates_refine :
    (q : StoreQueue) (tag address value : ℕ) (is_mmio : Bool)
    → IsValid q
    → (stores (addr_update q tag address is_mmio) ≡ map (addr_entry tag address is_mmio) (stores q))
      × (stores (data_update q tag value) ≡ map (data_entry tag value) (stores q))
      × (stores (commit q tag) ≡ map (commit_entry tag) (stores q))
      × IsValid (addr_update q tag address is_mmio)
      × IsValid (data_update q tag value)
      × IsValid (commit q tag)
unfolding addr_update data_update commit
updates_refine q tag address value is_mmio v = (
  stores-mapped (addr_entry tag address is_mmio) (valid-addr_entry tag address is_mmio) q v,
  stores-mapped (data_entry tag value) (valid-data_entry tag value) q v,
  stores-mapped (commit_entry tag) (valid-commit_entry tag) q v,
  mapped-IsValid (addr_entry tag address is_mmio) (valid-addr_entry tag address is_mmio) q v,
  mapped-IsValid (data_entry tag value) (valid-data_entry tag value) q v,
  mapped-IsValid (commit_entry tag) (valid-commit_entry tag) q v,
)

-- Discarding a failed store-conditional takes the store-conditionals of its tag out, and no other.
pub sc_discard_refines :
    (q : StoreQueue) (tag : ℕ)
    → IsValid q
    → (stores (sc_discard q tag)
        ≡ select (λ e. not (e.is_sc && (e.rob_tag == tag % 32))) (stores q))
      × IsValid (sc_discard q tag)
unfolding sc_discard
sc_discard_refines q tag v = (
  stores-dropped (discard_entry tag) (λ e. not (e.is_sc && (e.rob_tag == tag % 32))) (drops tag)
      (same tag) q v,
  dropped-IsValid (discard_entry tag) (λ e. not (e.is_sc && (e.rob_tag == tag % 32))) (drops tag)
      (same tag) q v,
)
  where
    drops :
        (t : ℕ) (e : Entry)
        → (discard_entry t e).valid ≡ (e.valid && not (e.is_sc && (e.rob_tag == t % 32)))
    drops t e = unfold discard_entry in ground arith

    same : (t : ℕ) (e : Entry) → (discard_entry t e).valid ≡ true → discard_entry t e ≡ e
    same t e h = unfold discard_entry in ground arith
