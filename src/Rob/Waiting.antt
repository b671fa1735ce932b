-- ===== src/Rob/Waiting.antt =====
-- No method disturbs a head entry that the serialization state machine is waiting for.
use frost.Prelude.{
  ℕ, ◌+◌, ◌%◌, ◌<◌, ◌≡◌, refl, sym, ap, ◌∙◌, inl, inr, Bool, true, false, not, ◌&&◌, arith, ltb,
  ◌==◌, if◌then◌else◌, Bool-cases, get_or, set, length, get_or-set,
}
use frost.Rob.{
  Rob, empty, full, count, entry_at, head_idx, head_entry, tail_idx, new_entry, allocate, cdb_write,
  store_complete, branch_update, set_checkpoint, attach_checkpoint, resolve_branch,
}
use frost.Rob.Types.{Entry, blank_entry, AllocationRequest, CdbWrite, BranchUpdate}
use frost.Rob.Inv.{
  IsValid, after, not_full, valid-write_result, valid-mark_done, valid-attach_checkpoint,
  valid-resolve_branch,
}
use frost.Rob.Serial.{IsSerial, resting, waiting, wait_kind, is_ready}

-- A change that keeps the state and the kind of a finished head entry.
pub IsSerial-frame :
    (r r' : Rob)
    → r'.serial_state ≡ r.serial_state
    → (is_ready r ≡ true
        → (is_ready r' ≡ true) × (wait_kind (head_entry r') ≡ wait_kind (head_entry r)))
    → IsSerial r
    → IsSerial r'
IsSerial-frame r r' e keep (resting i) = resting (e ∙ i)
IsSerial-frame r r' e keep (waiting k h) = waiting (e ∙ k ∙ sym (keep h).1) (keep h).0

still_ready :
    (a b c b' c' : Bool)
    → (not a && (b && c)) ≡ true
    → b' ≡ b
    → (c ≡ true → c' ≡ true)
    → (not a && (b' && c')) ≡ true
still_ready false true true b' c' h p q = rw (p, q refl)
still_ready false true false b' c' h p q = cc
still_ready false false c b' c' h p q = cc
still_ready true b c b' c' h p q = cc

ready_done : (a b c : Bool) → (not a && (b && c)) ≡ true → c ≡ true
ready_done a b c h = ground arith

ready_first : (a b : Bool) → (not a && b) ≡ true → a ≡ false
ready_first a b h = ground arith

-- A write of one slot: a finished head entry stays finished and of its kind.
set-IsSerial :
    (r : Rob) (i : ℕ) (e : Entry) (m : ℕ)
    → IsValid r
    → i < 32
    → e.valid ≡ (entry_at r i).valid
    → ((entry_at r i).done ≡ true → (e.done ≡ true) × (wait_kind e ≡ wait_kind (entry_at r i)))
    → IsSerial r
    → IsSerial (record r { entries = set r.entries i e; mispredictions = m })
set-IsSerial r i e m v lt va dn = IsSerial-frame r _ refl keep
  where
    r' : Rob
    r' = record r { entries = set r.entries i e; mispredictions = m }

    head' : head_entry r' ≡ (if i == head_idx r then e else head_entry r)
    head' = get_or-set r.entries i (head_idx r) e blank_entry (omega (arith, v.sized))

    keep :
        is_ready r ≡ true
        → (is_ready r' ≡ true) × (wait_kind (head_entry r') ≡ wait_kind (head_entry r))
    keep h = elim (Bool-cases (i == head_idx r)) [
      | inr ne ↦ rw (head', ne) (h, refl)
      | inl eq ↦
          let ij : i ≡ head_idx r = ground arith in
          let dn' : (head_entry r).done ≡ true
              → (e.done ≡ true) × (wait_kind e ≡ wait_kind (head_entry r)) =
            rw ij at dn in
          rw (head', eq)
            (
              still_ready (empty r) (head_entry r).valid (head_entry r).done e.valid e.done h
                  (rw ij at va) (λ d. (dn' d).0),
              (dn' (ready_done (empty r) (head_entry r).valid (head_entry r).done h)).1,
            )
    ]

attach-keeps :
    (id : ℕ) (e : Entry)
    → e.done ≡ true
    → ((attach_checkpoint id e).done ≡ true) × (wait_kind (attach_checkpoint id e) ≡ wait_kind e)
unfolding attach_checkpoint
attach-keeps id e h = (h, refl)

resolve-keeps :
    (u : BranchUpdate) (e : Entry)
    → e.done ≡ true
    → ((resolve_branch u e).done ≡ true) × (wait_kind (resolve_branch u e) ≡ wait_kind e)
unfolding resolve_branch
resolve-keeps u e h = (ground arith, refl)

pub cdb_write-IsSerial :
    (r : Rob) (w : CdbWrite) → IsValid r → IsSerial r → IsSerial (after r (cdb_write r w))
unfolding cdb_write
cdb_write-IsSerial r w v s = elim (Bool-cases (entry_at r (w.tag % 32)).valid) [
  | inr a ↦ rw a s
  | inl a ↦ rw a (elim (Bool-cases (entry_at r (w.tag % 32)).done) [
    | inl d ↦ rw d s
    | inr d ↦ rw d (
        set-IsSerial r (w.tag % 32) _ _ v (omega arith) (valid-write_result w _)
          (λ d'. absurd (cc (d, d'))) s)
  ])
]

pub store_complete-IsSerial :
    (r : Rob) (tag : ℕ) → IsValid r → IsSerial r → IsSerial (after r (store_complete r tag))
unfolding store_complete
store_complete-IsSerial r tag v s = elim (Bool-cases (entry_at r (tag % 32)).valid) [
  | inr a ↦ rw a s
  | inl a ↦ rw a (elim (Bool-cases (entry_at r (tag % 32)).done) [
    | inl d ↦ rw d s
    | inr d ↦ rw d (
        set-IsSerial r (tag % 32) _ _ v (omega arith) (valid-mark_done _)
          (λ d'. absurd (cc (d, d'))) s)
  ])
]

pub set_checkpoint-IsSerial :
    (r : Rob) (tag id : ℕ) → IsValid r → IsSerial r → IsSerial (after r (set_checkpoint r tag id))
unfolding set_checkpoint
set_checkpoint-IsSerial r tag id v s = elim (Bool-cases (ltb tag (length r.entries))) [
  | inr out ↦ rw out s
  | inl inside ↦ rw inside (elim (Bool-cases (entry_at r tag).valid) [
    | inr a ↦ rw a s
    | inl a ↦ rw a (
        set-IsSerial r tag _ _ v (ground (arith, v.sized)) (valid-attach_checkpoint id _)
          (attach-keeps id _) s)
  ])
]

pub branch_update-IsSerial :
    (r : Rob) (u : BranchUpdate) → IsValid r → IsSerial r → IsSerial (after r (branch_update r u))
unfolding branch_update
branch_update-IsSerial r u v s = elim (Bool-cases (entry_at r (u.tag % 32)).valid) [
  | inr a ↦ rw a s
  | inl a ↦ rw a (elim (Bool-cases (entry_at r (u.tag % 32)).is_branch) [
    | inr b ↦ rw b s
    | inl b ↦ rw b (
        set-IsSerial r (u.tag % 32) _ _ v (omega arith) (valid-resolve_branch u _)
          (resolve-keeps u _) s)
  ])
]

-- A change of the pointers or of other slots.
pub IsSerial-head :
    (r r' : Rob)
    → r'.serial_state ≡ r.serial_state
    → (is_ready r ≡ true → (empty r' ≡ false) × (head_entry r' ≡ head_entry r))
    → IsSerial r
    → IsSerial r'
IsSerial-head r r' e keep =
    IsSerial-frame r r' e
      λ h. let (a, b) = keep h in (rw (a, b) (drop_first (empty r) _ h), ap wait_kind b)
  where
    drop_first : (a b : Bool) → (not a && b) ≡ true → b ≡ true
    drop_first a b q = ground arith

-- An allocation leaves the head slot alone.
pub allocate-IsSerial :
    (r : Rob) (req : AllocationRequest) → IsValid r → IsSerial r → IsSerial (allocate r req).1
unfolding allocate
allocate-IsSerial r req v s = elim (Bool-cases (full r)) [
  | inl f ↦ rw f (IsSerial-frame r _ refl (λ h. (h, refl)) s)
  | inr f ↦ rw f (
      IsSerial-head r _ refl (λ h. (more (not_full r v f), other (not_full r v f) (not_empty h))) s)
]
  where
    more : count r < 32 → ((r.tail_ptr + 1) % 64 == r.head_ptr) ≡ false
    more lt = ground (arith, v.head_in, v.tail_in)

    not_empty : is_ready r ≡ true → empty r ≡ false
    not_empty h = ready_first (empty r) _ h

    other :
        count r < 32
        → empty r ≡ false
        → get_or (set r.entries (tail_idx r) (new_entry req)) (head_idx r) blank_entry
          ≡ head_entry r
    other lt ne =
        rw
          (get_or-set r.entries (tail_idx r) (head_idx r) (new_entry req) blank_entry
            (omega (arith, v.sized)))
          (ground (arith, v.head_in, v.tail_in))
