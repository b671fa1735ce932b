-- ===== src/Rob/Serial.antt =====
-- Serializing instructions: the head entry waits for a handshake before it commits.
use frost.Prelude.{
  ◌≡◌, ◌≢◌, refl, ap, ◌⊎◌, inl, inr, Bool, true, false, not, ◌&&◌, ◌||◌, arith, if◌then◌else◌,
  Bool-cases,
}
use frost.Rob.{Rob, empty, head_entry}
use frost.Rob.Types.{SerialState, Entry, ExpectedCommit, RobError, Result, raised}
use frost.Rob.Commit.{serial_stall, check_serial_stall, can_commit, commit}
use frost.Rob.Refine.{can_commit-ready, commit-retire, commit-raised}

-- The waiting state that belongs to an entry, in the order in which the kinds are tested; IDLE
-- for an entry that waits for nothing.
abbrev pub wait_kind : Entry → SerialState
wait_kind e =
    if e.exception
    then SerialState.trap_wait
    else (if e.is_wfi
        then SerialState.wfi_wait
        else (if e.is_csr
            then SerialState.csr_exec
            else (if e.is_fence || e.is_fence_i
                then SerialState.wait_sq
                else (if e.is_amo || e.is_lr
                    then SerialState.idle
                    else (if e.is_mret then SerialState.mret_exec else SerialState.idle)))))

-- The signal that ends a wait.
abbrev pub signal : Rob → SerialState → Bool
signal r SerialState.idle = true
signal r SerialState.wait_sq = r.sq_committed_empty
signal r SerialState.csr_exec = r.csr_done
signal r SerialState.mret_exec = r.mret_done
signal r SerialState.wfi_wait = r.interrupt_pending
signal r SerialState.trap_wait = r.trap_taken

-- The head entry is in flight and finished.
abbrev pub is_ready : Rob → Bool
is_ready r = not (empty r) && ((head_entry r).valid && (head_entry r).done)

-- The state machine waits for nothing, or for what the finished head entry needs.
pub data IsSerial (r : Rob) : Type 0 where
  resting : r.serial_state ≡ SerialState.idle → IsSerial r
  waiting : r.serial_state ≡ wait_kind (head_entry r) → is_ready r ≡ true → IsSerial r

-- The tests of `IDLE`: the check passes there only if the entry's kind needs no wait, or needs an
-- interrupt or a drained store queue that is there.
serial_stall-signal :
    (s : SerialState) (r : Rob) (e : Entry)
    → (s ≡ SerialState.idle) ⊎ (s ≡ wait_kind e)
    → (serial_stall s r e).0 ≡ false
    → signal r (wait_kind e) ≡ true
unfolding serial_stall
serial_stall-signal SerialState.idle r e (inl k) h = ground arith
serial_stall-signal SerialState.idle r e (inr k) h = ground arith
serial_stall-signal SerialState.wait_sq r e (inl k) h = cc
serial_stall-signal SerialState.wait_sq r e (inr k) h = rw (← k) (ground arith)
serial_stall-signal SerialState.csr_exec r e (inl k) h = cc
serial_stall-signal SerialState.csr_exec r e (inr k) h = rw (← k) (ground arith)
serial_stall-signal SerialState.mret_exec r e (inl k) h = cc
serial_stall-signal SerialState.mret_exec r e (inr k) h = rw (← k) (ground arith)
serial_stall-signal SerialState.wfi_wait r e (inl k) h = cc
serial_stall-signal SerialState.wfi_wait r e (inr k) h = rw (← k) (ground arith)
serial_stall-signal SerialState.trap_wait r e (inl k) h = cc
serial_stall-signal SerialState.trap_wait r e (inr k) h = rw (← k) (ground arith)

-- A check that passes leaves IDLE.
serial_stall-pass :
    (s : SerialState) (r : Rob) (e : Entry)
    → (serial_stall s r e).0 ≡ false
    → (serial_stall s r e).1 ≡ SerialState.idle
unfolding serial_stall
serial_stall-pass SerialState.idle r e h = ground arith
serial_stall-pass s r e h = ground arith

-- A check that stalls leaves the state that belongs to the entry.
serial_stall-stay :
    (s : SerialState) (r : Rob) (e : Entry)
    → (s ≡ SerialState.idle) ⊎ (s ≡ wait_kind e)
    → (serial_stall s r e).0 ≡ true
    → (serial_stall s r e).1 ≡ wait_kind e
unfolding serial_stall
serial_stall-stay SerialState.idle r e k h = ground arith
serial_stall-stay s r e (inl k) h = cc
serial_stall-stay s r e (inr k) h = rw (← k) (ground arith)

-- In the waiting state the signal ends the wait.
serial_stall-ends :
    (s : SerialState) (r : Rob) (e : Entry)
    → s ≢ SerialState.idle
    → signal r s ≡ true
    → (serial_stall s r e).0 ≡ false
unfolding serial_stall
serial_stall-ends SerialState.idle r e ne h = absurd (ne refl)
serial_stall-ends s r e ne h = rw h

can_commit-eq :
    (r : Rob)
    → is_ready r ≡ true
    → let out = serial_stall r.serial_state r (head_entry r) in
      can_commit r ≡ (not out.0, record r { serial_state = out.1 })
unfolding can_commit check_serial_stall
can_commit-eq r h = ground arith

can_commit-unready : (r : Rob) → is_ready r ≡ false → can_commit r ≡ (false, r)
unfolding can_commit
can_commit-unready r h = ground arith

is_ready_of_can_commit : (r : Rob) → (can_commit r).0 ≡ true → is_ready r ≡ true
is_ready_of_can_commit r h = let (a, b, c) = can_commit-ready r h in rw (a, b, c)

IsSerial-cases :
    {r : Rob}
    → IsSerial r
    → (r.serial_state ≡ SerialState.idle) ⊎ (r.serial_state ≡ wait_kind (head_entry r))
IsSerial-cases (resting e) = inl e
IsSerial-cases (waiting e h) = inr e

-- No entry commits before its handshake: when the check passes, the signal that the head entry's
-- kind waits for (trap taken, CSR done, store queue drained, interrupt, MRET done) is up.
pub can_commit-signal :
    (r : Rob) → IsSerial r → (can_commit r).0 ≡ true → signal r (wait_kind (head_entry r)) ≡ true
can_commit-signal r s h =
    serial_stall-signal r.serial_state r (head_entry r) (IsSerial-cases s)
      (ground (arith, can_commit-eq r (is_ready_of_can_commit r h)))

-- The check keeps the state machine consistent with the head entry.
pub can_commit-IsSerial : (r : Rob) → IsSerial r → IsSerial (can_commit r).1
can_commit-IsSerial r s = elim (Bool-cases (is_ready r)) [
  | inl h ↦ elim (Bool-cases (serial_stall r.serial_state r (head_entry r)).0) [
    | inl stall ↦
        rw (can_commit-eq r h)
          (waiting (serial_stall-stay r.serial_state r (head_entry r) (IsSerial-cases s) stall) h)
    | inr pass ↦
        rw (can_commit-eq r h) (resting (serial_stall-pass r.serial_state r (head_entry r) pass))
  ]
  | inr h ↦ rw (can_commit-unready r h) s
]

abbrev moved : Rob → SerialState → Rob
moved r k = record r { serial_state = k }

-- Only an entry that waits for something stalls.
serial_stall-waits :
    (s : SerialState) (r : Rob) (e : Entry)
    → (s ≡ SerialState.idle) ⊎ (s ≡ wait_kind e)
    → (serial_stall s r e).0 ≡ true
    → wait_kind e ≢ SerialState.idle
unfolding serial_stall
serial_stall-waits SerialState.idle r e k h q = ground arith
serial_stall-waits s r e (inl k) h q = cc
serial_stall-waits s r e (inr k) h q = cc

-- So does `commit`, which leaves IDLE when it succeeds.
pub commit-IsSerial : (r : Rob) → IsSerial r → IsSerial (commit r).1
commit-IsSerial r s = elim (Bool-cases (can_commit r).0) [
  | inr stuck ↦ rw (commit-raised r stuck) (can_commit-IsSerial r s)
  | inl may ↦
      let ready = is_ready_of_can_commit r may in
      rw (commit-retire r may) (
        resting (
          rw (can_commit-eq r ready) (
            serial_stall-pass r.serial_state r (head_entry r)
              (ground (arith, can_commit-eq r ready)))))
]

-- Once the signal of a finished head entry is up, the check passes at once or the next time.
pub can_commit-twice :
    (r : Rob)
    → IsSerial r
    → is_ready r ≡ true
    → signal r (wait_kind (head_entry r)) ≡ true
    → ((can_commit r).0 ≡ true) ⊎ ((can_commit (can_commit r).1).0 ≡ true)
can_commit-twice r s h up = elim (Bool-cases (serial_stall r.serial_state r (head_entry r)).0) [
  | inr pass ↦ inl (rw (can_commit-eq r h, pass))
  | inl stall ↦ inr (
      rw (stalled stall, can_commit-eq (moved r (wait_kind (head_entry r))) h)
        (rw (
          serial_stall-ends (wait_kind (head_entry r)) (moved r (wait_kind (head_entry r)))
            (head_entry r)
            (serial_stall-waits r.serial_state r (head_entry r) (IsSerial-cases s) stall)
            (up_moved (wait_kind (head_entry r)) up))))
]
  where
    stalled :
        (serial_stall r.serial_state r (head_entry r)).0 ≡ true
        → (can_commit r).1 ≡ moved r (wait_kind (head_entry r))
    stalled stall =
        rw (can_commit-eq r h) (
          ap (moved r) (serial_stall-stay r.serial_state r (head_entry r) (IsSerial-cases s) stall))

    up_moved :
        (k : SerialState) → signal r k ≡ true → signal (moved r (wait_kind (head_entry r))) k ≡ true
    up_moved SerialState.idle u = refl
    up_moved k u = u

-- The kinds that IDLE never lets pass.
abbrev pub needs_handshake : SerialState → Bool
needs_handshake SerialState.trap_wait = true
needs_handshake SerialState.csr_exec = true
needs_handshake SerialState.mret_exec = true
needs_handshake s = false

idle_stall-handshake :
    (r : Rob) (e : Entry)
    → needs_handshake (wait_kind e) ≡ true
    → (serial_stall SerialState.idle r e).0 ≡ true
unfolding serial_stall
idle_stall-handshake r e k = ground arith

-- `if model.can_commit(): model.commit()` raises for exceptions, CSR accesses and MRET: the check
-- that passed has put the state machine back to IDLE, and the check inside `commit` stalls again.
pub commit-can_commit :
    (r : Rob)
    → (can_commit r).0 ≡ true
    → needs_handshake (wait_kind (head_entry r)) ≡ true
    → (commit (can_commit r).1).0 ≡ raised RobError.cannot_commit
commit-can_commit r h k = rw passed (
    ap {B = Result ExpectedCommit} (λ (x : Result ExpectedCommit × Rob). x.0)
      (commit-raised (moved r SerialState.idle) (
        rw (can_commit-eq (moved r SerialState.idle) ready)
          (rw (idle_stall-handshake (moved r SerialState.idle) (head_entry r) k)))))
  where
    ready : is_ready r ≡ true
    ready = is_ready_of_can_commit r h

    passed : (can_commit r).1 ≡ moved r SerialState.idle
    passed = rw (can_commit-eq r ready) (
        ap (moved r) (
          serial_stall-pass r.serial_state r (head_entry r)
            (ground (arith, can_commit-eq r ready))))
