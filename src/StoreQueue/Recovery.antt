-- ===== src/StoreQueue/Recovery.antt =====
-- `partial_flush`: the younger uncommitted stores go, and the tail is pulled back behind the last
-- store that is left.
use frost.Prelude.{
  ℕ, zero, suc, ◌+◌, ◌%◌, ◌<◌, ◌≡◌, refl, sym, ap, ◌∙◌, ◌⊎◌, inl, inr, Bool, true, false, not, ◌&&◌,
  ◌||◌, Option, none, some, map, arith, Bool-cases, ltb, if◌then◌else◌, sub_mod, select,
}
use frost.StoreQueue.{
  StoreQueue, Entry, head_idx, entry_at, is_younger, kill_entry, last_survivor, tail_behind,
  partial_flush,
}
use frost.StoreQueue.Live.{stores, inside, IsValid}
use frost.StoreQueue.Updates.{stores-dropped, dropped-IsValid}

-- Whether the slot `j` steps behind the head holds a store.
abbrev in_use : StoreQueue → ℕ → Bool
in_use q j = (entry_at q ((head_idx q + j) % 8)).valid

-- The last of the first `k` slots that holds a store.
abbrev IsLast : StoreQueue → ℕ → Option ℕ → Type 0
IsLast q k none = (j : ℕ) → j < k → in_use q j ≡ false
IsLast q k (some m) = (m < k) × (in_use q m ≡ true) × ((j : ℕ) → m < j → j < k → in_use q j ≡ false)

IsLast-step :
    (q : StoreQueue) (k : ℕ) (last : Option ℕ)
    → IsLast q k last
    → IsLast q (k + 1) (if in_use q k then some k else last)
IsLast-step q k last h = elim (Bool-cases (in_use q k)) [
  | inl u ↦ rw u (omega arith, u, λ j a b. absurd (omega arith))
  | inr u ↦ rw u (old last h u)
]
  where
    old : (l : Option ℕ) → IsLast q k l → in_use q k ≡ false → IsLast q (k + 1) l
    old none p u = λ j lt. elim (Bool-cases (ltb j k)) [
      | inl below ↦ p j (ground arith)
      | inr top ↦ let e : j ≡ k = ground arith in rw e u
    ]
    old (some m) p u = (
      omega (arith, p.0),
      p.1,
      λ j a lt. elim (Bool-cases (ltb j k)) [
        | inl below ↦ p.2 j a (ground arith)
        | inr top ↦ let e : j ≡ k = ground arith in rw e u
      ],
    )

last_survivor-IsLast :
    (q : StoreQueue) (offset n k : ℕ) (last : Option ℕ)
    → k ≡ offset + n
    → IsLast q offset last
    → IsLast q k (last_survivor q offset n last)
unfolding last_survivor
last_survivor-IsLast q offset zero k last e h = let e' : k ≡ offset = omega arith in rw e' h
last_survivor-IsLast q offset (suc n) k last e h =
    last_survivor-IsLast q (offset + 1) n k _ (omega arith) (IsLast-step q offset last h)

-- Pulling the tail back behind the last store keeps the invariant.
pulled-IsValid :
    (q : StoreQueue) (last : Option ℕ)
    → IsValid q
    → IsLast q 8 last
    → IsValid (record q { tail_ptr = tail_behind q last })
pulled-IsValid q none v l = record {
  window = record {
    sized = v.sized;
    head_in = v.head_in;
    tail_in = v.head_in;
    room = omega arith;
    within = λ i hi u. absurd (cc (u, unused i hi));
  };
}
  where
    unused : (i : ℕ) → i < 8 → (entry_at q i).valid ≡ false
    unused i hi =
        let at : (head_idx q + sub_mod 8 i (head_idx q)) % 8 ≡ i = omega arith in
        sym (ap (λ x. (entry_at q x).valid) at) ∙ l (sub_mod 8 i (head_idx q)) (omega arith)
pulled-IsValid q (some m) v l = record {
  window = record {
    sized = v.sized;
    head_in = v.head_in;
    tail_in = omega arith;
    room = omega (arith, v.head_in, l.0);
    within = λ i hi u. near i hi u;
  };
}
  where
    near :
        (i : ℕ)
        → i < 8
        → (entry_at q i).valid ≡ true
        → inside q.head_ptr ((q.head_ptr + m + 1) % 16) i ≡ true
    near i hi u = elim (Bool-cases (ltb m (sub_mod 8 i (head_idx q)))) [
      | inr close ↦ ground (arith, v.head_in, l.0)
      | inl far ↦
          let at : (head_idx q + sub_mod 8 i (head_idx q)) % 8 ≡ i = omega arith in
          let gone = l.2 (sub_mod 8 i (head_idx q)) (ground arith) (omega arith) in
          absurd (cc (u, sym (ap (λ x. (entry_at q x).valid) at) ∙ gone))
    ]

-- The stores that a partial flush keeps.
abbrev pub survives : ℕ → ℕ → Entry → Bool
survives flush_tag rob_head_tag e =
    e.committed || not (is_younger e.rob_tag (flush_tag % 32) (rob_head_tag % 32))

kill-valid : (f h : ℕ) (e : Entry) → (kill_entry f h e).valid ≡ (e.valid && survives f h e)
unfolding kill_entry
kill-valid f h e = ground arith

kill-same : (f h : ℕ) (e : Entry) → (kill_entry f h e).valid ≡ true → kill_entry f h e ≡ e
unfolding kill_entry
kill-same f h e v = ground arith

-- A partial flush keeps exactly the stores that are committed or not younger than the flushed tag,
-- in their order; it leaves the tail right behind the last of them; and the invariant holds.
pub partial_flush_refines :
    (q : StoreQueue) (flush_tag rob_head_tag : ℕ)
    → IsValid q
    → let q' = partial_flush q flush_tag rob_head_tag in
      (stores q' ≡ select (survives flush_tag rob_head_tag) (stores q))
      × ((q'.tail_ptr ≡ q'.head_ptr) ⊎ ((entry_at q' ((q'.tail_ptr + 7) % 8)).valid ≡ true))
      × IsValid q'
unfolding partial_flush
partial_flush_refines q f h v = (
  stores-dropped (kill_entry f h) (survives f h) (kill-valid f h) (kill-same f h) q v,
  tight (last_survivor killed 0 8 none) last,
  pulled-IsValid killed (last_survivor killed 0 8 none) killed-IsValid last,
)
  where
    killed : StoreQueue
    killed = record q { entries = map (kill_entry f h) q.entries }

    killed-IsValid : IsValid killed
    killed-IsValid =
        dropped-IsValid (kill_entry f h) (survives f h) (kill-valid f h) (kill-same f h) q v

    last : IsLast killed 8 (last_survivor killed 0 8 none)
    last = last_survivor-IsLast killed 0 8 8 none (omega arith) (λ j lt. absurd (omega arith))

    tight :
        (l : Option ℕ)
        → IsLast killed 8 l
        → (tail_behind killed l ≡ q.head_ptr)
          ⊎ ((entry_at killed ((tail_behind killed l + 7) % 8)).valid ≡ true)
    tight none p = inl refl
    tight (some m) p =
        let at : (tail_behind killed (some m) + 7) % 8 ≡ (head_idx killed + m) % 8 = omega arith in
        inr (ap (λ x. (entry_at killed x).valid) at ∙ p.1)
