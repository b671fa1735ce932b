-- ===== src/Core/Renaming.antt =====
-- The youngest producer of each register among the instructions in flight, and how the queue's
-- operations move it.
use mathlib.Core.Option
use frost.Prelude.{
  ℕ, suc, ◌+◌, ◌%◌, ◌<◌, ◌≡◌, refl, inl, inr, Bool, ◌&&◌, List, [], ◌∷◌, ◌++◌, Option, none, some,
  arith, Bool-cases, Option-cases, if◌then◌else◌, length,
}
use frost.Rob.Types.{Entry}
use frost.Rat.Rename.{names, unless_tag}

-- The destination of an instruction.
pub record Dest : Type 0 where
  pub dest_valid : Bool
  pub dest_rf : ℕ
  pub dest_reg : ℕ

abbrev pub dest_of : Entry → Dest
dest_of e = record { dest_valid = e.dest_valid; dest_rf = e.dest_rf; dest_reg = e.dest_reg }

unfoldable pub produces : ℕ → ℕ → Dest → Bool
produces rf reg d = d.dest_valid && names d.dest_rf d.dest_reg rf reg

-- The position of the youngest instruction of a program-ordered queue that writes a register.
unfoldable pub producer : ℕ → ℕ → List Dest → Option ℕ
producer rf reg [] = none
producer rf reg (d ∷ q) = elim (producer rf reg q) [
  | some p ↦ some (suc p)
  | none ↦ if produces rf reg d then some 0 else none
]

-- A younger instruction takes the register over if it writes it.
pub producer-append :
    (rf reg : ℕ) (q : List Dest) (d : Dest)
    → producer rf reg (q ++ d ∷ [])
      ≡ (if produces rf reg d then some (length q) else producer rf reg q)
unfolding producer
producer-append rf reg [] d = refl
producer-append rf reg (d' ∷ q) d =
    rw (producer, producer-append rf reg q d)
      (elim (Bool-cases (produces rf reg d)) [ inl w ↦ rw w refl | inr w ↦ rw w refl ])

pub producer_lt : (rf reg : ℕ) (q : List Dest) (p : ℕ) → producer rf reg q ≡ some p → p < length q
unfolding producer
producer_lt rf reg [] p h = absurd (cc h)
producer_lt rf reg (d ∷ q) p h = elim (Option-cases (producer rf reg q)) [
  | inr (k, n) ↦
      let e : some (suc k) ≡ some p = (rw n at h) in ground (arith, e, producer_lt rf reg q k n)
  | inl n ↦ elim (Bool-cases (produces rf reg d)) [
    | inl w ↦ let e : some 0 ≡ some p = (rw (n, w) at h) in ground (arith, e)
    | inr w ↦ let e : none ≡ some p = (rw (n, w) at h) in ground (arith, e)
  ]
]

-- Tags are handed out round the buffer, from the tag of the oldest instruction on.
abbrev pub tag_from : ℕ → ℕ → ℕ
tag_from head p = (head + p) % 32

-- The oldest instruction leaves: what it produced is read from the register file from then on,
-- and every other register keeps its producer, one position nearer to the front.
pub producer-retire :
    (rf reg head : ℕ) (d : Dest) (q : List Dest)
    → head < 32
    → length q < 32
    → Option.map (tag_from ((head + 1) % 32)) (producer rf reg q) ≡ (
        if produces rf reg d
        then unless_tag head (Option.map (tag_from head) (producer rf reg (d ∷ q)))
        else Option.map (tag_from head) (producer rf reg (d ∷ q)))
unfolding producer
producer-retire rf reg head d q lt room = elim (Option-cases (producer rf reg q)) [
  | inl n ↦
      rw (producer, n)
        (elim (Bool-cases (produces rf reg d)) [
          | inl w ↦ rw w (let at : (head + 0) % 32 ≡ head = omega arith in ground (arith, at))
          | inr w ↦ rw w refl
        ])
  | inr (p, n) ↦
      rw (producer, n)
        (let small = producer_lt rf reg q p n in
          let at : tag_from ((head + 1) % 32) p ≡ tag_from head (suc p) = omega arith in
          elim (Bool-cases (produces rf reg d)) [
            | inl w ↦ rw (w, at) (ground arith)
            | inr w ↦ rw (w, at) refl
          ])
]
