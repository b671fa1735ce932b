-- ===== src/Cdb/Arbitration.antt =====
-- The arbitration as a choice of the two most urgent requests.
use frost.Prelude.{
  and_false, ℕ, zero, suc, ◌<◌, ◌≡◌, refl, ap, ◌∙◌, Bool, true, false, not, ◌&&◌, ◌||◌, Option,
  none, some, inl, inr, List, [], ◌∷◌, arith, ◌==◌, if◌then◌else◌, get_or, get_elem?, take, select,
  any_of, length, length-set, leb, replicate, get_or-replicate, get_or-set, Bool-cases, ==-refl,
}
use frost.Cdb.{FuComplete, priority_order, request, first_valid, differs, lane, grant, arbitrate}

abbrev pub requests : List FuComplete → ℕ → Bool
requests reqs i = (request reqs i).valid

-- The units that request the bus, the most urgent first.
abbrev pub requesting : List FuComplete → List ℕ → List ℕ
requesting reqs order = select (requests reqs) order

abbrev pub is_in : ℕ → List ℕ → Bool
is_in i xs = any_of (λ x. x == i) xs

abbrev distinct : List ℕ → Bool
distinct [] = true
distinct (x ∷ xs) = not (is_in x xs) && distinct xs

first_of_all :
    (reqs : List FuComplete) (order : List ℕ)
    → first_valid reqs none order ≡ get_elem? (requesting reqs order) 0
unfolding first_valid
first_of_all reqs [] = refl
first_of_all reqs (i ∷ order) = elim (Bool-cases (requests reqs i)) [
  | inl h ↦ rw h refl
  | inr h ↦ rw h (first_of_all reqs order)
]

-- A winner that does not occur excludes nothing.
first_absent :
    (reqs : List FuComplete) (w : ℕ) (order : List ℕ)
    → is_in w order ≡ false
    → first_valid reqs (some w) order ≡ get_elem? (requesting reqs order) 0
unfolding first_valid
first_absent reqs w [] h = refl
first_absent reqs w (i ∷ order) h = elim (Bool-cases (i == w)) [
  | inl e ↦ absurd (ground arith)
  | inr e ↦ elim (Bool-cases (requests reqs i)) [
    | inl r ↦ rw (e, r) refl
    | inr r ↦ rw (e, r) (first_absent reqs w order (ground arith))
  ]
]

first_after :
    (reqs : List FuComplete) (order : List ℕ) (w : Option ℕ)
    → distinct order ≡ true
    → w ≡ get_elem? (requesting reqs order) 0
    → first_valid reqs w order ≡ get_elem? (requesting reqs order) 1
unfolding first_valid
first_after reqs [] w h e = refl
first_after reqs (i ∷ order) w h e = elim (Bool-cases (requests reqs i)) [
  | inl r ↦
      let p : w ≡ some i = e ∙ rw r refl in
      ap (λ x. first_valid reqs x (i ∷ order)) p
      ∙ rw (r, ==-refl i) (first_absent reqs i order (ground arith))
  | inr r ↦
      let p : w ≡ get_elem? (requesting reqs order) 0 = e ∙ rw r refl in
      rw (r, and_false (differs w i)) (first_after reqs order w (ground arith) p)
]

-- The grants are those of the chosen units.
abbrev pub chosen : Option ℕ → ℕ → Bool
chosen none i = false
chosen (some w) i = w == i

grant-at :
    (gs : List Bool) (w : Option ℕ) (i : ℕ)
    → ((v : ℕ) → w ≡ some v → v < length gs)
    → get_or (grant gs w) i false ≡ (chosen w i || get_or gs i false)
grant-at gs none i below = refl
grant-at gs (some w) i below =
    get_or-set gs w i true false (below w refl) ∙ as_or (w == i) (get_or gs i false)
  where
    as_or : (b c : Bool) → (if b then true else c) ≡ (b || c)
    as_or true c = refl
    as_or false c = refl

length-grant : (gs : List Bool) (w : Option ℕ) → length (grant gs w) ≡ length gs
length-grant gs none = refl
length-grant gs (some w) = length-set gs w true

-- Every unit of the priority order is one of the eight.
select_none : (q p : ℕ → Bool) (xs : List ℕ) → any_of q xs ≡ false → any_of q (select p xs) ≡ false
select_none q p [] h = refl
select_none q p (x ∷ xs) h = ground (arith, select_none q p xs)

element_none :
    (q : ℕ → Bool) (xs : List ℕ) (k v : ℕ)
    → any_of q xs ≡ false
    → get_elem? xs k ≡ some v
    → q v ≡ false
element_none q [] k v h e = ground arith
element_none q (x ∷ xs) zero v h e =
    let p : x ≡ v = cc in let f : q x ≡ false = ground arith in rw (← p) f
element_none q (x ∷ xs) (suc k) v h e = element_none q xs k v (ground arith) e

unit_lt :
    (reqs : List FuComplete) (k v : ℕ)
    → get_elem? (requesting reqs priority_order) k ≡ some v
    → v < 8
unit_lt reqs k v e =
    let h =
      element_none (λ x. leb 8 x) (requesting reqs priority_order) k v
        (select_none (λ x. leb 8 x) (requests reqs) priority_order refl) e in
    ground arith

two_chosen :
    (i : ℕ) (xs : List ℕ) (b : Bool)
    → b ≡ false
    → (chosen (get_elem? xs 1) i || (chosen (get_elem? xs 0) i || b)) ≡ is_in i (take 2 xs)
two_chosen i [] b h = h
two_chosen i (x ∷ []) b h = rw h refl
two_chosen i (x ∷ (y ∷ xs)) b h = ground arith

-- Among eight requests the arbiter puts the most urgent on lane 0 and the next on lane 1, leaves a
-- lane silent if there is none, and grants exactly those units.
pub arbitrate_chooses :
    (reqs : List FuComplete)
    → length reqs ≡ 8
    → let order = requesting reqs priority_order in
      (grants : List Bool) × (arbitrate reqs
        ≡ some (lane reqs (get_elem? order 0), (lane reqs (get_elem? order 1), grants)))
      × (length grants ≡ 8)
      × ((i : ℕ) → get_or grants i false ≡ is_in i (take 2 order))
unfolding arbitrate
arbitrate_chooses reqs l =
    let order = requesting reqs priority_order in
    let none_granted = replicate 8 false in
    let gs = grant none_granted (get_elem? order 0) in
    let first = first_of_all reqs priority_order in
    let second = first_after reqs priority_order (get_elem? order 0) refl refl in
    (
      grant gs (get_elem? order 1),
      rw (l, first, second) refl,
      length-grant gs (get_elem? order 1) ∙ length-grant none_granted (get_elem? order 0),
      λ i.
          grant-at gs (get_elem? order 1) i (λ v e.
            omega (arith, unit_lt reqs 1 v e, length-grant none_granted (get_elem? order 0)))
          ∙ ap (λ b. chosen (get_elem? order 1) i || b)
              (grant-at none_granted (get_elem? order 0) i (λ v e. unit_lt reqs 0 v e))
          ∙ two_chosen i order (get_or none_granted i false) (get_or-replicate 8 i false),
    )
