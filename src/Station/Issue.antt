-- ===== src/Station/Issue.antt =====
-- rs_model.py: `peek_issue`, `consume_issue`, `try_issue`, and which entry they choose.
use frost.Prelude.{
  ℕ, suc, ◌+◌, ◌<◌, ◌≡◌, refl, ap, ◌∙◌, Bool, true, false, not, ◌&&◌, ◌⊎◌, inl, inr, Option, none,
  some, List, [], ◌∷◌, arith, if◌then◌else◌, get_or, set, take, length, any_of, Bool-cases,
}
use frost.Station.{Station, Entry, Payload, blank_entry, is_ready}

-- The dictionary of `_build_issue_dict`, less its `valid`, which is always True.
pub record IssueInfo : Type 0 where
  pub rob_tag : ℕ
  pub src1_value : ℕ
  pub src2_value : ℕ
  pub src3_value : ℕ
  pub payload : Payload

abbrev pub build_issue_dict : Entry → IssueInfo
build_issue_dict e = record {
  rob_tag = e.rob_tag;
  src1_value = e.src1.value;
  src2_value = e.src2.value;
  src3_value = e.src3.value;
  payload = e.payload;
}

-- The loop of `peek_issue` over the slots from `i` on.
unfoldable pub ready_from : ℕ → List Entry → Option (ℕ × IssueInfo)
ready_from i [] = none
ready_from i (e ∷ es) =
    let rest = ready_from (i + 1) es in if is_ready e then some (i, build_issue_dict e) else rest

unfoldable pub peek_issue : Station → Bool → Option (ℕ × IssueInfo)
peek_issue s fu_ready = if not fu_ready then none else ready_from 0 s.entries

unfoldable pub release : Entry → Entry
release e = record e { valid = false }

-- The index is one that `peek_issue` has found.
unfoldable pub consume_issue : Station → ℕ → Station
consume_issue s i = record s {
  entries = set s.entries i (release (get_or s.entries i blank_entry));
  alloc_blocked = (if s.strict_alloc_timing then i ∷ s.alloc_blocked else s.alloc_blocked);
}

abbrev pub issue_found : Station → Option (ℕ × IssueInfo) → Option IssueInfo × Station
issue_found s none = (none, s)
issue_found s (some p) = (some p.1, consume_issue s p.0)

unfoldable pub try_issue : Station → Bool → Option IssueInfo × Station
try_issue s fu_ready = issue_found s (peek_issue s fu_ready)

ready_search :
    (i : ℕ) (es : List Entry)
    → ((k : ℕ) × (ready_from i es ≡ some (i + k, build_issue_dict (get_or es k blank_entry)))
        × (k < length es)
        × (is_ready (get_or es k blank_entry) ≡ true)
        × (any_of is_ready (take k es) ≡ false))
      ⊎ ((ready_from i es ≡ none) × (any_of is_ready es ≡ false))
unfolding ready_from
ready_search i [] = inr (refl, refl)
ready_search i (e ∷ es) = elim (Bool-cases (is_ready e)) [
  | inl h ↦
      inl (0, rw h (ap (λ x. some (x, build_issue_dict e)) (omega arith)), omega arith, h, refl)
  | inr h ↦ elim (ready_search (i + 1) es) [
    | inl (k, f, lt, r, u) ↦ inl (
      suc k,
      rw (h, f) (ap (λ x. some (x, build_issue_dict (get_or es k blank_entry))) (omega arith)),
      omega arith,
      r,
      rw h u,
    )
    | inr (f, u) ↦ inr (rw (h, f) refl, rw h u)
  ]
]

-- If the unit is ready and an entry is, an issue hands out the ready entry of lowest index and
-- makes it and no other invalid; otherwise it hands out nothing and changes nothing.
pub try_issue_chooses :
    (s : Station) (fu_ready : Bool)
    → ((k : ℕ) × ((try_issue s fu_ready).0
          ≡ some (build_issue_dict (get_or s.entries k blank_entry)))
        × (fu_ready ≡ true)
        × (is_ready (get_or s.entries k blank_entry) ≡ true)
        × (any_of is_ready (take k s.entries) ≡ false)
        × ((try_issue s fu_ready).1.entries
            ≡ set s.entries k (release (get_or s.entries k blank_entry))))
      ⊎ ((try_issue s fu_ready ≡ (none, s)) × ((fu_ready && any_of is_ready s.entries) ≡ false))
unfolding try_issue peek_issue consume_issue
try_issue_chooses s false = inr (refl, refl)
try_issue_chooses s true = elim (ready_search 0 s.entries) [
  | inr (f, u) ↦ inr (rw f refl, u)
  | inl (k, f, lt, r, u) ↦
      let g : ready_from 0 s.entries ≡ some (k, build_issue_dict (get_or s.entries k blank_entry)) =
        f ∙ ap (λ x. some (x, build_issue_dict (get_or s.entries k blank_entry))) (omega arith) in
      inl (k, rw g refl, refl, r, u, rw g refl)
]
