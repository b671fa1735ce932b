-- ===== src/Ring/Slots.antt =====
-- Circular buffers whose slots are a list: what a write of one slot does to a window.
use frost.Prelude.{
  ℕ, zero, suc, ◌+◌, ◌-◌, ◌%◌, ◌≤◌, ◌<◌, ◌≡◌, ◌≢◌, refl, sym, ap, ap₂, ◌∙◌, inl, inr, List, [], ◌∷◌,
  ◌++◌, arith, Bool-cases, ltb, get_or, set, length, get_or-set,
}
use frost.Ring.{window, window-ext, window-suc}
use native.Mathlib.Nat.{mod-eq_of_lt, mod-eq-sub-mod, mod-add-mod}

-- Fewer than `depth` steps round the buffer do not come back to the start.
add-mod-ne : (depth h k : ℕ) → suc k < depth → (h + suc k) % depth ≢ h % depth
add-mod-ne depth h k lt e = go (h % depth) small (mod-add-mod h depth (suc k) ∙ e)
  where
    small : h % depth < depth
    small = omega arith

    go : (m : ℕ) → m < depth → (m + suc k) % depth ≡ m → ⊥
    go m hm q = elim (Bool-cases (ltb (m + suc k) depth)) [
      | inl below ↦ omega (arith, q, mod-eq_of_lt {n = m + suc k} {m = depth} (ground arith))
      | inr above ↦
          let ge : depth ≤ m + suc k = ground arith in
          omega (
            arith,
            q,
            mod-eq-sub-mod {n = m + suc k} {m = depth} ge,
            mod-eq_of_lt {n = m + suc k - depth} {m = depth} (omega arith),
          )
    ]

module _ {ℓ} {A : Type ℓ} (blank : A) (depth : ℕ) where
  -- The `n` slots of a list from pointer `p` on.
  abbrev pub ring : List A → ℕ → ℕ → List A
  ring es = window depth (λ i. get_or es i blank)

  get_or-set_ne :
      (es : List A) (i j : ℕ) (e : A)
      → i < length es
      → j ≢ i
      → get_or (set es i e) j blank ≡ get_or es j blank
  get_or-set_ne es i j e lt ne = rw (get_or-set es i j e blank lt) (ground arith)

  -- A write outside the window is not seen.
  pub ring-set_outside :
      (es : List A) (h n i : ℕ) (e : A)
      → i < length es
      → ((k : ℕ) → k < n → (h + k) % depth ≢ i)
      → ring (set es i e) h n ≡ ring es h n
  ring-set_outside es h n i e lt out =
      window-ext depth (λ j. get_or (set es i e) j blank) (λ j. get_or es j blank) h n
        (λ k hk. get_or-set_ne es i ((h + k) % depth) e lt (out k hk))

  -- A write `p` steps from the start of a window writes its element `p`.
  pub ring-set :
      (es : List A) (h n p i : ℕ) (e : A)
      → depth ≤ length es
      → n ≤ depth
      → p < depth
      → i ≡ (h + p) % depth
      → ring (set es i e) h n ≡ set (ring es h n) p e
  ring-set es h zero p i e hl hn hp q = refl
  ring-set es h (suc n) zero i e hl hn hp q =
      let q' : i ≡ h % depth = q ∙ ap (λ x. x % depth) (omega arith) in
      let lt : i < length es = omega arith in
      ap₂ ◌∷◌ (rw (get_or-set es i (h % depth) e blank lt) (ground arith)) (
        ring-set_outside es (suc h) n i e lt (λ k hk o.
          add-mod-ne depth h k (omega arith) (ap (λ x. x % depth) (omega arith) ∙ o ∙ q')))
  ring-set es h (suc n) (suc p) i e hl hn hp q =
      ap₂ ◌∷◌
        (get_or-set_ne es i (h % depth) e (omega arith)
          (λ o. add-mod-ne depth h p hp (sym q ∙ sym o)))
        (ring-set es (suc h) n p i e hl (omega arith) (omega arith)
          (q ∙ ap (λ x. x % depth) (omega arith)))

  -- A write just behind a window extends it.
  pub ring-push :
      (es : List A) (h n i : ℕ) (e : A)
      → i < length es
      → n < depth
      → i ≡ (h + n) % depth
      → ring (set es i e) h (suc n) ≡ ring es h n ++ e ∷ []
  ring-push es h n i e lt small at =
      window-suc depth (λ j. get_or (set es i e) j blank) h n
      ∙ ap₂ (λ xs x. xs ++ x ∷ []) (ring-set_outside es h n i e lt (λ k hk o. fewer k hk (o ∙ at)))
          (ap (λ j. get_or (set es i e) j blank) (sym at)
            ∙ get_or-set es i i e blank lt
            ∙ ground arith)
    where
      fewer : (k : ℕ) → k < n → (h + k) % depth ≡ (h + n) % depth → ⊥
      fewer k hk o =
          let step : (h + k + suc (n - k - 1)) % depth ≡ (h + k) % depth =
            ap (λ x. x % depth) (omega arith) ∙ sym o in
          add-mod-ne depth (h + k) (n - k - 1) (omega arith) step
