-- ===== src/Ring/Select.antt =====
-- Selecting elements from a window: the entries of a circular buffer that are in use, in order.
use frost.Prelude.{
  ℕ, zero, suc, ◌+◌, ◌%◌, ◌≤◌, ◌<◌, ◌≡◌, refl, ap, ap₂, ◌∙◌, Bool, true, false, ◌&&◌, List, [], ◌∷◌,
  map, arith, append-nil, length, select, select-append, get_or-map_lt,
}
use frost.Ring.{window, window-append, window-suc}
use frost.Ring.Slots.{ring}

module _ {ℓ} {A : Type ℓ} (p : A → Bool) where
  -- A map that keeps the test's outcome commutes with the selection.
  pub select-map :
      (g : A → A) (xs : List A)
      → ((x : A) → p (g x) ≡ p x)
      → select p (map g xs) ≡ map g (select p xs)
  select-map g [] h = refl
  select-map g (x ∷ xs) h = ground (arith, h x, select-map g xs h)

  -- A map that only makes the test fail, on the elements that `keep` rejects, selects further.
  pub select-map_drop :
      (g : A → A) (keep : A → Bool) (xs : List A)
      → ((x : A) → p (g x) ≡ (p x && keep x))
      → ((x : A) → p (g x) ≡ true → g x ≡ x)
      → select p (map g xs) ≡ select keep (select p xs)
  select-map_drop g keep [] h k = refl
  select-map_drop g keep (x ∷ xs) h k = ground (arith, h x, k x, select-map_drop g keep xs h k)

module _ {ℓ} {A : Type ℓ} (p : A → Bool) (depth : ℕ) (f : ℕ → A) where
  pub select-window_none :
      (h n : ℕ)
      → ((k : ℕ) → k < n → p (f ((h + k) % depth)) ≡ false)
      → select p (window depth f h n) ≡ []
  select-window_none h zero none = refl
  select-window_none h (suc n) none =
      let first : p (f (h % depth)) ≡ false =
        ap (λ x. p (f (x % depth))) (omega arith) ∙ none 0 (omega arith) in
      rw first (
        select-window_none (suc h) n
          (λ k lt. ap (λ x. p (f (x % depth))) (omega arith) ∙ none (suc k) (omega arith)))

  -- Behind the last selected slot a window may be cut.
  pub select-window_cut :
      (h n m k : ℕ)
      → k ≡ n + m
      → ((j : ℕ) → j < m → p (f ((h + n + j) % depth)) ≡ false)
      → select p (window depth f h k) ≡ select p (window depth f h n)
  select-window_cut h n m k e none = rw (
    window-append depth f h n m k e,
    select-append p (window depth f h n) (window depth f (h + n) m),
    select-window_none (h + n) m none,
    append-nil,
  )

  -- Going round past a slot that is not selected.
  pub select-window_turn :
      (h n : ℕ)
      → (suc h + n) % depth ≡ h % depth
      → p (f (h % depth)) ≡ false
      → select p (window depth f (suc h) (suc n)) ≡ select p (window depth f h (suc n))
  select-window_turn h n e out =
      let last : p (f ((suc h + n) % depth)) ≡ false = ap (λ x. p (f x)) e ∙ out in
      ap (select p) (window-suc depth f (suc h) n)
      ∙ select-append p (window depth f (suc h) n) (f ((suc h + n) % depth) ∷ [])
      ∙ rw (last, out, append-nil)

module _ {ℓ} {A : Type ℓ} (blank : A) (depth : ℕ) where
  -- A loop over all entries is a map of the window.
  pub ring-map :
      (g : A → A) (es : List A) (h n : ℕ)
      → depth ≤ length es
      → 0 < depth
      → ring blank depth (map g es) h n ≡ map g (ring blank depth es h n)
  ring-map g es h zero le pos = refl
  ring-map g es h (suc n) le pos =
      ap₂ ◌∷◌ (get_or-map_lt g es (h % depth) blank blank (omega arith))
        (ring-map g es (suc h) n le pos)
