-- ===== src/Ring.antt =====
-- Circular buffers: the slots from a pointer on, in order, going round at the depth. The queues of
-- the Tomasulo back-end hold their entries in such a buffer between a head and a tail pointer.
pub mod Slots
pub mod Select
use frost.Prelude.{
  ℕ, zero, suc, ◌+◌, ◌%◌, ◌≤◌, ◌<◌, ◌≡◌, refl, ap, ap₂, sym, ◌∙◌, List, [], ◌∷◌, ◌++◌, arith,
  length, take, get_or,
}
use native.Mathlib.Nat.{mod-add-mod}

module _ {ℓ} {A : Type ℓ} (depth : ℕ) where
  -- The `n` slots from pointer `p` on.
  abbrev pub window : (ℕ → A) → ℕ → ℕ → List A
  window f p zero = []
  window f p (suc n) = f (p % depth) ∷ window f (suc p) n

  pub length-window : (f : ℕ → A) (p n : ℕ) → length (window f p n) ≡ n
  length-window f p zero = refl
  length-window f p (suc n) = ap suc (length-window f (suc p) n)

  -- A window is a shorter one followed by the rest.
  pub window-append :
      (f : ℕ → A) (p n m k : ℕ) → k ≡ n + m → window f p k ≡ window f p n ++ window f (p + n) m
  window-append f p zero m k e =
      let e' : k ≡ m = omega arith in let e'' : p + 0 ≡ p = omega arith in rw (e', e'')
  window-append f p (suc n) m zero e = absurd (omega arith)
  window-append f p (suc n) m (suc k) e = ap (◌∷◌ (f (p % depth))) (
      window-append f (suc p) n m k (omega arith)
      ∙ ap (λ q. window f (suc p) n ++ window f q m) (omega arith))

  -- The last slot comes at the end.
  pub window-suc :
      (f : ℕ → A) (p n : ℕ) → window f p (suc n) ≡ window f p n ++ f ((p + n) % depth) ∷ []
  window-suc f p n = window-append f p n 1 (suc n) (omega arith)

  -- Windows agree where the slots that they show agree.
  pub window-ext :
      (f g : ℕ → A) (p n : ℕ)
      → ((k : ℕ) → k < n → f ((p + k) % depth) ≡ g ((p + k) % depth))
      → window f p n ≡ window g p n
  window-ext f g p zero h = refl
  window-ext f g p (suc n) h =
      ap₂ ◌∷◌ (subst_index (h 0 (omega arith)))
        (window-ext f g (suc p) n (λ k lt. shift k (h (suc k) (omega arith))))
    where
      subst_index : f ((p + 0) % depth) ≡ g ((p + 0) % depth) → f (p % depth) ≡ g (p % depth)
      subst_index q = let e : p + 0 ≡ p = omega arith in rw e at q

      shift :
          (k : ℕ)
          → f ((p + suc k) % depth) ≡ g ((p + suc k) % depth)
          → f ((suc p + k) % depth) ≡ g ((suc p + k) % depth)
      shift k q = let e : p + suc k ≡ suc p + k = omega arith in rw e at q

  -- Only the pointer's remainder counts.
  pub window-congr : (f : ℕ → A) (p q n : ℕ) → p % depth ≡ q % depth → window f p n ≡ window f q n
  window-congr f p q zero e = refl
  window-congr f p q (suc n) e = ap₂ ◌∷◌ (ap f e) (window-congr f (suc p) (suc q) n next)
    where
      next : suc p % depth ≡ suc q % depth
      next =
          ap (λ x. x % depth) (omega arith)
          ∙ sym (mod-add-mod p depth 1)
          ∙ ap (λ x. (x + 1) % depth) e
          ∙ mod-add-mod q depth 1
          ∙ ap (λ x. x % depth) (omega arith)

  pub take-window : (f : ℕ → A) (p n k : ℕ) → k ≤ n → take k (window f p n) ≡ window f p k
  take-window f p n zero h = refl
  take-window f p zero (suc k) h = absurd (omega arith)
  take-window f p (suc n) (suc k) h =
      ap (◌∷◌ (f (p % depth))) (take-window f (suc p) n k (omega arith))

  pub get_or-window :
      (f : ℕ → A) (p n k : ℕ) (d : A) → k < n → get_or (window f p n) k d ≡ f ((p + k) % depth)
  get_or-window f p zero k d h = absurd (omega arith)
  get_or-window f p (suc n) zero d h = ap (λ q. f (q % depth)) (omega arith)
  get_or-window f p (suc n) (suc k) d h =
      get_or-window f (suc p) n k d (omega arith) ∙ ap (λ q. f (q % depth)) (omega arith)
