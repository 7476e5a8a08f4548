-- ===== src/Que/Window.antt =====
-- src/gque.cpp: the items of a queue, as a list read round the ring of slots.
use opengcl.Prelude.{
  ℕ, zero, suc, ◌+◌, ◌≤◌, ◌<◌, ◌≡◌, refl, ap, ap₂, ◌∙◌, ◌≢◌, List, [], ◌∷◌, ◌++◌, arith,
}
use opengcl.Que.Layout.{wrap}

pub wrap_next : (n i k : ℕ) → i ≤ n → k ≤ n → wrap n (wrap n (i + 1) + k) ≡ wrap n (i + suc k)
wrap_next n i k h l = ground arith

pub wrap-ne : (n i t k : ℕ) → i ≤ n → t < k → k ≤ n → wrap n (i + t) ≢ wrap n (i + k)
wrap-ne n i t k h l m e = ground arith

pub wrap-le : (n i k : ℕ) → i ≤ n → k ≤ suc n → wrap n (i + k) ≤ n
wrap-le n i k h l = ground arith

module _ {ℓ} {A : Type ℓ} where
  abbrev pub window : (ℕ → A) → ℕ → ℕ → ℕ → List A
  window f n i zero = []
  window f n i (suc k) = f i ∷ window f n (wrap n (i + 1)) k

  pub window_cong :
      (f g : ℕ → A) (n i k : ℕ)
      → i ≤ n
      → k ≤ suc n
      → ((t : ℕ) → t < k → f (wrap n (i + t)) ≡ g (wrap n (i + t)))
      → window f n i k ≡ window g n i k
  window_cong f g n i zero hi hk h = refl
  window_cong f g n i (suc k) hi hk h = ap₂ ◌∷◌ (first (h 0 (omega arith))) (
      window_cong f g n (wrap n (i + 1)) k (wrap-le n i 1 hi (omega arith)) (omega arith)
        λ t ht. rw (wrap_next n i t hi (omega arith)) (h (suc t) (omega arith)))
    where
      first : f (wrap n (i + 0)) ≡ g (wrap n (i + 0)) → f i ≡ g i
      first e = let w : wrap n (i + 0) ≡ i = ground arith in rw w at e

  -- The last item stands at the slot before the tail.
  pub window-snoc :
      (f : ℕ → A) (n i k : ℕ)
      → i ≤ n
      → k ≤ n
      → window f n i (suc k) ≡ window f n i k ++ f (wrap n (i + k)) ∷ []
  window-snoc f n i zero hi hk = let w : wrap n (i + 0) ≡ i = ground arith in rw w refl
  window-snoc f n i (suc k) hi hk =
      ap (λ l. f i ∷ l)
        (window-snoc f n (wrap n (i + 1)) k (wrap-le n i 1 hi (omega arith)) (omega arith)
          ∙ ap (λ j. window f n (wrap n (i + 1)) k ++ f j ∷ []) (wrap_next n i k hi (omega arith)))
