-- ===== src/Event/Places.antt =====
-- src/gevent.cpp: reading and writing an item of the queue of listeners where it stands.
use opengcl.Prelude.{
  ℕ, suc, ◌+◌, ◌≤◌, ◌<◌, ◌≡◌, refl, sym, ap, ap₂, ◌∙◌, some, false, List, [], ◌∷◌, ◌++◌, ◌≢◌, arith,
  length, length-append,
}
use opengcl.Que.{Cque, is_empty}
use opengcl.Que.Layout.{slot, slot-eq, wrap, IsLaid}
use opengcl.Que.Window.{window, window_cong, wrap_next, wrap-le}
use opengcl.Que.Holds.{slots, poke_self}
use opengcl.Que.Peek.Steps.{not_empty}
use opengcl.Event.{set_item}

-- The queue `c`, with its head at slot `i`, holds `xs`.
pub record HoldsAt {A : Type 0} (c : Cque A) (n i : ℕ) (xs : List A) : Type 0 where
  pub laid : IsLaid c n i (length xs)
  pub items : window (slots c.mem c.item_size) n i (length xs) ≡ xs

wrap_away : (n i t : ℕ) → i ≤ n → t < n → wrap n (i + suc t) ≢ i
wrap_away n i t h l e = ground arith

module _ {A : Type 0} where
  head_inj : {x y : A} {l m : List A} → x ∷ l ≡ y ∷ m → x ≡ y
  head_inj e = cc e

  tail_inj : {x y : A} {l m : List A} → x ∷ l ≡ y ∷ m → l ≡ m
  tail_inj e = cc e

  -- The item after `pre`.
  pub window_item :
      (f : ℕ → A) (n i : ℕ) (pre : List A) (x : A) (post : List A)
      → i ≤ n
      → length (pre ++ x ∷ post) ≤ n
      → window f n i (length (pre ++ x ∷ post)) ≡ pre ++ x ∷ post
      → f (wrap n (i + length pre)) ≡ x
  window_item f n i [] x post hi hk e =
      let w : wrap n (i + 0) ≡ i = ground arith in rw w (head_inj e)
  window_item f n i (y ∷ pre) x post hi hk e =
      let more : length pre ≤ length (pre ++ x ∷ post) =
        omega (arith, length-append pre (x ∷ post)) in
      ap f (sym (wrap_next n i (length pre) hi (omega (arith, hk, more))))
      ∙ window_item f n (wrap n (i + 1)) pre x post (wrap-le n i 1 hi (omega arith))
          (omega (arith, hk)) (tail_inj e)

  -- Another item in the place after `pre`.
  window_replace :
      (f g : ℕ → A) (n i : ℕ) (pre : List A) (x y : A) (post : List A)
      → i ≤ n
      → length (pre ++ x ∷ post) ≤ n
      → g (wrap n (i + length pre)) ≡ y
      → ((t : ℕ) → t ≤ n → t ≢ wrap n (i + length pre) → g t ≡ f t)
      → window f n i (length (pre ++ x ∷ post)) ≡ pre ++ x ∷ post
      → window g n i (length (pre ++ y ∷ post)) ≡ pre ++ y ∷ post
  window_replace f g n i [] x y post hi hk gy other e =
      let w : wrap n (i + 0) ≡ i = ground arith in
      ap₂ ◌∷◌ (rw w at gy) (
        window_cong g f n (wrap n (i + 1)) (length post) (wrap-le n i 1 hi (omega arith))
          (omega (arith, hk))
          (λ t ht.
            other (wrap n (wrap n (i + 1) + t))
              (wrap-le n (wrap n (i + 1)) t (wrap-le n i 1 hi (omega arith)) (omega (arith, hk)))
              (λ same.
                wrap_away n i t hi (omega (arith, hk))
                  (sym (wrap_next n i t hi (omega (arith, hk))) ∙ same ∙ w)))
        ∙ tail_inj e)
  window_replace f g n i (z ∷ pre) x y post hi hk gy other e =
      let more : length pre ≤ length (pre ++ x ∷ post) =
        omega (arith, length-append pre (x ∷ post)) in
      let w : wrap n (wrap n (i + 1) + length pre) ≡ wrap n (i + suc (length pre)) =
        wrap_next n i (length pre) hi (omega (arith, hk, more)) in
      ap₂ ◌∷◌
        (other i hi (λ same. wrap_away n i (length pre) hi (omega (arith, hk, more)) (sym same))
          ∙ head_inj e)
        (window_replace f g n (wrap n (i + 1)) pre x y post (wrap-le n i 1 hi (omega arith))
          (omega (arith, hk)) (ap g w ∙ gy) (λ t ht ne. other t ht (λ same. ne (same ∙ sym w)))
          (tail_inj e))

  pub full :
      {c : Cque A} {n i : ℕ} (pre : List A) (x : A) (post : List A)
      → HoldsAt c n i (pre ++ x ∷ post)
      → is_empty (some c) ≡ false
  full [] x post h = not_empty (record { index = _; laid = h.laid; items = h.items })
  full (y ∷ pre) x post h = not_empty (record { index = _; laid = h.laid; items = h.items })

  same_length :
      (pre : List A) (x y : A) (post : List A) → length (pre ++ y ∷ post) ≡ length (pre ++ x ∷ post)
  same_length pre x y post = length-append pre (y ∷ post) ∙ sym (length-append pre (x ∷ post))

  -- Writing the item after `pre`.
  pub set_item-HoldsAt :
      {c : Cque A} {n i : ℕ} (pre : List A) (x y : A) (post : List A)
      → HoldsAt c n i (pre ++ x ∷ post)
      → HoldsAt (set_item (slot c.item_size (wrap n (i + length pre))) y c) n i (pre ++ y ∷ post)
  set_item-HoldsAt {c} {n} {i} pre x y post h =
      let e = same_length pre x y post in
      record {
        laid = record {
          size_pos = h.laid.size_pos;
          begin_at = h.laid.begin_at;
          end_at = h.laid.end_at;
          fits = h.laid.fits;
          head_at = h.laid.head_at;
          tail_at = rw e h.laid.tail_at;
          head_in = h.laid.head_in;
          len_in = rw e h.laid.len_in;
        };
        items =
            window_replace (slots c.mem c.item_size) _ n i pre x y post h.laid.head_in h.laid.len_in
              (poke_self c.mem (slot c.item_size (wrap n (i + length pre))) y refl)
              (λ t ht ne.
                ground (arith, slot-eq c.item_size t (wrap n (i + length pre)) h.laid.size_pos, ne))
              h.items;
      }
