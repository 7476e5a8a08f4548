-- ===== src/Que/Peek/Traverse.antt =====
-- src/gque.cpp: going through a queue by `peek_next` from the front, and by `peek_prev` from the back.
use mathlib.Core.List.{reverse, reverse-append}
use opengcl.Prelude.{
  ℕ, zero, suc, ◌+◌, ◌≤◌, ◌<◌, ◌≡◌, refl, sym, ap, ◌∙◌, ◌≢◌, List, [], ◌∷◌, none, some, false,
  arith, sub32, length, ne→==,
}
use opengcl.Que.{Cque, is_empty, in_area}
use opengcl.Que.Layout.{slot, slot-lt, wrap, IsLaid}
use opengcl.Que.Window.{window, window-snoc}
use opengcl.Que.Holds.{Holds, slots}
use opengcl.Que.Peek.Steps.{
  empty, peek_next-more, peek_next-last, peek_prev-more, peek_prev-first, last-slot, not_empty,
  peek-none, last-none, peek-head,
}
use opengcl.Que.Peek.{head, peek, last, peek_next, peek_prev, walk}

module _ {ℓ} {A : Type ℓ} {c : Cque A} {n i k : ℕ} (v : IsLaid c n i k)
    (full : is_empty (some c) ≡ false) where
  open v use {head_in, len_in}

  walk_forward :
      (m f t : ℕ)
      → t + suc m ≡ k
      → suc m < f
      → walk (peek_next (some c)) c.mem f (some (slot c.item_size (wrap n (i + t))))
        ≡ some (window (slots c.mem c.item_size) n (wrap n (i + t)) (suc m))
  unfolding walk
  walk_forward m zero t e h = absurd (omega arith)
  walk_forward m (suc zero) t e h = absurd (omega arith)
  walk_forward zero (suc (suc f)) t e h = rw (peek_next-last v full t (omega arith)) refl
  walk_forward (suc m) (suc (suc f)) t e h =
      rw
        (
          peek_next-more v full t (omega arith),
          walk_forward m (suc f) (suc t) (omega arith) (omega arith),
        )
        (ap
          (λ j. some (
            slots c.mem c.item_size (wrap n (i + t))
            ∷ window (slots c.mem c.item_size) n j (suc m)))
          (ground (arith, head_in, len_in)))

  walk_back :
      (m f : ℕ)
      → suc m ≤ k
      → suc m < f
      → walk (peek_prev (some c)) c.mem f (some (slot c.item_size (wrap n (i + m))))
        ≡ some (reverse (window (slots c.mem c.item_size) n i (suc m)))
  unfolding walk
  walk_back m zero e h = absurd (omega arith)
  walk_back m (suc zero) e h = absurd (omega arith)
  walk_back zero (suc (suc f)) e h =
      rw (peek_prev-first v full)
        (ap (λ j. some (slots c.mem c.item_size j ∷ [])) (ground (arith, head_in, len_in)))
  walk_back (suc m) (suc (suc f)) e h =
      rw
        (
          peek_prev-more v full m (omega (arith, e)),
          walk_back m (suc f) (omega arith) (omega arith),
        )
        (ap some (
          sym (
            ap reverse
              (window-snoc (slots c.mem c.item_size) n i (suc m) head_in (omega (arith, len_in)))
            ∙ reverse-append (window (slots c.mem c.item_size) n i (suc m))
                (slots c.mem c.item_size (wrap n (i + suc m)) ∷ []))))

module _ {ℓ} {A : Type ℓ} {c : Cque A} {n : ℕ} where
  -- Going from `peek` by `peek_next` visits the items held, in order, and ends at the null pointer
  -- after at most one step more than there are items.
  pub peek_next_visits :
      {xs : List A}
      → Holds c n xs
      → (f : ℕ) → length xs < f
      → walk (peek_next (some c)) c.mem f (peek (some c)) ≡ some xs
  unfolding walk
  peek_next_visits h zero le = absurd (omega arith)
  peek_next_visits {xs = []} h (suc f) le = rw (peek-none h)
  peek_next_visits {xs = x ∷ xs} h (suc f) le =
      ap (walk (peek_next (some c)) c.mem (suc f)) (peek-head h)
      ∙ walk_forward h.laid (not_empty h) (length xs) (suc f) 0 (omega arith) le
      ∙ ap some (
          ap (λ j. window (slots c.mem c.item_size) n j (length (x ∷ xs)))
            (ground (arith, h.laid.head_in))
          ∙ h.items)

  -- Going from `last` by `peek_prev` visits the items held from the last to the first, and ends at the
  -- null pointer after at most one step more than there are items.
  pub peek_prev_visits :
      {xs : List A}
      → Holds c n xs
      → (f : ℕ) → length xs < f
      → walk (peek_prev (some c)) c.mem f (last (some c)) ≡ some (reverse xs)
  unfolding walk
  peek_prev_visits h zero le = absurd (omega arith)
  peek_prev_visits {xs = []} h (suc f) le = rw (last-none h)
  peek_prev_visits {xs = x ∷ xs} h (suc f) le =
      ap (walk (peek_prev (some c)) c.mem (suc f)) (last-slot h.laid (length xs) refl (not_empty h))
      ∙ walk_back h.laid (not_empty h) (length xs) (suc f) (omega arith) le
      ∙ ap (λ l. some (reverse l)) h.items

  -- `begin()` is `head()`, so the loop from `begin()` to `end()` visits an item of an empty queue:
  -- whatever the slot at the head holds.
  pub begin-of_empty :
      Holds c n []
      → (f : ℕ)
      → walk (peek_next (some c)) c.mem (suc (suc f)) (head (some c)) ≡ some (c.mem c.head ∷ [])
  unfolding walk head peek_next
  begin-of_empty h f = rw (empty h)

  -- Without an argument `peek_prev` finds the last item, unless the tail stands at the first slot.
  pub peek_prev-null :
      {x : A} {xs : List A}
      → Holds c n (x ∷ xs)
      → c.tail ≢ c.begin
      → peek_prev (some c) none ≡ last (some c)
  unfolding peek_prev last
  peek_prev-null h ne = rw (not_empty h, ne→== c.tail c.begin ne)

  -- With the tail at the first slot, and the queue not empty, `peek_prev` without an argument gives a
  -- pointer outside the item area.
  pub peek_prev-null_wrapped :
      {x : A} {xs : List A}
      → Holds c n (x ∷ xs)
      → c.tail ≡ c.begin
      → (p : ℕ) × (peek_prev (some c) none ≡ some p) × (in_area c p ≡ false)
  unfolding peek_prev in_area sub32
  peek_prev-null_wrapped h e = (
    sub32 c.tail c.item_size,
    rw (not_empty h),
    ground (
      arith,
      e,
      h.laid.begin_at,
      h.laid.size_pos,
      h.laid.fits,
      h.laid.end_at,
      slot-lt c.item_size 0 (suc n) h.laid.size_pos,
    ),
  )
