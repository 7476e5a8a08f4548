-- ===== src/Que/Peek/Steps.antt =====
-- src/gque.cpp: one step of `peek_next` and of `peek_prev`, and where `peek` and `last` begin.
use opengcl.Prelude.{
  ℕ, zero, suc, ◌+◌, ◌≤◌, ◌<◌, ◌≡◌, refl, ap, ◌∙◌, List, [], ◌∷◌, none, some, true, false, arith,
  ◌==◌, if◌then◌else◌, sub32, length, ne→==,
}
use opengcl.Que.{Cque, is_empty}
use opengcl.Que.Layout.{slot, slot-eq, slot-lt, wrap, IsLaid}
use opengcl.Que.Window.{wrap-le}
use opengcl.Que.Holds.{Holds}
use opengcl.Que.Fifo.{empty_test}
use opengcl.Que.Front.{prev}
use opengcl.Que.Peek.{peek, last, next_of, peek_next, prev_of, peek_prev}

module _ {ℓ} {A : Type ℓ} {c : Cque A} {n i k : ℕ} (v : IsLaid c n i k) where
  open v use {size_pos, begin_at, end_at, head_at, tail_at, head_in, len_in}

  next_of-slot :
      (j : ℕ)
      → j ≤ n
      → next_of c (slot c.item_size j) ≡ (
          if wrap n (j + 1) == wrap n (i + k)
          then none
          else some (slot c.item_size (wrap n (j + 1))))
  unfolding next_of
  next_of-slot j h = ground (
    arith,
    begin_at,
    end_at,
    tail_at,
    slot-lt c.item_size j (suc n) size_pos,
    slot-eq c.item_size (suc j) (suc n) size_pos,
    slot-eq c.item_size (wrap n (j + 1)) (wrap n (i + k)) size_pos,
  )

  prev_of-slot :
      (j : ℕ)
      → j ≤ n
      → prev_of c (slot c.item_size j)
        ≡ (if j == i then none else some (slot c.item_size (prev n j)))
  unfolding prev_of
  prev_of-slot zero h = ground (
    arith,
    begin_at,
    end_at,
    head_at,
    slot-lt c.item_size 0 (suc n) size_pos,
    slot-eq c.item_size 0 i size_pos,
  )
  prev_of-slot (suc j) h = ground (
    arith,
    begin_at,
    end_at,
    head_at,
    slot-lt c.item_size (suc j) (suc n) size_pos,
    slot-lt c.item_size 0 (suc j) size_pos,
    slot-eq c.item_size (suc j) i size_pos,
  )

  module _ (full : is_empty (some c) ≡ false) where
    -- One step forward, to the next item or past the last.
    pub peek_next-more :
        (t : ℕ)
        → suc t < k
        → peek_next (some c) (some (slot c.item_size (wrap n (i + t))))
          ≡ some (slot c.item_size (wrap n (i + suc t)))
    unfolding peek_next
    peek_next-more t h = rw full (
        next_of-slot (wrap n (i + t)) (wrap-le n i t head_in (omega (arith, len_in)))
        ∙ ground (arith, head_in, len_in))

    pub peek_next-last :
        (t : ℕ) → suc t ≡ k → peek_next (some c) (some (slot c.item_size (wrap n (i + t)))) ≡ none
    unfolding peek_next
    peek_next-last t h = rw full (
        next_of-slot (wrap n (i + t)) (wrap-le n i t head_in (omega (arith, len_in)))
        ∙ ground (arith, head_in, len_in))

    pub peek_prev-more :
        (t : ℕ)
        → suc t < k
        → peek_prev (some c) (some (slot c.item_size (wrap n (i + suc t))))
          ≡ some (slot c.item_size (wrap n (i + t)))
    unfolding peek_prev
    peek_prev-more t h = rw full (
        prev_of-slot (wrap n (i + suc t)) (wrap-le n i (suc t) head_in (omega (arith, len_in)))
        ∙ ground (arith, head_in, len_in))

    pub peek_prev-first : peek_prev (some c) (some (slot c.item_size (wrap n (i + 0)))) ≡ none
    unfolding peek_prev
    peek_prev-first = rw full (
        prev_of-slot (wrap n (i + 0)) (wrap-le n i 0 head_in (omega (arith, len_in)))
        ∙ ground (arith, head_in, len_in))

  last_offset :
      (j : ℕ)
      → wrap n (i + k) ≡ j
      → j ≤ n
      → sub32 (if c.tail == c.begin then c.end else c.tail) c.item_size
        ≡ slot c.item_size (prev n j)
  unfolding sub32
  last_offset zero e h =
      ground (arith, begin_at, end_at, v.fits, tail_at ∙ ap (slot c.item_size) e, size_pos)
  last_offset (suc j) e h = ground (
    arith,
    begin_at,
    end_at,
    v.fits,
    tail_at ∙ ap (slot c.item_size) e,
    size_pos,
    slot-lt c.item_size (suc j) (suc n) size_pos,
  )

  -- `last` finds the last item also where the tail has wrapped.
  pub last-slot :
      (m : ℕ)
      → k ≡ suc m
      → is_empty (some c) ≡ false
      → last (some c) ≡ some (slot c.item_size (wrap n (i + m)))
  unfolding last
  last-slot m e full = rw full (
      ap some (
        last_offset (wrap n (i + k)) refl (wrap-le n i k head_in (omega (arith, len_in)))
        ∙ ap (slot c.item_size) (ground (arith, head_in, len_in))))

module _ {ℓ} {A : Type ℓ} {c : Cque A} {n : ℕ} where
  pub not_empty : {x : A} {xs : List A} → Holds c n (x ∷ xs) → is_empty (some c) ≡ false
  unfolding is_empty
  not_empty {xs} h = empty_test h ∙ ne→== (suc (length xs)) 0 (omega arith)

  pub empty : Holds c n [] → is_empty (some c) ≡ true
  unfolding is_empty
  empty h = empty_test h

  pub peek-none : Holds c n [] → peek (some c) ≡ none
  unfolding peek
  peek-none h = rw (empty h)

  pub last-none : Holds c n [] → last (some c) ≡ none
  unfolding last
  last-none h = rw (empty h)

  pub peek-head :
      {x : A} {xs : List A} (h : Holds c n (x ∷ xs))
      → peek (some c) ≡ some (slot c.item_size (wrap n (h.index + 0)))
  unfolding peek
  peek-head h =
      rw (not_empty h)
        (ap some (h.laid.head_at ∙ ap (slot c.item_size) (ground (arith, h.laid.head_in))))
