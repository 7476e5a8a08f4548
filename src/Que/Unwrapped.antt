-- ===== src/Que/Unwrapped.antt =====
-- src/gque.cpp: `get` and `pop` of a queue that has not wrapped.
use opengcl.Prelude.{
  ℕ, zero, suc, ◌+◌, ◌≤◌, ◌<◌, ◌≡◌, refl, sym, ap, ◌∙◌, List, [], ◌∷◌, ◌++◌, none, some, Option,
  Bool, true, false, arith, ◌==◌, length, length-snoc, ne→==, sub32,
}
use opengcl.Prelude.Outcome.{Outcome, done}
use opengcl.Que.{Cque, CircularQueue, get, pop, copy_out, next_offset}
use opengcl.Que.Layout.{slot, slot-lt, slot-eq, wrap, next_offset-slot}
use opengcl.Que.Holds.{Holds}
use opengcl.Que.Fifo.{empty_test, get-some}
use opengcl.Que.Back.{pop-last}

-- The slot after `i` lies at most an item further.
slot_step : (size n i j : ℕ) → j ≡ wrap n (i + 1) → i ≤ n → slot size j ≤ slot size i + size
slot_step size n i zero e h = omega arith
slot_step size n i (suc j) e h = let back : i ≡ j = ground arith in rw back (omega arith)

module _ {ℓ} {A : Type ℓ} where
  -- The results of two equal calls of `get` or `pop`.
  abbrev got : Cque A → Outcome (Bool × Option A × CircularQueue A)
  got c = done (true, none, some c)

  same_queue : {c c' : Cque A} → got c ≡ got c' → c ≡ c'
  same_queue e = cc e

  get-queue :
      (c : Cque A)
      → (c.head == c.tail) ≡ false
      → get false (some c) ≡ done (true, none, some (record c { head = next_offset c c.head }))
  unfolding get copy_out
  get-queue c e = rw e refl

  pop-queue :
      (c : Cque A)
      → (c.head == c.tail) ≡ false
      → pop false (some c) ≡ done (true, none, some (record c { tail = sub32 c.tail c.item_size }))
  unfolding pop copy_out
  pop-queue c e = rw e refl

module _ {ℓ} {A : Type ℓ} {c : Cque A} {n : ℕ} where
  -- A queue that holds something and has not wrapped: its tail is an item at least behind its head.
  gap :
      {bs : List A} → Holds c n bs → 0 < length bs → c.head ≤ c.tail → c.head + c.item_size ≤ c.tail
  gap {bs} h some_in le =
      let i : ℕ = h.index in
      let j : ℕ = wrap n (i + length bs) in
      ground (
        arith,
        h.laid.head_at,
        h.laid.tail_at,
        empty_test h,
        slot-lt c.item_size i j h.laid.size_pos,
        slot-lt c.item_size j i h.laid.size_pos,
        slot-eq c.item_size i j h.laid.size_pos,
      )

  apart : {bs : List A} → Holds c n bs → 0 < length bs → (c.head == c.tail) ≡ false
  apart {bs} h some_in = empty_test h ∙ ne→== (length bs) 0 (omega (arith, some_in))

  head_behind :
      {x : A} {xs : List A} → Holds c n (x ∷ xs) → c.head ≤ c.tail → next_offset c c.head ≤ c.tail
  head_behind h le =
      let at : next_offset c c.head ≡ slot c.item_size (wrap n (h.index + 1)) =
        ap (next_offset c) h.laid.head_at ∙ next_offset-slot h.laid h.index h.laid.head_in in
      rw at (
        omega (
          arith,
          gap h (omega arith) le,
          h.laid.head_at,
          slot_step c.item_size n h.index _ refl h.laid.head_in,
        ))

  tail_ahead :
      {bs : List A}
      → Holds c n bs
      → 0 < length bs
      → c.head ≤ c.tail
      → c.head ≤ sub32 c.tail c.item_size
  unfolding sub32
  tail_ahead {bs} h some_in le = ground (
    arith,
    gap h some_in le,
    h.laid.fits,
    h.laid.tail_at,
    slot-lt c.item_size (wrap n (h.index + length bs)) (suc n) h.laid.size_pos,
  )

  -- `get` of one item keeps a queue from wrapping that has not wrapped, and so does `pop`.
  pub get-unwrapped :
      {x : A} {xs : List A}
      → Holds c n (x ∷ xs)
      → c.head ≤ c.tail
      → (c' : Cque A) × (get false (some c) ≡ done (true, none, some c'))
        × Holds c' n xs
        × (c'.head ≤ c'.tail)
  get-unwrapped {x} {xs} h le =
      let (c', e, e', h') = get-some h in
      let at : c' ≡ record c { head = next_offset c c.head } =
        same_queue (sym e' ∙ get-queue c (apart h (omega arith))) in
      (c', e', h', rw at (head_behind h le))

  pub pop-unwrapped :
      (xs : List A) (x : A)
      → Holds c n (xs ++ x ∷ [])
      → c.head ≤ c.tail
      → (c' : Cque A) × (pop false (some c) ≡ done (true, none, some c'))
        × Holds c' n xs
        × (c'.head ≤ c'.tail)
  pop-unwrapped xs x h le =
      let some_in : 0 < length (xs ++ x ∷ []) = omega (arith, length-snoc xs x) in
      let (c', e, e', h') =
        pop-last {xs = xs} {x = x} h
          (omega (arith, gap h some_in le, h.laid.size_pos, h.laid.head_at, h.laid.begin_at)) in
      let at : c' ≡ record c { tail = sub32 c.tail c.item_size } =
        same_queue (sym e' ∙ pop-queue c (apart h some_in)) in
      (c', e', h', rw at (tail_ahead h some_in le))
