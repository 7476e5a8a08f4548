-- ===== src/Event/Wrapped.antt =====
-- src/gevent.cpp: `__squeez_listeners` on a queue whose tail stands at the first slot.
use opengcl.Prelude.{
  ℕ, suc, ◌+◌, ◌^◌, ◌≤◌, ◌≡◌, refl, none, some, true, false, List, [], ◌∷◌, ◌++◌, sub32, ne→==,
  ◌==◌, arith,
}
use opengcl.Prelude.Outcome.{done, fault}
use opengcl.Que.{Cque, pop, in_area}
use opengcl.Que.Layout.{slot-lt}
use opengcl.Que.Holds.{Holds}
use opengcl.Que.Back.{pop-dropped}
use opengcl.Que.Peek.{last}
use opengcl.Event.Squeez.{dead-peek, dead-last}
use opengcl.Event.{EventBlock, is_null, dead, trim_head, trim_tail, squeez_listeners}

module _ {n : ℕ} {q : Cque EventBlock} (eb : EventBlock) (bs : List EventBlock) (gone : EventBlock)
    (h : Holds q n (eb ∷ (bs ++ gone ∷ []))) (wrapped : q.tail ≡ q.begin)
    (low : q.end + q.item_size ≤ 2 ^ 32) where
  -- The queue after `pop`, which does not wrap.
  abbrev popped : Cque EventBlock
  popped = record q { tail = sub32 q.tail q.item_size }

  moved : ℕ
  moved = sub32 q.tail q.item_size

  back : ℕ
  back = sub32 moved q.item_size

  head_inside : q.head + q.item_size ≤ q.end
  head_inside = omega (
    arith,
    h.laid.head_at,
    h.laid.end_at,
    slot-lt q.item_size h.index (suc n) h.laid.size_pos (omega (arith, h.laid.head_in)),
  )

  moved_away : (q.head == moved) ≡ false
  unfolding moved sub32
  moved_away = ne→== q.head (sub32 q.tail q.item_size) λ e.
      omega (arith, e, wrapped, h.laid.begin_at, h.laid.head_at, h.laid.size_pos, head_inside, low)

  not_first : (moved == q.begin) ≡ false
  unfolding moved sub32
  not_first =
      ne→== (sub32 q.tail q.item_size) q.begin
        λ e. omega (arith, e, wrapped, h.laid.begin_at, h.laid.size_pos, head_inside, low)

  back_outside : in_area popped back ≡ false
  unfolding in_area back moved sub32
  back_outside = ground (arith, wrapped, h.laid.begin_at, h.laid.size_pos, head_inside, low)

  dead_popped : dead (some popped) (last (some popped)) ≡ fault
  unfolding last dead back moved
  dead_popped = rw (moved_away, not_first, back_outside) refl

  tail_fault : is_null gone.name ≡ true → (f : ℕ) → trim_tail (suc (suc f)) (some q) ≡ fault
  unfolding trim_tail
  tail_fault was_dead f =
      rw (dead-last (eb ∷ bs) gone h, was_dead, pop-dropped h (λ e. cc e), dead_popped) refl

  -- On a queue of listeners with the tail at the first slot, whose first listener is not dead and whose last
  -- one is, and whose block ends an item below 2 ^ 32, with fuel for two rounds: `pop` moves the tail by an
  -- item, so that `last` gives an address outside the item area, and `__squeez_listeners`, which calls both
  -- to trim the queue from its tail, reads there.
  pub squeez_listeners-wrapped :
      is_null eb.name ≡ false
      → is_null gone.name ≡ true
      → (q' : Cque EventBlock) × (p : ℕ) × (pop false (some q) ≡ done (true, none, some q'))
        × (last (some q') ≡ some p)
        × (in_area q' p ≡ false)
        × ((f : ℕ) → squeez_listeners (suc (suc f)) (some q) ≡ fault)
  unfolding squeez_listeners trim_head last moved back
  squeez_listeners-wrapped alive was_dead = (
    popped,
    back,
    pop-dropped h (λ e. cc e),
    rw (moved_away, not_first) refl,
    back_outside,
    λ f. rw (dead-peek h, alive, tail_fault was_dead f) refl,
  )
