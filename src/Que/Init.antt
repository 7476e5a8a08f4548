-- ===== src/Que/Init.antt =====
-- src/gque.cpp: `init` on a queue with and without a block, and what becomes of the old block.
use native.Mathlib.Nat.{mul-le-mul_left}
use opengcl.Prelude.{
  ℕ, suc, ◌+◌, ◌*◌, ◌%◌, ◌^◌, ◌<◌, ◌≡◌, refl, sym, ap, ◌∙◌, ◌≢◌, [], List, none, some, Option, true,
  arith, add32, ne→==, eq→==, ◌-◌,
}
use opengcl.Que.{Cque, Owner, new_queue, fresh_block, allocate, destroy, init, capacity, clear}
use opengcl.Que.Layout.{slot}
use opengcl.Que.Holds.{Holds}
use opengcl.Que.Counts.{Holds-Counted}
use opengcl.Que.Refine.{clear-Holds}

module _ {ℓ} {A : Type ℓ} (n size : ℕ) (contents : ℕ → A) where
  -- A fresh block of a size that fits in an `unsigned` is an empty queue.
  pub fresh_block-Holds :
      0 < size → slot size (suc n) < 2 ^ 32 → Holds (fresh_block n size contents) n []
  unfolding fresh_block add32
  fresh_block-Holds p fits = record {
    index = 0;
    laid = record {
      size_pos = p;
      begin_at = refl;
      end_at = end_at;
      fits = fits;
      head_at = omega arith;
      tail_at = ground arith;
      head_in = omega arith;
      len_in = omega arith;
    };
    items = refl;
  }
    where
      small : n + 1 < 2 ^ 32
      small = omega (arith, fits, mul-le-mul_left {m = 1} {n = size} (suc n) p)

      end_at : (20 + size * ((n + 1) % 2 ^ 32) % 2 ^ 32) % 2 ^ 32 ≡ slot size (suc n)
      end_at = let e : (n + 1) % 2 ^ 32 ≡ suc n = omega (arith, small) in rw e (omega (arith, fits))

  module _ (o : Owner A) (p : 0 < size) (fits : slot size (suc n) < 2 ^ 32) (pos : 0 < n) where
    -- With a capacity above 0 that is not the present one, an item size above 0, a block size below
    -- 2 ^ 32 and memory to be had, `init` succeeds with one block more, and the queue is empty.
    pub init-fresh :
        capacity o.m_q ≢ n
        → (c : Cque A) × (init n size (some contents) o
            ≡ (true, record { m_q = some c; live = o.live + 1 }))
          × Holds c n []
    unfolding init allocate
    init-fresh other = (
      fresh_block n size contents,
      rw (ne→== (capacity o.m_q) n other, ne→== n 0 (omega (arith, pos))),
      fresh_block-Holds p fits,
    )

    -- Where `init` so allocates for a queue that has a block, it forgets the old one: deleting the
    -- queue afterwards leaves as many blocks as before, and without the `init` one fewer.
    pub init-leaks :
        {c : Cque A} {m : ℕ} {xs : List A}
        → o.m_q ≡ some c
        → Holds c m xs
        → m ≢ n
        → ((destroy (init n size (some contents) o).1).live ≡ o.live)
          × ((destroy o).live ≡ o.live - 1)
    unfolding destroy
    init-leaks e h ne =
        let other : capacity o.m_q ≢ n =
          λ eq. ne (sym (Holds-Counted h).capacity_is ∙ ap capacity (sym e) ∙ eq) in
        let (c', done, held) = init-fresh other in (rw done (omega arith), ground (arith, e))

module _ {ℓ} {A : Type ℓ} {c : Cque A} {n : ℕ} {xs : List A} (h : Holds c n xs) where
  -- `init` with the capacity that the queue has empties it and succeeds. The item size stays what it
  -- was, whatever size is asked for.
  pub init-same :
      (size live : ℕ) (alloc : Option (ℕ → A))
      → (c' : Cque A) × (init n size alloc (record { m_q = some c; live = live })
          ≡ (true, record { m_q = some c'; live = live }))
        × Holds c' n []
        × (c'.item_size ≡ c.item_size)
  unfolding init clear
  init-same size live alloc = (
    record c { head = c.begin; tail = c.begin },
    rw (eq→== (capacity (some c)) n (Holds-Counted h).capacity_is),
    clear-Holds h,
    refl,
  )

  -- `init` with capacity 0 deletes the block.
  pub init-zero :
      (size live : ℕ) (alloc : Option (ℕ → A))
      → 0 < n
      → init 0 size alloc (record { m_q = some c; live = live })
        ≡ (true, record { m_q = none; live = live - 1 })
  unfolding init destroy
  init-zero size live alloc p =
      rw (ne→== (capacity (some c)) 0 (omega (arith, p, (Holds-Counted h).capacity_is)))

-- A queue that is made with a capacity above 0 is empty and has that capacity.
pub new_queue-Holds :
    {A : Type 0} (n size : ℕ) (contents : ℕ → A)
    → 0 < size
    → slot size (suc n) < 2 ^ 32
    → 0 < n
    → (c : Cque A) × (new_queue n size (some contents) ≡ some c) × Holds c n []
unfolding new_queue capacity
new_queue-Holds {A} n size contents p fits pos =
    let (c, e, h) =
      init-fresh n size contents (record { m_q = none; live = 0 }) p fits pos differ in
    (c, ap (λ r. r.1.m_q) e, h)
  where
    differ : capacity {A = A} none ≢ n
    differ e = omega (arith, e, pos)
