-- ===== src/Que/Back.antt =====
-- src/gque.cpp: `pop` from the tail, where the tail has not wrapped and where it has.
use opengcl.Prelude.{
  ℕ, suc, ◌+◌, ◌≤◌, ◌<◌, ◌≡◌, refl, sym, ap, ◌∙◌, ◌≢◌, List, [], ◌∷◌, ◌++◌, none, some, true, false,
  Bool, arith, ◌==◌, length, length-snoc, snoc-inj, eq→==, ne→==, sub32,
}
use opengcl.Prelude.Outcome.{done, fault}
use opengcl.Que.{Cque, pop, copy_out, in_area}
use opengcl.Que.Layout.{slot, slot-lt, wrap, IsLaid}
use opengcl.Que.Window.{window, window-snoc, wrap-le}
use opengcl.Que.Holds.{Holds, slots, copy_out-slot}
use opengcl.Que.Fifo.{empty_test}

nonzero {ℓ} : {A : Type ℓ} (ys : List A) → ys ≢ [] → 0 < length ys
nonzero [] z = absurd (z refl)
nonzero (y ∷ ys) z = omega arith

module _ {ℓ} {A : Type ℓ} {c : Cque A} {n : ℕ} {xs : List A} (h : Holds c n xs) where
  open h use {index, laid}

  -- Without a place for the item, the tail is moved and nothing is read.
  pub pop-dropped :
      xs ≢ []
      → pop false (some c) ≡ done (true, none, some (record c { tail = sub32 c.tail c.item_size }))
  unfolding pop copy_out
  pop-dropped ne = rw (empty_test h ∙ ne→== (length xs) 0 (omega (arith, nonzero xs ne))) refl

  pub pop-empty : (want : Bool) → xs ≡ [] → pop want (some c) ≡ done (false, none, some c)
  unfolding pop
  pop-empty want e = rw (empty_test h ∙ eq→== (length xs) 0 (ap length e))

  -- With the tail at the first slot, `pop` of an item from a queue that is not empty reads outside the
  -- item area.
  pub pop-wrapped : c.tail ≡ c.begin → xs ≢ [] → pop true (some c) ≡ fault
  unfolding pop copy_out in_area sub32
  pop-wrapped e ne = rw (empty_test h ∙ ne→== (length xs) 0 (omega (arith, nonzero xs ne)), out)
    where
      out : in_area c (sub32 c.tail c.item_size) ≡ false
      out = ground (
        arith,
        e,
        laid.begin_at,
        laid.size_pos,
        laid.fits,
        slot-lt c.item_size 0 (suc n) laid.size_pos,
        laid.end_at,
      )

-- The slot before the tail, when the tail does not stand at the first slot.
tail_back :
    (n i k : ℕ)
    → i ≤ n
    → suc k ≤ n
    → wrap n (i + suc k) ≢ 0
    → wrap n (i + suc k) ≡ suc (wrap n (i + k))
tail_back n i k h l ne = ground arith

module _ {ℓ} {A : Type ℓ} {c : Cque A} {n i k : ℕ} (laid : IsLaid c n i (suc k))
    (ahead : c.begin < c.tail) where
  pop_slot : wrap n (i + suc k) ≡ suc (wrap n (i + k))
  pop_slot =
      tail_back n i k laid.head_in laid.len_in
        λ z. omega (arith, ahead, laid.begin_at, laid.tail_at ∙ ap (slot c.item_size) z)

  pop_at : sub32 c.tail c.item_size ≡ slot c.item_size (wrap n (i + k))
  unfolding sub32
  pop_at =
      let j : ℕ = wrap n (i + k) in
      let below : suc j ≤ n =
        rw (← pop_slot) (wrap-le n i (suc k) laid.head_in (omega (arith, laid.len_in))) in
      let at : c.tail ≡ slot c.item_size (suc j) = laid.tail_at ∙ ap (slot c.item_size) pop_slot in
      omega (
        arith,
        at,
        laid.fits,
        slot-lt c.item_size (suc j) (suc n) laid.size_pos (omega (arith, below)),
      )

  popped-IsLaid : IsLaid (record c { tail = sub32 c.tail c.item_size }) n i k
  popped-IsLaid = record {
    size_pos = laid.size_pos;
    begin_at = laid.begin_at;
    end_at = laid.end_at;
    fits = laid.fits;
    head_at = laid.head_at;
    tail_at = pop_at;
    head_in = laid.head_in;
    len_in = omega (arith, laid.len_in);
  }

module _ {ℓ} {A : Type ℓ} {c : Cque A} {n : ℕ} (xs : List A) (x : A)
    (h : Holds c n (xs ++ x ∷ [])) where
  open h use {index}

  laid : IsLaid c n index (suc (length xs))
  laid = rw (length-snoc xs x) at (h.laid)

  items :
      window (slots c.mem c.item_size) n index (length xs)
        ++ slots c.mem c.item_size (wrap n (index + length xs)) ∷ []
      ≡ xs ++ x ∷ []
  items =
      sym (
        window-snoc (slots c.mem c.item_size) n index (length xs) laid.head_in
          (omega (arith, laid.len_in)))
      ∙ (rw (length-snoc xs x) at (h.items))

module _ {ℓ} {A : Type ℓ} {c : Cque A} {n : ℕ} {xs : List A} {x : A} (h : Holds c n (xs ++ x ∷ []))
    (ahead : c.begin < c.tail) where
  open h use {index}

  -- With the tail behind the first slot, `pop` succeeds, gives the last item if it is asked for, and
  -- leaves the others.
  pub pop-last :
      (c' : Cque A) × (pop true (some c) ≡ done (true, some x, some c'))
      × (pop false (some c) ≡ done (true, none, some c'))
      × Holds c' n xs
  unfolding pop copy_out
  pop-last = (
    record c { tail = sub32 c.tail c.item_size },
    rw (nonempty, copy_out-slot before (pop_at before ahead) slot_in)
        (ap (λ v. done (true, some v, some (record c { tail = sub32 c.tail c.item_size })))
          last_item),
    rw nonempty,
    record {
      index = index;
      laid = popped-IsLaid before ahead;
      items = (snoc-inj (window (slots c.mem c.item_size) n index (length xs)) xs (items xs x h)).0;
    },
  )
    where
      before : IsLaid c n index (suc (length xs))
      before = laid xs x h

      nonempty : (c.head == c.tail) ≡ false
      nonempty = empty_test h ∙ ne→== (length (xs ++ x ∷ [])) 0 (omega (arith, length-snoc xs x))

      slot_in : wrap n (index + length xs) ≤ n
      slot_in = wrap-le n index (length xs) before.head_in (omega (arith, before.len_in))

      last_item : c.mem (sub32 c.tail c.item_size) ≡ x
      last_item =
          ap c.mem (pop_at before ahead)
          ∙ (snoc-inj (window (slots c.mem c.item_size) n index (length xs)) xs (items xs x h)).1
