-- ===== src/Que/Front.antt =====
-- src/gque.cpp: `push` in front of the head, with room and on a full queue.
use opengcl.Prelude.{
  ℕ, zero, suc, ◌+◌, ◌-◌, ◌^◌, ◌≤◌, ◌<◌, ◌≡◌, refl, sym, ap, ap₂, ◌∙◌, ◌≢◌, ◌⊎◌, inl, inr, List, [],
  ◌∷◌, some, true, false, arith, ◌==◌, if◌then◌else◌, length,
}
use opengcl.Prelude.Outcome.{done, fault}
use opengcl.Que.{Cque, push, push_offset, copy_in, in_area}
use opengcl.Que.Layout.{
  slot, slot-eq, slot-lt, wrap, IsLaid, push_offset-slot, push_offset-first, push_offset-wrapped,
}
use opengcl.Que.Window.{window}
use opengcl.Que.Holds.{Holds, slots, poke, copy_in-slot, window-poke, poke_self}

-- The slot before slot `i`.
abbrev pub prev : ℕ → ℕ → ℕ
prev n i = if i == 0 then n else i - 1

prev_wrap : (n i : ℕ) → i ≤ n → wrap n (prev n i + 1) ≡ i
prev_wrap n i h = ground arith

prev_tail : (n i k : ℕ) → i ≤ n → k < n → wrap n (prev n i + suc k) ≡ wrap n (i + k)
prev_tail n i k h l = ground arith

prev_full : (n i : ℕ) → i ≤ n → wrap n (i + n) ≡ prev n i
prev_full n i h = ground arith

prev-le : (n i : ℕ) → i ≤ n → prev n i ≤ n
prev-le n i h = ground arith

prev-ne : (n i t k : ℕ) → i ≤ n → t < k → k ≤ n → wrap n (i + t) ≡ prev n i → k ≡ n → t ≡ n
prev-ne n i t k h l m e f = ground arith

prev-away : (n i t k : ℕ) → i ≤ n → t < k → k < n → wrap n (i + t) ≢ prev n i
prev-away n i t k h l m e = ground arith

-- The offset that `push` computes is that of the slot before the head, if the head stands behind the
-- first slot or the items are no larger than the control block.
push_offset-prev {ℓ} :
    {A : Type ℓ} {c : Cque A} {n : ℕ} (i : ℕ) {k : ℕ}
    → IsLaid c n i k
    → (c.item_size ≤ 20) ⊎ (c.begin < c.head)
    → push_offset c c.head ≡ slot c.item_size (prev n i)
push_offset-prev {c} {n} zero laid (inl small) =
    ap (push_offset c) laid.head_at ∙ push_offset-first laid small
push_offset-prev zero laid (inr ahead) = absurd (omega (arith, laid.head_at, laid.begin_at))
push_offset-prev {c} {n} (suc i) laid safe =
    ap (push_offset c) laid.head_at
    ∙ push_offset-slot laid (suc i) laid.head_in (omega arith)
    ∙ ap (slot c.item_size) (ground arith)

module _ {ℓ} {A : Type ℓ} {c : Cque A} {n : ℕ} {xs : List A} (h : Holds c n xs) where
  open h use {index, laid}

  module _ (safe : (c.item_size ≤ 20) ⊎ (c.begin < c.head)) where
    pos_at : push_offset c c.head ≡ slot c.item_size (prev n index)
    pos_at = push_offset-prev index laid safe

    not_full_test : 0 < n → (push_offset c c.head == c.head) ≡ false
    not_full_test some_room =
        ap₂ ◌==◌ pos_at laid.head_at
        ∙ slot-eq c.item_size (prev n index) index laid.size_pos
        ∙ ground (arith, laid.head_in)

    -- What `push` leaves behind, with room and without.
    pushed : A → Cque A
    pushed x = record c { mem = poke c.mem (push_offset c c.head) x; head = push_offset c c.head }

    push-pushed : (x : A) → 0 < n → push (some x) (some c) ≡ done (true, some (pushed x))
    unfolding push pushed
    push-pushed x p =
        rw (not_full_test p, copy_in-slot laid pos_at x (prev-le n index laid.head_in))

    -- On a queue with room, `push` of an item succeeds and puts it in front of the others, if the items
    -- are no larger than the control block or the head stands behind the first slot.
    pub push-room :
        (x : A)
        → length xs < n
        → (c' : Cque A) × (push (some x) (some c) ≡ done (true, some c')) × Holds c' n (x ∷ xs)
    unfolding pushed
    push-room x room = (
      pushed x,
      push-pushed x (omega arith),
      record {
        index = prev n index;
        laid = record {
          size_pos = laid.size_pos;
          begin_at = laid.begin_at;
          end_at = laid.end_at;
          fits = laid.fits;
          head_at = pos_at;
          tail_at =
              laid.tail_at
              ∙ ap (slot c.item_size) (sym (prev_tail n index (length xs) laid.head_in room));
          head_in = prev-le n index laid.head_in;
          len_in = room;
        };
        items = ap₂ ◌∷◌ (poke_self c.mem (push_offset c c.head) x (sym pos_at)) (
            ap
              (λ j.
                window (slots (poke c.mem (push_offset c c.head) x) c.item_size) n j (length xs))
              (prev_wrap n index laid.head_in)
            ∙ window-poke laid pos_at x index (length xs)
                (λ t ht. prev-away n index t (length xs) laid.head_in ht room) laid.head_in
                (omega (arith, room))
            ∙ h.items);
      },
    )

    -- On a full queue of capacity above 0, if the items are no larger than the control block (20 bytes) or the
    -- head stands behind the first slot, `push` of an item succeeds and leaves the queue empty: its test for a
    -- full queue compares the new head with the old head.
    pub push-full :
        (x : A)
        → length xs ≡ n
        → 0 < n
        → (c' : Cque A) × (push (some x) (some c) ≡ done (true, some c')) × Holds c' n []
    unfolding pushed
    push-full x full p = (
      pushed x,
      push-pushed x p,
      record {
        index = prev n index;
        laid = record {
          size_pos = laid.size_pos;
          begin_at = laid.begin_at;
          end_at = laid.end_at;
          fits = laid.fits;
          head_at = pos_at;
          tail_at = laid.tail_at ∙ ap (slot c.item_size) tail_slot;
          head_in = prev-le n index laid.head_in;
          len_in = omega arith;
        };
        items = refl;
      },
    )
      where
        tail_slot : wrap n (index + length xs) ≡ wrap n (prev n index + 0)
        tail_slot = ground (arith, laid.head_in)

  -- With items larger than the control block, and the head at the first slot, `push` of an item
  -- writes outside the item area.
  pub push-fault : (x : A) → 20 < c.item_size → c.head ≡ c.begin → push (some x) (some c) ≡ fault
  unfolding push copy_in in_area
  push-fault x big e = ground (
    arith,
    at,
    laid.fits,
    laid.end_at,
    laid.begin_at,
    e,
    slot-lt c.item_size 0 (suc n) laid.size_pos,
  )
    where
      at : push_offset c c.head ≡ 2 ^ 32 + 20 - c.item_size
      at = ap (push_offset c) (omega (arith, e, laid.begin_at)) ∙ push_offset-wrapped laid big
