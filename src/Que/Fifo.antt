-- ===== src/Que/Fifo.antt =====
-- src/gque.cpp: `put` at the tail and `get` at the head, on every branch.
use opengcl.Prelude.{
  ℕ, suc, ◌+◌, ◌≤◌, ◌<◌, ◌≡◌, refl, sym, ap, ap₂, ◌∙◌, List, [], ◌∷◌, ◌++◌, Option, none, some,
  true, false, Bool, arith, ◌==◌, length, length-snoc, eq→==, ne→==,
}
use opengcl.Prelude.Outcome.{done}
use opengcl.Que.{Cque, put, get, copy_out, next_offset}
use opengcl.Que.Layout.{slot, slot-eq, wrap, next_offset-slot}
use opengcl.Que.Window.{window, window-snoc, wrap-ne, wrap-le, wrap_next}
use opengcl.Que.Holds.{Holds, slots, poke, copy_in-slot, copy_out-slot, window-poke, poke_self}

module _ {ℓ} {A : Type ℓ} {c : Cque A} {n : ℕ} {xs : List A} (h : Holds c n xs) where
  open h use {index, laid}

  tail_next : next_offset c c.tail ≡ slot c.item_size (wrap n (index + suc (length xs)))
  tail_next =
      ap (next_offset c) laid.tail_at
      ∙ next_offset-slot laid (wrap n (index + length xs))
          (wrap-le n index (length xs) laid.head_in (omega (arith, laid.len_in)))
      ∙ ap (slot c.item_size) (ground (arith, laid.head_in, laid.len_in))

  pub full_test : (next_offset c c.tail == c.head) ≡ (length xs == n)
  full_test =
      ap₂ ◌==◌ tail_next laid.head_at
      ∙ slot-eq c.item_size (wrap n (index + suc (length xs))) index laid.size_pos
      ∙ ground (arith, laid.head_in, laid.len_in)

  pub empty_test : (c.head == c.tail) ≡ (length xs == 0)
  empty_test =
      ap₂ ◌==◌ laid.head_at laid.tail_at
      ∙ slot-eq c.item_size index (wrap n (index + length xs)) laid.size_pos
      ∙ ground (arith, laid.head_in, laid.len_in)

  pub put-full : (item : Option A) → length xs ≡ n → put item (some c) ≡ done (false, some c)
  unfolding put
  put-full item e = rw (full_test ∙ eq→== (length xs) n e)

  tail_in : wrap n (index + length xs) ≤ n
  tail_in = wrap-le n index (length xs) laid.head_in (omega (arith, laid.len_in))

  tail_items :
      (x : A)
      → length xs < n
      → window (slots (poke c.mem c.tail x) c.item_size) n index (suc (length xs)) ≡ xs ++ x ∷ []
  tail_items x room =
      window-snoc (slots (poke c.mem c.tail x) c.item_size) n index (length xs) laid.head_in
        laid.len_in
      ∙ ap₂ (λ l y. l ++ y ∷ [])
          (window-poke laid laid.tail_at x index (length xs)
              (λ t ht. wrap-ne n index t (length xs) laid.head_in ht laid.len_in) laid.head_in
              (omega (arith, room))
            ∙ h.items)
          (poke_self c.mem c.tail x (sym laid.tail_at))

  -- A `put` where there is room leaves the head and the items where they are.
  pub put_at :
      (x : A)
      → length xs < n
      → (c' : Cque A) × (put (some x) (some c) ≡ done (true, some c'))
        × (h' : Holds c' n (xs ++ x ∷ [])) × (h'.index ≡ index)
        × (c'.item_size ≡ c.item_size)
  unfolding put
  put_at x room = (
    record c { mem = poke c.mem c.tail x; tail = next_offset c c.tail },
    rw (full_test ∙ ne→== (length xs) n (omega arith), copy_in-slot laid laid.tail_at x tail_in),
    record {
      index = index;
      laid = rw (length-snoc xs x) (record {
        size_pos = laid.size_pos;
        begin_at = laid.begin_at;
        end_at = laid.end_at;
        fits = laid.fits;
        head_at = laid.head_at;
        tail_at = tail_next;
        head_in = laid.head_in;
        len_in = room;
      });
      items = rw (length-snoc xs x) (tail_items x room);
    },
    refl,
    refl,
  )

  pub put-room :
      (x : A)
      → length xs < n
      → (c' : Cque A) × (put (some x) (some c) ≡ done (true, some c')) × Holds c' n (xs ++ x ∷ [])
  put-room x room = let (c', e, h', at, size) = put_at x room in (c', e, h')

  pub get-empty : (want : Bool) → xs ≡ [] → get want (some c) ≡ done (false, none, some c)
  unfolding get
  get-empty want e = rw (empty_test ∙ eq→== (length xs) 0 (ap length e))

module _ {ℓ} {A : Type ℓ} {c : Cque A} {n : ℕ} {x : A} {xs : List A} (h : Holds c n (x ∷ xs)) where
  open h use {index, laid}

  pub get-some :
      (c' : Cque A) × (get true (some c) ≡ done (true, some x, some c'))
      × (get false (some c) ≡ done (true, none, some c'))
      × Holds c' n xs
  unfolding get copy_out
  get-some = (
    record c { head = next_offset c c.head },
    rw (nonempty, copy_out-slot laid laid.head_at laid.head_in)
        (ap (λ v. done (true, some v, some (record c { head = next_offset c c.head }))) first),
    rw nonempty,
    record {
      index = wrap n (index + 1);
      laid = record {
        size_pos = laid.size_pos;
        begin_at = laid.begin_at;
        end_at = laid.end_at;
        fits = laid.fits;
        head_at = ap (next_offset c) laid.head_at ∙ next_offset-slot laid index laid.head_in;
        tail_at =
            laid.tail_at
            ∙ ap (slot c.item_size)
                (sym (wrap_next n index (length xs) laid.head_in (omega (arith, laid.len_in))));
        head_in = wrap-le n index 1 laid.head_in (omega (arith, laid.len_in));
        len_in = omega (arith, laid.len_in);
      };
      items = cc (h.items);
    },
  )
    where
      nonempty : (c.head == c.tail) ≡ false
      nonempty = empty_test h ∙ ne→== (suc (length xs)) 0 (omega arith)

      first : c.mem c.head ≡ x
      first = ap c.mem laid.head_at ∙ cc (h.items)
