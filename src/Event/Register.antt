-- ===== src/Event/Register.antt =====
-- src/gevent.cpp: that `__find_event_name` finds what `__register_event_name` has registered.
use opengcl.Prelude.{
  ℕ, suc, ◌+◌, ◌≤◌, ◌<◌, ◌≡◌, refl, ap, inl, inr, Option, none, some, Bool-cases, true, false, List,
  [], ◌∷◌, ◌++◌, ltb, length-snoc, arith, length, length-append,
}
use opengcl.Prelude.Outcome.{done}
use opengcl.Que.{Cque}
use opengcl.Que.Layout.{slot, wrap}
use opengcl.Que.Holds.{Holds}
use opengcl.Que.Fifo.{put_at, put-full}
use opengcl.Que.Peek.{peek}
use opengcl.Que.Peek.Steps.{last-slot}
use opengcl.Event.Names.{has_text, truncated_lem}
use opengcl.Event.Unique.{Unique, Unique-replace, Unique-snoc, has_text-parts}
use opengcl.Event.Places.{HoldsAt, full, set_item-HoldsAt}
use opengcl.Event.{
  same_text, set_item, find_event_name, put_name, use_empty_slot, register_event_name,
  event_name_length_max,
}
use opengcl.Event.Find.{first_with, find_first, find_none, same_text_refl, has_text-left}
use opengcl.Event.Others.{find_event_name-mem, find_event_name-snoc, set_item-find_slot}

-- What registering comes to: `r` is returned, and `find_event_name` gives it from then on.
pub record Registered (fuel : ℕ) (text : List ℕ) (xs : List (List ℕ)) (n : ℕ) (c : Cque (List ℕ))
    : Type 0 where
  pub result : Option ℕ
  pub queue : Cque (List ℕ)
  pub names : List (List ℕ)
  pub returns : register_event_name fuel text (some c) ≡ done (result, some queue)
  pub holds : Holds queue n names
  pub finds : find_event_name fuel text (some queue) ≡ done result
  pub refused : result ≡ none → length xs ≡ n
  pub longer : length names ≤ suc (length xs)
  pub again : (p : ℕ) → find_event_name fuel text (some c) ≡ done (some p) → result ≡ some p
  pub unique : Unique xs → Unique names
  pub others :
      (t : List ℕ)
      → same_text [] t ≡ false
      → same_text text t ≡ false
      → find_event_name fuel t (some queue) ≡ find_event_name fuel t (some c)

module _ (fuel : ℕ) (text : List ℕ) (short : length text ≤ event_name_length_max)
    {c : Cque (List ℕ)} {n : ℕ} (xs : List (List ℕ)) (h : Holds c n xs)
    (le : suc (length xs) < fuel) where
  pub placed : {ys : List (List ℕ)} → xs ≡ ys → HoldsAt c n h.index ys
  placed split =
      let whole : HoldsAt c n h.index xs = record { laid = h.laid; items = h.items } in
      rw split at whole

  pub enough :
      (rest : List (List ℕ)) (x : List ℕ) (post : List (List ℕ))
      → xs ≡ rest ++ x ∷ post
      → length rest < fuel
  enough rest x post split = omega (arith, le, ap length split, length-append rest (x ∷ post))

  known : has_text text xs ≡ true → Registered fuel text xs n c
  unfolding register_event_name
  known e =
      let (rest, x, post, split, same, none_before) = first_with text xs e in
      let found =
        find_first text fuel rest x post (placed split) same none_before
          (enough rest x post split) in
      record {
        result = some (slot c.item_size (wrap n (h.index + length rest)));
        queue = c;
        names = xs;
        returns = rw found refl;
        holds = h;
        finds = found;
        refused = λ z. absurd (cc z);
        longer = omega arith;
        again = λ p e. cc (e, found);
        unique = λ u. u;
        others = λ t used other. refl;
      }

  module _ (missing : has_text text xs ≡ false) where
    not_there : find_event_name fuel text (some c) ≡ done none
    not_there = find_none text fuel h missing (omega (arith, le))

    -- The name goes into the first slot that is empty.
    emptied : has_text [] xs ≡ true → Registered fuel text xs n c
    unfolding register_event_name use_empty_slot find_event_name
    emptied e =
        let (rest, x, post, split, same, none_before) = first_with [] xs e in
        let found =
          find_first [] fuel rest x post (placed split) same none_before
            (enough rest x post split) in
        let p : ℕ = slot c.item_size (wrap n (h.index + length rest)) in
        let filled = set_item-HoldsAt rest x text post (placed split) in
        let before : has_text text rest ≡ false =
          has_text-left text rest (x ∷ post) (rw split at missing) in
        record {
          result = some p;
          queue = set_item p text c;
          names = rest ++ text ∷ post;
          returns = rw (not_there, found, truncated_lem event_name_length_max text short) refl;
          holds = record { index = h.index; laid = filled.laid; items = filled.items };
          finds =
              find_first text fuel rest text post filled (same_text_refl text) before
                (enough rest x post split);
          refused = λ z. absurd (cc z);
          longer = omega (
            arith,
            ap length split,
            length-append rest (x ∷ post),
            length-append rest (text ∷ post),
          );
          again = λ p' e'. absurd (cc (e', not_there));
          unique = λ u.
              Unique-replace rest x text post (rw split at u)
                (λ used. has_text-parts text rest x post (rw split at missing));
          others = λ t used other.
              set_item-find_slot t text p c
                (rw (find_event_name-mem [] fuel p h (omega (arith, le)) found) used) other fuel
                (peek (some c));
        }

    module _ (no_empty : has_text [] xs ≡ false) where
      no_slot : find_event_name fuel [] (some c) ≡ done none
      no_slot = find_none [] fuel h no_empty (omega (arith, le))

      -- The name goes behind the others.
      appended : length xs < n → Registered fuel text xs n c
      unfolding register_event_name use_empty_slot put_name
      appended room =
          let (c', e, h', at, size) = put_at h text room in
          let at_end : HoldsAt c' n h'.index (xs ++ text ∷ []) = record {
            laid = h'.laid;
            items = h'.items;
          } in
          let here = last-slot h'.laid (length xs) (length-snoc xs text) (full xs text [] at_end) in
          record {
            result = some (slot c'.item_size (wrap n (h'.index + length xs)));
            queue = c';
            names = xs ++ text ∷ [];
            returns =
                rw (not_there, no_slot, truncated_lem event_name_length_max text short, e, here)
                  refl;
            holds = h';
            finds =
                find_first text fuel xs text [] at_end (same_text_refl text) missing
                  (omega (arith, le));
            refused = λ z. absurd (cc z);
            longer = omega (arith, length-snoc xs text);
            again = λ p' e'. absurd (cc (e', not_there));
            unique = λ u. Unique-snoc xs text u missing;
            others = λ t used other. find_event_name-snoc text t fuel h h' at size other le;
          }

      turned_away : length xs ≡ n → Registered fuel text xs n c
      unfolding register_event_name use_empty_slot put_name
      turned_away at_end = record {
        result = none;
        queue = c;
        names = xs;
        returns =
            rw
              (
                not_there,
                no_slot,
                truncated_lem event_name_length_max text short,
                put-full h (some text) at_end,
              )
              refl;
        holds = h;
        finds = not_there;
        refused = λ z. at_end;
        longer = omega arith;
        again = λ p' e'. absurd (cc (e', not_there));
        unique = λ u. u;
        others = λ t used other. refl;
      }

  pub registers : Registered fuel text xs n c
  registers = elim (Bool-cases (has_text text xs)) [
    | inl there ↦ known there
    | inr missing ↦ elim (Bool-cases (has_text [] xs)) [
      | inl slot_free ↦ emptied missing slot_free
      | inr no_empty ↦ elim (Bool-cases (ltb (length xs) n)) [
        | inl room ↦ appended missing no_empty (ground (arith, room))
        | inr none_left ↦ turned_away missing no_empty (ground (arith, none_left, h.laid.len_in))
      ]
    ]
  ]

  -- For a text of at most 15 characters, on a queue of names that holds `xs`, and on fuel above their number
  -- and one more: `__register_event_name` ends, and what it returns is what `__find_event_name` finds for
  -- that text in the queue that it leaves, which holds names again. It returns null only where the queue was
  -- full. Every other text that is not empty is found where it was, or is not found as before.
  pub find_event_name-register_event_name :
      (r : Option ℕ) × (c' : Cque (List ℕ)) × (ys : List (List ℕ)) × (register_event_name fuel text
          (some c)
        ≡ done (r, some c'))
      × Holds c' n ys
      × (find_event_name fuel text (some c') ≡ done r)
      × (r ≡ none → length xs ≡ n)
      × ((t : List ℕ)
          → same_text [] t ≡ false
          → same_text text t ≡ false
          → find_event_name fuel t (some c') ≡ find_event_name fuel t (some c))
  find_event_name-register_event_name =
      let t = registers in
      (t.result, t.queue, t.names, t.returns, t.holds, t.finds, t.refused, t.others)
