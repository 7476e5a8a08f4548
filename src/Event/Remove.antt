-- ===== src/Event/Remove.antt =====
-- src/gevent.cpp: one call of `off` against the state that Event/Spec.antt has.
use opengcl.Prelude.{
  ℕ, suc, ◌≤◌, ◌<◌, ◌≡◌, refl, sym, ap, ◌∙◌, inl, inr, Option, some, Bool, Bool-cases, true, false,
  not, List, [], ◌∷◌, ◌==◌, ==→eq, if◌then◌else◌, arith, length,
}
use opengcl.Prelude.Outcome.{done}
use opengcl.Que.{Cque}
use opengcl.Que.Holds.{Holds}
use opengcl.Event.{EventBlock, same_text, set_item, find_event_name, event_name_length_max}
use opengcl.Event.Names.{same_text_lem}
use opengcl.Event.Unique.{other_way}
use opengcl.Event.Erase.{erased}
use opengcl.Event.Off.{without, named, is_gone, off-Holds}
use opengcl.Event.Shown.{IsSlot, AreNamed, shown, same_slot, without-shown, named-shown}
use opengcl.Event.Moved.{Keeps, moved_but, AreNamed-without}
use opengcl.Event.Spec.{State, remove, removed, in_use, step_spec, step}
use opengcl.Event.Sim.{Sim, Stepped, emitter, off_unknown, names_le, is_known, not_known, IsAt-slot}

length-without : (p : ℕ) (l : Option ℕ) (bs : List EventBlock) → length (without p l bs) ≤ length bs
unfolding without
length-without p l [] = omega arith
length-without p l (eb ∷ bs) = elim (Bool-cases (is_gone p l eb)) [
  | inl gone ↦ rw gone (omega (arith, length-without p l bs))
  | inr stays ↦ rw stays (omega (arith, length-without p l bs))
]

module _ {W : Type 0} (act : ℕ → ℕ → W → W) {fuel m n a b : ℕ} (enough : suc m < fuel)
    (enough' : suc n < fuel) {s : State} (S : Sim fuel m n a b s) where
  open S use {names, queue, texts, blocks, names_hold, queue_holds}

  module _ (text : List ℕ) (l : Option ℕ) (w : W) (used : same_text [] text ≡ false) (p : ℕ)
      (found : find_event_name fuel text (some names) ≡ done (some p)) where
    left : List EventBlock
    left = without p l blocks

    left_shown : removed text l s.entries ≡ shown names.mem left
    unfolding left
    left_shown =
        ap (removed text l) S.entries
        ∙ sym (without-shown (IsAt-slot act enough enough' S text p found) l blocks S.named_well)

    left_named : AreNamed fuel names left
    unfolding left
    left_named = AreNamed-without fuel names p l blocks S.named_well

    left_count : (named p left == 0) ≡ not (in_use text (removed text l s.entries))
    left_count =
        named-shown (IsAt-slot act enough enough' S text p found) left left_named
        ∙ ap (λ es. not (in_use text es)) (sym left_shown)

    -- What `off` gives, but for what it does to the name.
    off_gives :
        (b : Bool)
        → (named p left == 0) ≡ b
        → (q' : Cque EventBlock) × (step act fuel (remove text l) (emitter S) w
            ≡ done (
              true,
              record {
                m_names = if b then some (set_item p [] names) else some names;
                m_listeners = some q';
              },
              w,
            ))
          × Holds q' n left
    unfolding step left
    off_gives b e =
        let (q', given, h') =
          off-Holds fuel names p text l queue_holds found
            (IsAt-slot act enough enough' S text p found).there in
        (
          q',
          rw given (
              ap
                (λ (v : Bool). done (
                  true,
                  record {
                    m_names = if v then some (set_item p [] names) else some names;
                    m_listeners = some q';
                  },
                  w,
                ))
                e),
          h',
        )

    -- The slots in use, but for `p`, after the name in `p` is given up.
    Keeps-but :
        ((t : List ℕ)
          → same_text [] t ≡ false
          → same_text text t ≡ false
          → find_event_name fuel t (some (set_item p [] names))
            ≡ find_event_name fuel t (some names))
        → (q : ℕ) → (q == p) ≡ false
        → IsSlot fuel names (some q)
        → Keeps fuel names (set_item p [] names) (some q)
    Keeps-but others q differ slot =
        let other : same_text (names.mem q) text ≡ false =
          sym (same_slot (IsAt-slot act enough enough' S text p found) q slot) ∙ differ in
        let same : (set_item p [] names).mem q ≡ names.mem q = rw differ refl in
        rw same (
          (
            (others (names.mem q) slot.1 (other_way (names.mem q) text other) ∙ slot.0, slot.1),
            refl,
          ))

    few_left : length left ≤ b
    unfolding left
    few_left = omega (arith, S.few_blocks, length-without p l blocks)

    -- With a listener left, the name stays.
    remove_some :
        in_use text (removed text l s.entries) ≡ true
        → s.known text ≡ true
        → Stepped fuel m n a b
            (step act fuel (remove text l) (emitter S) w)
            (step_spec act (remove text l) s w)
    unfolding step_spec
    remove_some still known =
        let (q', given, h') = off_gives false (left_count ∙ ap not still) in
        rw known (record {
          after = record {
            names = names;
            queue = q';
            texts = texts;
            blocks = left;
            names_hold = names_hold;
            queue_holds = h';
            unique = S.unique;
            named_well = left_named;
            entries = left_shown;
            known = λ t u. rw still (S.known t u);
            few_names = S.few_names;
            few_blocks = few_left;
          };
          gives = given;
        })

    -- Without one, the name goes.
    remove_last :
        in_use text (removed text l s.entries) ≡ false
        → s.known text ≡ true
        → length text ≤ event_name_length_max
        → Stepped fuel m n a b
            (step act fuel (remove text l) (emitter S) w)
            (step_spec act (remove text l) s w)
    unfolding step_spec
    remove_last none_left known short =
        let none_named : (named p left == 0) ≡ true = left_count ∙ ap not none_left in
        let (q', given, h') = off_gives true none_named in
        let (ys, holds, unique, len, gone, others) =
          erased fuel text short texts names_hold (names_le act enough enough' S) p S.unique used
            found in
        let (named', same) =
          moved_but fuel names (set_item p [] names) p (Keeps-but others) left
            (==→eq (named p left) 0 none_named) left_named in
        rw known (record {
          after = record {
            names = set_item p [] names;
            queue = q';
            texts = ys;
            blocks = left;
            names_hold = holds;
            queue_holds = h';
            unique = unique;
            named_well = named';
            entries = left_shown ∙ sym same;
            known = λ t u. elim (Bool-cases (same_text text t)) [
              | inl this ↦
                  rw
                    (
                      none_left,
                      this,
                      ap (λ a. find_event_name fuel a (some (set_item p [] names)))
                            (sym (same_text_lem text t this))
                          ∙ gone,
                    )
                    refl
              | inr other ↦ rw (none_left, other, others t u other) (S.known t u)
            ];
            few_names = omega (arith, len, S.few_names);
            few_blocks = few_left;
          };
          gives = given;
        })

  pub remove-step :
      (text : List ℕ) (l : Option ℕ) (w : W)
      → same_text [] text ≡ false
      → length text ≤ event_name_length_max
      → Stepped fuel m n a b
          (step act fuel (remove text l) (emitter S) w)
          (step_spec act (remove text l) s w)
  unfolding step step_spec
  remove-step text l w used short = elim (Bool-cases (s.known text)) [
    | inl known ↦
        let (p, found) = is_known act enough enough' S text used known in
        elim (Bool-cases (in_use text (removed text l s.entries))) [
          | inl still ↦ remove_some text l w used p found still known
          | inr none_left ↦ remove_last text l w used p found none_left known short
        ]
    | inr unknown ↦ rw unknown (record {
      after = S;
      gives =
          rw
            (off_unknown fuel text l names queue (not_known act enough enough' S text used unknown))
            refl;
    })
  ]
