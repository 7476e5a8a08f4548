-- ===== src/Event/Shown.antt =====
-- src/gevent.cpp: the listeners that a queue holds, each shown with the text that its name points to.
use opengcl.Prelude.{
  ℕ, ◌≡◌, refl, sym, ap, ◌∙◌, inl, inr, Option, none, some, Bool, Bool-cases, Option-cases, true,
  false, not, ◌&&◌, List, [], ◌∷◌, ◌+◌, ◌==◌, if◌then◌else◌, eq→==, ne→==, ==→eq, arith,
}
use opengcl.Prelude.Outcome.{done}
use opengcl.Que.{Cque}
use opengcl.Event.{EventBlock, same_text, same_pointer, find_event_name, invoke}
use opengcl.Event.Names.{true_ne_false, same_text_lem}
use opengcl.Event.Find.{same_text_refl}
use opengcl.Event.Off.{without, named}
use opengcl.Event.Emit.{called, called_all}
use opengcl.Event.Spec.{Entry, removed, spent, in_use, act_of, fire_all, call_of}

-- The listeners that are not dead, with their texts.
abbrev pub entry_of : List ℕ → EventBlock → Entry
entry_of text eb = record {
  text = text;
  listener = eb.listener;
  user_data = eb.user_data;
  once = eb.once;
}

abbrev pub show_one : (ℕ → List ℕ) → EventBlock → Option ℕ → List Entry → List Entry
show_one mem eb none es = es
show_one mem eb (some p) es = entry_of (mem p) eb ∷ es

unfoldable pub shown : (ℕ → List ℕ) → List EventBlock → List Entry
shown mem [] = []
shown mem (eb ∷ bs) = show_one mem eb eb.name (shown mem bs)

-- A name points to a slot with a text that is not empty, the slot where the search for that text ends.
abbrev pub IsSlot : ℕ → Cque (List ℕ) → Option ℕ → Type 0
IsSlot fuel c none = Unit
IsSlot fuel c (some p) =
    (find_event_name fuel (c.mem p) (some c) ≡ done (some p)) × (same_text [] (c.mem p) ≡ false)

-- So does the name of every listener that is not dead.
unfoldable pub AreNamed : ℕ → Cque (List ℕ) → List EventBlock → Type 0
AreNamed fuel c [] = Unit
AreNamed fuel c (eb ∷ bs) = IsSlot fuel c eb.name × AreNamed fuel c bs

-- `p` is the slot of the text.
pub record IsAt (fuel : ℕ) (c : Cque (List ℕ)) (text : List ℕ) (p : ℕ) : Type 0 where
  pub found : find_event_name fuel text (some c) ≡ done (some p)
  pub there : c.mem p ≡ text

module _ {fuel : ℕ} {c : Cque (List ℕ)} {text : List ℕ} {p : ℕ} (at : IsAt fuel c text p) where
  -- Names are equal as pointers where they are equal as texts.
  pub same_slot : (q : ℕ) → IsSlot fuel c (some q) → (q == p) ≡ same_text (c.mem q) text
  same_slot q s = elim (Bool-cases (same_text (c.mem q) text)) [
    | inl same ↦
        let e : c.mem q ≡ text = same_text_lem (c.mem q) text same in
        let f : find_event_name fuel text (some c) ≡ done (some q) = rw e at (s.0) in
        let o : q ≡ p = cc (f, at.found) in eq→== q p o ∙ sym same
    | inr other ↦ elim (Bool-cases (q == p)) [
      | inl same ↦
          let e : same_text (c.mem q) text ≡ true =
            ap (λ a. same_text (c.mem a) text) (==→eq q p same)
            ∙ ap (λ t. same_text t text) at.there
            ∙ same_text_refl text in
          absurd (true_ne_false (sym e ∙ other))
      | inr differ ↦ differ ∙ sym other
    ]
  ]

  pub without-shown :
      (l : Option ℕ) (bs : List EventBlock)
      → AreNamed fuel c bs
      → shown c.mem (without p l bs) ≡ removed text l (shown c.mem bs)
  unfolding without shown removed AreNamed same_pointer
  without-shown l [] s = refl
  without-shown l (eb ∷ bs) s = elim (Option-cases eb.name) [
    | inl dead ↦ rw dead (without-shown l bs s.1)
    | inr (q, e) ↦
        let at_slot : IsSlot fuel c (some q) = rw e at (s.0) in
        elim (Bool-cases (same_text (c.mem q) text && same_pointer eb.listener l)) [
          | inl gone ↦ rw (e, same_slot q at_slot, gone) (without-shown l bs s.1)
          | inr stays ↦
              rw (e, same_slot q at_slot, stays)
                (ap (λ es. entry_of (c.mem q) eb ∷ es) (without-shown l bs s.1))
        ]
  ]

  no_more : (k : ℕ) → (0 + k == 0) ≡ (k == 0)
  no_more k = let e : 0 + k ≡ k = omega arith in ap (λ (a : ℕ). a == 0) e

  pub named-shown :
      (bs : List EventBlock)
      → AreNamed fuel c bs
      → (named p bs == 0) ≡ not (in_use text (shown c.mem bs))
  unfolding named shown in_use AreNamed same_pointer
  named-shown [] s = refl
  named-shown (eb ∷ bs) s = elim (Option-cases eb.name) [
    | inl dead ↦ rw dead (no_more (named p bs) ∙ named-shown bs s.1)
    | inr (q, e) ↦
        let at_slot : IsSlot fuel c (some q) = rw e at (s.0) in
        elim (Bool-cases (same_text (c.mem q) text)) [
          | inl same ↦ rw (e, same_slot q at_slot, same) (ne→== (1 + named p bs) 0 (omega arith))
          | inr other ↦
              rw (e, same_slot q at_slot, other) (no_more (named p bs) ∙ named-shown bs s.1)
        ]
  ]

  module _ {W : Type 0} (act : ℕ → ℕ → W → W) where
    invoke_act :
        (eb : EventBlock) (l : Option ℕ) (w : W)
        → invoke (call_of act) eb l w ≡ (eb, act_of act l eb.user_data w)
    unfolding act_of
    invoke_act eb none w = refl
    invoke_act eb (some l) w = refl

    -- What a listener of the name leaves in its slot.
    left_by : EventBlock → Bool → EventBlock
    left_by eb b = if b then record eb { name = none } else eb

    called_same :
        (eb : EventBlock) (w : W) (b : Bool)
        → eb.once ≡ b
        → same_pointer eb.name (some p) ≡ true
        → called (call_of act) p eb w ≡ (left_by eb b, act_of act eb.listener eb.user_data w)
    unfolding left_by
    called_same eb w b once same =
        rw (same, invoke_act eb eb.listener w)
          (ap
            (λ (a : Bool). (
              (if a then record eb { name = none } else eb),
              act_of act eb.listener eb.user_data w,
            ))
            once)

    called_other :
        (eb : EventBlock) (w : W)
        → same_pointer eb.name (some p) ≡ false
        → called (call_of act) p eb w ≡ (eb, w)
    called_other eb w other = rw other refl

    spends :
        (eb : EventBlock) (q : ℕ) (b : Bool) (es : List Entry)
        → eb.name ≡ some q
        → same_text (c.mem q) text && eb.once ≡ b
        → spent text (show_one c.mem eb eb.name es)
          ≡ (if b then spent text es else entry_of (c.mem q) eb ∷ spent text es)
    unfolding spent
    spends eb q b es e gone =
        ap (λ nm. spent text (show_one c.mem eb nm es)) e
        ∙ ap (λ (a : Bool). if a then spent text es else entry_of (c.mem q) eb ∷ spent text es) gone

    fires :
        (eb : EventBlock) (q : ℕ) (b : Bool) (es : List Entry) (w : W)
        → eb.name ≡ some q
        → same_text (c.mem q) text ≡ b
        → fire_all act text (show_one c.mem eb eb.name es) w
          ≡ fire_all act text es (if b then act_of act eb.listener eb.user_data w else w)
    unfolding fire_all
    fires eb q b es w e same =
        ap (λ nm. fire_all act text (show_one c.mem eb nm es) w) e
        ∙ ap
            (λ (a : Bool).
              fire_all act text es (if a then act_of act eb.listener eb.user_data w else w))
            same

    -- What `emit` makes of the listeners, and of the rest of the program.
    pub called_all-shown :
        (bs : List EventBlock) (w : W)
        → AreNamed fuel c bs
        → (shown c.mem (called_all (call_of act) p bs w).0 ≡ spent text (shown c.mem bs))
          × ((called_all (call_of act) p bs w).1 ≡ fire_all act text (shown c.mem bs) w)
          × AreNamed fuel c (called_all (call_of act) p bs w).0
    unfolding called_all shown spent fire_all AreNamed same_pointer left_by
    called_all-shown [] w s = (refl, refl, tt)
    called_all-shown (eb ∷ bs) w s = elim (Option-cases eb.name) [
      | inl dead ↦
          let off : same_pointer eb.name (some p) ≡ false =
            ap (λ a. same_pointer a (some p)) dead in
          let (a, b, d) = called_all-shown bs w s.1 in
          rw (called_other eb w off) ((rw dead a, rw dead b, (s.0, d)))
      | inr (q, e) ↦
          let at_slot : IsSlot fuel c (some q) = rw e at (s.0) in
          let texts : same_pointer eb.name (some p) ≡ same_text (c.mem q) text =
            ap (λ a. same_pointer a (some p)) e ∙ same_slot q at_slot in
          elim (Bool-cases (same_text (c.mem q) text)) [
            | inl same ↦
                let (a, b, d) = called_all-shown bs (act_of act eb.listener eb.user_data w) s.1 in
                elim (Bool-cases eb.once) [
                  | inl once ↦ rw (called_same eb w true once (texts ∙ same)) (
                      (
                        a ∙ sym (spends eb q true (shown c.mem bs) e (rw (same, once) refl)),
                        b ∙ sym (fires eb q true (shown c.mem bs) w e same),
                        (tt, d),
                      ))
                  | inr many ↦ rw (called_same eb w false many (texts ∙ same)) (
                      (
                        ap
                              (λ nm. show_one c.mem eb nm (
                                shown c.mem
                                  (called_all (call_of act) p bs
                                    (act_of act eb.listener eb.user_data w)).0))
                              e
                            ∙ ap (λ es. entry_of (c.mem q) eb ∷ es) a
                            ∙ sym (spends eb q false (shown c.mem bs) e (rw (same, many) refl)),
                        b ∙ sym (fires eb q true (shown c.mem bs) w e same),
                        (s.0, d),
                      ))
                ]
            | inr other ↦
                let (a, b, d) = called_all-shown bs w s.1 in
                rw (called_other eb w (texts ∙ other)) (
                  (
                    ap
                          (λ nm.
                            show_one c.mem eb nm (shown c.mem (called_all (call_of act) p bs w).0))
                          e
                        ∙ ap (λ es. entry_of (c.mem q) eb ∷ es) a
                        ∙ sym (spends eb q false (shown c.mem bs) e (rw other refl)),
                    b ∙ sym (fires eb q false (shown c.mem bs) w e other),
                    (s.0, d),
                  ))
          ]
    ]
