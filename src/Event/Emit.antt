-- ===== src/Event/Emit.antt =====
-- src/gevent.cpp: the listeners that `emit` calls, in which order, and what it leaves of them.
use opengcl.Prelude.{
  ℕ, zero, suc, ◌+◌, ◌<◌, ◌≡◌, refl, sym, ap, ◌∙◌, inl, inr, Option, none, some, Bool, true, false,
  List, [], ◌∷◌, ◌++◌, if◌then◌else◌, Bool-cases, arith, length, length-append, append_assoc,
}
use opengcl.Prelude.Outcome.{done}
use opengcl.Que.{Cque, CircularQueue}
use opengcl.Que.Layout.{slot, wrap}
use opengcl.Que.Holds.{Holds, slots}
use opengcl.Que.Peek.{peek, peek_next}
use opengcl.Que.Peek.Steps.{peek_next-more, peek_next-last, peek-head, peek-none}
use opengcl.Event.Places.{HoldsAt, window_item, full, set_item-HoldsAt}
use opengcl.Event.{
  EventBlock, same_pointer, set_item, invoke, visit, emit_loop, emit_named, emit, find_event_name,
}

module _ {W : Type 0} (call : ℕ → EventBlock → W → EventBlock × W) where
  -- A listener of the name is called, once, and marked dead where it asks for one call only. Others are
  -- left alone.
  abbrev pub called : ℕ → EventBlock → W → EventBlock × W
  called name eb w =
      let (eb', w') = invoke call eb eb.listener w in
      if same_pointer eb.name (some name)
      then ((if eb'.once then record eb' { name = none } else eb'), w')
      else (eb, w)

  -- The listeners of the name called in order, each in the state that those before it left.
  unfoldable pub called_all : ℕ → List EventBlock → W → List EventBlock × W
  called_all name [] w = ([], w)
  called_all name (eb ∷ l) w =
      let (eb', w') = called name eb w in let (l', w'') = called_all name l w' in (eb' ∷ l', w'')

  -- What a visit of the slot `p`, which holds `eb`, makes of the queue.
  visited : ℕ → ℕ → EventBlock → Cque EventBlock → W → Cque EventBlock
  visited name p eb c w =
      if same_pointer eb.name (some name) then set_item p (called name eb w).0 c else c

  visit_lem :
      (name p : ℕ) (eb : EventBlock) (c : Cque EventBlock) (w : W)
      → c.mem p ≡ eb
      → visit call name p c w ≡ (visited name p eb c w, (called name eb w).1)
  unfolding visit visited
  visit_lem name p eb c w e = rw e (elim (Bool-cases (same_pointer eb.name (some name))) [
    | inl same ↦ rw same refl
    | inr other ↦ rw other refl
  ])

  visited-HoldsAt :
      (name : ℕ) (pre : List EventBlock) (eb : EventBlock) (post : List EventBlock) (w : W)
      {c : Cque EventBlock} {n i : ℕ}
      → HoldsAt c n i (pre ++ eb ∷ post)
      → HoldsAt
          (visited name (slot c.item_size (wrap n (i + length pre))) eb c w)
          n
          i
          (pre ++ (called name eb w).0 ∷ post)
  unfolding visited
  visited-HoldsAt name pre eb post w {c} {n} {i} h = go (same_pointer eb.name (some name)) _
    where
      go :
          (b : Bool) (r : EventBlock × W)
          → HoldsAt
              (if b
                then set_item
                    (slot c.item_size (wrap n (i + length pre)))
                    (if b then r else (eb, w)).0
                    c
                else c)
              n
              i
              (pre ++ (if b then r else (eb, w)).0 ∷ post)
      go true r = set_item-HoldsAt pre eb r.0 post h
      go false r = h

  visited-size :
      (name p : ℕ) (eb : EventBlock) (c : Cque EventBlock) (w : W)
      → (visited name p eb c w).item_size ≡ c.item_size
  unfolding visited
  visited-size name p eb c w = go (same_pointer eb.name (some name)) (called name eb w).0
    where
      go : (b : Bool) (x : EventBlock) → (if b then set_item p x c else c).item_size ≡ c.item_size
      go true x = refl
      go false x = refl

  -- One step of the loop, from a slot that holds `eb`.
  emit_loop-step :
      (name f p : ℕ) (eb : EventBlock) (c : Cque EventBlock) (w : W) (next : Option ℕ)
      → c.mem p ≡ eb
      → peek_next (some (visited name p eb c w)) (some p) ≡ next
      → emit_loop call name (suc f) (some p) c w
        ≡ emit_loop call name f next (visited name p eb c w) (called name eb w).1
  unfolding emit_loop
  emit_loop-step name f p eb c w next here there =
      ap (λ r. emit_loop call name f (peek_next (some r.0) (some p)) r.0 r.1)
        (visit_lem name p eb c w here)
      ∙ ap (λ t. emit_loop call name f t (visited name p eb c w) (called name eb w).1) there

  -- The visit of the item after `pre`, at `p`: what the slot holds, and where it stands afterwards.
  record Stop (name p : ℕ) (pre : List EventBlock) (eb : EventBlock) (post : List EventBlock)
      (c : Cque EventBlock) (n i : ℕ) (w : W) : Type 0 where
    here : c.mem p ≡ eb
    at : p ≡ slot (visited name p eb c w).item_size (wrap n (i + length pre))
    holds : HoldsAt (visited name p eb c w) n i (pre ++ (called name eb w).0 ∷ post)

  visit_item :
      (name p : ℕ) (pre : List EventBlock) (eb : EventBlock) (post : List EventBlock) (w : W)
      {c : Cque EventBlock} {n i : ℕ}
      → p ≡ slot c.item_size (wrap n (i + length pre))
      → HoldsAt c n i (pre ++ eb ∷ post)
      → Stop name p pre eb post c n i w
  visit_item name p pre eb post w {c} {n} {i} e h = record {
    here =
        ap c.mem e
        ∙ window_item (slots c.mem c.item_size) n i pre eb post h.laid.head_in h.laid.len_in
            h.items;
    at = e ∙ ap (λ (z : ℕ). slot z (wrap n (i + length pre))) (sym (visited-size name p eb c w));
    holds = rw e (visited-HoldsAt name pre eb post w h);
  }

  emit_loop_lem :
      (name f p : ℕ) (pre : List EventBlock) (eb : EventBlock) (post : List EventBlock) (w : W)
      {c : Cque EventBlock} {n i : ℕ}
      → p ≡ slot c.item_size (wrap n (i + length pre))
      → HoldsAt c n i (pre ++ eb ∷ post)
      → suc (length post) < f
      → (c' : Cque EventBlock) × (emit_loop call name f (some p) c w
          ≡ done (c', (called_all name (eb ∷ post) w).1))
        × HoldsAt c' n i (pre ++ (called_all name (eb ∷ post) w).0)
  unfolding emit_loop called_all
  emit_loop_lem name zero p pre eb post w e h le = absurd (omega arith)
  emit_loop_lem name (suc zero) p pre eb post w e h le = absurd (omega arith)
  emit_loop_lem name (suc (suc f)) p pre eb [] w {c} e h le =
      let v = visit_item name p pre eb [] w e h in
      let eb' = (called name eb w).0 in
      let c' = visited name p eb c w in
      (
        c',
        emit_loop-step name (suc f) p eb c w none v.here (
            ap (λ a. peek_next (some c') (some a)) v.at
            ∙ peek_next-last v.holds.laid (full pre eb' [] v.holds) (length pre)
                (omega (arith, length-append pre (eb' ∷ [])))),
        v.holds,
      )
  emit_loop_lem name (suc (suc f)) p pre eb (next ∷ post) w {c} {n} {i} e h le =
      let v = visit_item name p pre eb (next ∷ post) w e h in
      let eb' = (called name eb w).0 in
      let c' = visited name p eb c w in
      let there : length (pre ++ eb' ∷ []) ≡ suc (length pre) =
        omega (arith, length-append pre (eb' ∷ [])) in
      let (c'', e', h') =
        emit_loop_lem name (suc f) (slot c'.item_size (wrap n (i + suc (length pre))))
          (pre ++ eb' ∷ []) next post (called name eb w).1 {c = c'} {n = n} {i = i} (rw there refl)
          (rw (append_assoc pre (eb' ∷ []) (next ∷ post)) v.holds) (omega arith) in
      (
        c'',
        emit_loop-step name (suc f) p eb c w _ v.here (
              ap (λ a. peek_next (some c') (some a)) v.at
              ∙ peek_next-more v.holds.laid (full pre eb' (next ∷ post) v.holds) (length pre)
                  (omega (arith, length-append pre (eb' ∷ next ∷ post))))
            ∙ e',
        rw (append_assoc pre (eb' ∷ []) (called_all name (next ∷ post) (called name eb w).1).0) at
            h',
      )

  emit_loop-Holds :
      (name fuel : ℕ) (bs : List EventBlock) (w : W) {q : Cque EventBlock} {n : ℕ}
      → Holds q n bs
      → length bs < fuel
      → (q' : Cque EventBlock) × (emit_loop call name fuel (peek (some q)) q w
          ≡ done (q', (called_all name bs w).1))
        × Holds q' n (called_all name bs w).0
  unfolding emit_loop called_all
  emit_loop-Holds name zero bs w h le = absurd (omega arith)
  emit_loop-Holds name (suc fuel) [] w {q} h le = (q, rw (peek-none h) refl, h)
  emit_loop-Holds name (suc fuel) (eb ∷ bs) w {q} h le =
      let (q', e, h') =
        emit_loop_lem name (suc fuel) _ [] eb bs w refl (record { laid = h.laid; items = h.items })
          (omega arith) in
      (
        q',
        ap (λ t. emit_loop call name (suc fuel) t q w) (peek-head h) ∙ e,
        record { index = h.index; laid = h'.laid; items = h'.items },
      )

  -- Where the name is found in slot `p`, the queue of listeners holds `bs` and the fuel exceeds their
  -- number, `emit` succeeds. It calls the listeners of the name in order, and leaves every listener in
  -- its place, those that asked for one call marked dead.
  pub emit-Holds :
      {n : ℕ} {q : Cque EventBlock} {bs : List EventBlock} (fuel : ℕ)
      (names : CircularQueue (List ℕ)) (p : ℕ) (text : List ℕ) (w : W)
      → Holds q n bs
      → length bs < fuel
      → find_event_name fuel text names ≡ done (some p)
      → (q' : Cque EventBlock) × (emit call fuel text
            (record { m_names = names; m_listeners = some q })
            w
          ≡ done (true, record { m_names = names; m_listeners = some q' }, (called_all p bs w).1))
        × Holds q' n (called_all p bs w).0
  unfolding emit emit_named
  emit-Holds {bs} fuel names p text w h le found =
      let (q', e, h') = emit_loop-Holds p fuel bs w h le in (q', rw (found, e) refl, h')
