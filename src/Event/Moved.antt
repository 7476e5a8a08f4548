-- ===== src/Event/Moved.antt =====
-- src/gevent.cpp: the names of the listeners after a name has been registered or given up.
use opengcl.Prelude.{
  ℕ, ◌≡◌, refl, ap, ◌∙◌, inl, inr, Option, none, some, Bool-cases, false, List, [], ◌∷◌, ◌++◌, ◌+◌,
  ◌==◌, if◌then◌else◌, arith,
}
use opengcl.Que.{Cque}
use opengcl.Event.{EventBlock, same_pointer}
use opengcl.Event.Off.{without, named, is_gone}
use opengcl.Event.Spec.{Entry}
use opengcl.Event.Shown.{IsSlot, AreNamed, shown, show_one, entry_of}

module _ (fuel : ℕ) (c c' : Cque (List ℕ)) where
  -- A name that points to a slot of the new names with the same text.
  abbrev pub Keeps : Option ℕ → Type 0
  Keeps none = Unit
  Keeps (some q) = IsSlot fuel c' (some q) × (c'.mem q ≡ c.mem q)

  unfoldable AllKeep : List EventBlock → Type 0
  AllKeep [] = Unit
  AllKeep (eb ∷ bs) = Keeps eb.name × AllKeep bs

  show_same :
      (eb : EventBlock) (nm : Option ℕ) (es : List Entry)
      → Keeps nm
      → show_one c'.mem eb nm es ≡ show_one c.mem eb nm es
  show_same eb none es k = refl
  show_same eb (some q) es k = ap (λ t. entry_of t eb ∷ es) k.1

  IsSlot-same : (nm : Option ℕ) → Keeps nm → IsSlot fuel c' nm
  IsSlot-same none k = tt
  IsSlot-same (some q) k = k.0

  all_same :
      (bs : List EventBlock) → AllKeep bs → AreNamed fuel c' bs × (shown c'.mem bs ≡ shown c.mem bs)
  unfolding AllKeep AreNamed shown
  all_same [] k = (tt, refl)
  all_same (eb ∷ bs) k =
      let (named', same) = all_same bs k.1 in
      (
        (IsSlot-same eb.name k.0, named'),
        ap (show_one c'.mem eb eb.name) same ∙ show_same eb eb.name (shown c.mem bs) k.0,
      )

  -- Where every slot in use is kept.
  pub moved :
      ((q : ℕ) → IsSlot fuel c (some q) → Keeps (some q))
      → (bs : List EventBlock) → AreNamed fuel c bs
      → AreNamed fuel c' bs × (shown c'.mem bs ≡ shown c.mem bs)
  unfolding AllKeep AreNamed
  moved keep bs s = all_same bs (go bs s)
    where
      one : (nm : Option ℕ) → IsSlot fuel c nm → Keeps nm
      one none s = tt
      one (some q) s = keep q s

      go : (bs : List EventBlock) → AreNamed fuel c bs → AllKeep bs
      go [] s = tt
      go (eb ∷ bs) s = (one eb.name s.0, go bs s.1)

  -- Where every slot in use but `p` is kept, and no listener has the name in `p`.
  pub moved_but :
      (p : ℕ)
      → ((q : ℕ) → (q == p) ≡ false → IsSlot fuel c (some q) → Keeps (some q))
      → (bs : List EventBlock) → named p bs ≡ 0
      → AreNamed fuel c bs
      → AreNamed fuel c' bs × (shown c'.mem bs ≡ shown c.mem bs)
  unfolding AllKeep AreNamed named same_pointer
  moved_but p keep bs free s = all_same bs (go bs free s)
    where
      one :
          (nm : Option ℕ) (k : ℕ)
          → (if same_pointer nm (some p) then 1 else 0) + k ≡ 0
          → IsSlot fuel c nm
          → Keeps nm
      one none k free s = tt
      one (some q) k free s = keep q (ground (arith, free)) s

      go : (bs : List EventBlock) → named p bs ≡ 0 → AreNamed fuel c bs → AllKeep bs
      go [] free s = tt
      go (eb ∷ bs) free s = (one eb.name (named p bs) free s.0, go bs (ground (arith, free)) s.1)

module _ (fuel : ℕ) (c : Cque (List ℕ)) where
  pub AreNamed-without :
      (p : ℕ) (l : Option ℕ) (bs : List EventBlock)
      → AreNamed fuel c bs
      → AreNamed fuel c (without p l bs)
  unfolding AreNamed without
  AreNamed-without p l [] s = tt
  AreNamed-without p l (eb ∷ bs) s = elim (Bool-cases (is_gone p l eb)) [
    | inl gone ↦ rw gone (AreNamed-without p l bs s.1)
    | inr stays ↦ rw stays ((s.0, AreNamed-without p l bs s.1))
  ]

  pub AreNamed-snoc :
      (bs : List EventBlock) (eb : EventBlock)
      → AreNamed fuel c bs
      → IsSlot fuel c eb.name
      → AreNamed fuel c (bs ++ eb ∷ [])
  unfolding AreNamed
  AreNamed-snoc [] eb s new = (new, tt)
  AreNamed-snoc (b ∷ bs) eb s new = (s.0, AreNamed-snoc bs eb s.1 new)

pub shown-snoc :
    (mem : ℕ → List ℕ) (bs : List EventBlock) (eb : EventBlock) (p : ℕ)
    → eb.name ≡ some p
    → shown mem (bs ++ eb ∷ []) ≡ shown mem bs ++ entry_of (mem p) eb ∷ []
unfolding shown
shown-snoc mem [] eb p e = ap (λ nm. show_one mem eb nm []) e
shown-snoc mem (b ∷ bs) eb p e = ap (show_one mem b b.name) (shown-snoc mem bs eb p e) ∙ go b.name
  where
    go :
        (nm : Option ℕ)
        → show_one mem b nm (shown mem bs ++ entry_of (mem p) eb ∷ [])
          ≡ show_one mem b nm (shown mem bs) ++ entry_of (mem p) eb ∷ []
    go none = refl
    go (some q) = refl
