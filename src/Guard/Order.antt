-- ===== src/Guard/Order.antt =====
-- include/gthread.h, AutoLockWrite and AutoLockRead: the calls of all threads come about as if they were made one at a time.
use opengcl.Prelude.{ℕ, ◌≡◌, refl, sym, ap, ◌∙◌, none, some, List, [], ◌∷◌, ◌++◌, inl, inr}
use opengcl.Prelude.Outcome.{Outcome-cases, done}
use opengcl.Prelude.Pool.{All-at}
use opengcl.Guard.{
  Call, Object, body, run, Pc, Shared, Entry, Move, lock_write, fetch, commit, unlock_write,
  lock_read, look, observe, unlock_read, System, pick, Reach, start, silent, effect,
}
use opengcl.Guard.Locking.{IsFresh, Reach-Locked}

module _ {ℓ} {C R P : Type ℓ} where
  abbrev pub calls : List (Entry C R P) → List (Call C R)
  calls [] = []
  calls (e ∷ l) = e.call ∷ calls l

  abbrev pub replies : List (Entry C R P) → List (P)
  replies [] = []
  replies (e ∷ l) = e.reply ∷ replies l

module _ {ℓ} {S C R P : Type ℓ} (obj : Object S C R P) where
  run-snoc :
      (q : S) (l : List (Entry C R P)) (e : Entry C R P) {q' q'' : S}
      → run obj q (calls l) ≡ done (replies l, q')
      → body obj e.call q' ≡ done (e.reply, q'')
      → run obj q (calls (l ++ e ∷ [])) ≡ done (replies (l ++ e ∷ []), q'')
  unfolding run
  run-snoc q [] e {q'} h k = let same : q ≡ q' = cc h in rw (same, k) refl
  run-snoc q (x ∷ l) e {q'} {q''} h k = elim (Outcome-cases (body obj x.call q)) [
    | inl bad ↦ absurd (elim bad [ inl bad ↦ cc (rw bad at h) | inr bad ↦ cc (rw bad at h) ])
    | inr ((r1, q1), first) ↦ elim (Outcome-cases (run obj q1 (calls l))) [
      | inl bad ↦
          absurd
            (elim bad [ inl bad ↦ cc (rw (first, bad) at h) | inr bad ↦ cc (rw (first, bad) at h) ])
      | inr ((rs, q2), rest) ↦
          let ended : done (r1 ∷ rs, q2) ≡ done (x.reply ∷ replies l, q') = rw (first, rest) at h in
          let later = run-snoc q1 l e (rest ∙ cc ended) k in rw (first, later) (cc ended)
    ]
  ]

module _ {ℓ} {S C R P : Type ℓ} {obj : Object S C R P} where
  Move-quiet : {m m' : Shared S} {p p' : Pc S C R} → Move obj m p none m' p' → m'.state ≡ m.state
  Move-quiet (lock_write c free none_reads) = refl
  Move-quiet fetch = refl
  Move-quiet unlock_write = refl
  Move-quiet (lock_read c free) = refl
  Move-quiet look = refl
  Move-quiet unlock_read = refl

  Move-body :
      {m m' : Shared S} {p p' : Pc S C R} {e : Entry C R P}
      → IsFresh m.state p
      → Move obj m p (some e) m' p'
      → body obj e.call m.state ≡ done (e.reply, m'.state)
  unfolding body
  Move-body fresh (commit h) = rw (sym fresh) h
  Move-body {m} fresh (observe {c}) =
      ap (λ q. done (obj.read_body c q m.state, m.state)) (sym fresh)

  -- Where taking the lock succeeds: whatever the threads do, and however their steps are ordered, with those of
  -- others between the two looks of a call that reads, the calls that have taken effect, made one after the
  -- other on the object as it was at the start, give the replies that the threads got and the object as it is
  -- now.
  pub Reach-run :
      {n : ℕ} {q : S} {l : List (Entry C R P)} {s : System S C R}
      → Reach obj n q l s
      → run obj q (calls l) ≡ done (replies l, s.mem.state)
  unfolding run
  Reach-run start = refl
  Reach-run (silent {l} r (pick xs ys here mv there)) =
      rw there (Reach-run r ∙ ap (λ q. done (replies l, q)) (sym (Move-quiet mv)))
  Reach-run {q} (effect {l} {e} r (pick xs {p} ys here mv there)) =
      rw there (run-snoc obj q l e (Reach-run r) (Move-body (mover xs p ys here r) mv))
    where
      mover :
          (xs : List (Pc S C R)) (p : Pc S C R) (ys : List (Pc S C R)) {n : ℕ} {q : S}
          {l : List (Entry C R P)} {s : System S C R}
          → s.threads ≡ xs ++ p ∷ ys
          → Reach obj n q l s
          → IsFresh s.mem.state p
      mover xs p ys {s} here r =
          (All-at (IsFresh s.mem.state) xs p ys (rw here at (Reach-Locked r).fresh)).1
