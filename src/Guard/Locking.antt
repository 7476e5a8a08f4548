-- ===== src/Guard/Locking.antt =====
-- include/gthread.h, AutoLockWrite and AutoLockRead: what the lock keeps true while threads call an object.
use opengcl.Prelude.{
  ℕ, zero, suc, ◌+◌, ◌≤◌, ◌≡◌, refl, Option, Bool, true, false, List, [], ◌∷◌, ◌++◌, arith,
}
use opengcl.Prelude.Pool.{total, All, total-at, All-at, All-put, All-total}
use opengcl.Guard.{
  Object, Pc, idle, writing, fetched, written, reading, looked, observed, Shared, Entry, Move,
  lock_write, fetch, commit, unlock_write, lock_read, look, observe, unlock_read, System, Step,
  pick, idlers, Reach, start, silent, effect,
}

abbrev pub bit : Bool → ℕ
bit true = 1
bit false = 0

bit-le : (b : Bool) → bit b ≤ 1
bit-le true = omega arith
bit-le false = omega arith

held : (b : Bool) → 1 ≤ bit b → b ≡ true
held true h = refl
held false h = absurd (omega (arith, h))

module _ {ℓ} {S C R : Type ℓ} where
  -- Whether a thread holds the lock for writing, or for reading.
  abbrev pub writes : Pc S C R → ℕ
  writes (writing c) = 1
  writes (fetched c q) = 1
  writes written = 1
  writes _ = 0

  abbrev pub reads : Pc S C R → ℕ
  reads (reading c) = 1
  reads (looked c q) = 1
  reads observed = 1
  reads _ = 0

  -- What a thread has read is what is there.
  abbrev pub IsFresh : S → Pc S C R → Type ℓ
  IsFresh q (fetched c q') = q' ≡ q
  IsFresh q (looked c q') = q' ≡ q
  IsFresh q _ = Unit

  pub record Locked (m : Shared S) (threads : List (Pc S C R)) : Type ℓ where
    pub one_writer : total writes threads ≡ bit m.writer
    pub counted : total reads threads ≡ m.readers
    pub apart : m.writer ≡ true → m.readers ≡ 0
    pub fresh : All (IsFresh m.state) threads

  -- The threads around the one that moves.
  record Around (m : Shared S) (xs : List (Pc S C R)) (p : Pc S C R) (ys : List (Pc S C R))
      : Type ℓ where
    one_writer : writes p + total writes xs + total writes ys ≡ bit m.writer
    counted : reads p + total reads xs + total reads ys ≡ m.readers
    apart : m.writer ≡ true → m.readers ≡ 0
    left : All (IsFresh m.state) xs
    here : IsFresh m.state p
    right : All (IsFresh m.state) ys

  around :
      {m : Shared S} (xs : List (Pc S C R)) (p : Pc S C R) (ys : List (Pc S C R))
      → Locked m (xs ++ p ∷ ys)
      → Around m xs p ys
  around {m} xs p ys h =
      let (l, c, r) = All-at (IsFresh m.state) xs p ys h.fresh in
      record {
        one_writer = omega (arith, total-at writes xs p ys, h.one_writer);
        counted = omega (arith, total-at reads xs p ys, h.counted);
        apart = h.apart;
        left = l;
        here = c;
        right = r;
      }

  locked :
      {m : Shared S} (xs : List (Pc S C R)) (p : Pc S C R) (ys : List (Pc S C R))
      → Around m xs p ys
      → Locked m (xs ++ p ∷ ys)
  locked {m} xs p ys h = record {
    one_writer = omega (arith, total-at writes xs p ys, h.one_writer);
    counted = omega (arith, total-at reads xs p ys, h.counted);
    apart = h.apart;
    fresh = All-put (IsFresh m.state) xs p ys h.left h.here h.right;
  }

  total_both :
      (threads : List (Pc S C R))
      → total (λ p. writes p + reads p) threads ≡ total writes threads + total reads threads
  total_both [] = omega arith
  total_both (p ∷ threads) = omega (arith, total_both threads)

  stays_fresh :
      (q q' : S) (xs : List (Pc S C R))
      → total writes xs ≡ 0
      → total reads xs ≡ 0
      → All (IsFresh q) xs
      → All (IsFresh q') xs
  stays_fresh q q' xs w r =
      All-total (IsFresh q) (IsFresh q') (λ p. writes p + reads p) one xs
        (omega (arith, total_both xs, w, r))
    where
      one : (p : Pc S C R) → writes p + reads p ≡ 0 → IsFresh q p → IsFresh q' p
      one idle e h = tt
      one (writing c) e h = tt
      one (fetched c q'') e h = absurd (omega (arith, e))
      one written e h = tt
      one (reading c) e h = tt
      one (looked c q'') e h = absurd (omega (arith, e))
      one observed e h = tt

  total-idlers : (w : Pc S C R → ℕ) (n : ℕ) → w idle ≡ 0 → total w (idlers n) ≡ 0
  total-idlers w zero e = refl
  total-idlers w (suc n) e = omega (arith, e, total-idlers w n e)

  module _ {P : Type ℓ} {obj : Object S C R P} where
    Move-Around :
        {m m' : Shared S} {p p' : Pc S C R} {e : Option (Entry C R P)} (xs ys : List (Pc S C R))
        → Move obj m p e m' p'
        → Around m xs p ys
        → Around m' xs p' ys
    Move-Around xs ys (lock_write c free none_reads) h = ground (arith, h)
    Move-Around xs ys fetch h = ground (arith, h)
    Move-Around {m} xs ys (commit {q} {q'} e) h =
        let no_readers : m.readers ≡ 0 = h.apart (held m.writer (omega (arith, h.one_writer))) in
        record {
          one_writer = h.one_writer;
          counted = h.counted;
          apart = h.apart;
          left =
              stays_fresh _ q' xs (omega (arith, h.one_writer, bit-le m.writer))
                (omega (arith, h.counted, no_readers)) h.left;
          here = tt;
          right =
              stays_fresh _ q' ys (omega (arith, h.one_writer, bit-le m.writer))
                (omega (arith, h.counted, no_readers)) h.right;
        }
    Move-Around xs ys unlock_write h = ground (arith, h)
    Move-Around xs ys (lock_read c free) h = ground (arith, h)
    Move-Around xs ys look h = ground (arith, h)
    Move-Around xs ys observe h = ground (arith, h)
    Move-Around xs ys unlock_read h = ground (arith, h)

    Step-Locked :
        {s t : System S C R} {e : Option (Entry C R P)}
        → Step obj s e t
        → Locked s.mem s.threads
        → Locked t.mem t.threads
    Step-Locked (pick xs {p} {p'} ys {m} here mv there) h =
        rw there (locked xs p' ys (Move-Around xs ys mv (around xs p ys (rw here at h))))

    pub Reach-Locked :
        {n : ℕ} {q : S} {l : List (Entry C R P)} {s : System S C R}
        → Reach obj n q l s
        → Locked s.mem s.threads
    Reach-Locked {n} {q} start = record {
      one_writer = total-idlers writes n refl;
      counted = total-idlers reads n refl;
      apart = λ e. absurd (cc e);
      fresh = all_fresh n;
    }
      where
        all_fresh : (k : ℕ) → All {A = Pc S C R} (IsFresh q) (idlers k)
        all_fresh zero = tt
        all_fresh (suc k) = (tt, all_fresh k)
    Reach-Locked (silent r st) = Step-Locked st (Reach-Locked r)
    Reach-Locked (effect r st) = Step-Locked st (Reach-Locked r)
