-- ===== src/Thread/Count.antt =====
-- src/gthread.cpp: `__instance_count`, where its updates do not overlap.
use opengcl.Prelude.{ℕ, ◌+◌, ◌%◌, ◌^◌, ◌≤◌, ◌≡◌, refl, true, List, ◌∷◌, ◌++◌, ◌==◌, arith, if_both}
use opengcl.Prelude.Pool.{total, All, total-at, All-at, All-put, All-total}
use opengcl.Thread.{
  Shared, construct, Pc, created, set_specific, bind, counting, numbered, running, ended,
  uncounting, deleting, gone, inc, dec, Move, read_inc, write_inc, set_id, finish, read_dec,
  write_dec, write_zero, delete_key, System, updating, Step, pick, make, start, Steps, stay, go,
  init, get_thread_counts,
}

-- Whether a thread is counted: it has been added, and not yet taken off.
abbrev pub counts : Pc → ℕ
counts (numbered i t) = 1
counts (running i) = 1
counts (ended i) = 1
counts (uncounting i c) = 1
counts _ = 0

-- What a thread has read is still there.
abbrev pub IsFresh : ℕ → Pc → Type 0
IsFresh n (counting i c) = c ≡ n
IsFresh n (uncounting i c) = c ≡ n
IsFresh n _ = Unit

pub record Counted (m : Shared) (threads : List Pc) : Type 0 where
  pub one_update : total updating threads ≤ 1
  pub counted : m.instance_count ≡ total counts threads % 2 ^ 32
  pub fresh : All (IsFresh m.instance_count) threads

record Around (m : Shared) (xs : List Pc) (p : Pc) (ys : List Pc) : Type 0 where
  one_update : updating p + total updating xs + total updating ys ≤ 1
  counted : m.instance_count ≡ (counts p + total counts xs + total counts ys) % 2 ^ 32
  left : All (IsFresh m.instance_count) xs
  here : IsFresh m.instance_count p
  right : All (IsFresh m.instance_count) ys

around :
    {m : Shared} (xs : List Pc) (p : Pc) (ys : List Pc)
    → Counted m (xs ++ p ∷ ys)
    → Around m xs p ys
around {m} xs p ys h =
    let (l, c, r) = All-at (IsFresh m.instance_count) xs p ys h.fresh in
    record {
      one_update = omega (arith, total-at updating xs p ys, h.one_update);
      counted = omega (arith, total-at counts xs p ys, h.counted);
      left = l;
      here = c;
      right = r;
    }

back :
    {m : Shared} (xs : List Pc) (p : Pc) (ys : List Pc)
    → Around m xs p ys
    → Counted m (xs ++ p ∷ ys)
back {m} xs p ys h = record {
  one_update = omega (arith, total-at updating xs p ys, h.one_update);
  counted = omega (arith, total-at counts xs p ys, h.counted);
  fresh = All-put (IsFresh m.instance_count) xs p ys h.left h.here h.right;
}

fresh_idle : (n k : ℕ) (p : Pc) → updating p ≡ 0 → IsFresh n p → IsFresh k p
fresh_idle n k (created i) e h = tt
fresh_idle n k (set_specific i) e h = tt
fresh_idle n k (counting i c) e h = absurd (omega (arith, e))
fresh_idle n k (numbered i t) e h = tt
fresh_idle n k (running i) e h = tt
fresh_idle n k (ended i) e h = tt
fresh_idle n k (uncounting i c) e h = absurd (omega (arith, e))
fresh_idle n k (deleting i) e h = tt
fresh_idle n k gone e h = tt

stays_fresh :
    (n k : ℕ) (xs : List Pc) → total updating xs ≡ 0 → All (IsFresh n) xs → All (IsFresh k) xs
stays_fresh n k = All-total (IsFresh n) (IsFresh k) updating (fresh_idle n k)

-- A write to the count by the one thread that updates it.
written :
    {m : Shared} (xs : List Pc) (p p' : Pc) (ys : List Pc) (k : ℕ)
    → Around m xs p ys
    → updating p ≡ 1
    → updating p' ≡ 0
    → IsFresh k p'
    → k ≡ (counts p' + total counts xs + total counts ys) % 2 ^ 32
    → Around (record m { instance_count = k }) xs p' ys
written {m} xs p p' ys k h u u' f e = record {
  one_update = omega (arith, h.one_update, u, u');
  counted = e;
  left = stays_fresh m.instance_count k xs (omega (arith, h.one_update, u)) h.left;
  here = f;
  right = stays_fresh m.instance_count k ys (omega (arith, h.one_update, u)) h.right;
}

Move-Around :
    {m m' : Shared} {p p' : Pc} (xs ys : List Pc)
    → Move m p m' p'
    → (updating p' ≡ 1 → total updating xs + total updating ys ≡ 0)
    → Around m xs p ys
    → Around m' xs p' ys
unfolding inc dec
Move-Around xs ys bind alone h = ground (arith, h)
Move-Around xs ys read_inc alone h = ground (arith, h, alone refl)
Move-Around xs ys (write_inc {i} {c}) alone h =
    written xs (counting i c) (numbered i (inc c)) ys (inc c) h refl refl tt
      (omega (arith, h.counted, h.here))
Move-Around xs ys set_id alone h = ground (arith, h)
Move-Around xs ys finish alone h = ground (arith, h)
Move-Around xs ys read_dec alone h = ground (arith, h, alone refl)
Move-Around xs ys (write_dec {i} {c} ne) alone h =
    written xs (uncounting i c) gone ys (dec c) h refl refl tt (omega (arith, h.counted, h.here))
Move-Around xs ys (write_zero {i} {c} e) alone h =
    written xs (uncounting i c) (deleting i) ys (dec c) h refl refl tt
      (omega (arith, h.counted, h.here))
Move-Around xs ys delete_key alone h = ground (arith, h)

construct_count : (m : Shared) → (construct m).instance_count ≡ m.instance_count
unfolding construct
construct_count m =
    if_both (λ (k : Shared). k.instance_count ≡ m.instance_count) (m.instance_count == 0) refl refl

Step-Counted : {s t : System} → Step true s t → Counted s.mem s.threads → Counted t.mem t.threads
Step-Counted (pick xs {p} {p'} ys {m} here mv alone there) h =
    rw there (back xs p' ys (Move-Around xs ys mv (alone refl) (around xs p ys (rw here at h))))
Step-Counted {s} (make there) h =
    rw (there, construct_count s.mem)
      (record { one_update = h.one_update; counted = h.counted; fresh = h.fresh })
Step-Counted (start i free there) h = rw there (record {
  one_update = omega (arith, h.one_update);
  counted = omega (arith, h.counted);
  fresh = (tt, h.fresh);
})

pub Steps-Counted :
    {s t : System} → Steps true s t → Counted s.mem s.threads → Counted t.mem t.threads
Steps-Counted stay h = h
Steps-Counted (go r st) h = Step-Counted st (Steps-Counted r h)

-- From the start of the program on, as long as no two updates of the count overlap, `get_thread_counts` is
-- the number of threads that have been counted and not taken off again, modulo 2 ^ 32.
pub get_thread_counts-Steps :
    {s : System} → Steps true init s → get_thread_counts s.mem ≡ total counts s.threads % 2 ^ 32
unfolding get_thread_counts
get_thread_counts-Steps r =
    (Steps-Counted r (record { one_update = omega arith; counted = refl; fresh = tt })).counted
