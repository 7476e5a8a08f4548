-- ===== src/QueueMt/Fifo.antt =====
-- include/gque.h, class QueueMT: the calls but `push`, `item_size` and a `put` without an item against a bounded list.
use opengcl.Prelude.{
  ℕ, ◌-◌, ◌≡◌, refl, sym, ap, ◌∙◌, none, some, true, false, List, [], ◌∷◌, ◌++◌, arith, inl, inr,
  ◌==◌, if◌then◌else◌, Bool-cases, ==→eq, length,
}
use opengcl.Prelude.Outcome.{done}
use opengcl.Que.{Cque, CircularQueue}
use opengcl.Que.Holds.{Holds}
use opengcl.Que.Fifo.{put-full, put-room, get-empty, get-some}
use opengcl.Que.Counts.{Holds-Counted}
use opengcl.QueueMt.{
  WriteCall, ReadCall, Reply, queue_mt, put_item, get_item, pop_item, ask_empty, ask_full,
  ask_length, ask_available, ask_capacity, stored, taken, flag, number, write_body, read_body,
}
use opengcl.Guard.{Call, write, read, body, run, Entry, System, Reach}
use opengcl.Guard.Order.{calls, replies, Reach-run}

pub data FifoCall {ℓ} (A : Type ℓ) : Type ℓ where
  add : A → FifoCall A
  take : FifoCall A
  take_back : FifoCall A
  drop : FifoCall A
  drop_back : FifoCall A
  any : FifoCall A
  all : FifoCall A
  how_many : FifoCall A
  how_free : FifoCall A
  how_large : FifoCall A

module _ {ℓ} {A : Type ℓ} where
  abbrev pub to_call : FifoCall A → Call (WriteCall A) (ReadCall A)
  to_call (add x) = write (put_item (some x))
  to_call take = write (get_item true)
  to_call take_back = write (pop_item true)
  to_call drop = write (get_item false)
  to_call drop_back = write (pop_item false)
  to_call any = read ask_empty
  to_call all = read ask_full
  to_call how_many = read ask_length
  to_call how_free = read ask_available
  to_call how_large = read ask_capacity

  abbrev pub to_calls : List (FifoCall A) → List (Call (WriteCall A) (ReadCall A))
  to_calls [] = []
  to_calls (c ∷ cs) = to_call c ∷ to_calls cs

  abbrev taken_spec : List A → Reply A × List A
  taken_spec [] = (taken false none, [])
  taken_spec (x ∷ xs) = (taken true (some x), xs)

  abbrev dropped_spec : List A → Reply A × List A
  dropped_spec [] = (taken false none, [])
  dropped_spec (x ∷ xs) = (taken true none, xs)

  -- A call of a queue with room for `n` items, of which it holds `xs`.
  abbrev pub call_spec : ℕ → List A → FifoCall A → Reply A × List A
  call_spec n xs (add x) =
      if length xs == n then (stored false, xs) else (stored true, xs ++ x ∷ [])
  call_spec n xs take = taken_spec xs
  call_spec n xs take_back = taken_spec xs
  call_spec n xs drop = dropped_spec xs
  call_spec n xs drop_back = dropped_spec xs
  call_spec n xs any = (flag (length xs == 0), xs)
  call_spec n xs all = (flag (length xs == n), xs)
  call_spec n xs how_many = (number (length xs), xs)
  call_spec n xs how_free = (number (n - length xs), xs)
  call_spec n xs how_large = (number n, xs)

  abbrev pub run_spec : ℕ → List A → List (FifoCall A) → List (Reply A) × List A
  run_spec n xs [] = ([], xs)
  run_spec n xs (c ∷ cs) =
      let (r, ys) = call_spec n xs c in let (rs, zs) = run_spec n ys cs in (r ∷ rs, zs)

  taken_lem :
      {c : Cque A} {n : ℕ} (xs : List A)
      → Holds c n xs
      → (c' : Cque A) × (write_body (get_item true) (some c) ≡ done ((taken_spec xs).0, some c'))
        × Holds c' n (taken_spec xs).1
  unfolding write_body
  taken_lem {c} [] h = (c, rw (get-empty h true refl) refl, h)
  taken_lem (x ∷ xs) h = let (c', e, e', h') = get-some h in (c', rw e refl, h')

  dropped_lem :
      {c : Cque A} {n : ℕ} (xs : List A)
      → Holds c n xs
      → (c' : Cque A) × (write_body (get_item false) (some c) ≡ done ((dropped_spec xs).0, some c'))
        × Holds c' n (dropped_spec xs).1
  unfolding write_body
  dropped_lem {c} [] h = (c, rw (get-empty h false refl) refl, h)
  dropped_lem (x ∷ xs) h = let (c', e, e', h') = get-some h in (c', rw e' refl, h')

  body_lem :
      {c : Cque A} {n : ℕ} {xs : List A} (call : FifoCall A)
      → Holds c n xs
      → (c' : Cque A) × (body queue_mt (to_call call) (some c)
          ≡ done ((call_spec n xs call).0, some c'))
        × Holds c' n (call_spec n xs call).1
  unfolding body write_body read_body
  body_lem {c} {n} {xs} (add x) h = elim (Bool-cases (length xs == n)) [
    | inl full ↦ rw full ((c, rw (put-full h (some x) (==→eq (length xs) n full)) refl, h))
    | inr room ↦ let (c', e, h') = put-room h x (ground arith) in rw room ((c', rw e refl, h'))
  ]
  body_lem {xs} take h = taken_lem xs h
  body_lem {xs} take_back h = taken_lem xs h
  body_lem {xs} drop h = dropped_lem xs h
  body_lem {xs} drop_back h = dropped_lem xs h
  body_lem {c} any h = (c, ap (λ b. done (flag b, some c)) (Holds-Counted h).is_empty_is, h)
  body_lem {c} all h = (c, ap (λ b. done (flag b, some c)) (Holds-Counted h).is_full_is, h)
  body_lem {c} how_many h = (c, ap (λ b. done (number b, some c)) (Holds-Counted h).length_is, h)
  body_lem {c} how_free h = (c, ap (λ b. done (number b, some c)) (Holds-Counted h).available_is, h)
  body_lem {c} how_large h = (c, ap (λ b. done (number b, some c)) (Holds-Counted h).capacity_is, h)

  run_lem :
      (cs : List (FifoCall A)) {c : Cque A} {n : ℕ} {xs : List A}
      → Holds c n xs
      → (c' : Cque A) × (run queue_mt (some c) (to_calls cs) ≡ done ((run_spec n xs cs).0, some c'))
        × Holds c' n (run_spec n xs cs).1
  unfolding run
  run_lem [] {c} h = (c, refl, h)
  run_lem (call ∷ cs) {c} {n} {xs} h =
      let (c', e, h') = body_lem call h in
      let (c'', e', h'') = run_lem cs h' in (c'', rw (e, e') refl, h'')

  -- Any number of threads that call a queue with room for `n` items, which holds `xs` at first, are served
  -- like one after the other by a list of at most `n` items, where taking the lock succeeds and as long as none
  -- of them calls `push`, `item_size`, or `put` without an item: in the order in which their calls take effect, the replies are those of the list, and the
  -- queue holds what the list holds. For the list, `pop` takes the first item, as `get` does.
  pub Reach-run_spec :
      {k n : ℕ} {c : Cque A} {xs : List A} {l : List (Entry (WriteCall A) (ReadCall A) (Reply A))}
      {s : System (CircularQueue A) (WriteCall A) (ReadCall A)}
      → Holds c n xs
      → (cs : List (FifoCall A)) → calls l ≡ to_calls cs
      → Reach queue_mt k (some c) l s
      → (replies l ≡ (run_spec n xs cs).0)
        × (c' : Cque A) × (s.mem.state ≡ some c')
        × Holds c' n (run_spec n xs cs).1
  Reach-run_spec {c} {l} {s} h cs e r =
      let (c', e', h') = run_lem cs h in
      let same : done (replies l, s.mem.state) ≡ done ((run_spec _ _ cs).0, some c') =
        sym (Reach-run r) ∙ ap (run queue_mt (some c)) e ∙ e' in
      (cc same, c', cc same, h')
