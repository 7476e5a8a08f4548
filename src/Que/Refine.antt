-- ===== src/Que/Refine.antt =====
-- src/gque.cpp: a queue that is used at its tail by `put` and at its head by `get`, with `clear` in
-- between, against a bounded first-in-first-out list.
use opengcl.Prelude.{
  ℕ, ◌≡◌, refl, List, [], ◌∷◌, ◌++◌, Option, none, some, true, false, Bool, arith, ◌==◌, inl, inr,
  Bool-cases, if◌then◌else◌, length, ==→eq,
}
use opengcl.Prelude.Outcome.{Outcome, done, ◌>>=◌}
use opengcl.Que.{Cque, CircularQueue, put, get, clear}
use opengcl.Que.Holds.{Holds}
use opengcl.Que.Fifo.{put-full, put-room, get-empty, get-some}

-- What a client asks for, and what comes back.
pub data Op {ℓ} (A : Type ℓ) : Type ℓ where
  put_item : A → Op A
  get_item : Op A
  clear_all : Op A

pub data Reply {ℓ} (A : Type ℓ) : Type ℓ where
  stored : Bool → Reply A
  taken : Bool → Option A → Reply A
  cleared : Reply A

module _ {ℓ} {A : Type ℓ} where
  -- The calls that the client makes, in order.
  pub run : CircularQueue A → List (Op A) → Outcome (List (Reply A))
  run q [] = done []
  run q (put_item x ∷ ops) = do (b, q') ← put (some x) q; rs ← run q' ops; done (stored b ∷ rs)
  run q (get_item ∷ ops) = do (b, v, q') ← get true q; rs ← run q' ops; done (taken b v ∷ rs)
  run q (clear_all ∷ ops) = do rs ← run (clear q) ops; done (cleared ∷ rs)

  -- The same calls on a list of at most `n` items.
  unfoldable pub run_spec : ℕ → List A → List (Op A) → List (Reply A)
  run_spec n xs [] = []
  run_spec n xs (put_item x ∷ ops) =
      let full = stored false ∷ run_spec n xs ops in
      let room = stored true ∷ run_spec n (xs ++ x ∷ []) ops in
      if length xs == n then full else room
  run_spec n [] (get_item ∷ ops) = taken false none ∷ run_spec n [] ops
  run_spec n (x ∷ xs) (get_item ∷ ops) = taken true (some x) ∷ run_spec n xs ops
  run_spec n xs (clear_all ∷ ops) = cleared ∷ run_spec n [] ops

  pub clear-Holds :
      {c : Cque A} {n : ℕ} {xs : List A}
      → Holds c n xs
      → Holds (record c { head = c.begin; tail = c.begin }) n []
  clear-Holds h = record {
    index = 0;
    laid = record {
      size_pos = size_pos;
      begin_at = begin_at;
      end_at = end_at;
      fits = fits;
      head_at = omega (arith, begin_at);
      tail_at = ground (arith, begin_at);
      head_in = omega arith;
      len_in = omega arith;
    };
    items = refl;
  }
    where
      open h use {laid}
      open laid use {size_pos, begin_at, end_at, fits}

  -- Started on a queue of capacity `n` that holds `xs`, every sequence of `put`, `get` and `clear`
  -- runs with no access outside the item area, and its replies are those of the bounded list.
  pub run-run_spec :
      (ops : List (Op A)) {c : Cque A} {n : ℕ} {xs : List A}
      → Holds c n xs
      → run (some c) ops ≡ done (run_spec n xs ops)
  unfolding run run_spec clear
  run-run_spec [] h = refl
  run-run_spec (put_item x ∷ ops) {c} {n} {xs} h = elim (Bool-cases (length xs == n)) [
    | inl full ↦ rw (full, put-full h (some x) (==→eq (length xs) n full), run-run_spec ops h)
    | inr room ↦ let (c', e, h') = put-room h x (ground arith) in rw (room, e, run-run_spec ops h')
  ]
  run-run_spec (get_item ∷ ops) {xs = []} h = rw (get-empty h true refl, run-run_spec ops h)
  run-run_spec (get_item ∷ ops) {xs = x ∷ xs} h =
      let (c', e, e', h') = get-some h in rw (e, run-run_spec ops h')
  run-run_spec (clear_all ∷ ops) {xs = []} h = rw (run-run_spec ops (clear-Holds h))
  run-run_spec (clear_all ∷ ops) {xs = x ∷ xs} h = rw (run-run_spec ops (clear-Holds h))
