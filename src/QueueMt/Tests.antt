-- ===== src/QueueMt/Tests.antt =====
-- Witnesses for QueueMT: two threads over a queue with room for two items.
use opengcl.Prelude.{ℕ, ◌≡◌, refl, some, true, false, [], ◌∷◌, arith}
use opengcl.Prelude.Outcome.{done}
use opengcl.Que.{Cque, CircularQueue, put}
use opengcl.Que.Holds.{Holds}
use opengcl.Que.Fifo.{put-room}
use opengcl.QueueMt.{
  Reply, WriteCall, ReadCall, queue_mt, put_item, ask_length, stored, number, write_body, read_body,
}
use opengcl.Guard.{
  write, read, run, Entry, idle, written, observed, lock_write, fetch, commit, unlock_write,
  lock_read, look, observe, System, pick, Reach, start, silent, effect,
}
use opengcl.Guard.Order.{calls, replies, Reach-run}
use opengcl.QueueMt.Fifo.{add, how_many, Reach-run_spec}

abbrev empty : Cque ℕ
empty = record { begin = 20; end = 32; head = 24; tail = 24; item_size = 4; mem = λ a. 0 }

empty-Holds : Holds empty 2 []
empty-Holds = record { index = 1; laid = omega arith; items = refl }

after_put : (c : Cque ℕ) × (put (some 7) (some empty) ≡ done (true, some c)) × Holds c 2 (7 ∷ [])
after_put = put-room empty-Holds 7 (omega arith)

abbrev one_item : Cque ℕ
one_item = after_put.0

put_seven : write_body (put_item (some 7)) (some empty) ≡ done (stored true, some one_item)
unfolding write_body
put_seven = rw after_put.1 refl

abbrev add_entry : Entry (WriteCall ℕ) (ReadCall ℕ) (Reply ℕ)
add_entry = record { call = write (put_item (some 7)); reply = stored true }

abbrev count_entry : Entry (WriteCall ℕ) (ReadCall ℕ) (Reply ℕ)
count_entry = record {
  call = read ask_length;
  reply = read_body ask_length (some one_item) (some one_item);
}

-- The first thread has written, and still has the lock.
abbrev midway : System (CircularQueue ℕ) (WriteCall ℕ) (ReadCall ℕ)
midway = record {
  mem = record { writer = true; readers = 0; state = some one_item };
  threads = written ∷ idle ∷ [];
}

midway-Reach : Reach queue_mt 2 (some empty) (add_entry ∷ []) midway
midway-Reach =
    effect
      (silent
        (silent start (pick [] (idle ∷ []) refl (lock_write (put_item (some 7)) refl refl) refl))
        (pick [] (idle ∷ []) refl fetch refl))
      (pick [] (idle ∷ []) refl (commit put_seven) refl)

-- Then the second one has counted the items.
abbrev counted : System (CircularQueue ℕ) (WriteCall ℕ) (ReadCall ℕ)
counted = record {
  mem = record { writer = false; readers = 1; state = some one_item };
  threads = idle ∷ observed ∷ [];
}

counted-Reach : Reach queue_mt 2 (some empty) (add_entry ∷ count_entry ∷ []) counted
counted-Reach =
    effect
      (silent
        (silent (silent midway-Reach (pick [] (idle ∷ []) refl unlock_write refl))
          (pick (idle ∷ []) [] refl (lock_read ask_length refl) refl))
        (pick (idle ∷ []) [] refl look refl))
      (pick (idle ∷ []) [] refl observe refl)

Reach-run_example :
    run queue_mt (some empty) (calls (add_entry ∷ count_entry ∷ []))
    ≡ done (replies (add_entry ∷ count_entry ∷ []), some one_item)
Reach-run_example = Reach-run counted-Reach

Reach-run_spec_example :
    (replies (add_entry ∷ count_entry ∷ []) ≡ stored true ∷ number 1 ∷ [])
    × (c : Cque ℕ) × (some one_item ≡ some c)
    × Holds c 2 (7 ∷ [])
Reach-run_spec_example = Reach-run_spec empty-Holds (add 7 ∷ how_many ∷ []) refl counted-Reach
