-- ===== src/Thread/Tests.antt =====
-- Witnesses for the threads.
use opengcl.Prelude.{◌%◌, ◌^◌, ◌≡◌, refl, ◌==◌, if◌then◌else◌, none, some, true, [], ◌∷◌}
use opengcl.Prelude.Pool.{total}
use opengcl.Thread.{
  Shared, no_tid, running, bind, read_inc, write_inc, set_id, inc, System, pick, make, start, Steps,
  stay, go, init, construct, is_running, get_thread_counts,
}
use opengcl.Thread.Count.{counts, get_thread_counts-Steps}

-- The main thread's object is made, and the thread of object 1 is started.
abbrev after_main : Shared
after_main = record {
  instance_count = 0;
  key = some 0;
  keys = 1;
  m_tid = λ i. if i == 0 then 0 else no_tid;
  bound = λ i. if i == 0 then some 0 else none;
}

abbrev started : System
started = record {
  mem = record {
    instance_count = 1;
    key = some 0;
    keys = 1;
    m_tid = λ i. if i == 1 then 1 else after_main.m_tid i;
    bound = λ i. if i == 1 then some 0 else after_main.bound i;
  };
  threads = running 1 ∷ [];
}

started-Steps : Steps true init started
unfolding construct is_running inc
started-Steps =
    go
      (go
        (go
          (go (go (go stay (make refl)) (start 1 refl refl))
            (pick [] [] refl bind (λ e u. refl) refl))
          (pick [] [] refl read_inc (λ e u. refl) refl))
        (pick [] [] refl write_inc (λ e u. refl) refl))
      (pick [] [] refl set_id (λ e u. refl) refl)

get_thread_counts-Steps_example :
    get_thread_counts started.mem ≡ total counts (running 1 ∷ []) % 2 ^ 32
get_thread_counts-Steps_example = get_thread_counts-Steps started-Steps
