-- ===== src/Thread.antt =====
-- src/gthread.cpp and include/gthread.h: class Thread. Thread objects are numbered, 0 is
-- `__main_thread`; the threads that run are a pool, and each step is one access of one thread to what
-- they share. `start` makes the semaphore by which the new thread tells it that it runs, and waits for it; that
-- wait is left out here, so the caller of `start` may go on before the new thread is counted, which it cannot in
-- the program: the relation has every order of steps that the program has, and more.
pub mod Count
mod Tests
use opengcl.Prelude.{
  ℕ, zero, suc, ◌+◌, ◌-◌, ◌%◌, ◌^◌, ◌≡◌, ◌≢◌, Option, none, some, Bool, true, false, not, List, [],
  ◌∷◌, ◌++◌, ◌==◌, if◌then◌else◌,
}
use opengcl.Prelude.Pool.{total}

-- `(unsigned)(-1)`, the `m_tid` of an object whose thread does not run.
abbrev pub no_tid : ℕ
no_tid = 2 ^ 32 - 1

-- EINVAL
abbrev pub einval : ℕ
einval = 22

-- `__instance_count`, `__key_to_instance` (`none` is 0), and `m_tid` of each object. `keys` counts the
-- keys made so far, so that each has a number of its own; `bound` is the key under which the thread of an
-- object has stored it by `pthread_setspecific`, `none` for the key 0.
pub record Shared : Type 0 where
  pub instance_count : ℕ
  pub key : Option ℕ
  pub keys : ℕ
  pub m_tid : ℕ → ℕ
  pub bound : ℕ → Option ℕ

abbrev pub set_tid : ℕ → ℕ → Shared → Shared
set_tid i t m = record m { m_tid = λ j. if j == i then t else m.m_tid j }

abbrev pub bind_key : ℕ → Shared → Shared
bind_key i m = record m { bound = λ j. if j == i then m.key else m.bound j }

pub is_running : Shared → ℕ → Bool
is_running m i = not (m.m_tid i == no_tid)

-- The constructor `Thread()`. The others call `start` and nothing else.
pub construct : Shared → Shared
construct m =
    if m.instance_count == 0
    then bind_key 0 (set_tid 0 0 (record m { key = some m.keys; keys = suc m.keys }))
    else m

-- Where a thread stands, with the object that it belongs to: the three accesses of
-- `m_tid = ++__instance_count`, and those of the cleanup handler `__thread_destructor`.
pub data Pc : Type 0 where
  created : ℕ → Pc
  set_specific : ℕ → Pc
  counting : ℕ → ℕ → Pc
  numbered : ℕ → ℕ → Pc
  running : ℕ → Pc
  ended : ℕ → Pc
  uncounting : ℕ → ℕ → Pc
  deleting : ℕ → Pc
  gone : Pc

pub inc : ℕ → ℕ
inc c = (c + 1) % 2 ^ 32

pub dec : ℕ → ℕ
dec c = (c + 2 ^ 32 - 1) % 2 ^ 32

-- One access of a thread. The step from `running` is taken when `run` returns as well as when the thread
-- is cancelled.
pub data Move (m : Shared) : Pc → Shared → Pc → Type 0 where
  bind : {i : ℕ} → Move m (created i) (bind_key i m) (set_specific i)
  read_inc : {i : ℕ} → Move m (set_specific i) m (counting i m.instance_count)
  write_inc :
      {i c : ℕ} → Move m (counting i c) (record m { instance_count = inc c }) (numbered i (inc c))
  set_id : {i t : ℕ} → Move m (numbered i t) (set_tid i t m) (running i)
  finish : {i : ℕ} → Move m (running i) (set_tid i no_tid m) (ended i)
  read_dec : {i : ℕ} → Move m (ended i) m (uncounting i m.instance_count)
  write_dec :
      {i c : ℕ} → dec c ≢ 0 → Move m (uncounting i c) (record m { instance_count = dec c }) gone
  write_zero :
      {i c : ℕ}
      → dec c ≡ 0
      → Move m (uncounting i c) (record m { instance_count = dec c }) (deleting i)
  delete_key : {i : ℕ} → Move m (deleting i) (record m { key = none }) gone

pub record System : Type 0 where
  pub mem : Shared
  pub threads : List Pc

-- Whether a thread is between reading and writing the count.
abbrev pub updating : Pc → ℕ
updating (counting i c) = 1
updating (uncounting i c) = 1
updating _ = 0

-- A step of the system. With `serial` a thread updates the count only while no other does.
pub data Step (serial : Bool) (s t : System) : Type 0 where
  pick :
      (xs : List Pc) {p p' : Pc} (ys : List Pc) {m : Shared}
      → s.threads ≡ xs ++ p ∷ ys
      → Move s.mem p m p'
      → (serial ≡ true → updating p' ≡ 1 → total updating xs + total updating ys ≡ 0)
      → t ≡ record { mem = m; threads = xs ++ p' ∷ ys }
      → Step serial s t
  make : t ≡ record s { mem = construct s.mem } → Step serial s t
  start :
      (i : ℕ)
      → is_running s.mem i ≡ false
      → t ≡ record s { threads = created i ∷ s.threads }
      → Step serial s t

pub data Steps (serial : Bool) (s : System) : System → Type 0 where
  stay : Steps serial s s
  go : {t u : System} → Steps serial s t → Step serial t u → Steps serial s u

-- Before the constructor of `__main_thread`.
abbrev pub init : System
init = record {
  mem = record { instance_count = 0; key = none; keys = 0; m_tid = λ i. no_tid; bound = λ i. none };
  threads = [];
}

-- What a call of `start` returns and whether it makes a thread; `err` is what `pthread_create` returns.
pub start_result : Shared → ℕ → ℕ → ℕ × Bool
unfolding is_running
start_result m i err = if is_running m i then (einval, false) else (err, err == 0)

abbrev same_key : Option ℕ → Option ℕ → Bool
same_key none k = false
same_key (some a) none = false
same_key (some a) (some b) = a == b

-- `pthread_getspecific`, called by the thread of object `i`: what it stored under the key, null for a key
-- that is not there or under which it has stored nothing.
pub getspecific : Shared → ℕ → Option ℕ
getspecific m i = if same_key m.key (m.bound i) then some i else none

-- `get_current`, called by the thread of object `i`.
pub get_current : Shared → ℕ → Option ℕ
unfolding getspecific
get_current m i = if m.instance_count == 0 then some 0 else getspecific m i

pub get_thread_counts : Shared → ℕ
get_thread_counts m = m.instance_count

-- The calls of pthread that a method makes on the thread of its object.
pub data PthreadCall : Type 0 where
  pthread_cancel : PthreadCall
  pthread_join : PthreadCall
  pthread_setcancelstate : PthreadCall

abbrev same_object : Option ℕ → ℕ → Bool
same_object none i = false
same_object (some j) i = j == i

-- `stop` of object `i`, called by the thread of object `caller`, with what `pthread_cancel` and
-- `pthread_join` return: its result and its calls.
pub stop : Shared → ℕ → ℕ → ℕ → ℕ → ℕ × List PthreadCall
unfolding is_running get_current
stop m caller i cancel_err join_err =
    if is_running m i
    then if same_object (get_current m caller) i
      then (0, pthread_setcancelstate ∷ pthread_cancel ∷ [])
      else if cancel_err == 0
      then (join_err, pthread_cancel ∷ pthread_join ∷ [])
      else (cancel_err, pthread_cancel ∷ [])
    else (0, [])

pub join : Shared → ℕ → ℕ → ℕ × List PthreadCall
unfolding is_running
join m i join_err = if is_running m i then (join_err, pthread_join ∷ []) else (0, [])

pub cancel : Shared → ℕ → ℕ → ℕ × List PthreadCall
unfolding is_running
cancel m i cancel_err = if is_running m i then (cancel_err, pthread_cancel ∷ []) else (0, [])
