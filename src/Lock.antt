-- ===== src/Lock.antt =====
-- include/gthread.h: the classes around the mutexes, conditions and readers-writer locks of pthread. The system is a
-- parameter: each of its calls takes the lock's handle and returns an error number, 0 for success. Where
-- a handle is made and destroyed is in Lock/Handles.antt.
pub mod Handles
pub mod Scopes
mod Tests
use opengcl.Prelude.{ℕ, ◌+◌, ◌*◌, ◌/◌, ◌%◌, ◌==◌, Bool, Option, none, some}

pub record Pthread (W : Type 0) : Type 0 where
  pub mutex_lock : ℕ → W → ℕ × W
  pub mutex_unlock : ℕ → W → ℕ × W
  pub mutex_trylock : ℕ → W → ℕ × W
  pub cond_signal : ℕ → W → ℕ × W
  pub cond_broadcast : ℕ → W → ℕ × W
  pub cond_wait : ℕ → ℕ → W → ℕ × W
  pub cond_timedwait : ℕ → ℕ → ℕ × ℕ → W → ℕ × W
  pub rwlock_rdlock : ℕ → W → ℕ × W
  pub rwlock_wrlock : ℕ → W → ℕ × W
  pub rwlock_unlock : ℕ → W → ℕ × W

-- The absolute time that `Condition::timedwait` hands over for a time-out in milliseconds: seconds and
-- nanoseconds since the epoch.
pub timeout_spec : ℕ → ℕ × ℕ
timeout_spec timeout_msec = (timeout_msec / 1000, timeout_msec % 1000 * 1000000)

module _ {W : Type 0} (sys : Pthread W) where
  -- `== 0`
  abbrev succeeds : ℕ × W → Bool × W
  succeeds (err, w) = (err == 0, w)

  pub lock : ℕ → W → Bool × W
  lock mtx w = succeeds (sys.mutex_lock mtx w)

  pub unlock : ℕ → W → Bool × W
  unlock mtx w = succeeds (sys.mutex_unlock mtx w)

  pub trylock : ℕ → W → Bool × W
  trylock mtx w = succeeds (sys.mutex_trylock mtx w)

  pub signal : ℕ → W → Bool × W
  signal cond w = succeeds (sys.cond_signal cond w)

  pub broadcast : ℕ → W → Bool × W
  broadcast cond w = succeeds (sys.cond_broadcast cond w)

  pub wait : ℕ → ℕ → W → Bool × W
  wait cond mtx w = succeeds (sys.cond_wait cond mtx w)

  pub timedwait_spec : ℕ → ℕ → ℕ × ℕ → W → Bool × W
  timedwait_spec cond mtx ts w = succeeds (sys.cond_timedwait cond mtx ts w)

  pub timedwait : ℕ → ℕ → ℕ → W → Bool × W
  unfolding timeout_spec
  timedwait cond mtx timeout_msec w =
      succeeds (sys.cond_timedwait cond mtx (timeout_spec timeout_msec) w)

  -- A block in which an `AutoLock` is made: the constructor locks, the destructor unlocks, and both leave
  -- the results of these calls aside.
  pub auto_lock : {A : Type 0} → ℕ → (W → A × W) → W → A × W
  unfolding lock unlock
  auto_lock mtx block w =
      let (locked, w1) = lock mtx w in
      let (a, w2) = block w1 in let (unlocked, w3) = unlock mtx w2 in (a, w3)

  pub auto_lock_read : {A : Type 0} → ℕ → (W → A × W) → W → A × W
  auto_lock_read rw block w =
      let (err, w1) = sys.rwlock_rdlock rw w in
      let (a, w2) = block w1 in let (err', w3) = sys.rwlock_unlock rw w2 in (a, w3)

  pub auto_lock_write : {A : Type 0} → ℕ → (W → A × W) → W → A × W
  auto_lock_write rw block w =
      let (err, w1) = sys.rwlock_wrlock rw w in
      let (a, w2) = block w1 in let (err', w3) = sys.rwlock_unlock rw w2 in (a, w3)
