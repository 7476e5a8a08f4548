-- ===== src/Lock/Scopes.antt =====
-- include/gthread.h: blocks under an AutoLock, and time-outs of a condition.
use opengcl.Prelude.{ℕ, ◌+◌, ◌-◌, ◌*◌, ◌^◌, ◌≤◌, ◌<◌, ◌≡◌, refl, ◌∙◌, arith, Bool, true, false}
use opengcl.Lock.{Pthread, timeout_spec, lock, unlock, auto_lock, auto_lock_read, auto_lock_write}

-- Whatever time-out of 32 bits it is given, `timedwait` hands over a time of the first fifty days of 1970:
-- on any later day, at `sec` seconds and `nsec` nanoseconds, that time is past.
pub timeout_spec-past :
    (timeout_msec sec nsec : ℕ)
    → timeout_msec < 2 ^ 32
    → 50 * 86400 ≤ sec
    → (timeout_spec timeout_msec).0 * 1000000000 + (timeout_spec timeout_msec).1
      < sec * 1000000000 + nsec
unfolding timeout_spec
timeout_spec-past timeout_msec sec nsec small late = omega (arith, small, late)

module _ {W : Type 0} (sys : Pthread W) where
  -- How a mutex and a readers-writer lock stand: who holds the first, how many read, whether one writes.
  pub record View : Type 0 where
    pub held : ℕ → W → Bool
    pub readers : ℕ → W → ℕ
    pub writer : ℕ → W → Bool

  -- What the code relies on: locks that can be had are had, and given back by the call that releases them.
  pub record IsLock (v : View) : Type 0 where
    pub lock_held : (m : ℕ) (w : W) → v.held m w ≡ false → v.held m (sys.mutex_lock m w).1 ≡ true
    pub unlock_held :
        (m : ℕ) (w : W) → v.held m w ≡ true → v.held m (sys.mutex_unlock m w).1 ≡ false
    pub rdlock_readers :
        (m : ℕ) (w : W)
        → v.writer m w ≡ false
        → (v.readers m (sys.rwlock_rdlock m w).1 ≡ v.readers m w + 1)
          × (v.writer m (sys.rwlock_rdlock m w).1 ≡ false)
    pub wrlock_writer :
        (m : ℕ) (w : W)
        → v.writer m w ≡ false
        → v.readers m w ≡ 0
        → (v.writer m (sys.rwlock_wrlock m w).1 ≡ true)
          × (v.readers m (sys.rwlock_wrlock m w).1 ≡ 0)
    pub unlock_reader :
        (m : ℕ) (w : W)
        → v.writer m w ≡ false
        → (v.readers m (sys.rwlock_unlock m w).1 ≡ v.readers m w - 1)
          × (v.writer m (sys.rwlock_unlock m w).1 ≡ false)
    pub unlock_writer :
        (m : ℕ) (w : W)
        → v.writer m w ≡ true
        → (v.writer m (sys.rwlock_unlock m w).1 ≡ false)
          × (v.readers m (sys.rwlock_unlock m w).1 ≡ v.readers m w)

  module _ {v : View} (law : IsLock v) {A : Type 0} (m : ℕ) (block : W → A × W) where
    -- A block that leaves a mutex as it finds it runs under the mutex where nobody held it, and then nobody
    -- holds it again.
    pub auto_lock-held :
        ((w : W) → v.held m (block w).1 ≡ v.held m w)
        → (w : W) → v.held m w ≡ false
        → (w' : W) × (v.held m w' ≡ true)
          × ((auto_lock sys m block w).0 ≡ (block w').0)
          × (v.held m (auto_lock sys m block w).1 ≡ false)
    unfolding auto_lock lock unlock
    auto_lock-held keeps w free =
        let taken = law.lock_held m w free in
        ((sys.mutex_lock m w).1, taken, refl, law.unlock_held m _ (keeps _ ∙ taken))

    -- A block that leaves a readers-writer lock as it finds it runs, where nobody writes, as a reader besides
    -- those that were there, and then there are as many readers as before.
    pub auto_lock_read-View :
        ((w : W)
          → (v.readers m (block w).1 ≡ v.readers m w) × (v.writer m (block w).1 ≡ v.writer m w))
        → (w : W) → v.writer m w ≡ false
        → (w' : W) × (v.readers m w' ≡ v.readers m w + 1)
          × ((auto_lock_read sys m block w).0 ≡ (block w').0)
          × (v.readers m (auto_lock_read sys m block w).1 ≡ v.readers m w)
          × (v.writer m (auto_lock_read sys m block w).1 ≡ false)
    unfolding auto_lock_read
    auto_lock_read-View keeps w free =
        let had = law.rdlock_readers m w free in
        let back = law.unlock_reader m _ ((keeps _).1 ∙ had.1) in
        (
          (sys.rwlock_rdlock m w).1,
          had.0,
          refl,
          omega (arith, back.0, (keeps (sys.rwlock_rdlock m w).1).0, had.0),
          back.1,
        )

    -- Under the same condition a block runs, where nobody reads or writes, as the only writer, and then
    -- nobody reads or writes again.
    pub auto_lock_write-View :
        ((w : W)
          → (v.readers m (block w).1 ≡ v.readers m w) × (v.writer m (block w).1 ≡ v.writer m w))
        → (w : W) → v.writer m w ≡ false
        → v.readers m w ≡ 0
        → (w' : W) × (v.writer m w' ≡ true)
          × ((auto_lock_write sys m block w).0 ≡ (block w').0)
          × (v.readers m (auto_lock_write sys m block w).1 ≡ 0)
          × (v.writer m (auto_lock_write sys m block w).1 ≡ false)
    unfolding auto_lock_write
    auto_lock_write-View keeps w free nobody =
        let had = law.wrlock_writer m w free nobody in
        let left = law.unlock_writer m _ ((keeps _).1 ∙ had.0) in
        ((sys.rwlock_wrlock m w).1, had.0, refl, left.1 ∙ ((keeps _).0 ∙ had.1), left.0)
