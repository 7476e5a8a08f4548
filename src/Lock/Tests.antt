-- ===== src/Lock/Tests.antt =====
-- Witnesses for the locks: a system with one mutex and one readers-writer lock.
use opengcl.Prelude.{ℕ, ◌+◌, ◌-◌, ◌≡◌, refl, Bool, true, false}
use opengcl.Lock.{Pthread}
use opengcl.Lock.Scopes.{View, IsLock}

-- Whether the mutex is held, how many read, and whether one writes.
abbrev Locks : Type 0
Locks = Bool × ℕ × Bool

abbrev rw_unlock : Locks → Locks
rw_unlock (h, r, true) = (h, r, false)
rw_unlock (h, r, false) = (h, r - 1, false)

abbrev take_mutex : Locks → Locks
take_mutex (h, r, b) = (true, r, b)

abbrev give_mutex : Locks → Locks
give_mutex (h, r, b) = (false, r, b)

abbrev take_read : Locks → Locks
take_read (h, r, b) = (h, r + 1, b)

abbrev take_write : Locks → Locks
take_write (h, r, b) = (h, r, true)

abbrev locks : Pthread Locks
locks = record {
  mutex_lock = λ m w. (0, take_mutex w);
  mutex_unlock = λ m w. (0, give_mutex w);
  mutex_trylock = λ m w. (0, take_mutex w);
  cond_signal = λ c w. (0, w);
  cond_broadcast = λ c w. (0, w);
  cond_wait = λ c m w. (0, w);
  cond_timedwait = λ c m ts w. (110, w);
  rwlock_rdlock = λ m w. (0, take_read w);
  rwlock_wrlock = λ m w. (0, take_write w);
  rwlock_unlock = λ m w. (0, rw_unlock w);
}

abbrev view : View locks
view = record { held = λ m w. w.0; readers = λ m w. w.1; writer = λ m w. w.2 }

rw_unlock_reader :
    (w : Locks) → w.2 ≡ false → ((rw_unlock w).1 ≡ w.1 - 1) × ((rw_unlock w).2 ≡ false)
rw_unlock_reader (h, r, true) e = absurd (cc e)
rw_unlock_reader (h, r, false) e = (refl, refl)

rw_unlock_writer : (w : Locks) → w.2 ≡ true → ((rw_unlock w).2 ≡ false) × ((rw_unlock w).1 ≡ w.1)
rw_unlock_writer (h, r, true) e = (refl, refl)
rw_unlock_writer (h, r, false) e = absurd (cc e)

locks-IsLock : IsLock locks view
locks-IsLock = record {
  lock_held = λ m w free. refl;
  unlock_held = λ m w held. refl;
  rdlock_readers = λ m w free. (refl, free);
  wrlock_writer = λ m w free none_reads. (refl, none_reads);
  unlock_reader = λ m w e. rw_unlock_reader w e;
  unlock_writer = λ m w e. rw_unlock_writer w e;
}

-- What the block sees of the locks.
abbrev look : Locks → Locks × Locks
look w = (w, w)

abbrev nobody : Locks
nobody = (false, 2, false)

abbrev unused : Locks
unused = (false, 0, false)
