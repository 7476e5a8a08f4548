-- ===== src/Lock/Handles.antt =====
-- include/gthread.h: the constructors and destructors of Mutex, Condition and RWLock, and the methods of RWLock. Each
-- is one call of pthread, which takes the handle and returns an error number; a constructor or destructor
-- leaves it aside.
use opengcl.Prelude.{ℕ}

pub record Pthread (W : Type 0) : Type 0 where
  pub mutex_init : ℕ → W → ℕ × W
  pub mutex_destroy : ℕ → W → ℕ × W
  pub cond_init : ℕ → W → ℕ × W
  pub cond_destroy : ℕ → W → ℕ × W
  pub rwlock_init : ℕ → W → ℕ × W
  pub rwlock_destroy : ℕ → W → ℕ × W
  pub rwlock_rdlock : ℕ → W → ℕ × W
  pub rwlock_tryrdlock : ℕ → W → ℕ × W
  pub rwlock_wrlock : ℕ → W → ℕ × W
  pub rwlock_trywrlock : ℕ → W → ℕ × W
  pub rwlock_unlock : ℕ → W → ℕ × W

module _ {W : Type 0} (sys : Pthread W) where
  pub new_mutex : ℕ → W → W
  new_mutex mtx w = (sys.mutex_init mtx w).1

  pub delete_mutex : ℕ → W → W
  delete_mutex mtx w = (sys.mutex_destroy mtx w).1

  pub new_condition : ℕ → W → W
  new_condition cond w = (sys.cond_init cond w).1

  pub delete_condition : ℕ → W → W
  delete_condition cond w = (sys.cond_destroy cond w).1

  pub new_rwlock : ℕ → W → W
  new_rwlock rw w = (sys.rwlock_init rw w).1

  pub delete_rwlock : ℕ → W → W
  delete_rwlock rw w = (sys.rwlock_destroy rw w).1

  pub rdlock : ℕ → W → ℕ × W
  rdlock rw w = sys.rwlock_rdlock rw w

  pub tryrdlock : ℕ → W → ℕ × W
  tryrdlock rw w = sys.rwlock_tryrdlock rw w

  pub wrlock : ℕ → W → ℕ × W
  wrlock rw w = sys.rwlock_wrlock rw w

  pub trywrlock : ℕ → W → ℕ × W
  trywrlock rw w = sys.rwlock_trywrlock rw w

  pub unlock_rwlock : ℕ → W → ℕ × W
  unlock_rwlock rw w = sys.rwlock_unlock rw w
