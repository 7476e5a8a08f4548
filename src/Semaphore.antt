-- ===== src/Semaphore.antt =====
-- include/gsemaphore.h: class Semaphore, over the calls of a POSIX semaphore as a parameter.
use opengcl.Prelude.{ℕ}

-- The calls, for the semaphore of one object: each takes the state of the system and gives what it returns with
-- the new one; `sem_getvalue` also stores a value.
pub record SemCalls (W : Type 0) : Type 0 where
  pub sem_init : ℕ → W → ℕ × W
  pub sem_destroy : W → ℕ × W
  pub sem_wait : W → ℕ × W
  pub sem_trywait : W → ℕ × W
  pub sem_post : W → ℕ × W
  pub sem_getvalue : W → ℕ × ℕ × W

module _ {W : Type 0} (sys : SemCalls W) where
  -- What `sem_init` returns is dropped, also where it fails.
  abbrev pub construct : ℕ → W → W
  construct val w = (sys.sem_init val w).1

  abbrev pub destruct : W → W
  destruct w = (sys.sem_destroy w).1

  abbrev pub wait : W → ℕ × W
  wait w = sys.sem_wait w

  abbrev pub trywait : W → ℕ × W
  trywait w = sys.sem_trywait w

  abbrev pub post : W → ℕ × W
  post w = sys.sem_post w

  abbrev pub get_value : W → ℕ × ℕ × W
  get_value w = sys.sem_getvalue w
