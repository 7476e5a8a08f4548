-- ===== src/Guard.antt =====
-- include/gthread.h, AutoLockWrite and AutoLockRead, as the classes QueueMT and EventEmitter use them: an object
-- behind a readers-writer lock, which any number of threads call. The lock is `pthread_rwlock_t`: its writer
-- keeps everybody out, its readers keep writers out. Where taking the lock fails, the classes go on without it
-- (Lock.antt): here it does not fail. A call for writing reads the object in one step and writes it back in a
-- later one; a call for reading looks at the object in two steps.
pub mod Locking
pub mod Order
use opengcl.Prelude.{
  ℕ, zero, suc, ◌+◌, ◌-◌, ◌≡◌, refl, Option, none, some, Bool, true, false, List, [], ◌∷◌, ◌++◌,
}
use opengcl.Prelude.Outcome.{Outcome, done, fault, ◌>>=◌}

-- What its calls do, by themselves: `C` are those that take the lock for writing, `R` those that take it for
-- reading, `P` are the replies. A call for reading replies by what it saw at its first look and at its second.
pub record Object {ℓ} (S C R P : Type ℓ) : Type ℓ where
  pub write_body : C → S → Outcome (P × S)
  pub read_body : R → S → S → P

pub data Call {ℓ} (C R : Type ℓ) : Type ℓ where
  write : C → Call C R
  read : R → Call C R

module _ {ℓ} {S C R P : Type ℓ} (obj : Object S C R P) where
  -- A call by itself.
  unfoldable pub body : Call C R → S → Outcome (P × S)
  body (write c) q = obj.write_body c q
  body (read c) q = done (obj.read_body c q q, q)

  -- Calls one after the other.
  unfoldable pub run : S → List (Call C R) → Outcome (List P × S)
  unfolding body
  run q [] = done ([], q)
  run q (c ∷ cs) = do (r, q') ← body c q; (rs, q'') ← run q' cs; done (r ∷ rs, q'')

-- What the threads share.
pub record Shared {ℓ} (S : Type ℓ) : Type ℓ where
  pub writer : Bool
  pub readers : ℕ
  pub state : S

-- Where a thread stands, with what it has read.
pub data Pc {ℓ} (S C R : Type ℓ) : Type ℓ where
  idle : Pc S C R
  writing : C → Pc S C R
  fetched : C → S → Pc S C R
  written : Pc S C R
  reading : R → Pc S C R
  looked : R → S → Pc S C R
  observed : Pc S C R

-- A call and its reply.
pub record Entry {ℓ} (C R P : Type ℓ) : Type ℓ where
  pub call : Call C R
  pub reply : P

-- One step of one thread: an access to the object, or to the lock, which is given as it is documented and does not
-- fail. The label is the call that takes effect in it, if one does. `AutoLockWrite`
-- and `AutoLockRead` take the lock when they are made and release it when the call returns.
pub data Move {ℓ} {S C R P : Type ℓ} (obj : Object S C R P) (m : Shared S)
    : Pc S C R → Option (Entry C R P) → Shared S → Pc S C R → Type ℓ where
  lock_write :
      (c : C)
      → m.writer ≡ false
      → m.readers ≡ 0
      → Move obj m idle none (record m { writer = true }) (writing c)
  fetch : {c : C} → Move obj m (writing c) none m (fetched c m.state)
  commit :
      {c : C} {q q' : S} {r : P}
      → obj.write_body c q ≡ done (r, q')
      → Move obj m
          (fetched c q)
          (some (record { call = write c; reply = r }))
          (record m { state = q' })
          written
  unlock_write : Move obj m written none (record m { writer = false }) idle
  lock_read :
      (c : R)
      → m.writer ≡ false
      → Move obj m idle none (record m { readers = suc m.readers }) (reading c)
  look : {c : R} → Move obj m (reading c) none m (looked c m.state)
  observe :
      {c : R} {q : S}
      → Move obj m
          (looked c q)
          (some (record { call = read c; reply = obj.read_body c q m.state }))
          m
          observed
  unlock_read : Move obj m observed none (record m { readers = m.readers - 1 }) idle

pub record System {ℓ} (S C R : Type ℓ) : Type ℓ where
  pub mem : Shared S
  pub threads : List (Pc S C R)

pub data Step {ℓ} {S C R P : Type ℓ} (obj : Object S C R P) (s : System S C R)
    (e : Option (Entry C R P)) (t : System S C R) : Type ℓ where
  pick :
      (xs : List (Pc S C R)) {p p' : Pc S C R} (ys : List (Pc S C R)) {m : Shared S}
      → s.threads ≡ xs ++ p ∷ ys
      → Move obj s.mem p e m p'
      → t ≡ record { mem = m; threads = xs ++ p' ∷ ys }
      → Step obj s e t

abbrev pub idlers {ℓ} : {S C R : Type ℓ} → ℕ → List (Pc S C R)
idlers zero = []
idlers (suc n) = idle ∷ idlers n

-- `n` threads over an object that nobody has locked.
abbrev pub init {ℓ} : {S C R : Type ℓ} → ℕ → S → System S C R
init n q = record { mem = record { writer = false; readers = 0; state = q }; threads = idlers n }

-- What can come about, with the calls that have taken effect so far, in order.
pub data Reach {ℓ} {S C R P : Type ℓ} (obj : Object S C R P) (n : ℕ) (q : S)
    : List (Entry C R P) → System S C R → Type ℓ where
  start : Reach obj n q [] (init n q)
  silent :
      {l : List (Entry C R P)} {s t : System S C R}
      → Reach obj n q l s
      → Step obj s none t
      → Reach obj n q l t
  effect :
      {l : List (Entry C R P)} {e : Entry C R P} {s t : System S C R}
      → Reach obj n q l s
      → Step obj s (some e) t
      → Reach obj n q (l ++ e ∷ []) t
