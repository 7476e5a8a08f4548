-- ===== src/Que/Layout.antt =====
-- src/gque.cpp: where the items of a queue lie. Slot `i` of a queue of capacity `n` begins at byte
-- 20 + i * item_size; there are n + 1 slots, of which one stays free.
use native.Mathlib.Nat.{mul-le-mul_right}
use opengcl.Prelude.{
  ℕ, zero, suc, ◌+◌, ◌-◌, ◌*◌, ◌^◌, ◌≤◌, ◌<◌, ◌≡◌, true, arith, leb, ◌==◌, if◌then◌else◌, add32,
  sub32,
}
use opengcl.Que.{Cque, next_offset, push_offset, in_area}

abbrev pub slot : ℕ → ℕ → ℕ
slot size i = 20 + i * size

-- An index that has run past slot `n`, taken back by one turn.
abbrev pub wrap : ℕ → ℕ → ℕ
wrap n a = if leb a n then a else a - suc n

pub slot-lt : (size i j : ℕ) → 0 < size → i < j → slot size i + size ≤ slot size j
slot-lt size i j p h = omega (arith, mul-le-mul_right {m = i + 1} {n = j} size (omega arith))

pub slot-eq : (size i j : ℕ) → 0 < size → (slot size i == slot size j) ≡ (i == j)
slot-eq size i j p = ground (arith, slot-lt size i j p, slot-lt size j i p)

pub record IsLaid {ℓ} {A : Type ℓ} (c : Cque A) (n i k : ℕ) : Type 0 where
  pub size_pos : 0 < c.item_size
  pub begin_at : c.begin ≡ 20
  pub end_at : c.end ≡ slot c.item_size (suc n)
  pub fits : slot c.item_size (suc n) < 2 ^ 32
  pub head_at : c.head ≡ slot c.item_size i
  pub tail_at : c.tail ≡ slot c.item_size (wrap n (i + k))
  pub head_in : i ≤ n
  pub len_in : k ≤ n

module _ {ℓ} {A : Type ℓ} {c : Cque A} {n i k : ℕ} (v : IsLaid c n i k) where
  pub next_offset-slot :
      (j : ℕ) → j ≤ n → next_offset c (slot c.item_size j) ≡ slot c.item_size (wrap n (j + 1))
  unfolding next_offset add32
  next_offset-slot j h = ground (
    arith,
    v.size_pos,
    v.end_at,
    v.fits,
    v.begin_at,
    slot-lt c.item_size j (suc n),
    slot-eq c.item_size (suc j) (suc n),
  )

  pub in_area-slot : (j : ℕ) → j ≤ n → in_area c (slot c.item_size j) ≡ true
  unfolding in_area
  in_area-slot j h = ground (arith, v.end_at, v.begin_at, v.size_pos, slot-lt c.item_size j (suc n))

  pub push_offset-slot :
      (j : ℕ) → j ≤ n → 0 < j → push_offset c (slot c.item_size j) ≡ slot c.item_size (j - 1)
  unfolding push_offset sub32
  push_offset-slot j h p = ground (
    arith,
    v.size_pos,
    v.end_at,
    v.fits,
    v.begin_at,
    slot-lt c.item_size (j - 1) j,
    slot-lt c.item_size j (suc n),
    slot-eq-pred j p,
  )
    where
      slot-eq-pred : (i : ℕ) → 0 < i → slot c.item_size i ≡ slot c.item_size (i - 1) + c.item_size
      slot-eq-pred zero q = absurd (omega arith)
      slot-eq-pred (suc i) q = let e : suc i - 1 ≡ i = omega arith in rw e (omega arith)

  pub push_offset-first : c.item_size ≤ 20 → push_offset c (slot c.item_size 0) ≡ slot c.item_size n
  unfolding push_offset sub32
  push_offset-first h =
      ground (arith, v.size_pos, v.end_at, v.fits, v.begin_at, slot-lt c.item_size n (suc n))

  -- With items larger than the control block the difference wraps to a number past the end.
  pub push_offset-wrapped :
      20 < c.item_size → push_offset c (slot c.item_size 0) ≡ 2 ^ 32 + 20 - c.item_size
  unfolding push_offset sub32
  push_offset-wrapped h =
      ground (arith, v.size_pos, v.end_at, v.fits, v.begin_at, slot-lt c.item_size 0 (suc n))
