-- ===== src/Que/Counts.antt =====
-- src/gque.cpp: `length`, `available`, `capacity`, `is_full` and `is_empty` of a queue.
use native.Mathlib.Nat.{mul-div_cancel, mul-le-mul_right, mul-le-mul_left}
use opengcl.Prelude.{
  ℕ, suc, ◌+◌, ◌-◌, ◌*◌, ◌/◌, ◌%◌, ◌^◌, ◌≤◌, ◌<◌, ◌≡◌, refl, ap, ◌∙◌, ◌⊎◌, inl, inr, List, some,
  Bool, arith, leb, ltb, ◌==◌, if◌then◌else◌, add32, sub32,
}
use opengcl.Prelude
use opengcl.Que.{Cque, length, available, capacity, is_full, is_empty}
use opengcl.Que.Layout.{slot, slot-lt, wrap, IsLaid}
use opengcl.Que.Holds.{Holds}
use opengcl.Que.Fifo.{full_test, empty_test}

-- Where the tail stands: `k` slots behind the head, or one turn less.
wrap-cases :
    (n i k : ℕ)
    → ((i + k ≤ n) × (wrap n (i + k) ≡ i + k)) ⊎ ((n < i + k) × (wrap n (i + k) + suc n ≡ i + k))
wrap-cases n i k = ground arith

module _ {ℓ} {A : Type ℓ} {c : Cque A} {n i k : ℕ} (v : IsLaid c n i k) where
  open v use {begin_at, end_at, fits, head_at, tail_at, head_in, len_in, size_pos}

  used_bytes :
      (if leb c.head c.tail
        then sub32 c.tail c.head
        else add32 (sub32 c.end c.head) (sub32 c.tail c.begin))
      ≡ k * c.item_size
  unfolding sub32 add32
  used_bytes = elim (wrap-cases n i k) [
    | inl (le, e) ↦ ground (
      arith,
      begin_at,
      end_at,
      fits,
      head_at,
      tail_at ∙ ap (slot c.item_size) e,
      mul-le-mul_right {m = i + k} {n = suc n} c.item_size (omega arith),
    )
    | inr (lt, e) ↦ ground (
      arith,
      begin_at,
      end_at,
      fits,
      head_at,
      tail_at,
      ap (λ (t : ℕ). t * c.item_size) e,
      slot-lt c.item_size (wrap n (i + k)) i size_pos (omega (arith, e, len_in)),
      mul-le-mul_right {m = i} {n = suc n} c.item_size (omega arith),
    )
  ]

  free_bytes :
      (if ltb c.tail c.head
        then sub32 c.head c.tail
        else add32 (sub32 c.end c.tail) (sub32 c.head c.begin))
      ≡ (suc n - k) * c.item_size
  unfolding sub32 add32
  free_bytes = elim (wrap-cases n i k) [
    | inl (le, e) ↦ ground (
      arith,
      begin_at,
      end_at,
      fits,
      head_at,
      tail_at ∙ ap (slot c.item_size) e,
      split,
      mul-le-mul_right {m = i + k} {n = suc n} c.item_size (omega arith),
    )
    | inr (lt, e) ↦ ground (
      arith,
      begin_at,
      end_at,
      fits,
      head_at,
      tail_at,
      ap (λ (t : ℕ). t * c.item_size) e,
      split,
      slot-lt c.item_size (wrap n (i + k)) i size_pos (omega (arith, e, len_in)),
      mul-le-mul_right {m = i} {n = suc n} c.item_size (omega arith),
    )
  ]
    where
      split : (suc n - k) * c.item_size + k * c.item_size ≡ suc n * c.item_size
      split =
          let e : suc n - k + k ≡ suc n = omega (arith, len_in) in
          omega (arith, ap (λ (t : ℕ). t * c.item_size) e)

-- The five accessors of a queue of capacity `n` that holds `xs`.
pub record Counted {ℓ} {A : Type ℓ} (c : Cque A) (n : ℕ) (xs : List A) : Type 0 where
  pub length_is : length (some c) ≡ Prelude.length xs
  pub available_is : available (some c) ≡ n - Prelude.length xs
  pub capacity_is : capacity (some c) ≡ n
  pub is_full_is : is_full (some c) ≡ (Prelude.length xs == n)
  pub is_empty_is : is_empty (some c) ≡ (Prelude.length xs == 0)

module _ {ℓ} {A : Type ℓ} {c : Cque A} {n : ℕ} {xs : List A} (h : Holds c n xs) where
  open h use {laid}

  suc_n-lt : suc n < 2 ^ 32
  suc_n-lt =
      omega (arith, laid.fits, mul-le-mul_left {m = 1} {n = c.item_size} (suc n) laid.size_pos)

  -- Of a queue of capacity `n` that holds `xs`, `length` is the number of items, `available` is `n`
  -- less that number, `capacity` is `n`, `is_full` says whether the number is `n`, and `is_empty`
  -- whether it is 0.
  pub Holds-Counted : Counted c n xs
  unfolding length available capacity is_full is_empty sub32
  Holds-Counted = record {
    length_is =
        ap (λ b. b / c.item_size) (used_bytes laid)
        ∙ mul-div_cancel (Prelude.length xs) laid.size_pos;
    available_is =
        ap (λ (b : ℕ). (b / c.item_size + 2 ^ 32 - 1) % 2 ^ 32) (free_bytes laid)
        ∙ ap (λ (b : ℕ). (b + 2 ^ 32 - 1) % 2 ^ 32)
            (mul-div_cancel (suc n - Prelude.length xs) laid.size_pos)
        ∙ omega (arith, laid.len_in, suc_n-lt);
    capacity_is =
        ap (λ (b : ℕ). (b / c.item_size + 2 ^ 32 - 1) % 2 ^ 32) area
        ∙ ap (λ (b : ℕ). (b + 2 ^ 32 - 1) % 2 ^ 32) (mul-div_cancel (suc n) laid.size_pos)
        ∙ omega (arith, suc_n-lt);
    is_full_is = full_test h;
    is_empty_is = empty_test h;
  }
    where
      area : (c.end + 2 ^ 32 - c.begin) % 2 ^ 32 ≡ suc n * c.item_size
      area = omega (arith, laid.end_at, laid.begin_at, laid.fits)
