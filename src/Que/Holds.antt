-- ===== src/Que/Holds.antt =====
-- src/gque.cpp: what it means that a queue of capacity `n` holds a list of items, and what reading
-- and writing a slot does to that list.
use opengcl.Prelude.{
  ℕ, suc, ◌+◌, ◌≤◌, ◌<◌, ◌≡◌, ap, ◌∙◌, ◌≢◌, List, some, true, arith, ◌==◌, if◌then◌else◌, length,
}
use opengcl.Prelude.Outcome.{done}
use opengcl.Que.{Cque, copy_in, copy_out, in_area}
use opengcl.Que.Layout.{slot, slot-eq, wrap, IsLaid, in_area-slot}
use opengcl.Que.Window.{window, window_cong}

-- The item of each slot.
abbrev pub slots {ℓ} : {A : Type ℓ} → (ℕ → A) → ℕ → ℕ → A
slots mem size i = mem (slot size i)

pub record Holds {ℓ} {A : Type ℓ} (c : Cque A) (n : ℕ) (xs : List A) : Type ℓ where
  pub index : ℕ
  pub laid : IsLaid c n index (length xs)
  pub items : window (slots c.mem c.item_size) n index (length xs) ≡ xs

abbrev pub poke {ℓ} : {A : Type ℓ} → (ℕ → A) → ℕ → A → ℕ → A
poke mem a v b = if b == a then v else mem b

module _ {ℓ} {A : Type ℓ} {c : Cque A} {n i k : ℕ} (v : IsLaid c n i k) {a j : ℕ}
    (e : a ≡ slot c.item_size j) where
  pub copy_in-slot : (x : A) → j ≤ n → copy_in c a (some x) ≡ done (poke c.mem a x)
  unfolding copy_in
  copy_in-slot x h = rw (ap (in_area c) e ∙ in_area-slot v j h)

  pub copy_out-slot : j ≤ n → copy_out c a true ≡ done (some (c.mem a))
  unfolding copy_out
  copy_out-slot h = rw (ap (in_area c) e ∙ in_area-slot v j h)

  -- A write to a slot leaves the items of a window that does not reach it.
  pub window-poke :
      (x : A) (i' m : ℕ)
      → ((t : ℕ) → t < m → wrap n (i' + t) ≢ j)
      → i' ≤ n
      → m ≤ suc n
      → window (slots (poke c.mem a x) c.item_size) n i' m ≡ window (slots c.mem c.item_size) n i' m
  window-poke x i' m away hi hm =
      window_cong (slots (poke c.mem a x) c.item_size) (slots c.mem c.item_size) n i' m hi hm
        λ t ht. ground (arith, slot-eq c.item_size (wrap n (i' + t)) j v.size_pos, away t ht)

module _ {ℓ} {A : Type ℓ} (mem : ℕ → A) (a : ℕ) (x : A) where
  pub poke_self : {b : ℕ} → b ≡ a → poke mem a x b ≡ x
  poke_self e = ground arith
