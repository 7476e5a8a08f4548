-- ===== src/Prelude/Open.antt =====
-- What a system has open, by number, where a call gives a number or nothing.
use opengcl.Prelude.{
  ℕ, ◌≡◌, refl, sym, ap, ◌∙◌, inl, inr, Option, none, some, Bool, true, false, Bool-cases, ◌==◌,
  if◌then◌else◌, ==→eq, eq→==,
}

abbrev pub holds : Option ℕ → ℕ → Bool
holds none x = false
holds (some k) x = k == x

-- With one more open, if there is one.
abbrev pub opened : Option ℕ → (ℕ → Bool) → ℕ → Bool
opened o s x = if holds o x then true else s x

-- Without that one.
abbrev pub closed : Option ℕ → (ℕ → Bool) → ℕ → Bool
closed o s x = if holds o x then false else s x

abbrev pub IsOpen : Option ℕ → (ℕ → Bool) → Type 0
IsOpen none s = Unit
IsOpen (some k) s = s k ≡ true

abbrev pub IsNew : Option ℕ → (ℕ → Bool) → Type 0
IsNew none s = Unit
IsNew (some k) s = s k ≡ false

pub opened-IsOpen : (o : Option ℕ) (s : ℕ → Bool) → IsOpen o (opened o s)
opened-IsOpen none s = tt
opened-IsOpen (some k) s = rw (eq→== k k refl) refl

pub closed-opened : (o : Option ℕ) (s : ℕ → Bool) → IsNew o s → closed o (opened o s) ≡ s
closed-opened none s new = refl
closed-opened (some k) s new = λ i x. at x i
  where
    at : (x : ℕ) → closed (some k) (opened (some k) s) x ≡ s x
    at x = elim (Bool-cases (k == x)) [
      | inl e ↦ rw e (sym (ap s (sym (==→eq k x e)) ∙ new))
      | inr e ↦ rw e refl
    ]
