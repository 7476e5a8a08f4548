-- ===== src/Hex/Digits.antt =====
-- src/util/gutil.cpp: `chr2hex` and `hexval` digit by digit.
use opengcl.Prelude.{
  ℕ, ◌+◌, ◌-◌, ◌/◌, ◌%◌, ◌^◌, ◌≤◌, ◌<◌, ◌≡◌, ◌⊎◌, inl, inr, arith, leb, ◌&&◌, if◌then◌else◌,
}
use opengcl.Hex.{digit, chr2hex, hexval}

-- What the code relies on of `toupper` in the "C" locale.
pub record IsToupper (toupper : ℕ → ℕ) : Type 0 where
  pub lower : (c : ℕ) → b'a' ≤ c → c ≤ b'z' → toupper c ≡ c - 32
  pub same : (c : ℕ) → (c < b'a') ⊎ (b'z' < c) → toupper c ≡ c

-- The characters `0` to `9` and `A` to `F`.
abbrev pub IsUpperDigit : ℕ → Type 0
IsUpperDigit c = ((b'0' ≤ c) × (c ≤ b'9')) ⊎ ((b'A' ≤ c) × (c ≤ b'F'))

pub digit-IsUpperDigit : (v : ℕ) → v < 16 → IsUpperDigit (digit v)
unfolding digit
digit-IsUpperDigit v h = ground arith

pub chr2hex-IsUpperDigit : (c : ℕ) → IsUpperDigit (chr2hex c).0 × IsUpperDigit (chr2hex c).1
unfolding chr2hex
chr2hex-IsUpperDigit c =
    (digit-IsUpperDigit (c / 2 ^ 4 % 16) (omega arith), digit-IsUpperDigit (c % 16) (omega arith))

module _ (toupper : ℕ → ℕ) (u : IsToupper toupper) where
  pub hexval-digit : (v : ℕ) → v < 16 → hexval toupper (digit v) ≡ v
  unfolding hexval digit
  hexval-digit v h = ground (arith, u.same (digit v))

  pub digit-hexval : (c : ℕ) → IsUpperDigit c → digit (hexval toupper c) ≡ c
  unfolding hexval digit
  digit-hexval c h = ground (arith, u.same c)

  pub hexval-lt : (c : ℕ) → hexval toupper c < 16
  unfolding hexval
  hexval-lt c = ground arith

  -- With a `toupper` of the "C" locale, `hexval` reads an ASCII digit of either case, and takes any
  -- other ASCII character for 0.
  pub hexval_lem :
      (c : ℕ)
      → c < 128
      → hexval toupper c ≡ (
          if leb b'0' c && leb c b'9'
          then c - b'0'
          else if leb b'A' c && leb c b'F'
          then c - b'A' + 10
          else if leb b'a' c && leb c b'f'
          then c - b'a' + 10
          else 0)
  unfolding hexval
  hexval_lem c h = elim (letter c) [
    | inl (ge, le) ↦ ground (arith, u.lower c ge le)
    | inr other ↦ ground (arith, u.same c other)
  ]
    where
      letter : (c : ℕ) → ((b'a' ≤ c) × (c ≤ b'z')) ⊎ ((c < b'a') ⊎ (b'z' < c))
      letter c = ground arith
