-- ===== src/Hex/RoundTrip.antt =====
-- src/util/gutil.cpp: `hexstr2byte` undoes `byte2hexstr`, and the other way round.
use opengcl.Prelude.{
  ℕ, zero, suc, ◌+◌, ◌*◌, ◌/◌, ◌%◌, ◌^◌, ◌<◌, ◌≡◌, refl, ap, ◌∙◌, List, [], ◌∷◌, arith, length,
}
use opengcl.Prelude.Int.{pos}
use opengcl.Prelude.Outcome.{done, ◌>>=◌}
use opengcl.Hex.{digit, hexval, byte2hexstr_loop, byte2hexstr, hexstr2byte_loop, hexstr2byte}
use opengcl.Hex.Digits.{IsToupper, IsUpperDigit, hexval-digit, digit-hexval, hexval-lt}

abbrev pub All : (ℕ → Type 0) → List ℕ → Type 0
All P [] = Unit {0}
All P (x ∷ xs) = P x × All P xs

-- The characters of the bytes of a list.
abbrev chars : List ℕ → List ℕ
chars [] = []
chars (c ∷ cs) = digit (c / 2 ^ 4 % 16) ∷ digit (c % 16) ∷ chars cs

loop-chars : (cs : List ℕ) → byte2hexstr_loop cs (length cs) ≡ done (chars cs)
unfolding byte2hexstr_loop
loop-chars [] = refl
loop-chars (c ∷ cs) = rw (loop-chars cs)

-- The length that `2 * n` comes to as the loop counts it.
abbrev double : ℕ → ℕ
double zero = 0
double (suc n) = suc (suc (double n))

double_lem : (n : ℕ) → 2 * n ≡ double n
double_lem zero = refl
double_lem (suc n) = omega (arith, double_lem n)

module _ (toupper : ℕ → ℕ) (u : IsToupper toupper) where
  loop_of-chars :
      (cs : List ℕ)
      → All (λ c. c < 256) cs
      → hexstr2byte_loop toupper (chars cs) (double (length cs)) ≡ done cs
  unfolding hexstr2byte_loop
  loop_of-chars [] h = refl
  loop_of-chars (c ∷ cs) h =
      rw
        (
          loop_of-chars cs h.1,
          hexval-digit toupper u (c / 2 ^ 4 % 16) (omega arith),
          hexval-digit toupper u (c % 16) (omega arith),
        )
        (ap (λ b. done (b ∷ cs)) (omega (arith, h.0)))

  -- With a `toupper` of the "C" locale, turning numbers below 256 into digits by `byte2hexstr` and back
  -- by `hexstr2byte` gives the same numbers.
  pub hexstr2byte-byte2hexstr :
      (cs : List ℕ)
      → All (λ c. c < 256) cs
      → (byte2hexstr cs (pos (length cs)) >>= λ hex. hexstr2byte toupper hex (pos (2 * length cs)))
        ≡ done cs
  unfolding byte2hexstr hexstr2byte
  hexstr2byte-byte2hexstr cs h = rw (loop-chars cs, double_lem (length cs)) (loop_of-chars cs h)

  nibbles :
      (x y : ℕ)
      → x < 16
      → y < 16
      → ((x * 2 ^ 4 % 256 + y) % 256 / 2 ^ 4 % 16 ≡ x) × ((x * 2 ^ 4 % 256 + y) % 256 % 16 ≡ y)
  nibbles x y p q = omega arith

  loop-hexstr :
      (hs : List ℕ) (n : ℕ)
      → length hs ≡ double n
      → All IsUpperDigit hs
      → (cs : List ℕ) × (hexstr2byte_loop toupper hs (double n) ≡ done cs)
        × (byte2hexstr_loop cs n ≡ done hs)
  unfolding hexstr2byte_loop byte2hexstr_loop
  loop-hexstr [] zero e h = ([], refl, refl)
  loop-hexstr (a ∷ hs) zero e h = absurd (omega arith)
  loop-hexstr [] (suc n) e h = absurd (omega arith)
  loop-hexstr (a ∷ []) (suc n) e h = absurd (omega arith)
  loop-hexstr (a ∷ b ∷ hs) (suc n) e h =
      let (cs, to, from) = loop-hexstr hs n (omega (arith, e)) h.1.1 in
      let (high, low) =
        nibbles (hexval toupper a) (hexval toupper b) (hexval-lt toupper u a)
          (hexval-lt toupper u b) in
      (
        (hexval toupper a * 2 ^ 4 % 256 + hexval toupper b) % 256 ∷ cs,
        rw to,
        rw (from, high, low, digit-hexval toupper u a h.0, digit-hexval toupper u b h.1.0),
      )

  -- With a `toupper` of the "C" locale, turning an even number of digits `0` to `9` and `A` to `F` into
  -- bytes by `hexstr2byte` and back by `byte2hexstr` gives the same digits.
  pub byte2hexstr-hexstr2byte :
      (hs : List ℕ) (n : ℕ)
      → length hs ≡ 2 * n
      → All IsUpperDigit hs
      → (hexstr2byte toupper hs (pos (2 * n)) >>= λ cs. byte2hexstr cs (pos n)) ≡ done hs
  unfolding byte2hexstr hexstr2byte
  byte2hexstr-hexstr2byte hs n e h =
      let (cs, to, from) = loop-hexstr hs n (e ∙ double_lem n) h in rw (double_lem n, to, from)
