-- ===== src/Hex/Runs.antt =====
-- src/util/gutil.cpp: how much `byte2hexstr` and `hexstr2byte` read and write.
use opengcl.Prelude.{
  ℕ, zero, suc, ◌+◌, ◌*◌, ◌/◌, ◌%◌, ◌^◌, ◌≤◌, ◌<◌, ◌≡◌, refl, List, [], ◌∷◌, arith, length,
}
use opengcl.Prelude.Int.{ℤ}
use opengcl.Prelude.Outcome.{done, fault}
use opengcl.Hex.{
  rounds, chr2hex, hexval, byte2hexstr_loop, byte2hexstr, hexstr2byte_loop, hexstr2byte,
}

byte2hexstr_loop-done :
    (src : List ℕ) (n : ℕ)
    → n ≤ length src
    → (dst : List ℕ) × (byte2hexstr_loop src n ≡ done dst) × (length dst ≡ 2 * n)
unfolding byte2hexstr_loop
byte2hexstr_loop-done src zero h = ([], refl, refl)
byte2hexstr_loop-done [] (suc n) h = absurd (omega arith)
byte2hexstr_loop-done (c ∷ src) (suc n) h =
    let (dst, e, l) = byte2hexstr_loop-done src n (omega arith) in
    let (high, low) = chr2hex c in (high ∷ low ∷ dst, rw e, omega (arith, l))

byte2hexstr_loop-fault : (src : List ℕ) (n : ℕ) → length src < n → byte2hexstr_loop src n ≡ fault
unfolding byte2hexstr_loop
byte2hexstr_loop-fault src zero h = absurd (omega arith)
byte2hexstr_loop-fault [] (suc n) h = refl
byte2hexstr_loop-fault (c ∷ src) (suc n) h = rw (byte2hexstr_loop-fault src n (omega arith))

-- With `n` bytes to read, `byte2hexstr` writes two characters for each of them, a negative `n` being
-- 0. With fewer it reads past their end.
pub byte2hexstr_runs :
    (src : List ℕ) (n : ℤ)
    → (rounds n ≤ length src
        → (dst : List ℕ) × (byte2hexstr src n ≡ done dst) × (length dst ≡ 2 * rounds n))
      × (length src < rounds n → byte2hexstr src n ≡ fault)
unfolding byte2hexstr
byte2hexstr_runs src n =
    (byte2hexstr_loop-done src (rounds n), byte2hexstr_loop-fault src (rounds n))

module _ (toupper : ℕ → ℕ) where
  hexstr2byte_loop-done :
      (src : List ℕ) (n : ℕ)
      → n ≤ length src
      → (dst : List ℕ) × (hexstr2byte_loop toupper src n ≡ done dst) × (length dst ≡ (n + 1) / 2)
  unfolding hexstr2byte_loop
  hexstr2byte_loop-done src zero h = ([], refl, refl)
  hexstr2byte_loop-done [] (suc n) h = absurd (omega arith)
  hexstr2byte_loop-done (c ∷ src) (suc zero) h = (_, refl, refl)
  hexstr2byte_loop-done (c ∷ []) (suc (suc n)) h = absurd (omega arith)
  hexstr2byte_loop-done (c ∷ d ∷ src) (suc (suc n)) h =
      let (dst, e, l) = hexstr2byte_loop-done src n (omega arith) in
      ((hexval toupper c * 2 ^ 4 % 256 + hexval toupper d) % 256 ∷ dst, rw e, omega (arith, l))

  hexstr2byte_loop-fault :
      (src : List ℕ) (n : ℕ) → length src < n → hexstr2byte_loop toupper src n ≡ fault
  unfolding hexstr2byte_loop
  hexstr2byte_loop-fault src zero h = absurd (omega arith)
  hexstr2byte_loop-fault [] (suc n) h = refl
  hexstr2byte_loop-fault (c ∷ src) (suc zero) h = absurd (omega arith)
  hexstr2byte_loop-fault (c ∷ []) (suc (suc n)) h = refl
  hexstr2byte_loop-fault (c ∷ d ∷ src) (suc (suc n)) h =
      rw (hexstr2byte_loop-fault src n (omega arith))

  -- With `n` characters to read, a negative `n` being 0, `hexstr2byte` writes one byte for two of them
  -- and one for the last if `n` is odd. With fewer it reads past their end.
  pub hexstr2byte_runs :
      (src : List ℕ) (n : ℤ)
      → (rounds n ≤ length src
          → (dst : List ℕ) × (hexstr2byte toupper src n ≡ done dst)
            × (length dst ≡ (rounds n + 1) / 2))
        × (length src < rounds n → hexstr2byte toupper src n ≡ fault)
  unfolding hexstr2byte
  hexstr2byte_runs src n =
      (hexstr2byte_loop-done src (rounds n), hexstr2byte_loop-fault src (rounds n))
