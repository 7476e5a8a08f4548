-- ===== src/Hex.antt =====
-- src/util/gutil.cpp: bytes to hexadecimal digits and back. A `char` is its bit pattern, a number below
-- 256. `toupper` is the C library's, a parameter.
pub mod Digits
pub mod Runs
pub mod RoundTrip
mod Tests
use opengcl.Prelude.{
  ℕ, zero, suc, ◌+◌, ◌-◌, ◌*◌, ◌/◌, ◌%◌, ◌^◌, Bool, ◌&&◌, List, [], ◌∷◌, ltb, leb, if◌then◌else◌,
}
use opengcl.Prelude.Int.{ℤ, pos, negsuc}
use opengcl.Prelude.Outcome.{Outcome, done, fault, ◌>>=◌}

-- `(char)(((val < 10) ? '0' : 'A'-10) + val)`
pub digit : ℕ → ℕ
digit val = ((if ltb val 10 then b'0' else b'A' - 10) + val) % 256

-- The two characters that go to `hex[0]` and `hex[1]`.
pub chr2hex : ℕ → ℕ × ℕ
unfolding digit
chr2hex c = (digit (c / 2 ^ 4 % 16), digit (c % 16))

-- The rounds of `while ( --n >= 0 )`.
abbrev pub rounds : ℤ → ℕ
rounds (pos n) = n
rounds (negsuc n) = 0

-- Reading past the end of `src` is a fault. What is written to `dst` is the result.
pub byte2hexstr_loop : List ℕ → ℕ → Outcome (List ℕ)
unfolding chr2hex
byte2hexstr_loop src zero = done []
byte2hexstr_loop [] (suc n) = fault
byte2hexstr_loop (c ∷ src) (suc n) = do
  rest ← byte2hexstr_loop src n
  let (high, low) = chr2hex c
  done (high ∷ low ∷ rest)

pub byte2hexstr : List ℕ → ℤ → Outcome (List ℕ)
unfolding byte2hexstr_loop
byte2hexstr src n = byte2hexstr_loop src (rounds n)

-- After `hexchar = (char)toupper(hexchar)`. A pattern above 127 is a negative `char`, which fails
-- both tests, as it does here.
pub upper_hexval : ℕ → ℕ
upper_hexval h =
    if leb b'0' h && leb h b'9'
    then h - b'0'
    else if leb b'A' h && leb h b'F'
    then h - b'A' + 10
    else 0

module _ (toupper : ℕ → ℕ) where
  pub hexval : ℕ → ℕ
  unfolding upper_hexval
  hexval hexchar = upper_hexval (toupper hexchar % 256)

  -- Each round takes two digits, the last one if `n` is odd.
  pub hexstr2byte_loop : List ℕ → ℕ → Outcome (List ℕ)
  unfolding hexval
  hexstr2byte_loop src zero = done []
  hexstr2byte_loop [] (suc n) = fault
  hexstr2byte_loop (h ∷ src) (suc zero) = done (hexval h * 2 ^ 4 % 256 ∷ [])
  hexstr2byte_loop (h ∷ []) (suc (suc n)) = fault
  hexstr2byte_loop (h ∷ l ∷ src) (suc (suc n)) = do
    rest ← hexstr2byte_loop src n
    done ((hexval h * 2 ^ 4 % 256 + hexval l) % 256 ∷ rest)

  pub hexstr2byte : List ℕ → ℤ → Outcome (List ℕ)
  unfolding hexstr2byte_loop
  hexstr2byte src n = hexstr2byte_loop src (rounds n)
