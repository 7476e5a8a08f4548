-- ===== src/Hex/Tests.antt =====
-- src/util/gutil.cpp: each theorem at the bytes 0x4f 0xa0.
use opengcl.Prelude.{ℕ, ◌-◌, ◌≤◌, ◌<◌, ◌≡◌, ◌⊎◌, List, [], ◌∷◌, arith, leb, ◌&&◌, if◌then◌else◌}
use opengcl.Prelude.Int.{pos}
use opengcl.Prelude.Outcome.{done, ◌>>=◌}
use opengcl.Hex.{byte2hexstr, hexstr2byte}
use opengcl.Hex.Digits.{IsToupper}
use opengcl.Hex.RoundTrip.{hexstr2byte-byte2hexstr}

-- A `toupper` for ASCII.
abbrev ascii_upper : ℕ → ℕ
ascii_upper c = if leb b'a' c && leb c b'z' then c - 32 else c

ascii_upper-lower : (c : ℕ) → b'a' ≤ c → c ≤ b'z' → ascii_upper c ≡ c - 32
ascii_upper-lower c h k = ground arith

ascii_upper-same : (c : ℕ) → (c < b'a') ⊎ (b'z' < c) → ascii_upper c ≡ c
ascii_upper-same c h = ground arith

abbrev ascii : IsToupper ascii_upper
ascii = record { lower = ascii_upper-lower; same = ascii_upper-same }

abbrev bytes : List ℕ
bytes = 0x4f ∷ 0xa0 ∷ []

abbrev digits : List ℕ
digits = b'4' ∷ b'F' ∷ b'A' ∷ b'0' ∷ []

hexstr2byte-byte2hexstr_example :
    (byte2hexstr bytes (pos 2) >>= λ hex. hexstr2byte ascii_upper hex (pos 4)) ≡ done bytes
hexstr2byte-byte2hexstr_example = hexstr2byte-byte2hexstr ascii_upper ascii bytes (omega arith)
