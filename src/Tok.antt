-- ===== src/Tok.antt =====
-- src/gtockenizer.cpp and include/gtockenizer.h: class Tockenizer. Pointers into the target string are
-- offsets from `m_head`; the bytes of the string are numbers.
pub mod Scan
pub mod Steps
mod Tests
pub mod Collect
pub mod Pieces
use opengcl.Prelude.{
  ℕ, zero, suc, ◌+◌, ◌-◌, ◌%◌, ◌^◌, Bool, true, false, ◌||◌, Option, none, some, List, [], ◌∷◌, ltb,
  leb, ◌==◌, if◌then◌else◌, length,
}
use opengcl.Prelude.Outcome.{Outcome, done, fault, ◌>>=◌}

-- `sizeof(m_sep)`
abbrev pub sizeof_sep : ℕ
sizeof_sep = 32

-- `m_head` is the memory that can be read from the head of the target string on, `none` for null;
-- `m_sep` is the string of separators without its terminator.
pub record Tockenizer : Type 0 where
  pub m_head : Option (List ℕ)
  pub m_tail : ℕ
  pub m_pos : ℕ
  pub m_end : ℕ
  pub m_sep : List ℕ

-- The constructor without arguments.
abbrev pub fresh : Tockenizer
fresh = record { m_head = none; m_tail = 0; m_pos = 0; m_end = 0; m_sep = [] }

pub read : List ℕ → ℕ → Outcome ℕ
read [] p = fault
read (c ∷ str) zero = done c
read (c ∷ str) (suc p) = read str p

-- `memcpy` of `n` bytes from offset `p` on.
pub copy : List ℕ → ℕ → ℕ → Outcome (List ℕ)
unfolding read
copy str p zero = done []
copy str p (suc n) = do c ← read str p; cs ← copy str (p + 1) n; done (c ∷ cs)

pub memory : Option (List ℕ) → List ℕ
memory none = []
memory (some str) = str

pub contains : List ℕ → ℕ → Bool
contains [] c = false
contains (s ∷ sep) c = (s == c) || contains sep c

-- `strchr(m_sep, c)` is not null: it finds the terminator too.
unfoldable pub is_separator : List ℕ → ℕ → Bool
unfolding contains
is_separator sep c = (c == 0) || contains sep c

-- The loop of `_find_next_token`, with the rounds that are left to `m_tail`.
pub find_end : List ℕ → List ℕ → ℕ → ℕ → Outcome ℕ
unfolding read is_separator
find_end sep str p zero = done p
find_end sep str p (suc n) =
    let rest = find_end sep str (p + 1) n in
    read str p >>= λ c. if is_separator sep c then done p else rest

pub find_next_token : Tockenizer → Outcome Tockenizer
unfolding find_end memory
find_next_token t = do
  e ← find_end t.m_sep (memory t.m_head) t.m_pos (t.m_tail - t.m_pos)
  done (record t { m_end = e })

pub set_separators : List ℕ → Tockenizer → Bool × Tockenizer
set_separators sep t =
    if leb sizeof_sep (length sep)
    then (false, record t { m_sep = [] })
    else (true, record t { m_sep = sep })

pub bind_to : Option (List ℕ) → ℕ → Tockenizer → Tockenizer
bind_to none slen t = record t { m_head = none; m_tail = 0; m_pos = 0 }
bind_to (some str) slen t = record t { m_head = some str; m_tail = slen; m_pos = 0 }

-- `bind(str, slen, sep)`
pub bind : Option (List ℕ) → ℕ → Option (List ℕ) → Tockenizer → Outcome (Bool × Tockenizer)
unfolding bind_to set_separators find_next_token
bind str slen none t = do t' ← find_next_token (bind_to str slen t); done (true, t')
bind str slen (some sep) t =
    let (accepted, t') = set_separators sep (bind_to str slen t) in
    if accepted then (do t'' ← find_next_token t'; done (true, t'')) else done (false, t')

pub strlen : List ℕ → Outcome ℕ
strlen [] = fault
strlen (c ∷ str) = if c == 0 then done 0 else (strlen str >>= λ n. done (n + 1))

-- `bind(str, sep)`
pub bind_string : Option (List ℕ) → Option (List ℕ) → Tockenizer → Outcome (Bool × Tockenizer)
unfolding bind strlen memory
bind_string str sep t = do n ← strlen (memory str); bind str (n % 2 ^ 32) sep t

-- What goes out through `buf`, `pSepBy` and `pTokenLen`.
pub record Token : Type 0 where
  pub text : Option (List ℕ)
  pub sep_by : Option ℕ
  pub token_len : Option ℕ

abbrev pub no_token : Token
no_token = record { text = none; sep_by = none; token_len = none }

-- The copy into `buf`, `none` for a null `buf`. The terminator is not part of the text.
pub copy_text : Option ℕ → Tockenizer → ℕ → Outcome (Option (List ℕ))
unfolding copy memory
copy_text none t n = done none
copy_text (some buf_size) t n = do cs ← copy (memory t.m_head) t.m_pos n; done (some cs)

pub read_sep : Bool → Tockenizer → Outcome (Option ℕ)
unfolding read memory
read_sep false t = done none
read_sep true t = do c ← read (memory t.m_head) t.m_end; done (some c)

pub too_small : Option ℕ → ℕ → Bool
too_small none n = false
too_small (some buf_size) n = leb buf_size n

-- `buf` is the size of a buffer, or null; the flags say whether the other pointers are not null.
pub get_next : Option ℕ → Bool → Bool → Tockenizer → Outcome (Bool × Token × Tockenizer)
unfolding copy_text read_sep too_small find_next_token
get_next buf want_sep want_len t =
    let n : ℕ = (2 ^ 32 + t.m_end - t.m_pos) % 2 ^ 32 in
    if leb t.m_tail t.m_pos
    then done (false, no_token, t)
    else if too_small buf n
    then done (false, no_token, t)
    else do
      text ← copy_text buf t n
      sep ← read_sep want_sep t
      t' ← find_next_token (record t { m_pos = t.m_end + 1 })
      done (
        true,
        record { text = text; sep_by = sep; token_len = if want_len then some n else none },
        t',
      )

pub rewind : Tockenizer → Outcome Tockenizer
unfolding find_next_token
rewind t = find_next_token (record t { m_pos = 0 })

pub has_more_tokens : Tockenizer → Bool
has_more_tokens t = ltb t.m_pos t.m_tail
