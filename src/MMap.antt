-- ===== src/MMap.antt =====
-- src/gmmap.cpp and include/gmmap.h, with src/util/filelength.cpp: classes MMap and MMapFile on POSIX. The
-- system is a parameter, whose calls pass its state `W` on. Addresses are numbers, 0 is null; `size_t` and
-- `off_t` have 64 bits and `int` 32.
pub mod Calls
pub mod Files
pub mod Maps
pub mod Win32
mod Tests
use opengcl.Prelude.{
  ℕ, zero, suc, ◌+◌, ◌-◌, ◌*◌, ◌/◌, ◌%◌, ◌^◌, Option, none, some, Bool, true, false, not, ◌==◌,
  if◌then◌else◌,
}

-- The calls of the system. `mmap` takes the length, whether the mapping is read-only, the file (`none` for
-- -1, a mapping of no file) and the offset, and gives an address or MAP_FAILED, which is `map_failed`.
-- `lseek_cur` says whether the file can be positioned and where it stands, `lseek_end` where it ends.
pub record Sys (W : Type 0) : Type 0 where
  pub mmap : ℕ → Bool → Option ℕ → ℕ → W → ℕ × W
  pub munmap : ℕ → ℕ → W → W
  pub open_file : ℕ → Bool → W → Option ℕ × W
  pub close_file : ℕ → W → W
  pub lseek_cur : ℕ → W → Option ℕ × W
  pub lseek_end : ℕ → W → ℕ × W
  pub lseek_set : ℕ → ℕ → W → W
  pub page_size : ℕ

-- `MAP_FAILED` is `(void *)-1`.
abbrev pub map_failed : ℕ
map_failed = 2 ^ 64 - 1

-- class MMap
pub record MMap : Type 0 where
  pub m_h_map : ℕ
  pub m_ptr : ℕ
  pub m_size : ℕ

abbrev pub unmapped : MMap
unmapped = record { m_h_map = 0; m_ptr = 0; m_size = 0 }

pub is_valid : MMap → Bool
is_valid m = not (m.m_ptr == 0)

-- `(int)x`, seen as the 64-bit offset that it is converted to.
pub int_of : ℕ → ℕ
int_of x = if x % 2 ^ 32 / 2 ^ 31 == 0 then x % 2 ^ 32 else x % 2 ^ 32 + 2 ^ 64 - 2 ^ 32

module _ {W : Type 0} (sys : Sys W) where
  -- `_filelength`; the file is positioned where it was before.
  pub filelength : Option ℕ → W → ℕ × W
  filelength none w = (2 ^ 64 - 1, w)
  filelength (some fd) w = measured (sys.lseek_cur fd w)
    where
      measured : Option ℕ × W → ℕ × W
      measured (none, w1) = (2 ^ 64 - 1, w1)
      measured (some pos, w1) =
          let (size, w2) = sys.lseek_end fd w1 in (size % 2 ^ 64, sys.lseek_set fd pos w2)

  pub close : MMap → W → MMap × W
  close m w =
      let w1 = if m.m_h_map == 0 then w else sys.munmap m.m_h_map m.m_size w in
      if m.m_ptr == 0 then (m, w) else (record m { m_ptr = 0; m_size = 0 }, w1)

  -- `if (is_valid()) close();`
  pub close_valid : MMap → W → MMap × W
  unfolding is_valid close
  close_valid m w = if is_valid m then close m w else (m, w)

  -- `size == 0 ? _filelength(filedes) - offset : size`
  pub length_to_map : Option ℕ → ℕ → ℕ → W → ℕ × W
  unfolding filelength
  length_to_map filedes offset size w =
      let (len, w1) = filelength filedes w in
      if size == 0 then ((len + 2 ^ 64 - offset) % 2 ^ 64, w1) else (size, w)

  -- `m_ptr == MAP_FAILED`, at the end
  pub checked : MMap → W → ℕ × MMap × W
  checked m w = if m.m_ptr == map_failed then (0, unmapped, w) else (m.m_ptr, m, w)

  pub map_at_start : Option ℕ → ℕ → Bool → W → ℕ × MMap × W
  unfolding length_to_map checked
  map_at_start filedes size readonly w =
      let (len, w1) = length_to_map filedes 0 size w in
      let (p, w2) = sys.mmap len readonly filedes 0 w1 in
      checked (record { m_h_map = p; m_ptr = p; m_size = len }) w2

  -- `pos_base`, an `int`
  pub pos_base : ℕ → ℕ
  unfolding int_of
  pos_base offset = int_of (int_of (offset / sys.page_size) * sys.page_size)

  pub map_at_offset : Option ℕ → ℕ → ℕ → Bool → W → ℕ × MMap × W
  unfolding length_to_map checked pos_base
  map_at_offset filedes offset size readonly w =
      let pos_offs : ℕ = offset % sys.page_size in
      let (len, w1) = length_to_map filedes offset size w in
      let (p, w2) = sys.mmap len readonly filedes (pos_base offset) w1 in
      let ptr : ℕ = if p == 0 then 0 else (p + pos_offs) % 2 ^ 64 in
      checked (record { m_h_map = p; m_ptr = ptr; m_size = len }) w2

  -- `MMap::_mmap`; the result is the pointer that it returns, the object and the system.
  pub mmap : Option ℕ → ℕ → ℕ → Bool → MMap → W → ℕ × MMap × W
  unfolding close_valid map_at_start map_at_offset
  mmap filedes offset size readonly m w =
      let (m', w') = close_valid m w in
      if offset == 0
      then map_at_start filedes size readonly w'
      else map_at_offset filedes offset size readonly w'

-- class MMapFile; `m_fd` is `none` for -1.
pub record MMapFile : Type 0 where
  pub base : MMap
  pub m_fd : Option ℕ

module _ {W : Type 0} (sys : Sys W) where
  pub close_fd : Option ℕ → W → W
  close_fd none w = w
  close_fd (some fd) w = sys.close_file fd w

  -- `MMapFile::close`
  pub close_file : MMapFile → W → MMapFile × W
  unfolding close close_fd
  close_file f w =
      let (m, w1) = close sys f.base w in (record { base = m; m_fd = none }, close_fd f.m_fd w1)

  pub get_file_length : MMapFile → W → ℕ × W
  unfolding filelength
  get_file_length f w = length_of f.m_fd
    where
      length_of : Option ℕ → ℕ × W
      length_of none = (0, w)
      length_of (some fd) = filelength sys (some fd) w

  -- What `MMapFile::_mmap` does once the file is opened, or not.
  pub map_opened : ℕ → ℕ → Bool → MMap → Option ℕ × W → ℕ × MMapFile × W
  unfolding mmap
  map_opened offset size readonly m (none, w) = (0, record { base = m; m_fd = none }, w)
  map_opened offset size readonly m (some fd, w) =
      let (p, m', w') = mmap sys (some fd) offset size readonly m w in
      (p, record { base = m'; m_fd = some fd }, w')

  -- `MMapFile::_mmap`
  pub mmap_file : ℕ → ℕ → ℕ → Bool → MMapFile → W → ℕ × MMapFile × W
  unfolding is_valid close_file map_opened
  mmap_file path offset size readonly f w =
      let (f', w') = if is_valid f.base then close_file f w else (f, w) in
      map_opened offset size readonly f'.base (sys.open_file path readonly w')
