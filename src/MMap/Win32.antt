-- ===== src/MMap/Win32.antt =====
-- src/gmmap.cpp: `close` and `_mmap` of class MMap on Windows. The system is a parameter, whose calls pass
-- its state `W` on. Handles and addresses are numbers of 64 bits, 0 is NULL; `off_t` and DWORD have 32 bits.
pub mod Ledger
pub mod Life
pub mod Views
mod Tests
use opengcl.Prelude.{
  ℕ, ◌+◌, ◌-◌, ◌*◌, ◌/◌, ◌%◌, ◌^◌, Option, none, some, List, [], ◌∷◌, Bool, ◌==◌, if◌then◌else◌,
}
use opengcl.MMap.{MMap, is_valid, int_of}

-- The calls of the system. A file is `none` for INVALID_HANDLE_VALUE. `create_file_mapping` takes the file,
-- whether it is read-only, the low half of the greatest size (the high half is 0) and the name, and gives a
-- handle; `map_view_of_file` takes the handle, whether it is read-only, the low half of the offset (the high
-- half is 0) and the number of bytes, and gives an address.
pub record Sys (W : Type 0) : Type 0 where
  pub get_osfhandle : ℕ → W → Option ℕ × W
  pub create_file_mapping : Option ℕ → Bool → ℕ → Option ℕ → W → ℕ × W
  pub get_file_size : Option ℕ → W → ℕ × W
  pub map_view_of_file : ℕ → Bool → ℕ → ℕ → W → ℕ × W
  pub unmap_view_of_file : ℕ → W → W
  pub close_handle : ℕ → W → W
  pub allocation_granularity : ℕ

module _ {W : Type 0} (sys : Sys W) where
  -- `MMap::close`; the handle is not reset.
  pub close_view : MMap → W → MMap × W
  close_view m w =
      let w1 =
        if m.m_h_map == 0
        then w
        else sys.close_handle m.m_h_map (sys.unmap_view_of_file m.m_ptr w) in
      if m.m_ptr == 0 then (m, w) else (record m { m_ptr = 0; m_size = 0 }, w1)

  -- `if (is_valid()) close();`
  pub close_view_valid : MMap → W → MMap × W
  unfolding is_valid close_view
  close_view_valid m w = if is_valid m then close_view m w else (m, w)

  -- `hFile`
  pub file_handle : Option ℕ → W → Option ℕ × W
  file_handle none w = (none, w)
  file_handle (some fd) w = sys.get_osfhandle fd w

  -- `size == 0 ? ::GetFileSize(hFile, 0) - offset : size`
  pub view_size : Option ℕ → ℕ → ℕ → W → ℕ × W
  view_size file offset size w =
      let (len, w1) = sys.get_file_size file w in
      if size == 0 then ((len + 2 ^ 32 - offset) % 2 ^ 32, w1) else (size, w)

  -- `if (!m_ptr) { ... }`, at the end; the handle is not reset.
  pub or_closed : MMap → W → ℕ × MMap × W
  or_closed m w =
      if m.m_ptr == 0
      then (0, record m { m_size = 0 }, sys.close_handle m.m_h_map w)
      else (m.m_ptr, m, w)

  pub view_at_start : Option ℕ → ℕ → Bool → Option ℕ → MMap → W → ℕ × MMap × W
  unfolding view_size or_closed
  view_at_start file size readonly name m w =
      let (h, w1) = sys.create_file_mapping file readonly (size % 2 ^ 32) name w in
      let (len, w2) = view_size file 0 size w1 in
      let (p, w3) = sys.map_view_of_file h readonly 0 len w2 in
      if h == 0
      then (0, record m { m_h_map = 0 }, w1)
      else or_closed (record { m_h_map = h; m_ptr = p; m_size = len }) w3

  -- `pos_base` as the DWORD that it is passed as, and `pos_offs` as it is added to 64 bits.
  pub view_base : ℕ → ℕ
  view_base offset = offset / sys.allocation_granularity * sys.allocation_granularity % 2 ^ 32

  pub view_offs : ℕ → ℕ
  unfolding int_of
  view_offs offset = int_of (offset % sys.allocation_granularity)

  pub view_at_offset : Option ℕ → ℕ → ℕ → Bool → Option ℕ → MMap → W → ℕ × MMap × W
  unfolding view_size or_closed view_base view_offs
  view_at_offset file offset size readonly name m w =
      let limit : ℕ = if size == 0 then 0 else (offset + size % 2 ^ 32) % 2 ^ 32 in
      let (h, w1) = sys.create_file_mapping file readonly limit name w in
      let (len, w2) = view_size file offset size w1 in
      let (p, w3) =
        sys.map_view_of_file h readonly (view_base offset) ((view_offs offset + len) % 2 ^ 64) w2 in
      let ptr : ℕ = if p == 0 then 0 else (p + view_offs offset) % 2 ^ 64 in
      if h == 0
      then (0, record m { m_h_map = 0 }, w1)
      else or_closed (record { m_h_map = h; m_ptr = ptr; m_size = len }) w3

  -- `MMap::_mmap`; the result is the pointer that it returns, the object and the system.
  pub create_view : Option ℕ → ℕ → ℕ → Bool → Option ℕ → MMap → W → ℕ × MMap × W
  unfolding close_view_valid file_handle view_at_start view_at_offset
  create_view filedes offset size readonly name m w =
      let (m', w1) = close_view_valid m w in
      let (file, w2) = file_handle filedes w1 in
      if offset == 0
      then view_at_start file size readonly name m' w2
      else view_at_offset file offset size readonly name m' w2

-- What a client may do with an object, in any order.
pub data Call : Type 0 where
  map : Option ℕ → ℕ → ℕ → Bool → Option ℕ → Call
  close : Call

module _ {W : Type 0} (sys : Sys W) where
  pub run : List Call → MMap → W → MMap × W
  unfolding create_view close_view
  run [] m w = (m, w)
  run (map filedes offset size readonly name ∷ cs) m w =
      let (p, m', w') = create_view sys filedes offset size readonly name m w in run cs m' w'
  run (close ∷ cs) m w = let (m', w') = close_view sys m w in run cs m' w'
