-- ===== src/MMap/Calls.antt =====
-- include/gmmap.h: the methods of MMap and MMapFile that call `_mmap` with some of its arguments fixed, and
-- what an object says of itself. The name of a mapping is used on Windows only.
use opengcl.Prelude.{ℕ, ◌+◌, ◌%◌, ◌^◌, Option, none, true, false}
use opengcl.MMap.{Sys, MMap, MMapFile, int_of, mmap, mmap_file}

abbrev pub get_size : MMap → ℕ
get_size m = m.m_size

abbrev pub begin : MMap → ℕ
begin m = m.m_ptr

-- An address of 64 bits.
abbrev pub end : MMap → ℕ
end m = (m.m_ptr + m.m_size) % 2 ^ 64

abbrev pub get_file_descriptor : MMapFile → Option ℕ
get_file_descriptor f = f.m_fd

module _ {W : Type 0} (sys : Sys W) where
  -- The three forms of `mmap_ro`: a part, the rest from an offset, the whole file.
  abbrev pub mmap_ro : Option ℕ → ℕ → ℕ → MMap → W → ℕ × MMap × W
  mmap_ro filedes offset size m w = mmap sys filedes offset size true m w

  abbrev pub mmap_ro_from : Option ℕ → ℕ → MMap → W → ℕ × MMap × W
  mmap_ro_from filedes offset m w = mmap sys filedes offset 0 true m w

  abbrev pub mmap_ro_whole : Option ℕ → MMap → W → ℕ × MMap × W
  mmap_ro_whole filedes m w = mmap sys filedes 0 0 true m w

  -- Of the `int` size the 32 bits are given.
  abbrev pub mmap_vro : ℕ → MMap → W → ℕ × MMap × W
  mmap_vro size m w = mmap sys none 0 (int_of size) true m w

  abbrev pub mmap_rw : Option ℕ → ℕ → ℕ → MMap → W → ℕ × MMap × W
  mmap_rw filedes offset size m w = mmap sys filedes offset size false m w

  abbrev pub mmap_rw_from : Option ℕ → ℕ → MMap → W → ℕ × MMap × W
  mmap_rw_from filedes offset m w = mmap sys filedes offset 0 false m w

  abbrev pub mmap_rw_whole : Option ℕ → MMap → W → ℕ × MMap × W
  mmap_rw_whole filedes m w = mmap sys filedes 0 0 false m w

  abbrev pub mmap_vrw : ℕ → MMap → W → ℕ × MMap × W
  mmap_vrw size m w = mmap sys none 0 (int_of size) false m w

  -- The same of MMapFile, on the path of a file.
  abbrev pub mmap_file_ro : ℕ → ℕ → ℕ → MMapFile → W → ℕ × MMapFile × W
  mmap_file_ro path offset size f w = mmap_file sys path offset size true f w

  abbrev pub mmap_file_ro_from : ℕ → ℕ → MMapFile → W → ℕ × MMapFile × W
  mmap_file_ro_from path offset f w = mmap_file sys path offset 0 true f w

  abbrev pub mmap_file_ro_whole : ℕ → MMapFile → W → ℕ × MMapFile × W
  mmap_file_ro_whole path f w = mmap_file sys path 0 0 true f w

  abbrev pub mmap_file_rw : ℕ → ℕ → ℕ → MMapFile → W → ℕ × MMapFile × W
  mmap_file_rw path offset size f w = mmap_file sys path offset size false f w

  abbrev pub mmap_file_rw_from : ℕ → ℕ → MMapFile → W → ℕ × MMapFile × W
  mmap_file_rw_from path offset f w = mmap_file sys path offset 0 false f w

  abbrev pub mmap_file_rw_whole : ℕ → MMapFile → W → ℕ × MMapFile × W
  mmap_file_rw_whole path f w = mmap_file sys path 0 0 false f w
