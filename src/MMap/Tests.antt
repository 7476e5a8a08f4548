-- ===== src/MMap/Tests.antt =====
-- Witnesses for the memory mapping: a system that maps everything at one address, and one that never maps.
use opengcl.Prelude.{
  ℕ, suc, ◌≡◌, refl, inl, inr, Option, none, some, Bool, true, false, Bool-cases, if◌then◌else◌,
  arith,
}
use opengcl.MMap.{Sys, MMapFile, unmapped, map_failed, mmap, mmap_file}
use opengcl.Prelude.Open.{opened, closed, IsNew}
use opengcl.MMap.Files.{Opened, IsTracked, kept, mmap_file_live}
use opengcl.MMap.Maps.{mmap-maps, mmap-map_failed}

-- The state of the system is the number of the next file, with the numbers that are open; where that one
-- is open, no more can be.
abbrev next_file : ℕ × (ℕ → Bool) → Option ℕ × (ℕ × (ℕ → Bool))
next_file w = if w.1 w.0 then (none, w) else (some w.0, (suc w.0, opened (some w.0) w.1))

abbrev mapping_to : ℕ → Sys (ℕ × (ℕ → Bool))
mapping_to address = record {
  mmap = λ len readonly filedes offset w. (address, w);
  munmap = λ p len w. w;
  open_file = λ path readonly w. next_file w;
  close_file = λ fd w. (w.0, closed (some fd) w.1);
  lseek_cur = λ fd w. (some 0, w);
  lseek_end = λ fd w. (700, w);
  lseek_set = λ fd pos w. w;
  page_size = 4096;
}

-- Nothing is open, and the next file is 3; then that file is open.
abbrev nothing_open : ℕ × (ℕ → Bool)
nothing_open = (3, λ x. false)

abbrev three_open : ℕ × (ℕ → Bool)
three_open = (4, opened (some 3) (λ x. false))

-- With size 0 the rest of the file is mapped.
map_rest :
    mmap_file (mapping_to 8192) 1 200 0 true (record { base = unmapped; m_fd = none }) nothing_open
    ≡ (
      8392,
      record { base = record { m_h_map = 8192; m_ptr = 8392; m_size = 500 }; m_fd = some 3 },
      three_open,
    )
unfolding mmap_file
map_rest = refl

mmap-maps_example :
    mmap (mapping_to 8192) (some 3) 5000 100 true unmapped three_open
    ≡ (9096, record { m_h_map = 8192; m_ptr = 9096; m_size = 100 }, three_open)
mmap-maps_example =
    mmap-maps (mapping_to 8192) (some 3) 5000 100 true unmapped three_open refl (omega arith)
      (omega arith) (omega arith) (omega arith) (omega arith)

mmap-map_failed_example :
    mmap (mapping_to map_failed) (some 3) 5000 100 true unmapped three_open
    ≡ (903, record { m_h_map = map_failed; m_ptr = 903; m_size = 100 }, three_open)
mmap-map_failed_example =
    mmap-map_failed (mapping_to map_failed) (some 3) 5000 100 true unmapped three_open refl
      (omega arith) (omega arith) (omega arith) refl (omega arith)

next_file-Opened :
    (address : ℕ) (w : ℕ × (ℕ → Bool)) → Opened (mapping_to address) (λ v. v.1) w (next_file w)
next_file-Opened address w = elim (Bool-cases (w.1 w.0)) [
  | inl taken ↦ rw taken (refl, tt)
  | inr free ↦ rw free (refl, free)
]

mapping_to-IsTracked : (address : ℕ) → IsTracked (mapping_to address) (λ w. w.1)
mapping_to-IsTracked address = record {
  open_file_live = λ path readonly w. next_file-Opened address w;
  close_file_live = λ fd w is. refl;
  mmap_live = λ len readonly fd offset w. refl;
  munmap_live = λ p len w. refl;
  lseek_cur_live = λ fd w. refl;
  lseek_end_live = λ fd w. refl;
  lseek_set_live = λ fd pos w. refl;
}

-- A file whose mapping has failed.
abbrev unmapped_file : MMapFile
unmapped_file = record { base = unmapped; m_fd = some 3 }

mmap_file_live_example :
    ((mmap_file (mapping_to 8192) 1 0 100 true unmapped_file three_open).2.1
      ≡ opened
          (mmap_file (mapping_to 8192) 1 0 100 true unmapped_file three_open).1.m_fd
          (kept unmapped_file three_open.1))
    × IsNew
        (mmap_file (mapping_to 8192) 1 0 100 true unmapped_file three_open).1.m_fd
        (kept unmapped_file three_open.1)
mmap_file_live_example =
    mmap_file_live (mapping_to 8192) (λ w. w.1) (mapping_to-IsTracked 8192) 1 0 100 true
      unmapped_file three_open refl
