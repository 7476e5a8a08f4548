-- ===== src/MMap/Files.antt =====
-- src/gmmap.cpp: the files that MMapFile opens and closes.
use opengcl.Prelude.{
  ℕ, ◌≡◌, refl, ap, ◌∙◌, inl, inr, Option, none, some, Bool, true, Bool-cases, Option-cases,
  if_both, ◌==◌, if◌then◌else◌,
}
use opengcl.Prelude.Open.{opened, closed, IsOpen, IsNew}
use opengcl.MMap.{
  Sys, MMap, map_failed, pos_base, MMapFile, is_valid, close, close_valid, close_fd, close_file,
  filelength, length_to_map, checked, map_at_start, map_at_offset, mmap, map_opened, mmap_file,
}

-- The descriptors among `s` that the next `_mmap` of an object leaves open: it closes what the object has, if
-- the object has a mapping.
abbrev pub kept : MMapFile → (ℕ → Bool) → ℕ → Bool
kept f s = if is_valid f.base then closed f.m_fd s else s

module _ {W : Type 0} (sys : Sys W) (live : W → ℕ → Bool) where
  -- One descriptor more is open afterwards, if one was opened; it was not open before.
  abbrev pub Opened : W → Option ℕ × W → Type 0
  Opened w (fd, w') = (live w' ≡ opened fd (live w)) × IsNew fd (live w)

  -- The calls of the system as far as they open and close files, where `live` says which descriptors are open.
  pub record IsTracked : Type 0 where
    pub open_file_live :
        (path : ℕ) (readonly : Bool) (w : W) → Opened w (sys.open_file path readonly w)
    pub close_file_live :
        (fd : ℕ) (w : W) → live w fd ≡ true → live (sys.close_file fd w) ≡ closed (some fd) (live w)
    pub mmap_live :
        (len : ℕ) (readonly : Bool) (fd : Option ℕ) (offset : ℕ) (w : W)
        → live (sys.mmap len readonly fd offset w).1 ≡ live w
    pub munmap_live : (p len : ℕ) (w : W) → live (sys.munmap p len w) ≡ live w
    pub lseek_cur_live : (fd : ℕ) (w : W) → live (sys.lseek_cur fd w).1 ≡ live w
    pub lseek_end_live : (fd : ℕ) (w : W) → live (sys.lseek_end fd w).1 ≡ live w
    pub lseek_set_live : (fd pos : ℕ) (w : W) → live (sys.lseek_set fd pos w) ≡ live w

  module _ (tracked : IsTracked) where
    close_live : (m : MMap) (w : W) → live (close sys m w).1 ≡ live w
    unfolding close
    close_live m w =
        if_both (λ (r : MMap × W). live r.1 ≡ live w) (m.m_ptr == 0) refl
          (if_both (λ v. live v ≡ live w) (m.m_h_map == 0) refl
            (tracked.munmap_live m.m_h_map m.m_size w))

    close_valid_live : (m : MMap) (w : W) → live (close_valid sys m w).1 ≡ live w
    unfolding close_valid
    close_valid_live m w =
        if_both (λ (r : MMap × W). live r.1 ≡ live w) (is_valid m) (close_live m w) refl

    filelength_live : (fd : Option ℕ) (w : W) → live (filelength sys fd w).1 ≡ live w
    unfolding filelength
    filelength_live none w = refl
    filelength_live (some fd) w = elim (Option-cases (sys.lseek_cur fd w).0) [
      | inl e ↦ rw e (tracked.lseek_cur_live fd w)
      | inr (pos, e) ↦ rw e (
          tracked.lseek_set_live fd pos (sys.lseek_end fd (sys.lseek_cur fd w).1).1
          ∙ tracked.lseek_end_live fd (sys.lseek_cur fd w).1
          ∙ tracked.lseek_cur_live fd w)
    ]

    length_live :
        (fd : Option ℕ) (offset size : ℕ) (w : W)
        → live (length_to_map sys fd offset size w).1 ≡ live w
    unfolding length_to_map
    length_live fd offset size w =
        if_both (λ (r : ℕ × W). live r.1 ≡ live w) (size == 0) (filelength_live fd w) refl

    checked_live : (m : MMap) (w : W) → live (checked sys m w).2 ≡ live w
    unfolding checked
    checked_live m w =
        if_both (λ (r : ℕ × MMap × W). live r.2 ≡ live w) (m.m_ptr == map_failed) refl refl

    -- The length, then the mapping, then its check, as both branches of `MMap::_mmap` have them.
    mapped_live :
        (fd : Option ℕ) (from offset size : ℕ) (readonly : Bool) (w : W) (m : MMap)
        → live
            (checked sys m
              (sys.mmap
                (length_to_map sys fd offset size w).0
                readonly
                fd
                from
                (length_to_map sys fd offset size w).1).1).2
          ≡ live w
    mapped_live fd from offset size readonly w m =
        checked_live m _ ∙ tracked.mmap_live _ readonly fd from _ ∙ length_live fd offset size w

    mmap_keeps :
        (fd : Option ℕ) (offset size : ℕ) (readonly : Bool) (m : MMap) (w : W)
        → live (mmap sys fd offset size readonly m w).2 ≡ live w
    unfolding mmap close_valid map_at_start map_at_offset
    mmap_keeps fd offset size readonly m w =
        let (m', w') = close_valid sys m w in
        if_both (λ (r : ℕ × MMap × W). live r.2 ≡ live w) (offset == 0)
          (mapped_live fd 0 0 size readonly w' _ ∙ close_valid_live m w)
          (mapped_live fd (pos_base sys offset) offset size readonly w' _ ∙ close_valid_live m w)

    close_fd_live :
        (fd : Option ℕ) (w : W) → IsOpen fd (live w) → live (close_fd sys fd w) ≡ closed fd (live w)
    unfolding close_fd
    close_fd_live none w is = refl
    close_fd_live (some fd) w is = tracked.close_file_live fd w is

    close_file_live :
        (f : MMapFile) (w : W)
        → IsOpen f.m_fd (live w)
        → live (close_file sys f w).1 ≡ closed f.m_fd (live w)
    unfolding close_file
    close_file_live f w is =
        let same : live (close sys f.base w).1 ≡ live w = close_live f.base w in
        close_fd_live f.m_fd (close sys f.base w).1 (rw same is) ∙ ap (closed f.m_fd) same

    map_opened_live :
        (offset size : ℕ) (readonly : Bool) (m : MMap) (v : W) (r : Option ℕ × W)
        → Opened v r
        → Opened v (
          (map_opened sys offset size readonly m r).1.m_fd,
          (map_opened sys offset size readonly m r).2,
        )
    unfolding map_opened
    map_opened_live offset size readonly m v (none, w) h = h
    map_opened_live offset size readonly m v (some fd, w) h =
        (mmap_keeps (some fd) offset size readonly m w ∙ h.0, h.1)

    -- Where the descriptor of an object is open: after `MMapFile::_mmap` the descriptors that were open before are
    -- open, less the one that the object had, if the object had a mapping, and with the one that it has now, if
    -- it has one, which was not open after that. So where the object had a descriptor without a mapping, which a
    -- mapping that failed leaves, that one stays open.
    pub mmap_file_live :
        (path offset size : ℕ) (readonly : Bool) (f : MMapFile) (w : W)
        → IsOpen f.m_fd (live w)
        → (live (mmap_file sys path offset size readonly f w).2
            ≡ opened (mmap_file sys path offset size readonly f w).1.m_fd (kept f (live w)))
          × IsNew (mmap_file sys path offset size readonly f w).1.m_fd (kept f (live w))
    unfolding mmap_file
    mmap_file_live path offset size readonly f w is = elim (Bool-cases (is_valid f.base)) [
      | inl valid ↦
          let (f', w') = close_file sys f w in
          let o =
            map_opened_live offset size readonly f'.base w' (sys.open_file path readonly w')
              (tracked.open_file_live path readonly w') in
          let gone : live w' ≡ closed f.m_fd (live w) = close_file_live f w is in
          rw valid ((o.0 ∙ ap (opened _) gone), rw gone at o.1)
      | inr not_valid ↦
          let o =
            map_opened_live offset size readonly f.base w (sys.open_file path readonly w)
              (tracked.open_file_live path readonly w) in
          rw not_valid o
    ]
