-- ===== src/MMap/Win32/Ledger.antt =====
-- src/gmmap.cpp on Windows: the handle of a mapping that an object has from the system.
use opengcl.Prelude.{
  ℕ, ◌+◌, ◌%◌, ◌^◌, ◌<◌, ◌≤◌, ◌≡◌, refl, sym, ap, ◌∙◌, inl, inr, Option, none, some, Bool,
  Bool-cases, true, false, ◌==◌, if◌then◌else◌, ==→eq, arith,
}
use opengcl.Prelude.Open.{opened, closed, IsNew, opened-IsOpen, closed-opened}
use native.Mathlib.Nat.{mod-lt}
use opengcl.MMap.{MMap, is_valid}
use opengcl.MMap.Maps.{int_of_small}
use opengcl.MMap.Win32.{
  Sys, close_view, close_view_valid, file_handle, view_size, or_closed, view_offs,
}

-- A handle, which NULL is not.
abbrev pub given : ℕ → Option ℕ
given h = if h == 0 then none else some h

-- The handle that an object answers for: that of its mapping, where it maps something.
abbrev pub owned : MMap → Option ℕ
owned m = if m.m_ptr == 0 then none else some m.m_h_map

module _ {W : Type 0} (sys : Sys W) (handles : W → ℕ → Bool) where
  -- The calls of the system, where `handles` says which handles are open. A new handle was not open before; a
  -- handle that is open is closed by `CloseHandle`; no other call opens or closes one.
  -- A view does not reach to the end of the addresses, and the granularity is a positive `int`.
  pub record IsTracked : Type 0 where
    pub osfhandle_same : (fd : ℕ) (w : W) → handles (sys.get_osfhandle fd w).1 ≡ handles w
    pub file_size_same :
        (file : Option ℕ) (w : W) → handles (sys.get_file_size file w).1 ≡ handles w
    pub created :
        (file : Option ℕ) (readonly : Bool) (limit : ℕ) (name : Option ℕ) (w : W)
        → (handles (sys.create_file_mapping file readonly limit name w).1
            ≡ opened (given (sys.create_file_mapping file readonly limit name w).0) (handles w))
          × IsNew (given (sys.create_file_mapping file readonly limit name w).0) (handles w)
    pub view_same :
        (h : ℕ) (readonly : Bool) (base len : ℕ) (w : W)
        → handles (sys.map_view_of_file h readonly base len w).1 ≡ handles w
    pub unmap_same : (p : ℕ) (w : W) → handles (sys.unmap_view_of_file p w) ≡ handles w
    pub handle_closed :
        (h : ℕ) (w : W)
        → handles w h ≡ true
        → handles (sys.close_handle h w) ≡ closed (some h) (handles w)
    pub view_low :
        (h : ℕ) (readonly : Bool) (base len : ℕ) (w : W)
        → (sys.map_view_of_file h readonly base len w).0 + sys.allocation_granularity ≤ 2 ^ 64
    pub granularity_pos : 0 < sys.allocation_granularity
    pub granularity_int : sys.allocation_granularity < 2 ^ 31

  -- Beside the handles `a` of others, the one that the object answers for is open.
  pub record Owns (a : ℕ → Bool) (m : MMap) (w : W) : Type 0 where
    pub handles_are : handles w ≡ opened (owned m) a
    pub is_new : IsNew (owned m) a
    pub with_handle : (m.m_ptr == 0) ≡ false → (m.m_h_map == 0) ≡ false

  -- It maps nothing afterwards.
  pub close_view-null : (m : MMap) (w : W) → (close_view_valid sys m w).0.m_ptr ≡ 0
  unfolding close_view close_view_valid is_valid
  close_view-null m w = elim (Bool-cases (m.m_ptr == 0)) [
    | inl null ↦ rw null (==→eq m.m_ptr 0 null)
    | inr used ↦ rw used refl
  ]

  module _ (tracked : IsTracked) where
    pub file_handle-same :
        (filedes : Option ℕ) (w : W) → handles (file_handle sys filedes w).1 ≡ handles w
    unfolding file_handle
    file_handle-same none w = refl
    file_handle-same (some fd) w = tracked.osfhandle_same fd w

    pub view_size-same :
        (file : Option ℕ) (offset size : ℕ) (w : W)
        → handles (view_size sys file offset size w).1 ≡ handles w
    unfolding view_size
    view_size-same file offset size w = elim (Bool-cases (size == 0)) [
      | inl e ↦ rw e (tracked.file_size_same file w)
      | inr e ↦ rw e refl
    ]

    view_offs_lem : (offset : ℕ) → view_offs sys offset < sys.allocation_granularity
    unfolding view_offs
    view_offs_lem offset =
        let below = mod-lt offset tracked.granularity_pos in
        rw
          (int_of_small (offset % sys.allocation_granularity)
            (omega (arith, below, tracked.granularity_int)))
          below

    -- A handle that is open beside `a` is gone when it is closed.
    closed_again :
        (a : ℕ → Bool) (h : ℕ) (w : W)
        → handles w ≡ opened (some h) a
        → a h ≡ false
        → handles (sys.close_handle h w) ≡ a
    closed_again a h w hs new =
        tracked.handle_closed h w (rw hs (opened-IsOpen (some h) a))
        ∙ ap (closed (some h)) hs
        ∙ closed-opened (some h) a new

  module _ (tracked : IsTracked) {a : ℕ → Bool} where
    pub close_view-Owns :
        (m : MMap) (w : W) → Owns a m w → Owns a (close_view sys m w).0 (close_view sys m w).1
    unfolding close_view
    close_view-Owns m w o = elim (Bool-cases (m.m_ptr == 0)) [
      | inl null ↦ rw null o
      | inr used ↦
          let w' : W = sys.unmap_view_of_file m.m_ptr w in
          let hs : handles w ≡ opened (some m.m_h_map) a = rw used at (o.handles_are) in
          let new : a m.m_h_map ≡ false = rw used at (o.is_new) in
          rw (used, o.with_handle used)
            (record {
              handles_are =
                  closed_again tracked a m.m_h_map w' (tracked.unmap_same m.m_ptr w ∙ hs) new;
              is_new = tt;
              with_handle = λ e. absurd (cc e);
            })
    ]

    pub close_view_valid-Owns :
        (m : MMap) (w : W)
        → Owns a m w
        → Owns a (close_view_valid sys m w).0 (close_view_valid sys m w).1
    unfolding close_view_valid
    close_view_valid-Owns m w o = elim (Bool-cases (is_valid m)) [
      | inl valid ↦ rw valid (close_view-Owns m w o)
      | inr null ↦ rw null o
    ]

    -- A view, moved or not, is kept with its handle; without one the handle is closed.
    or_closed-Owns :
        (h p len : ℕ) (w : W)
        → handles w ≡ opened (some h) a
        → a h ≡ false
        → (h == 0) ≡ false
        → Owns a
            (or_closed sys (record { m_h_map = h; m_ptr = p; m_size = len }) w).1
            (or_closed sys (record { m_h_map = h; m_ptr = p; m_size = len }) w).2
    unfolding or_closed
    or_closed-Owns h p len w hs new some_h = elim (Bool-cases (p == 0)) [
      | inl null ↦ rw null (record {
        handles_are = rw null (closed_again tracked a h w hs new);
        is_new = rw null tt;
        with_handle = λ e. some_h;
      })
      | inr used ↦
          rw used
            (record { handles_are = rw used hs; is_new = rw used new; with_handle = λ e. some_h })
    ]

    -- What becomes of a handle that is asked for, where `ptr` is the view as it is kept.
    pub opened-Owns :
        (file : Option ℕ) (readonly : Bool) (limit : ℕ) (name : Option ℕ) (m : MMap) (w w2 : W)
        (base bytes len ptr : ℕ)
        → m.m_ptr ≡ 0
        → handles w ≡ a
        → handles w2 ≡ handles (sys.create_file_mapping file readonly limit name w).1
        → (let (h, w1) = sys.create_file_mapping file readonly limit name w in
            let (p, w3) = sys.map_view_of_file h readonly base bytes w2 in
            let (r, m', w') =
              if h == 0
              then (0, record m { m_h_map = 0 }, w1)
              else or_closed sys (record { m_h_map = h; m_ptr = ptr; m_size = len }) w3 in
            Owns a m' w')
    opened-Owns file readonly limit name m w w2 base bytes len ptr null hs same =
        let h : ℕ = (sys.create_file_mapping file readonly limit name w).0 in
        let w1 : W = (sys.create_file_mapping file readonly limit name w).1 in
        let (made, new) = tracked.created file readonly limit name w in
        elim (Bool-cases (h == 0)) [
          | inl failed ↦
              let made' : handles w1 ≡ handles w = rw failed at made in
              rw failed (record {
                handles_are = rw null (made' ∙ hs);
                is_new = rw null tt;
                with_handle = λ e. absurd (cc (sym e ∙ ap (λ (t : ℕ). t == 0) null));
              })
          | inr some_h ↦
              let made' : handles w1 ≡ opened (some h) (handles w) = rw some_h at made in
              let new' : handles w h ≡ false = rw some_h at new in
              rw some_h (
                or_closed-Owns h ptr len (sys.map_view_of_file h readonly base bytes w2).1
                  (tracked.view_same h readonly base bytes w2
                    ∙ same
                    ∙ made'
                    ∙ ap (opened (some h)) hs)
                  (sym (ap (λ (s : ℕ → Bool). s h) hs) ∙ new') some_h)
        ]
