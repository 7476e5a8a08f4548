-- ===== src/MMap/Win32/Views.antt =====
-- src/gmmap.cpp: which bytes `_mmap` asks for on Windows, and what it returns; and what
-- `close` does with the view.
use opengcl.Prelude.{
  ℕ, ◌+◌, ◌-◌, ◌%◌, ◌^◌, ◌<◌, ◌≡◌, ◌≢◌, refl, ap, ◌∙◌, inl, inr, Option, some, Bool, true, not,
  Bool-cases, ◌==◌, arith, ne→==, eq→==,
}
use opengcl.Prelude.Open.{opened, closed}
use opengcl.MMap.Win32.Ledger.{given}
use native.Mathlib.Nat.{div-add-mod', mod-le}
use opengcl.MMap.{MMap, is_valid}
use opengcl.MMap.Maps.{int_of_small}
use opengcl.MMap.Win32.{
  Sys, close_view_valid, file_handle, view_size, or_closed, view_base, view_offs, view_at_offset,
  create_view, close_view,
}

-- What begins at `p` stays when something at `p + offs` is removed, unless they are the same.
at_base : (offs p : ℕ) (s : ℕ → Bool) → s p ≡ true → closed (some (p + offs)) s p ≡ not (offs == 0)
at_base offs p s is = elim (Bool-cases (offs == 0)) [
  | inl e ↦ rw (e, eq→== (p + offs) p (ground (arith, e))) refl
  | inr e ↦ rw (e, ne→== (p + offs) p (ground (arith, e)), is) refl
]

module _ {W : Type 0} (sys : Sys W) where
  view_base_lem :
      (offset : ℕ)
      → offset < 2 ^ 31
      → view_base sys offset ≡ offset - offset % sys.allocation_granularity
  unfolding view_base
  view_base_lem offset small = omega (arith, small, div-add-mod' offset sys.allocation_granularity)

  view_offs_lem :
      (offset : ℕ) → offset < 2 ^ 31 → view_offs sys offset ≡ offset % sys.allocation_granularity
  unfolding view_offs
  view_offs_lem offset small =
      int_of_small (offset % sys.allocation_granularity)
        (omega (arith, small, mod-le offset sys.allocation_granularity))

  module _ (filedes : Option ℕ) (offset size : ℕ) (readonly : Bool) (name : Option ℕ) (m : MMap)
      (w : W) where
    -- The mapping of the file up to the last byte wanted.
    abbrev pub mapping : ℕ × W
    mapping =
        let (file, w1) = file_handle sys filedes w in
        sys.create_file_mapping file readonly (offset + size) name w1

    -- The view of it from the granule in which `offset` lies up to that byte.
    abbrev pub view : ℕ × W
    view =
        let offs : ℕ = offset % sys.allocation_granularity in
        sys.map_view_of_file mapping.0 readonly (offset - offs) (offs + size) mapping.1

    -- With a size above 0 and an offset above 0 and below 2 ^ 31, whose sum has 32 bits, an object that maps
    -- nothing asks for a mapping of the file up to offset + size, and for a view from the granule in which
    -- the offset lies up to there. Where the system gives both, and the view ends below 2 ^ 64, `_mmap`
    -- returns the address of the byte at the offset, and the object has the mapping and the size.
    pub create_view-maps :
        m.m_ptr ≡ 0
        → size ≢ 0
        → offset ≢ 0
        → offset < 2 ^ 31
        → offset + size < 2 ^ 32
        → mapping.0 ≢ 0
        → 0 < view.0
        → view.0 + offset % sys.allocation_granularity < 2 ^ 64
        → create_view sys filedes offset size readonly name m w ≡ (
          view.0 + offset % sys.allocation_granularity,
          record {
            m_h_map = mapping.0;
            m_ptr = view.0 + offset % sys.allocation_granularity;
            m_size = size;
          },
          view.1,
        )
    unfolding create_view close_view_valid is_valid view_at_offset view_size or_closed
    create_view-maps null some_size inside small fits some_h some_p low =
        let limit : (offset + size % 2 ^ 32) % 2 ^ 32 ≡ offset + size = omega (arith, fits) in
        let bytes : (offset % sys.allocation_granularity + size) % 2 ^ 64
            ≡ offset % sys.allocation_granularity + size =
          omega (arith, fits, mod-le offset sys.allocation_granularity) in
        let at : (view.0 + offset % sys.allocation_granularity) % 2 ^ 64
            ≡ view.0 + offset % sys.allocation_granularity =
          omega (arith, low) in
        rw
          (
            null,
            ne→== offset 0 inside,
            ne→== size 0 some_size,
            limit,
            view_base_lem offset small,
            view_offs_lem offset small,
            bytes,
            ne→== mapping.0 0 some_h,
            ne→== view.0 0 (omega (arith, some_p)),
            at,
            ne→== (view.0 + offset % sys.allocation_granularity) 0 (omega (arith, some_p)),
          )
          refl

    module _ (views : W → ℕ → Bool) where
      -- Where `views` says at which addresses views begin, MapViewOfFile has begun one at the address that it
      -- gives, UnmapViewOfFile removes the view that begins at its address, or none if none does, and
      -- CloseHandle removes none: with a size above 0 and an offset above 0 and below 2 ^ 31, whose sum has
      -- 32 bits, on an object that maps nothing, where the system gives a mapping and a view that ends below
      -- 2 ^ 64, `close` after `_mmap` removes the view if the offset begins a granule, and otherwise leaves it: it
      -- hands UnmapViewOfFile the address of the byte at the offset.
      pub close_view-create_view :
          ((h : ℕ) (readonly' : Bool) (base len : ℕ) (v : W)
            → views (sys.map_view_of_file h readonly' base len v).1
              ≡ opened (given (sys.map_view_of_file h readonly' base len v).0) (views v))
          → ((p : ℕ) (v : W) → views (sys.unmap_view_of_file p v) ≡ closed (some p) (views v))
          → ((h : ℕ) (v : W) → views (sys.close_handle h v) ≡ views v)
          → m.m_ptr ≡ 0
          → size ≢ 0
          → offset ≢ 0
          → offset < 2 ^ 31
          → offset + size < 2 ^ 32
          → mapping.0 ≢ 0
          → 0 < view.0
          → view.0 + offset % sys.allocation_granularity < 2 ^ 64
          → (let (r, m', w') = create_view sys filedes offset size readonly name m w in
              views (close_view sys m' w').1 view.0
              ≡ not (offset % sys.allocation_granularity == 0))
      unfolding close_view
      close_view-create_view viewed unviewed kept null some_size inside small fits some_h some_p
            low =
          let offs : ℕ = offset % sys.allocation_granularity in
          let is : views view.1 view.0 ≡ true =
            ap (λ (s : ℕ → Bool). s view.0) (viewed _ _ _ _ _)
            ∙ rw (ne→== view.0 0 (omega (arith, some_p)), eq→== view.0 view.0 refl) refl in
          let after : views
                (sys.close_handle mapping.0 (sys.unmap_view_of_file (view.0 + offs) view.1)) view.0
              ≡ not (offs == 0) =
            ap (λ (s : ℕ → Bool). s view.0) (kept _ _ ∙ unviewed _ _)
            ∙ at_base offs view.0 (views view.1) is in
          rw
            (
              create_view-maps null some_size inside small fits some_h some_p low,
              ne→== mapping.0 0 some_h,
              ne→== (view.0 + offs) 0 (omega (arith, some_p)),
            )
            after
