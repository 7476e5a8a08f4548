-- ===== src/MMap/Maps.antt =====
-- src/gmmap.cpp: what `_mmap` gives where the system maps the file, and where it does not.
use opengcl.Prelude.{
  ℕ, ◌+◌, ◌-◌, ◌*◌, ◌/◌, ◌%◌, ◌^◌, ◌<◌, ◌≡◌, ◌≢◌, refl, ap, ◌∙◌, Option, Bool, ◌==◌, if◌then◌else◌,
  arith, eq→==, ne→==,
}
use native.Mathlib.Nat.{div-add-mod', div-le_self, mod-le}
use opengcl.MMap.{
  Sys, MMap, map_failed, is_valid, int_of, pos_base, length_to_map, checked, map_at_offset,
  close_valid, mmap,
}

pub int_of_small : (x : ℕ) → x < 2 ^ 31 → int_of x ≡ x
unfolding int_of
int_of_small x h = rw (eq→== (x % 2 ^ 32 / 2 ^ 31) 0 (omega arith)) (omega arith)

module _ {W : Type 0} (sys : Sys W) where
  pos_base_lem :
      (offset : ℕ) → offset < 2 ^ 31 → pos_base sys offset ≡ offset - offset % sys.page_size
  unfolding pos_base
  pos_base_lem offset small =
      ap (λ z. int_of (z * sys.page_size))
        (int_of_small (offset / sys.page_size)
          (omega (arith, small, div-le_self offset sys.page_size)))
      ∙ (int_of_small (offset / sys.page_size * sys.page_size)
            (omega (arith, small, div-add-mod' offset sys.page_size))
          ∙ omega (arith, div-add-mod' offset sys.page_size))

  -- `m_ptr` as `_mmap` computes it from the address that the system gives.
  abbrev pub shifted : ℕ → ℕ → ℕ
  shifted a offset = if a == 0 then 0 else (a + offset % sys.page_size) % 2 ^ 64

  mmap_lem :
      (filedes : Option ℕ) (offset size : ℕ) (readonly : Bool) (m : MMap) (w : W)
      → m.m_ptr ≡ 0
      → size ≢ 0
      → offset ≢ 0
      → offset < 2 ^ 31
      → mmap sys filedes offset size readonly m w ≡ (
          let (a, w') = sys.mmap size readonly filedes (offset - offset % sys.page_size) w in
          checked sys (record { m_h_map = a; m_ptr = shifted a offset; m_size = size }) w')
  unfolding mmap close_valid is_valid map_at_offset length_to_map
  mmap_lem filedes offset size readonly m w null some_size ne small =
      rw (null, ne→== offset 0 ne, ne→== size 0 some_size, pos_base_lem offset small) refl

  module _ (filedes : Option ℕ) (offset size : ℕ) (readonly : Bool) (m : MMap) (w : W)
      (null : m.m_ptr ≡ 0) (some_size : size ≢ 0) (inside : offset ≢ 0)
      (small : offset < 2 ^ 31) where
    -- The address that the system gives, asked for the page in which `offset` lies, and its state then.
    abbrev pub given : ℕ × W
    given = sys.mmap size readonly filedes (offset - offset % sys.page_size) w

    -- With a size above 0 and an offset above 0 and below 2 ^ 31, an object that maps nothing asks for the
    -- page in which the offset lies. Where the system gives an address, not null or too high, `_mmap`
    -- returns the address of the byte at the offset.
    pub mmap-maps :
        0 < given.0
        → given.0 + offset % sys.page_size < map_failed
        → mmap sys filedes offset size readonly m w ≡ (
          given.0 + offset % sys.page_size,
          record { m_h_map = given.0; m_ptr = given.0 + offset % sys.page_size; m_size = size },
          given.1,
        )
    unfolding checked
    mmap-maps pos low =
        mmap_lem filedes offset size readonly m w null some_size inside small
        ∙ rw
            (
              ne→== given.0 0 (omega arith),
              fits,
              ne→== (given.0 + offset % sys.page_size) map_failed (omega arith),
            )
            refl
      where
        fits : (given.0 + offset % sys.page_size) % 2 ^ 64 ≡ given.0 + offset % sys.page_size
        fits = omega arith

    -- With a size above 0 and an offset above 0 and below 2 ^ 31, on an object that maps nothing, where the
    -- system gives MAP_FAILED and the offset does not begin a page, `_mmap` does not notice: it returns the
    -- offset's place in its page less 1 as the address, and keeps MAP_FAILED and the size.
    pub mmap-map_failed :
        given.0 ≡ map_failed
        → 0 < offset % sys.page_size
        → mmap sys filedes offset size readonly m w ≡ (
          offset % sys.page_size - 1,
          record { m_h_map = map_failed; m_ptr = offset % sys.page_size - 1; m_size = size },
          given.1,
        )
    unfolding checked
    mmap-map_failed failed pos =
        mmap_lem filedes offset size readonly m w null some_size inside small
        ∙ rw
            (
              failed,
              wraps,
              ne→== (offset % sys.page_size - 1) map_failed
                  (omega (arith, small, mod-le offset sys.page_size)),
            )
            refl
      where
        wraps : (map_failed + offset % sys.page_size) % 2 ^ 64 ≡ offset % sys.page_size - 1
        wraps = omega (arith, small, mod-le offset sys.page_size, pos)
