-- ===== src/MMap/Win32/Life.antt =====
-- src/gmmap.cpp on Windows: the handles that `_mmap` and `close` leave open, over any number of calls.
use opengcl.Prelude.{
  ℕ, ◌+◌, ◌%◌, ◌^◌, ◌≡◌, refl, ◌∙◌, inl, inr, Option, List, [], ◌∷◌, Bool, Bool-cases, ◌==◌,
  if◌then◌else◌,
}
use opengcl.Prelude.Open.{opened, IsNew}
use opengcl.MMap.{MMap, unmapped}
use opengcl.MMap.Win32.{
  Sys, Call, map, close, close_view_valid, file_handle, view_size, view_at_start, view_offs,
  view_base, view_at_offset, create_view, run,
}
use opengcl.MMap.Win32.Ledger.{
  owned, IsTracked, Owns, close_view-Owns, close_view-null, close_view_valid-Owns, file_handle-same,
  view_size-same, opened-Owns,
}

module _ {W : Type 0} (sys : Sys W) (handles : W → ℕ → Bool) where
  module _ (tracked : IsTracked sys handles) {a : ℕ → Bool} where
    view_at_start-Owns :
        (file : Option ℕ) (size : ℕ) (readonly : Bool) (name : Option ℕ) (m : MMap) (w : W)
        → m.m_ptr ≡ 0
        → handles w ≡ a
        → Owns sys handles a
            (view_at_start sys file size readonly name m w).1
            (view_at_start sys file size readonly name m w).2
    unfolding view_at_start
    view_at_start-Owns file size readonly name m w null hs =
        let (h, w1) = sys.create_file_mapping file readonly (size % 2 ^ 32) name w in
        let (len, w2) = view_size sys file 0 size w1 in
        opened-Owns sys handles tracked file readonly (size % 2 ^ 32) name m w w2 0 len len
          (sys.map_view_of_file h readonly 0 len w2).0 null hs
          (view_size-same sys handles tracked file 0 size w1)

    view_at_offset-Owns :
        (file : Option ℕ) (offset size : ℕ) (readonly : Bool) (name : Option ℕ) (m : MMap) (w : W)
        → m.m_ptr ≡ 0
        → handles w ≡ a
        → Owns sys handles a
            (view_at_offset sys file offset size readonly name m w).1
            (view_at_offset sys file offset size readonly name m w).2
    unfolding view_at_offset
    view_at_offset-Owns file offset size readonly name m w null hs =
        let limit : ℕ = if size == 0 then 0 else (offset + size % 2 ^ 32) % 2 ^ 32 in
        let (h, w1) = sys.create_file_mapping file readonly limit name w in
        let (len, w2) = view_size sys file offset size w1 in
        let bytes : ℕ = (view_offs sys offset + len) % 2 ^ 64 in
        let p : ℕ = (sys.map_view_of_file h readonly (view_base sys offset) bytes w2).0 in
        opened-Owns sys handles tracked file readonly limit name m w w2 (view_base sys offset) bytes
          len (if p == 0 then 0 else (p + view_offs sys offset) % 2 ^ 64) null hs
          (view_size-same sys handles tracked file offset size w1)

    create_view-Owns :
        (filedes : Option ℕ) (offset size : ℕ) (readonly : Bool) (name : Option ℕ) (m : MMap)
        (w : W)
        → Owns sys handles a m w
        → Owns sys handles a
            (create_view sys filedes offset size readonly name m w).1
            (create_view sys filedes offset size readonly name m w).2
    unfolding create_view
    create_view-Owns filedes offset size readonly name m w o =
        let (m', w1) = close_view_valid sys m w in
        let o' = close_view_valid-Owns sys handles tracked m w o in
        let null : m'.m_ptr ≡ 0 = close_view-null sys handles m w in
        let (file, w2) = file_handle sys filedes w1 in
        let hs : handles w2 ≡ a =
          file_handle-same sys handles tracked filedes w1 ∙ rw null at (o'.handles_are) in
        elim (Bool-cases (offset == 0)) [
          | inl start ↦ rw start (view_at_start-Owns file size readonly name m' w2 null hs)
          | inr inside ↦
              rw inside (view_at_offset-Owns file offset size readonly name m' w2 null hs)
        ]

    run-Owns :
        (cs : List Call) (m : MMap) (w : W)
        → Owns sys handles a m w
        → Owns sys handles a (run sys cs m w).0 (run sys cs m w).1
    unfolding run
    run-Owns [] m w o = o
    run-Owns (map filedes offset size readonly name ∷ cs) m w o =
        run-Owns cs _ _ (create_view-Owns filedes offset size readonly name m w o)
    run-Owns (close ∷ cs) m w o = run-Owns cs _ _ (close_view-Owns sys handles tracked m w o)

  -- On a system where CreateFileMapping gives a handle that was not open, or none, CloseHandle closes a handle
  -- that is open, and no other call opens or closes one: after any sequence of `_mmap` and `close` on a new
  -- object, whichever of the calls that make a mapping or a view fail, the handles that are open are those from
  -- before and, if the object maps something, the one in `m_hMap`, which was not among them.
  pub run-unmapped :
      IsTracked sys handles
      → (cs : List Call) (w : W)
      → (handles (run sys cs unmapped w).1 ≡ opened (owned (run sys cs unmapped w).0) (handles w))
        × IsNew (owned (run sys cs unmapped w).0) (handles w)
  run-unmapped tracked cs w =
      let o =
        run-Owns tracked cs unmapped w
          (record { handles_are = refl; is_new = tt; with_handle = λ e. absurd (cc e) }) in
      (o.handles_are, o.is_new)
