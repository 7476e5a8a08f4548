-- ===== src/MMap/Win32/Tests.antt =====
-- Witnesses for the memory mapping on Windows: a system that gives each mapping the handle 5, if it is not open,
-- and puts each view at one address. Its state is the handles that are open and the addresses at which views begin.
use opengcl.Prelude.{
  ℕ, ◌+◌, ◌≡◌, ◌≤◌, ◌^◌, refl, inl, inr, none, some, Bool, true, false, Bool-cases, List, [], ◌∷◌,
  if◌then◌else◌, arith,
}
use opengcl.Prelude.Open.{opened, closed, IsNew}
use opengcl.MMap.{unmapped}
use opengcl.MMap.Win32.{Sys, Call, map, close, file_handle, create_view, close_view, run}
use opengcl.MMap.Win32.Ledger.{given, owned, IsTracked}
use opengcl.MMap.Win32.Life.{run-unmapped}
use opengcl.MMap.Win32.Views.{create_view-maps, close_view-create_view}

abbrev new_handle : (ℕ → Bool) × (ℕ → Bool) → ℕ × ((ℕ → Bool) × (ℕ → Bool))
new_handle w = if w.0 5 then (0, w) else (5, (opened (some 5) w.0, w.1))

abbrev viewing_at : ℕ → Sys ((ℕ → Bool) × (ℕ → Bool))
viewing_at address = record {
  get_osfhandle = λ fd w. (some fd, w);
  create_file_mapping = λ file readonly limit name w. new_handle w;
  get_file_size = λ file w. (700, w);
  map_view_of_file = λ h readonly base len w. (address, (w.0, opened (given address) w.1));
  unmap_view_of_file = λ p w. (w.0, closed (some p) w.1);
  close_handle = λ h w. (closed (some h) w.0, w.1);
  allocation_granularity = 65536;
}

abbrev nothing : (ℕ → Bool) × (ℕ → Bool)
nothing = (λ x. false, λ x. false)

-- The byte at 70000 is byte 4464 of its granule.
create_view-maps_example :
    create_view (viewing_at 131072) (some 3) 70000 100 true none unmapped nothing ≡ (
      135536,
      record { m_h_map = 5; m_ptr = 135536; m_size = 100 },
      (opened (some 5) nothing.0, opened (some 131072) nothing.1),
    )
unfolding file_handle
create_view-maps_example =
    create_view-maps (viewing_at 131072) (some 3) 70000 100 true none unmapped nothing refl
      (omega arith) (omega arith) (omega arith) (omega arith) (omega arith) (omega arith)
      (omega arith)

-- So `close` leaves the view there.
close_view-create_view_example :
    (close_view
        (viewing_at 131072)
        (create_view (viewing_at 131072) (some 3) 70000 100 true none unmapped nothing).1
        (create_view (viewing_at 131072) (some 3) 70000 100 true none unmapped nothing).2).1.1
      131072
    ≡ true
unfolding file_handle
close_view-create_view_example =
    close_view-create_view (viewing_at 131072) (some 3) 70000 100 true none unmapped nothing
      (λ w. w.1) (λ h readonly base len w. refl) (λ p w. refl) (λ h w. refl) refl (omega arith)
      (omega arith) (omega arith) (omega arith) (omega arith) (omega arith) (omega arith)

new_handle_lem :
    (w : (ℕ → Bool) × (ℕ → Bool))
    → ((new_handle w).1.0 ≡ opened (given (new_handle w).0) w.0)
      × IsNew (given (new_handle w).0) w.0
new_handle_lem w = elim (Bool-cases (w.0 5)) [
  | inl taken ↦ rw taken (refl, tt)
  | inr free ↦ rw free (refl, free)
]

viewing_at-IsTracked :
    (address : ℕ) → address + 65536 ≤ 2 ^ 64 → IsTracked (viewing_at address) (λ w. w.0)
viewing_at-IsTracked address low = record {
  osfhandle_same = λ fd w. refl;
  file_size_same = λ file w. refl;
  created = λ file readonly limit name w. new_handle_lem w;
  view_same = λ h readonly base len w. refl;
  unmap_same = λ p w. refl;
  handle_closed = λ h w is. refl;
  view_low = λ h readonly base len w. low;
  granularity_pos = omega arith;
  granularity_int = omega arith;
}

-- Mapped twice, the second time over the first, and closed twice.
abbrev calls : List Call
calls = map (some 3) 0 0 true none ∷ map (some 3) 70000 100 true none ∷ close ∷ close ∷ []

run-unmapped_example :
    ((run (viewing_at 131072) calls unmapped nothing).1.0
      ≡ opened (owned (run (viewing_at 131072) calls unmapped nothing).0) nothing.0)
    × IsNew (owned (run (viewing_at 131072) calls unmapped nothing).0) nothing.0
run-unmapped_example =
    run-unmapped (viewing_at 131072) (λ w. w.0) (viewing_at-IsTracked 131072 (omega arith)) calls
      nothing
