-- ===== src/Linkable/Tests.antt =====
-- src/glist.cpp: each theorem at a list head 1 with the nodes 2 and 3, and the lone nodes 4 and 5.
use opengcl.Prelude.{◌≡◌, refl, [], ◌∷◌, false, arith, ◌==◌, if◌then◌else◌}
use opengcl.Linkable.{Heap, append, detach, prepend, is_alone}
use opengcl.Linkable.Rings.{IsRing}
use opengcl.Linkable.Append.{append-IsRing}
use opengcl.Linkable.Detach.{detach-IsRing}
use opengcl.Linkable.Prepend.{prepend_loses}

abbrev heap : Heap
heap = record {
  next = λ p. if p == 1 then 2 else if p == 2 then 3 else if p == 3 then 1 else p;
  prev = λ p. if p == 1 then 3 else if p == 2 then 1 else if p == 3 then 2 else p;
}

heap-IsRing : IsRing heap 1 (2 ∷ 3 ∷ [])
heap-IsRing = omega arith

lone-IsRing : IsRing heap 4 []
lone-IsRing = omega arith

append-IsRing_example : IsRing (append 1 4 heap) 1 (2 ∷ 3 ∷ 4 ∷ [])
append-IsRing_example = append-IsRing 4 heap-IsRing (omega arith) refl

detach-IsRing_example :
    IsRing (detach 2 heap) 1 (3 ∷ [])
    × ((detach 2 heap).next 2 ≡ 3)
    × ((detach 2 heap).prev 2 ≡ 1)
    × (is_alone 2 (detach 2 heap) ≡ false)
detach-IsRing_example = detach-IsRing [] (3 ∷ []) heap-IsRing

prepend_loses_example : IsRing (prepend 1 4 heap) 1 (4 ∷ []) × IsRing (prepend 1 4 heap) 2 (3 ∷ [])
prepend_loses_example = prepend_loses heap-IsRing lone-IsRing (omega arith)
