-- ===== src/Event/Turn.antt =====
-- src/gevent.cpp: one step of the loops that take every listener and put it back or not.
use opengcl.Prelude.{
  ℕ, ◌≡◌, refl, some, Bool, true, false, List, [], ◌∷◌, ◌++◌, if◌then◌else◌, arith, append_assoc,
}
use opengcl.Prelude.Outcome.{done}
use opengcl.Que.{Cque, get}
use opengcl.Que.Holds.{Holds}
use opengcl.Que.Fifo.{put-room, get-some}
use opengcl.Event.{EventBlock, put_back}

-- A queue after one step of a loop that takes the first item and puts it back, or not.
pub record Turned (gone : Bool) (eb : EventBlock) (n : ℕ) (rest kept : List EventBlock)
    (q : Cque EventBlock) : Type 0 where
  popped : Cque EventBlock
  turned : Cque EventBlock
  pub taking : get true (some q) ≡ done (true, some eb, some popped)
  pub putting : put_back gone eb (some popped) ≡ done (some turned)
  pub holds : Holds turned n (rest ++ (if gone then kept else kept ++ eb ∷ []))

pub turn :
    (gone : Bool) (eb : EventBlock) {n : ℕ} (rest kept : List EventBlock) {q : Cque EventBlock}
    → Holds q n (eb ∷ rest ++ kept)
    → Turned gone eb n rest kept q
unfolding put_back
turn gone eb {n} rest kept {q} h = let (c1, e, e', h1) = get-some h in go gone c1 e h1
  where
    go :
        (g : Bool) (c1 : Cque EventBlock)
        → get true (some q) ≡ done (true, some eb, some c1)
        → Holds c1 n (rest ++ kept)
        → Turned g eb n rest kept q
    go true c1 e h1 = record { popped = c1; turned = c1; taking = e; putting = refl; holds = h1 }
    go false c1 e h1 =
        let (c2, e2, h2) = put-room h1 eb (omega (arith, h.laid.len_in)) in
        record {
          popped = c1;
          turned = c2;
          taking = e;
          putting = rw e2 refl;
          holds = rw (append_assoc rest kept (eb ∷ [])) at h2;
        }

-- Appending to what is kept, or not, and then what stays of the rest.
pub keep :
    (b : Bool) (kept l : List EventBlock) (eb : EventBlock)
    → (if b then kept else kept ++ eb ∷ []) ++ l ≡ kept ++ (if b then l else eb ∷ l)
keep true kept l eb = refl
keep false kept l eb = append_assoc kept (eb ∷ []) l
