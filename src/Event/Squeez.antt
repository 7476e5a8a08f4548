-- ===== src/Event/Squeez.antt =====
-- src/gevent.cpp: what `__squeez_listeners` leaves of the listeners.
use opengcl.Prelude.{
  ℕ, zero, suc, ◌+◌, ◌≤◌, ◌<◌, ◌≡◌, refl, sym, ap, ◌∙◌, inl, inr, Bool-cases, List, [], ◌∷◌, ◌++◌,
  some, true, if◌then◌else◌, arith, length, length-snoc, snoc-cases, append-nil,
}
use opengcl.Prelude.Outcome.{Outcome, done}
use opengcl.Que.{Cque, CircularQueue}
use opengcl.Que.Layout.{slot, wrap, IsLaid, in_area-slot}
use opengcl.Que.Window.{wrap-le}
use opengcl.Que.Holds.{Holds, slots}
use opengcl.Que.Counts.{Holds-Counted}
use opengcl.Que.Unwrapped.{get-unwrapped, pop-unwrapped}
use opengcl.Que.Peek.{peek, last}
use opengcl.Que.Peek.Steps.{peek-head, last-slot, peek-none, last-none}
use opengcl.Event.Places.{window_item, full}
use opengcl.Event.Turn.{turn, keep}
use opengcl.Event.{
  EventBlock, is_null, dead, taken, trim_head, trim_tail, trim_inside, squeez_listeners,
}

-- The listeners that are not marked dead.
pub live : List EventBlock → List EventBlock
live [] = []
live (eb ∷ l) = if is_null eb.name then live l else eb ∷ live l

trim_inside_lem :
    (rest kept : List EventBlock) {n : ℕ} {q : Cque EventBlock}
    → Holds q n (rest ++ kept)
    → (q' : Cque EventBlock) × (trim_inside (length rest) (some q) ≡ done (some q'))
      × Holds q' n (kept ++ live rest)
unfolding trim_inside taken live
trim_inside_lem [] kept {n} {q} h = (q, refl, rw (append-nil kept) h)
trim_inside_lem (eb ∷ rest) kept h =
    let t = turn (is_null eb.name) eb rest kept h in
    let (q', e, h') =
      trim_inside_lem rest (if is_null eb.name then kept else kept ++ eb ∷ []) t.holds in
    (q', rw (t.taking, t.putting) e, rw (keep (is_null eb.name) kept (live rest) eb) at h')

-- The loop of `__squeez_listeners` over the whole queue, which holds `bs`, leaves the listeners that are not
-- dead, in order.
trim_inside-Holds :
    {n : ℕ} {q : Cque EventBlock} (bs : List EventBlock)
    → Holds q n bs
    → (q' : Cque EventBlock) × (trim_inside (length bs) (some q) ≡ done (some q'))
      × Holds q' n (live bs)
trim_inside-Holds bs h = trim_inside_lem bs [] (rw (append-nil bs) h)

-- Whether the first or the last listener is dead.
dead-slot :
    {c : Cque EventBlock} {n i k : ℕ} (laid : IsLaid c n i k) (j : ℕ) (eb : EventBlock)
    → j ≤ n
    → c.mem (slot c.item_size j) ≡ eb
    → dead (some c) (some (slot c.item_size j)) ≡ done (is_null eb.name)
unfolding dead
dead-slot laid j eb le here =
    rw (in_area-slot laid j le) (ap (λ (b : EventBlock). done (is_null b.name)) here)

pub dead-peek :
    {c : Cque EventBlock} {n : ℕ} {eb : EventBlock} {bs : List EventBlock}
    → Holds c n (eb ∷ bs)
    → dead (some c) (peek (some c)) ≡ done (is_null eb.name)
dead-peek {c} {n} {eb} {bs} h =
    ap (dead (some c)) (peek-head h)
    ∙ dead-slot h.laid (wrap n (h.index + 0)) eb (wrap-le n h.index 0 h.laid.head_in (omega arith))
        (window_item (slots c.mem c.item_size) n h.index [] eb bs h.laid.head_in h.laid.len_in
          h.items)

pub dead-last :
    {c : Cque EventBlock} {n : ℕ} (bs : List EventBlock) (eb : EventBlock)
    → Holds c n (bs ++ eb ∷ [])
    → dead (some c) (last (some c)) ≡ done (is_null eb.name)
dead-last {c} {n} bs eb h =
    ap (dead (some c)) (
      last-slot h.laid (length bs) (length-snoc bs eb)
        (full bs eb [] (record { laid = h.laid; items = h.items })))
    ∙ dead-slot h.laid (wrap n (h.index + length bs)) eb
        (wrap-le n h.index (length bs) h.laid.head_in
          (omega (arith, h.laid.len_in, length-snoc bs eb)))
        (window_item (slots c.mem c.item_size) n h.index bs eb [] h.laid.head_in h.laid.len_in
          h.items)

live-dead-last :
    (bs : List EventBlock) (eb : EventBlock)
    → is_null eb.name ≡ true
    → live (bs ++ eb ∷ []) ≡ live bs
unfolding live
live-dead-last [] eb dead_eb = rw dead_eb refl
live-dead-last (b ∷ bs) eb dead_eb =
    ap (λ l. if is_null b.name then l else b ∷ l) (live-dead-last bs eb dead_eb)

-- What the loops at the two ends come to: a queue that holds fewer or as many listeners, among them all the
-- live ones.
record Trimmed (n : ℕ) (bs : List EventBlock) (r : Outcome (CircularQueue EventBlock))
    : Type 0 where
  queue : Cque EventBlock
  left : List EventBlock
  result : r ≡ done (some queue)
  holds : Holds queue n left
  same : live left ≡ live bs
  fewer : length left ≤ length bs
  flat : queue.head ≤ queue.tail

trim_head-Holds :
    (f : ℕ) (bs : List EventBlock) {n : ℕ} {q : Cque EventBlock}
    → Holds q n bs
    → q.head ≤ q.tail
    → length bs < f
    → Trimmed n bs (trim_head f (some q))
unfolding trim_head live dead
trim_head-Holds zero bs h flat le = absurd (omega arith)
trim_head-Holds (suc f) [] {n} {q} h flat le = record {
  queue = q;
  left = [];
  result = rw (peek-none h) refl;
  holds = h;
  same = refl;
  fewer = omega arith;
  flat = flat;
}
trim_head-Holds (suc f) (eb ∷ bs) {n} {q} h flat le = elim (Bool-cases (is_null eb.name)) [
  | inl gone ↦
      let (q', e, h', flat') = get-unwrapped h flat in
      let t = trim_head-Holds f bs h' flat' (omega arith) in
      record {
        queue = t.queue;
        left = t.left;
        result = rw (dead-peek h, gone, e) t.result;
        holds = t.holds;
        same = rw gone t.same;
        fewer = omega (arith, t.fewer);
        flat = t.flat;
      }
  | inr stays ↦ record {
    queue = q;
    left = eb ∷ bs;
    result = rw (dead-peek h, stays) refl;
    holds = h;
    same = refl;
    fewer = omega arith;
    flat = flat;
  }
]

trim_tail-Holds :
    (f : ℕ) (bs : List EventBlock) {n : ℕ} {q : Cque EventBlock}
    → Holds q n bs
    → q.head ≤ q.tail
    → length bs < f
    → Trimmed n bs (trim_tail f (some q))
unfolding trim_tail dead
trim_tail-Holds zero bs h flat le = absurd (omega arith)
trim_tail-Holds (suc f) bs {n} {q} h flat le = elim (snoc-cases bs) [
  | inl none_in ↦
      let h0 : Holds q n [] = rw none_in at h in
      record {
        queue = q;
        left = [];
        result = rw (last-none h0) refl;
        holds = h0;
        same = ap live (sym none_in);
        fewer = omega arith;
        flat = flat;
      }
  | inr (front, eb, split) ↦
      let h1 : Holds q n (front ++ eb ∷ []) = rw split at h in
      elim (Bool-cases (is_null eb.name)) [
        | inl gone ↦
            let (q', e, h', flat') = pop-unwrapped front eb h1 flat in
            let shorter : suc (length front) ≡ length bs =
              sym (ap length split ∙ length-snoc front eb) in
            let t = trim_tail-Holds f front h' flat' (omega (arith, shorter)) in
            record {
              queue = t.queue;
              left = t.left;
              result = rw (dead-last front eb h1, gone, e) t.result;
              holds = t.holds;
              same = t.same ∙ sym (live-dead-last front eb gone) ∙ ap live (sym split);
              fewer = omega (arith, t.fewer, shorter);
              flat = t.flat;
            }
        | inr stays ↦ record {
          queue = q;
          left = bs;
          result = rw (dead-last front eb h1, stays) refl;
          holds = h;
          same = refl;
          fewer = omega arith;
          flat = flat;
        }
      ]
]

-- Where the queue has not wrapped and the fuel exceeds the number of listeners, `__squeez_listeners` leaves
-- the listeners that are not marked dead, in order.
pub squeez_listeners-Holds :
    {n : ℕ} {q : Cque EventBlock} {bs : List EventBlock} (fuel : ℕ)
    → Holds q n bs
    → q.head ≤ q.tail
    → length bs < fuel
    → (q' : Cque EventBlock) × (squeez_listeners fuel (some q) ≡ done (some q'))
      × Holds q' n (live bs)
unfolding squeez_listeners
squeez_listeners-Holds {n} {bs} fuel h flat le =
    let t1 = trim_head-Holds fuel bs h flat le in
    let t2 = trim_tail-Holds fuel t1.left t1.holds t1.flat (omega (arith, t1.fewer)) in
    let (q', e, h') = trim_inside-Holds t2.left t2.holds in
    (
      q',
      rw (t1.result, t2.result, (Holds-Counted t2.holds).length_is) e,
      rw (t2.same ∙ t1.same) at h',
    )
