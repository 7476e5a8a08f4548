-- ===== src/Que/Tests.antt =====
-- src/gque.cpp: queues of two items of four bytes, and each theorem at one of them.
use opengcl.Prelude.{
  ℕ, ◌≡◌, refl, none, some, List, [], ◌∷◌, true, false, arith, ◌==◌, if◌then◌else◌, inl,
}
use opengcl.Prelude.Outcome.{done, fault}
use opengcl.Que.{Cque, push, pop}
use opengcl.Que.Holds.{Holds}
use opengcl.Que.Refine.{
  Op, put_item, get_item, clear_all, stored, taken, cleared, run, run_spec, run-run_spec,
}
use opengcl.Que.Counts.{Counted, Holds-Counted}
use opengcl.Que.Front.{push-full}
use opengcl.Que.Back.{pop-wrapped}
use opengcl.Que.Peek.{peek, last, peek_next, peek_prev, walk}
use opengcl.Que.Peek.Traverse.{peek_next_visits, peek_prev_visits}

-- Slots at 20, 24 and 28.
abbrev queue : ℕ → ℕ → (ℕ → ℕ) → Cque ℕ
queue h t m = record { begin = 20; end = 32; head = h; tail = t; item_size = 4; mem = m }

abbrev cells : ℕ → ℕ → ℕ → ℕ → ℕ
cells x y z a = if a == 20 then x else if a == 24 then y else z

-- 7 in the last slot and 8 in the first.
abbrev wrapped : Cque ℕ
wrapped = queue 28 24 (cells 8 0 7)

wrapped-Holds : Holds wrapped 2 (7 ∷ 8 ∷ [])
wrapped-Holds = record { index = 2; laid = omega arith; items = refl }

-- The tail stands at the first slot.
abbrev at_first : Cque ℕ
at_first = queue 24 20 (cells 0 5 6)

at_first-Holds : Holds at_first 2 (5 ∷ 6 ∷ [])
at_first-Holds = record { index = 1; laid = omega arith; items = refl }

abbrev one_item : Cque ℕ
one_item = queue 20 24 (cells 3 0 0)

one_item-Holds : Holds one_item 2 (3 ∷ [])
one_item-Holds = record { index = 0; laid = omega arith; items = refl }

abbrev empty : Cque ℕ
empty = queue 24 24 (cells 3 4 5)

empty-Holds : Holds empty 2 []
empty-Holds = record { index = 1; laid = omega arith; items = refl }

abbrev script : List (Op ℕ)
script = put_item 9 ∷ get_item ∷ put_item 9 ∷ get_item ∷ clear_all ∷ get_item ∷ []

run-run_spec_example : run (some wrapped) script ≡ done (run_spec 2 (7 ∷ 8 ∷ []) script)
run-run_spec_example = run-run_spec script wrapped-Holds

run_spec-script :
    run_spec 2 (7 ∷ 8 ∷ []) script
    ≡ stored false
      ∷ taken true (some 7)
      ∷ stored true
      ∷ taken true (some 8)
      ∷ cleared
      ∷ taken false none
      ∷ []
unfolding run_spec
run_spec-script = refl

Holds-Counted_example : Counted wrapped 2 (7 ∷ 8 ∷ [])
Holds-Counted_example = Holds-Counted wrapped-Holds

push-full_example :
    (c' : Cque ℕ) × (push (some 9) (some wrapped) ≡ done (true, some c')) × Holds c' 2 []
push-full_example = push-full wrapped-Holds (inl (omega arith)) 9 refl (omega arith)

abbrev large : Cque ℕ
large = record { begin = 20; end = 116; head = 20; tail = 20; item_size = 32; mem = λ a. 0 }

large-Holds : Holds large 2 []
large-Holds = record { index = 0; laid = omega arith; items = refl }

pop-wrapped_example : pop true (some at_first) ≡ fault
pop-wrapped_example = pop-wrapped at_first-Holds refl (λ e. cc e)

peek_next_visits_example :
    walk (peek_next (some wrapped)) wrapped.mem 3 (peek (some wrapped)) ≡ some (7 ∷ 8 ∷ [])
peek_next_visits_example = peek_next_visits wrapped-Holds 3 (omega arith)

peek_prev_visits_example :
    walk (peek_prev (some at_first)) at_first.mem 3 (last (some at_first)) ≡ some (6 ∷ 5 ∷ [])
peek_prev_visits_example = peek_prev_visits at_first-Holds 3 (omega arith)
