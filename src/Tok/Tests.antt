-- ===== src/Tok/Tests.antt =====
-- src/gtockenizer.cpp: each theorem at the text "ab,,c" and the separator ",".
use opengcl.Prelude.{ℕ, ◌≡◌, refl, List, [], ◌∷◌, ◌++◌, some, true, arith}
use opengcl.Prelude.Outcome.{done}
use opengcl.Tok.{Tockenizer, fresh, bind, rewind, is_separator}
use opengcl.Tok.Pieces.{piece, pieces}
use opengcl.Tok.Collect.{collect, collect-bind}

abbrev comma : List ℕ
comma = b',' ∷ []

abbrev text : List ℕ
text = b'a' ∷ b'b' ∷ b',' ∷ b',' ∷ b'c' ∷ []

pieces-text :
    pieces comma 0 [] text
    ≡ piece (b'a' ∷ b'b' ∷ []) b',' ∷ piece [] b',' ∷ piece (b'c' ∷ []) 0 ∷ []
unfolding pieces is_separator
pieces-text = refl

collect-bind_example :
    (t' : Tockenizer) × (bind (some (text ++ 0 ∷ [])) 5 (some comma) fresh ≡ done (true, t'))
    × (collect 6 16 t' ≡ done (some (pieces comma 0 [] text)))
    × (rewind t' ≡ done t')
collect-bind_example =
    collect-bind comma text [] 0 6 16 fresh (omega arith) (omega arith) (omega arith) (omega arith)
