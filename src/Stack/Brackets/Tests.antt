-- ===== src/Stack/Brackets/Tests.antt =====
-- Runs of the check of brackets.
use mipt_informatics.Base.{ℕ, ◌≡◌, ◌↔◌, refl, Bool, true, List, [], ◌∷◌, arith}
use mipt_informatics.Base.Run.{done, out_of_fuel}
use mipt_informatics.Stack.{grow}
use mipt_informatics.Stack.Brackets.{check_line}
use mipt_informatics.Stack.Brackets.Balanced.{Balanced}
use mipt_informatics.Stack.Brackets.Check.{check_line-iff-Balanced, check_line-hangs}

abbrev blank : ℕ → ℕ
blank i = 0

-- `([])`
abbrev nested : List ℕ
nested = b'(' ∷ b'[' ∷ b']' ∷ b')' ∷ []

check_line-iff-Balanced_example :
    (answer : Bool) × (check_line 31 blank nested ≡ done answer)
    × ((answer ≡ true) ↔ Balanced nested)
check_line-iff-Balanced_example = check_line-iff-Balanced blank nested (omega arith) (omega arith)

check_line_run : check_line 31 blank nested ≡ done true
unfolding check_line grow
check_line_run = refl

check_line-hangs_example : check_line 1000 blank (b'(' ∷ []) ≡ out_of_fuel
check_line-hangs_example = check_line-hangs 1000 b'(' blank refl
