-- ===== src/Stack/Tests.antt =====
-- Operations of the array stack.
use mipt_informatics.Base.{ℕ, arith}
use mipt_informatics.Stack.{Stack}
use mipt_informatics.Stack.Laws.{IsValid}

abbrev blank : ℕ → ℕ
blank i = 0

-- one value in one cell
abbrev full_stack : Stack ℕ
full_stack = record { n = 1; size = 1; a = blank }

full_stack-IsValid : IsValid full_stack
full_stack-IsValid = record { within = omega arith; pos = omega arith; small = omega arith }
