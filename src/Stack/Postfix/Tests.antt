-- ===== src/Stack/Postfix/Tests.antt =====
-- Runs of the calculator.
use mipt_informatics.Base.{ℕ, ◌≡◌, refl, [], ◌∷◌, ◌++◌, arith}
use mipt_informatics.Base.Int.{ℤ, pos, ◌*ℤ◌, ◌-ℤ◌}
use mipt_informatics.Base.Run.{done}
use mipt_informatics.Stack.Postfix.{op, calculate, apply_op}
use mipt_informatics.Stack.Postfix.Compile.{Expr, number, binary, compile, eval, calculate-eval}

abbrev zeros : ℕ → ℤ
zeros i = pos 0

-- 7 - 2 * 3
abbrev difference : Expr
difference = binary b'-' (number 7) (binary b'*' (number 2) (number 3))

calculate-eval_example : calculate 31 zeros (compile difference ++ (op b'=' ∷ [])) ≡ eval difference
calculate-eval_example = calculate-eval zeros difference [] (refl, tt, (refl, tt, tt)) (omega arith)

eval_run : eval difference ≡ done (pos 1)
unfolding apply_op ◌*ℤ◌ ◌-ℤ◌
eval_run = refl
