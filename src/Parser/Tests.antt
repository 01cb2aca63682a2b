-- ===== src/Parser/Tests.antt =====
-- Runs of 024.c.
use mipt_informatics.Base.{◌≡◌, refl, [], ◌∷◌, ◌++◌}
use mipt_informatics.Base.Int.{negsuc, ◌+ℤ◌, ◌-ℤ◌, ◌*ℤ◌}
use mipt_informatics.Base.Run.{done, fault}
use mipt_informatics.Parser.{
  calculate_text, lex_fetch, lex_check, lex_ok, lex_consume, apply_long, parse_parentheses,
  parse_value_or_parentheses, expression_loop, parse_expression,
}
use mipt_informatics.Parser.Grammar.{
  Expression, missing, number, with_number, with_parens, eval, text,
}
use mipt_informatics.Parser.Evaluate.{calculate_text-eval}

-- -12 + (3 - 14) * 2
abbrev sample : Expression
sample =
    with_number
      (with_parens (with_number missing b'-' (b'1' ∷ b'2' ∷ [])) b'+'
        (with_number (number (b'3' ∷ [])) b'-' (b'1' ∷ b'4' ∷ [])))
      b'*' (b'2' ∷ [])

calculate_text_run : calculate_text (text (32 ∷ []) sample (32 ∷ [])) ≡ done (negsuc 45)
unfolding calculate_text lex_fetch lex_check lex_ok lex_consume apply_long parse_parentheses
    parse_value_or_parentheses expression_loop parse_expression ◌+ℤ◌ ◌-ℤ◌ ◌*ℤ◌
calculate_text_run = refl

-- a missing second operand
calculate_text_run_fault : calculate_text (b'1' ∷ b'+' ∷ b')' ∷ []) ≡ fault
unfolding calculate_text lex_fetch lex_check lex_ok lex_consume apply_long parse_parentheses
    parse_value_or_parentheses expression_loop parse_expression
calculate_text_run_fault = refl

calculate_text-eval_example : calculate_text (text (32 ∷ []) sample ((32 ∷ []) ++ [])) ≡ eval sample
calculate_text-eval_example =
    calculate_text-eval (32 ∷ []) sample (refl, tt)
      (
        ((tt, refl, (refl, (refl, tt))), refl, ((refl, tt), refl, (refl, (refl, tt)))),
        refl,
        (refl, tt),
      )
