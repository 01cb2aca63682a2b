-- ===== src/Parser.antt =====
-- course1-1/9-seminar-stack/024.c: a calculator over expressions with parentheses, whose four operators
-- all bind alike and to the left. The input is the list of its characters. A `fault` is `abort` or
-- arithmetic that a `long` does not hold. The fields of the union `lexem` are kept apart: each is
-- read only where `type` says that it was written last.
pub mod Grammar
pub mod Arithmetic
pub mod Peek
pub mod Operand
pub mod Evaluate
pub mod Tests
use mipt_informatics.Base.{
  ℕ, zero, suc, ◌+◌, ◌-◌, ◌*◌, ◌^◌, Bool, true, false, not, ◌&&◌, ◌||◌, List, [], ◌∷◌, leb, ltb,
  ◌==◌, if◌then◌else◌, length,
}
use mipt_informatics.Base.Int.{ℤ, pos, negsuc, pos_part, neg_part, ◌+ℤ◌, ◌-ℤ◌, ◌*ℤ◌}
use mipt_informatics.Base.Run.{Run, done, fault, out_of_fuel, ◌>>=◌}
use mipt_informatics.Stack.Postfix.{quotient}

abbrev pub type_none : ℕ
type_none = 0

abbrev pub type_value : ℕ
type_value = 1

abbrev pub type_op : ℕ
type_op = 2

abbrev pub type_paren : ℕ
type_paren = 3

pub record Lexer : Type 0 where
  pub input : List ℕ
  pub kind : ℕ
  pub value : ℤ
  pub op : ℕ

-- `isspace`
abbrev pub is_space : ℕ → Bool
is_space c = c == 32 || leb 9 c && leb c 13

abbrev pub is_digit : ℕ → Bool
is_digit c = leb b'0' c && leb c b'9'

abbrev pub is_op : ℕ → Bool
is_op c = c == b'+' || c == b'-' || c == b'*' || c == b'/'

abbrev pub is_paren : ℕ → Bool
is_paren c = c == b'(' || c == b')'

-- the values of the type `long`
abbrev pub long_limit : ℕ
long_limit = 9223372036854775808

abbrev pub in_long : ℤ → Bool
in_long (pos n) = ltb n long_limit
in_long (negsuc n) = ltb n long_limit

abbrev pub check_long : ℤ → Run ℤ
check_long z = if in_long z then done z else fault

abbrev pub skip_spaces : List ℕ → List ℕ
skip_spaces [] = []
skip_spaces (c ∷ t) = let rest = skip_spaces t in if is_space c then rest else c ∷ t

-- the digits that `scanf ("%ld")` takes, behind a number
abbrev pub scan : ℕ → List ℕ → ℕ × List ℕ
scan n [] = (n, [])
scan n (c ∷ t) = let rest = scan (10 * n + (c - b'0')) t in if is_digit c then rest else (n, c ∷ t)

-- `lex_fetch` behind the spaces
abbrev pub fetch : Lexer → List ℕ → Run Lexer
fetch s [] = done (record s { input = [] })
fetch s (c ∷ t) =
    if is_digit c
    then (check_long (pos (scan 0 (c ∷ t)).0) >>= λ v.
        done (record s { input = (scan 0 (c ∷ t)).1; kind = type_value; value = v }))
    else if is_op c
    then done (record s { input = t; kind = type_op; op = c })
    else if is_paren c
    then done (record s { input = t; kind = type_paren; op = c })
    else fault

pub lex_fetch : Lexer → Run Lexer
lex_fetch s = if s.kind == type_none then fetch s (skip_spaces s.input) else done s

pub lex_check : ℕ → Lexer → Run (Bool × Lexer)
unfolding lex_fetch
lex_check kind s = do s' ← lex_fetch s; done (s'.kind == kind, s')

pub lex_ok : Lexer → Run (Bool × Lexer)
unfolding lex_fetch
lex_ok s = do s' ← lex_fetch s; done (not (s'.kind == type_none), s')

pub lex_consume : Lexer → Run Lexer
unfolding lex_fetch
lex_consume s = do s' ← lex_fetch s; done (record s' { kind = type_none })

-- the switch over `lexem.op`
pub apply_long : ℕ → ℤ → ℤ → Run ℤ
apply_long op result v =
    if op == b'+'
    then check_long (result +ℤ v)
    else if op == b'-'
    then check_long (result -ℤ v)
    else if op == b'*'
    then check_long (result *ℤ v)
    else if op == b'/'
    then (if pos_part v + neg_part v == 0 then fault else check_long (quotient result v))
    else fault

-- behind the opening parenthesis
pub parse_parentheses : (Lexer → Run (ℤ × Lexer)) → Lexer → Run (ℤ × Lexer)
unfolding lex_check lex_consume
parse_parentheses expression s = do
  s' ← lex_consume s
  (value, s'') ← expression s'
  (paren, s3) ← lex_check type_paren s''
  if paren && s3.op == b')' then (lex_consume s3 >>= λ s4. done (value, s4)) else fault

-- with `parse_expression` as a parameter
pub parse_value_or_parentheses : (Lexer → Run (ℤ × Lexer)) → Bool → Lexer → Run (ℤ × Lexer)
unfolding lex_check lex_consume parse_parentheses
parse_value_or_parentheses expression or_0 s = do
  (value, s') ← lex_check type_value s
  elim value [
    | true ↦ lex_consume s' >>= λ s''. done (s'.value, s'')
    | false ↦ do
      (paren, s'') ← lex_check type_paren s'
      elim (paren && s''.op == b'(') [
        | true ↦ parse_parentheses expression s''
        | false ↦ if or_0 then done (pos 0, s'') else fault
      ]
  ]

-- the loop of `parse_expression`
pub expression_loop : (Lexer → Run (ℤ × Lexer)) → ℕ → ℤ → Lexer → Run (ℤ × Lexer)
unfolding lex_ok lex_check lex_consume apply_long parse_value_or_parentheses
expression_loop expression zero result s = out_of_fuel
expression_loop expression (suc fuel) result s = do
  (ok, s') ← lex_ok s
  (operator, s'') ← (if ok then lex_check type_op s' else done (false, s'))
  elim operator [
    | true ↦ do
      s3 ← lex_consume s''
      (v, s4) ← parse_value_or_parentheses expression false s3
      result' ← apply_long s3.op result v
      expression_loop expression fuel result' s4
    | false ↦ done (result, s'')
  ]

pub parse_expression : ℕ → Lexer → Run (ℤ × Lexer)
unfolding parse_value_or_parentheses expression_loop
parse_expression zero s = out_of_fuel
parse_expression (suc fuel) s = do
  (result, s') ← parse_value_or_parentheses (parse_expression fuel) true s
  expression_loop (parse_expression fuel) fuel result s'

abbrev pub lex_init : List ℕ → Lexer
lex_init text = record { input = text; kind = type_none; value = pos 0; op = 0 }

-- the number that `main` prints
pub calculate_text : List ℕ → Run ℤ
unfolding lex_ok parse_expression
calculate_text text = do
  (value, s) ← parse_expression (length text + 2) (lex_init text)
  (more, s') ← lex_ok s
  if more then fault else done value
