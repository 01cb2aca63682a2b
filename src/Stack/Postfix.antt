-- ===== src/Stack/Postfix.antt =====
-- `main` of course1-1/9-seminar-stack/stack_postfix.c, a calculator in postfix notation. The input
-- is the list of what the calls of `scanf` match: a character of the set `+-/*=`, whose range from
-- `+` to `/` also holds `,` and `.`, a number without a sign, since the first `scanf` takes the sign
-- as an operator, or neither. A number that is no `int` is undefined behaviour of `scanf`.
pub mod Compile
pub mod Tests
use mipt_informatics.Base.{
  ℕ, zero, suc, ◌+◌, ◌/◌, ◌-◌, Bool, true, false, List, [], ◌∷◌, ◌==◌, leb, ltb, if◌then◌else◌,
}
use mipt_informatics.Base.Int.{ℤ, pos, negsuc, pos_part, neg_part, sub_ℕ, ◌+ℤ◌, ◌-ℤ◌, ◌*ℤ◌}
use mipt_informatics.Base.Run.{Run, done, fault, out_of_fuel, ◌>>=◌, ◌>>◌, assert}
use mipt_informatics.Stack.{Stack, int_limit, stack_create, stack_push, stack_pop, stack_size}

pub data Token : Type 0 where
  op : ℕ → Token
  value : ℕ → Token
  unmatched : Token

-- the values of the type `int`
abbrev pub in_int : ℤ → Bool
in_int (pos n) = ltb n int_limit
in_int (negsuc n) = ltb n int_limit

-- an arithmetic result that is no `int` is undefined behaviour
abbrev pub checked : ℤ → Run ℤ
checked z = if in_int z then done z else fault

-- division rounds towards 0
abbrev pub quotient : ℤ → ℤ → ℤ
quotient a b =
    sub_ℕ (pos_part a / pos_part b + neg_part a / neg_part b)
      (pos_part a / neg_part b + neg_part a / pos_part b)

-- the switch: `o2 op o1`
pub apply_op : ℕ → ℤ → ℤ → Run ℤ
apply_op c o2 o1 =
    if c == b'+'
    then checked (o2 +ℤ o1)
    else if c == b'-'
    then checked (o2 -ℤ o1)
    else if c == b'*'
    then checked (o2 *ℤ o1)
    else if c == b'/'
    then (if pos_part o1 + neg_part o1 == 0 then fault else checked (quotient o2 o1))
    else fault

-- one operator behind the test for `=`
pub reduce : ℕ → ℕ → Stack ℤ → Run (Stack ℤ)
unfolding apply_op
reduce fuel c s = do
  (o1, s') ← stack_pop s
  (o2, s'') ← stack_pop s'
  result ← apply_op c o2 o1
  stack_push fuel s'' result

-- `while (!end)`; at the end of the input neither `scanf` matches
pub read_tokens : ℕ → List Token → Stack ℤ → Run (Stack ℤ)
unfolding reduce
read_tokens fuel [] s = fault
read_tokens fuel (unmatched ∷ tokens) s = fault
read_tokens fuel (value v ∷ tokens) s = do
  number ← checked (pos v)
  s' ← stack_push fuel s number
  read_tokens fuel tokens s'
read_tokens fuel (op c ∷ tokens) s =
    let rest = (do s' ← reduce fuel c s; read_tokens fuel tokens s') in
    if c == b'=' then done s else rest

-- what `main` prints
pub calculate : ℕ → (cells : ℕ → ℤ) → List Token → Run ℤ
unfolding read_tokens stack_create stack_size
calculate fuel cells tokens = do
  s ← read_tokens fuel tokens (stack_create cells 2)
  assert (stack_size s == 1)
  (result, s') ← stack_pop s
  done result
