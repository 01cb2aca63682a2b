-- ===== src/Stack/Brackets.antt =====
-- `main` of course1-1/9-seminar-stack/stack_skobki.c. A line is the list of its character codes.
pub mod Balanced
pub mod Check
pub mod Tests
use mipt_informatics.Base.{
  ℕ, zero, suc, ◌+◌, ◌/◌, Bool, true, false, not, ◌||◌, ◌&&◌, Option, none, some, List, [], ◌∷◌,
  ◌==◌, if◌then◌else◌, length,
}
use mipt_informatics.Base.Run.{Run, done, ◌>>=◌}
use mipt_informatics.Stack.{Stack, stack_create, stack_is_empty, stack_push, stack_pop}

-- the cases `opening` of the switch
abbrev pub is_opening : ℕ → Bool
is_opening c = c == b'(' || c == b'[' || c == b'{' || c == b'<'

-- the cases `closing` of the switch, with the bracket that each one wants on the stack
abbrev pub opening_of : ℕ → Option ℕ
opening_of c =
    if c == b')'
    then some b'('
    else if c == b']'
    then some b'['
    else if c == b'}'
    then some b'{'
    else if c == b'>'
    then some b'<'
    else none

-- `stack_is_empty (s) || (stack_pop (s) != opening)`: the failure, and the stack behind the test
pub close : ℕ → Stack ℕ → Run (Bool × Stack ℕ)
close opening s =
    if stack_is_empty s
    then done (true, s)
    else (do (top, s') ← stack_pop s; done (not (top == opening), s'))

pub handle : ℕ → ℕ → Stack ℕ → Run (Bool × Stack ℕ)
unfolding close
handle fuel c s =
    if is_opening c
    then (do s' ← stack_push fuel s c; done (false, s'))
    else elim (opening_of c) [ none ↦ done (false, s) | some opening ↦ close opening s ]

-- `for (int i = 0; !failure && (i < str_len); ++i)`
pub scan_line : ℕ → List ℕ → Stack ℕ → Run (Bool × Stack ℕ)
unfolding handle
scan_line fuel [] s = done (false, s)
scan_line fuel (c ∷ cs) s = do
  (failure, s') ← handle fuel c s
  elim failure [ true ↦ done (true, s') | false ↦ scan_line fuel cs s' ]

-- what is printed: true is YES
pub check_line : ℕ → (cells : ℕ → ℕ) → List ℕ → Run Bool
unfolding scan_line stack_create stack_push stack_pop stack_is_empty
check_line fuel cells str = do
  (failure, s) ← scan_line fuel str (stack_create cells (length str / 2))
  done (not (failure || not (stack_is_empty s)))
