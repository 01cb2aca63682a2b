-- ===== src/Parser/Grammar.antt =====
-- The expressions of 024.c, their texts and their values, with the characters as codes of ASCII.
use mipt_informatics.Base.{
  Bool, leb, ◌==◌, ◌&&◌, ◌||◌, ◌^◌, ℕ, ◌+◌, ◌-◌, ◌*◌, ◌≡◌, true, List, [], ◌∷◌, ◌++◌,
}
use mipt_informatics.Base.Int.{ℤ, pos}
use mipt_informatics.Base.Run.{Run, done, ◌>>=◌}
use mipt_informatics.Base.Operators.{limited, operate}

-- an operand in front of operators may be missing; numbers are lists of digits
pub data Expression : Type 0 where
  missing : Expression
  number : List ℕ → Expression
  parens : Expression → Expression
  with_number : Expression → (op : ℕ) → List ℕ → Expression
  with_parens : Expression → (op : ℕ) → Expression → Expression

abbrev pub decimal : ℕ → List ℕ → ℕ
decimal n [] = n
decimal n (c ∷ digits) = decimal (10 * n + (c - 48)) digits

abbrev pub literal : List ℕ → Run ℤ
literal digits = limited (2 ^ 63) (pos (decimal 0 digits))

-- operators bind alike and to the left
abbrev pub eval : Expression → Run ℤ
eval missing = done (pos 0)
eval (number digits) = literal digits
eval (parens e) = eval e
eval (with_number e op digits) = eval e >>= λ v. literal digits >>= λ w. operate (2 ^ 63) op v w
eval (with_parens e op e') = eval e >>= λ v. eval e' >>= λ w. operate (2 ^ 63) op v w

-- the text of an expression in front of a text, with the same spaces in front of each of its parts
abbrev pub text : List ℕ → Expression → List ℕ → List ℕ
text pad missing rest = rest
text pad (number digits) rest = pad ++ (digits ++ rest)
text pad (parens e) rest = pad ++ 40 ∷ text pad e (pad ++ 41 ∷ rest)
text pad (with_number e op digits) rest = text pad e (pad ++ op ∷ (pad ++ (digits ++ rest)))
text pad (with_parens e op e') rest =
    text pad e (pad ++ op ∷ (pad ++ 40 ∷ text pad e' (pad ++ 41 ∷ rest)))

-- a space, or one of tab, newline, vertical tab, form feed and carriage return
abbrev pub is_blank : ℕ → Bool
is_blank c = c == 32 || leb 9 c && leb c 13

-- 0 to 9
abbrev pub is_numeral : ℕ → Bool
is_numeral c = leb 48 c && leb c 57

-- +, -, * and /
abbrev pub is_operator : ℕ → Bool
is_operator c = c == 43 || c == 45 || c == 42 || c == 47

abbrev pub AllSpaces : List ℕ → Type 0
AllSpaces [] = Unit
AllSpaces (c ∷ pad) = (is_blank c ≡ true) × AllSpaces pad

abbrev pub AllDigits : List ℕ → Type 0
AllDigits [] = Unit
AllDigits (c ∷ digits) = (is_numeral c ≡ true) × AllDigits digits

abbrev pub IsNumber : List ℕ → Type 0
IsNumber [] = ⊥
IsNumber (c ∷ digits) = (is_numeral c ≡ true) × AllDigits digits

abbrev pub IsExpression : Expression → Type 0
IsExpression missing = Unit
IsExpression (number digits) = IsNumber digits
IsExpression (parens e) = IsExpression e
IsExpression (with_number e op digits) = IsExpression e × (is_operator op ≡ true) × IsNumber digits
IsExpression (with_parens e op e') = IsExpression e × (is_operator op ≡ true) × IsExpression e'
