-- ===== src/Parser/Evaluate.antt =====
-- The value of an expression is what 024.c prints for its text.
use mipt_informatics.Base.{
  ℕ, zero, suc, ◌+◌, ◌-◌, ◌≤◌, ◌<◌, ◌≡◌, refl, sym, ap, ◌∙◌, true, false, not, List, [], ◌∷◌, ◌++◌,
  arith, ◌==◌, if◌then◌else◌, length, length-append,
}
use mathlib.Core.Path.{subst}
use mipt_informatics.Base.Int.{ℤ, pos}
use mipt_informatics.Base.Run.{Run, done, fault, out_of_fuel, ◌>>=◌}
use mipt_informatics.Parser.{
  Lexer, is_op, lex_ok, parse_value_or_parentheses, expression_loop, parse_expression, type_op,
  apply_long, lex_init, calculate_text,
}
use mipt_informatics.Parser.Grammar.{
  Expression, missing, number, parens, with_number, with_parens, literal, eval, text, AllSpaces,
  IsExpression,
}
use mipt_informatics.Parser.Arithmetic.{bind_cong, evaluated, evaluated-eval}
use mipt_informatics.Parser.Peek.{
  At, Peek, At-start, At-ahead, Stops, fetch-op, fetch-paren, fetch-end,
}
use mipt_informatics.Parser.Operand.{
  bind_assoc, Agree, Reads, Follows, at_end, at_op, at_close, lex_check-again, lex_ok-ahead,
  consumed, lex_consume-ahead, At-consumed, operand-number, operand-parens, operand-missing,
}

-- the operators of an expression, and the fuel for it
abbrev operators : Expression → ℕ
operators missing = 0
operators (number digits) = 0
operators (parens e) = 0
operators (with_number e op digits) = operators e + 1
operators (with_parens e op e') = operators e + 1

abbrev need : Expression → ℕ
need missing = 1
need (number digits) = 1
need (parens e) = need e + 1
need (with_number e op digits) = need e + 1
need (with_parens e op e') = need e + need e' + 1

operators-lt : (e : Expression) → operators e < need e
operators-lt missing = omega arith
operators-lt (number digits) = omega arith
operators-lt (parens e) = omega arith
operators-lt (with_number e op digits) = omega (arith, operators-lt e)
operators-lt (with_parens e op e') = omega (arith, operators-lt e)

-- the value of an operator's expression, in front of what follows
operate_assoc :
    (C : Type 0) (c : ℕ) (m value : Run ℤ) (r : ℤ → Run C)
    → (m >>= λ v. value >>= λ w. apply_long c v w >>= r)
      ≡ ((m >>= λ v. value >>= λ w. apply_long c v w) >>= r)
operate_assoc C c m value r =
    bind_cong m (λ v. value >>= λ w. apply_long c v w >>= r)
      (λ v. (value >>= λ w. apply_long c v w) >>= r)
      (λ v. sym (bind_assoc value (λ w. apply_long c v w) r))
    ∙ sym (bind_assoc m (λ v. value >>= λ w. apply_long c v w) r)

Stops-pad : (pad t : List ℕ) → AllSpaces pad → Stops t → Stops (pad ++ t)
Stops-pad [] t a h = h
Stops-pad (c ∷ pad) t a h = ground (arith, a.0)

need-length :
    (pad : List ℕ) (e : Expression) (rest : List ℕ)
    → need e + length rest ≤ length (text pad e rest) + 1
need-length pad missing rest = omega arith
need-length pad (number digits) rest =
    omega (arith, length-append pad (digits ++ rest), length-append digits rest)
need-length pad (parens e) rest =
    let inner = text pad e (pad ++ b')' ∷ rest) in
    omega (
      arith,
      length-append pad (b'(' ∷ inner),
      need-length pad e (pad ++ b')' ∷ rest),
      length-append pad (b')' ∷ rest),
    )
need-length pad (with_number e op digits) rest =
    let right = pad ++ (digits ++ rest) in
    omega (
      arith,
      need-length pad e (pad ++ op ∷ right),
      length-append pad (op ∷ right),
      length-append pad (digits ++ rest),
      length-append digits rest,
    )
need-length pad (with_parens e op e') rest =
    let inner = text pad e' (pad ++ b')' ∷ rest) in
    let right = pad ++ b'(' ∷ inner in
    omega (
      arith,
      need-length pad e (pad ++ op ∷ right),
      length-append pad (op ∷ right),
      length-append pad (b'(' ∷ inner),
      need-length pad e' (pad ++ b')' ∷ rest),
      length-append pad (b')' ∷ rest),
    )

module _ (pad : List ℕ) (a : AllSpaces pad) where
  Follows-Stops : (rest : List ℕ) → Follows pad rest → Stops rest
  Follows-Stops rest (at_end e) = subst Stops (sym e) (Stops-pad pad [] a tt)
  Follows-Stops rest (at_op c t o e) =
      subst Stops (sym e) (Stops-pad pad (c ∷ t) a (ground (arith, o)))
  Follows-Stops rest (at_close t e) = subst Stops (sym e) (Stops-pad pad (b')' ∷ t) a refl)

  module _ (expression : Lexer → Run (ℤ × Lexer)) (n : ℕ) (v : ℤ) (s : Lexer) where
    -- a round of the loop behind an operator
    abbrev operated : ℕ → ℤ × Lexer → Run (ℤ × Lexer)
    operated c (w, s') = apply_long c v w >>= λ r. expression_loop expression n r s'

    loop-op :
        (c : ℕ) (t : List ℕ)
        → is_op c ≡ true
        → At s (pad ++ c ∷ t)
        → (s' : Lexer) × At s' t
          × (expression_loop expression (suc n) v s
              ≡ (parse_value_or_parentheses expression false s' >>= operated c))
    unfolding expression_loop
    loop-op c t o l =
        let (p, e) = fetch-op pad a s c t o l in
        (
          consumed p.ahead,
          At-consumed s 2 t p,
          rw (lex_ok-ahead s 2 t p, lex_check-again s 2 type_op t p, lex_consume-ahead s 2 t p)
              (ap
                (λ d. parse_value_or_parentheses expression false (consumed p.ahead) >>= operated d)
                e),
        )

    loop-end :
        (t : List ℕ) (p : Peek s 0 t) → expression_loop expression (suc n) v s ≡ done (v, p.ahead)
    unfolding expression_loop
    loop-end t p = rw (lex_ok-ahead s 0 t p)

    loop-close :
        (t : List ℕ) (p : Peek s 3 t) → expression_loop expression (suc n) v s ≡ done (v, p.ahead)
    unfolding expression_loop
    loop-close t p = rw (lex_ok-ahead s 3 t p, lex_check-again s 3 type_op t p)

  -- The parser, with fuel `suc fuel`, reads the text of an expression and is left in its loop.
  abbrev Parses : Expression → Type 1
  Parses e =
      (fuel n : ℕ) (rest : List ℕ) (C : Type 0) (s : Lexer) (k : ℤ × Lexer → Run C) (r : ℤ → Run C)
      → fuel ≡ n + operators e
      → need e ≤ fuel
      → Follows pad rest
      → At s (text pad e rest)
      → Agree rest (λ (v, s'). expression_loop (parse_expression fuel) n v s' >>= k) r
      → (parse_expression (suc fuel) s >>= k) ≡ (evaluated e >>= r)

  parse-first :
      (value : Run ℤ) (t rest : List ℕ) (fuel : ℕ) (C : Type 0) (s : Lexer) (k : ℤ × Lexer → Run C)
      (r : ℤ → Run C)
      → Reads (parse_value_or_parentheses (parse_expression fuel) true) value t rest
      → At s t
      → Agree rest (λ (v, s'). expression_loop (parse_expression fuel) fuel v s' >>= k) r
      → (parse_expression (suc fuel) s >>= k) ≡ (value >>= r)
  unfolding parse_expression
  parse-first value t rest fuel C s k r reads l agree =
      let loop = λ (x : ℤ × Lexer). expression_loop (parse_expression fuel) fuel x.0 x.1 in
      bind_assoc (parse_value_or_parentheses (parse_expression fuel) true s) loop k
      ∙ reads C s (λ x. loop x >>= k) r l agree

  -- an expression in front of a closing parenthesis
  parse-closed :
      (e : Expression) (fuel : ℕ) (rest : List ℕ)
      → Parses e
      → need e < fuel
      → Reads
          (parse_expression fuel)
          (evaluated e)
          (text pad e (pad ++ b')' ∷ rest))
          (pad ++ b')' ∷ rest)
  parse-closed e zero rest parses enough C s k r l agree = absurd (omega (arith, enough))
  parse-closed e (suc fuel) rest parses enough C s k r l agree =
      let n = fuel - operators e - 1 in
      let close = pad ++ b')' ∷ rest in
      parses fuel (suc n) close C s k r (omega (arith, operators-lt e, enough))
        (omega (arith, enough)) (at_close rest refl) l
        (λ v s' l'.
          let (p, f) = fetch-paren pad a s' b')' rest refl l' in
          ap (λ m. m >>= k) (loop-close (parse_expression fuel) n v s' rest p)
          ∙ agree v p.ahead (At-ahead s' close rest 3 l' p))

  parse-operated :
      (c : ℕ) (value : Run ℤ) (t rest : List ℕ) (fuel n : ℕ) (C : Type 0) (k : ℤ × Lexer → Run C)
      (r : ℤ → Run C)
      → is_op c ≡ true
      → Reads (parse_value_or_parentheses (parse_expression fuel) false) value t rest
      → Agree rest (λ (v, s'). expression_loop (parse_expression fuel) n v s' >>= k) r
      → Agree
          (pad ++ c ∷ t)
          (λ (v, s'). expression_loop (parse_expression fuel) (suc n) v s' >>= k)
          (λ v. value >>= λ w. apply_long c v w >>= r)
  parse-operated c value t rest fuel n C k r o reads agree v s l =
      let expression = parse_expression fuel in
      let (s', l', e) = loop-op expression n v s c t o l in
      ap (λ m. m >>= k) e
      ∙ bind_assoc (parse_value_or_parentheses expression false s') (operated expression n v s c) k
      ∙ reads C s' (λ x. operated expression n v s c x >>= k) (λ w. apply_long c v w >>= r) l'
          (λ w s'' l''.
            bind_assoc (apply_long c v w) (λ q. expression_loop expression n q s'') k
            ∙ bind_cong (apply_long c v w) (λ q. expression_loop expression n q s'' >>= k) r
                (λ q. agree q s'' l''))

  parse-Parses : (e : Expression) → IsExpression e → Parses e
  parse-Parses missing valid fuel n rest C s k r size enough f l agree =
      let all : n ≡ fuel = omega (arith, size) in
      parse-first (done (pos 0)) rest rest fuel C s k r
        (operand-missing pad a (parse_expression fuel) rest f) l
        (subst (λ m. Agree rest (λ (v, s'). expression_loop (parse_expression fuel) m v s' >>= k) r)
          all agree)
  parse-Parses (number digits) valid fuel n rest C s k r size enough f l agree =
      let all : n ≡ fuel = omega (arith, size) in
      parse-first (literal digits) (pad ++ (digits ++ rest)) rest fuel C s k r
        (operand-number pad a (parse_expression fuel) true digits rest valid (Follows-Stops rest f))
        l
        (subst (λ m. Agree rest (λ (v, s'). expression_loop (parse_expression fuel) m v s' >>= k) r)
          all agree)
  parse-Parses (parens e) valid fuel n rest C s k r size enough f l agree =
      let all : n ≡ fuel = omega (arith, size) in
      let inner = text pad e (pad ++ b')' ∷ rest) in
      parse-first (evaluated e) (pad ++ b'(' ∷ inner) rest fuel C s k r
        (operand-parens pad a (parse_expression fuel) true (evaluated e) inner rest
          (parse-closed e fuel rest (parse-Parses e valid) (omega (arith, enough))))
        l
        (subst (λ m. Agree rest (λ (v, s'). expression_loop (parse_expression fuel) m v s' >>= k) r)
          all agree)
  parse-Parses (with_number e op digits) (valid, o, d) fuel n rest C s k r size enough f l agree =
      let right = pad ++ (digits ++ rest) in
      parse-Parses e valid fuel (suc n) (pad ++ op ∷ right) C s k
        (λ v. literal digits >>= λ w. apply_long op v w >>= r) (omega (arith, size))
        (omega (arith, enough)) (at_op op right o refl) l
        (parse-operated op (literal digits) right rest fuel n C k r o
          (operand-number pad a (parse_expression fuel) false digits rest d (Follows-Stops rest f))
          agree)
      ∙ operate_assoc C op (evaluated e) (literal digits) r
  parse-Parses (with_parens e op e') (valid, o, valid') fuel n rest C s k r size enough f l agree =
      let inner = text pad e' (pad ++ b')' ∷ rest) in
      let right = pad ++ b'(' ∷ inner in
      parse-Parses e valid fuel (suc n) (pad ++ op ∷ right) C s k
        (λ v. evaluated e' >>= λ w. apply_long op v w >>= r) (omega (arith, size))
        (omega (arith, enough)) (at_op op right o refl) l
        (parse-operated op (evaluated e') right rest fuel n C k r o
          (operand-parens pad a (parse_expression fuel) false (evaluated e') inner rest (
            parse-closed e' fuel rest (parse-Parses e' valid')
              (omega (arith, enough, operators-lt e))))
          agree)
      ∙ operate_assoc C op (evaluated e) (evaluated e') r

  -- what `main` does behind the expression
  finish_text : ℤ × Lexer → Run ℤ
  finish_text (value, s) = do (more, s') ← lex_ok s; if more then fault else done value

  finish_text-Agree :
      (expression : Lexer → Run (ℤ × Lexer)) (n : ℕ)
      → Agree (pad ++ []) (λ (v, s). expression_loop expression (suc n) v s >>= finish_text) done
  unfolding finish_text lex_ok
  finish_text-Agree expression n v s l =
      let p = fetch-end pad a s l in
      let none_more : lex_ok p.ahead ≡ done (false, p.ahead) =
        rw (p.again) (ap (λ m. done (not (m == 0), p.ahead)) p.is_kind) in
      rw (loop-end expression n v s [] p) (rw none_more)

bind-done : (m : Run ℤ) → (m >>= done) ≡ m
bind-done (done x) = refl
bind-done fault = refl
bind-done out_of_fuel = refl

-- For an expression of numbers, operators and parentheses, written with the same spaces in front of each of its
-- parts and behind the last, the program ends and prints its value, where all operators bind alike
-- and to the left and a missing first operand is 0; it faults exactly where a number or a result does
-- not fit a `long` or a divisor is 0.
pub calculate_text-eval :
    (pad : List ℕ) (e : Expression)
    → AllSpaces pad
    → IsExpression e
    → calculate_text (text pad e (pad ++ [])) ≡ eval e
unfolding calculate_text finish_text
calculate_text-eval pad e a valid =
    let t = text pad e (pad ++ []) in
    let fuel = length t + 1 in
    let n = fuel - operators e - 1 in
    let long = need-length pad e (pad ++ []) in
    let rounds : length t + 2 ≡ suc fuel = omega arith in
    ap (λ m. parse_expression m (lex_init t) >>= finish_text pad a) rounds
    ∙ parse-Parses pad a e valid fuel (suc n) (pad ++ []) ℤ (lex_init t) (finish_text pad a) done
        (omega (arith, operators-lt e, long)) (omega (arith, long)) (at_end refl)
        (At-start (lex_init t) t refl refl) (finish_text-Agree pad a (parse_expression fuel) n)
    ∙ bind-done (evaluated e)
    ∙ evaluated-eval e
