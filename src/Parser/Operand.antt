-- ===== src/Parser/Operand.antt =====
-- The operands: numbers and parentheses. What follows is a function `k` of the value and the lexer.
use mipt_informatics.Base.{
  ℕ, ◌≡◌, refl, ap, ◌∙◌, Bool, Bool-cases, true, false, not, ◌&&◌, inl, inr, List, [], ◌∷◌, ◌++◌,
  arith, ◌==◌, if◌then◌else◌,
}
use mathlib.Core.Path.{subst}
use mipt_informatics.Base.Int.{ℤ, pos}
use mipt_informatics.Base.Run.{Run, done, fault, out_of_fuel, ◌>>=◌}
use mipt_informatics.Parser.{
  Lexer, is_op, in_long, lex_check, lex_ok, lex_consume, parse_parentheses,
  parse_value_or_parentheses, type_value, type_paren,
}
use mipt_informatics.Parser.Grammar.{AllSpaces, IsNumber, decimal, literal}
use mipt_informatics.Parser.Peek.{
  At, Peek, At-start, At-ahead, Stops, fetch-op, fetch-paren, fetch-end, fetch-number,
}

pub bind_assoc :
    {A B C : Type 0} (m : Run A) (f : A → Run B) (g : B → Run C)
    → ((m >>= f) >>= g) ≡ (m >>= λ x. f x >>= g)
bind_assoc (done x) f g = refl
bind_assoc fault f g = refl
bind_assoc out_of_fuel f g = refl

-- two continuations that agree on every lexer in front of the rest
abbrev pub Agree : {C : Type 0} → List ℕ → (ℤ × Lexer → Run C) → (ℤ → Run C) → Type 0
Agree rest k r = (v : ℤ) (s : Lexer) → At s rest → k (v, s) ≡ r v

-- a parser that reads the text of a value in front of a rest
abbrev pub Reads : (Lexer → Run (ℤ × Lexer)) → Run ℤ → List ℕ → List ℕ → Type 1
Reads parse value t rest =
    (C : Type 0) (s : Lexer) (k : ℤ × Lexer → Run C) (r : ℤ → Run C)
    → At s t
    → Agree rest k r
    → (parse s >>= k) ≡ (value >>= r)

pub lex_check-ahead :
    (s : Lexer) (kind kind' : ℕ) (t : List ℕ) (p : Peek s kind t)
    → lex_check kind' s ≡ done (kind == kind', p.ahead)
unfolding lex_check
lex_check-ahead s kind kind' t p = rw (p.run) (ap (λ n. done (n == kind', p.ahead)) p.is_kind)

pub lex_check-again :
    (s : Lexer) (kind kind' : ℕ) (t : List ℕ) (p : Peek s kind t)
    → lex_check kind' p.ahead ≡ done (kind == kind', p.ahead)
unfolding lex_check
lex_check-again s kind kind' t p = rw (p.again) (ap (λ n. done (n == kind', p.ahead)) p.is_kind)

pub lex_ok-ahead :
    (s : Lexer) (kind : ℕ) (t : List ℕ) (p : Peek s kind t)
    → lex_ok s ≡ done (not (kind == 0), p.ahead)
unfolding lex_ok
lex_ok-ahead s kind t p = rw (p.run) (ap (λ n. done (not (n == 0), p.ahead)) p.is_kind)

-- behind the lexem
abbrev pub consumed : Lexer → Lexer
consumed s = record s { kind = 0 }

pub lex_consume-ahead :
    (s : Lexer) (kind : ℕ) (t : List ℕ) (p : Peek s kind t)
    → lex_consume p.ahead ≡ done (consumed p.ahead)
unfolding lex_consume
lex_consume-ahead s kind t p = rw (p.again)

pub At-consumed : (s : Lexer) (kind : ℕ) (t : List ℕ) (p : Peek s kind t) → At (consumed p.ahead) t
At-consumed s kind t p = At-start (consumed p.ahead) t refl p.rest

module _ (pad : List ℕ) (a : AllSpaces pad) (expression : Lexer → Run (ℤ × Lexer))
    (or_0 : Bool) where
  abbrev operand : Lexer → Run (ℤ × Lexer)
  operand = parse_value_or_parentheses expression or_0

  pub operand-number :
      (digits rest : List ℕ)
      → IsNumber digits
      → Stops rest
      → Reads operand (literal digits) (pad ++ (digits ++ rest)) rest
  unfolding parse_value_or_parentheses lex_check lex_consume
  operand-number digits rest n h C s k r l agree =
      let (j, e) = fetch-number pad a s digits rest n h l in
      elim (Bool-cases (in_long (pos (decimal 0 digits)))) [
        | inr f ↦ rw (e, f)
        | inl f ↦
            let s' : Lexer = record j { input = rest; kind = 0; value = pos (decimal 0 digits) } in
            rw (e, f) (agree (pos (decimal 0 digits)) s' (At-start s' rest refl refl))
      ]

  -- behind the expression in parentheses
  closing : ℤ × Lexer → Run (ℤ × Lexer)
  closing (value, s) = do
    (paren, s') ← lex_check type_paren s
    if paren && s'.op == b')' then (lex_consume s' >>= λ s''. done (value, s'')) else fault

  operand-open :
      (t : List ℕ) (s : Lexer) (p : Peek s 3 t)
      → p.ahead.op ≡ b'('
      → operand s ≡ (expression (consumed p.ahead) >>= closing)
  unfolding parse_value_or_parentheses parse_parentheses closing
  operand-open t s p e =
      let here : (p.ahead.op == b'(') ≡ true = rw e in
      rw (lex_check-ahead s 3 type_value t p, lex_check-again s 3 type_paren t p)
        (rw (◌>>=◌, here) (rw (parse_parentheses, lex_consume-ahead s 3 t p)))

  closing-Agree :
      (C : Type 0) (rest : List ℕ) (k : ℤ × Lexer → Run C) (r : ℤ → Run C)
      → Agree rest k r
      → Agree (pad ++ b')' ∷ rest) (λ x. closing x >>= k) r
  unfolding closing
  closing-Agree C rest k r agree v s l =
      let (p, e) = fetch-paren pad a s b')' rest refl l in
      rw (lex_check-ahead s 3 type_paren rest p, e, lex_consume-ahead s 3 rest p)
        (agree v (consumed p.ahead) (At-consumed s 3 rest p))

  pub operand-parens :
      (value : Run ℤ) (t rest : List ℕ)
      → Reads expression value t (pad ++ b')' ∷ rest)
      → Reads operand value (pad ++ b'(' ∷ t) rest
  operand-parens value t rest reads C s k r l agree =
      let (p, e) = fetch-paren pad a s b'(' t refl l in
      ap (λ m. m >>= k) (operand-open t s p e)
      ∙ bind_assoc (expression (consumed p.ahead)) closing k
      ∙ reads C (consumed p.ahead) (λ x. closing x >>= k) r (At-consumed s 3 t p)
          (closing-Agree C rest k r agree)

-- what may follow an expression
pub data Follows (pad rest : List ℕ) : Type 0 where
  at_end : rest ≡ pad ++ [] → Follows pad rest
  at_op : (c : ℕ) (t : List ℕ) → is_op c ≡ true → rest ≡ pad ++ c ∷ t → Follows pad rest
  at_close : (t : List ℕ) → rest ≡ pad ++ b')' ∷ t → Follows pad rest

module _ (pad : List ℕ) (a : AllSpaces pad) (expression : Lexer → Run (ℤ × Lexer)) where
  skipped :
      (s : Lexer) (kind : ℕ) (t : List ℕ) (p : Peek s kind t)
      → (kind == 1) ≡ false
      → ((kind == 3) && p.ahead.op == b'(') ≡ false
      → parse_value_or_parentheses expression true s ≡ done (pos 0, p.ahead)
  unfolding parse_value_or_parentheses
  skipped s kind t p e f =
      rw (lex_check-ahead s kind type_value t p)
        (rw e (rw (lex_check-again s kind type_paren t p) (ground (arith, f))))

  pub operand-missing :
      (rest : List ℕ)
      → Follows pad rest
      → Reads (parse_value_or_parentheses expression true) (done (pos 0)) rest rest
  operand-missing rest (at_end e) C s k r l agree =
      let p = fetch-end pad a s (subst (At s) e l) in
      rw (skipped s 0 [] p refl refl) (agree (pos 0) p.ahead (At-ahead s rest [] 0 l p))
  operand-missing rest (at_op c t o e) C s k r l agree =
      let (p, f) = fetch-op pad a s c t o (subst (At s) e l) in
      rw (skipped s 2 t p refl refl) (agree (pos 0) p.ahead (At-ahead s rest t 2 l p))
  operand-missing rest (at_close t e) C s k r l agree =
      let (p, f) = fetch-paren pad a s b')' t refl (subst (At s) e l) in
      rw (skipped s 3 t p refl (rw f)) (agree (pos 0) p.ahead (At-ahead s rest t 3 l p))
