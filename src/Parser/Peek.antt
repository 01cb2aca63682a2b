-- ===== src/Parser/Peek.antt =====
-- What the lexer of 024.c sees of a text.
use mipt_informatics.Base.{
  ℕ, suc, ◌+◌, ◌-◌, ◌*◌, ◌≡◌, refl, sym, ap, ◌∙◌, true, false, List, [], ◌∷◌, ◌++◌, arith, ◌==◌,
}
use mipt_informatics.Base.Int.{pos}
use mipt_informatics.Base.Run.{Run, done, ◌>>=◌}
use mipt_informatics.Parser.{
  Lexer, is_space, is_digit, is_op, is_paren, check_long, skip_spaces, scan, fetch, lex_fetch,
}
use mipt_informatics.Parser.Grammar.{AllSpaces, AllDigits, IsNumber, decimal, literal}

-- The lexer stands in front of a text, or has fetched the first lexem of it.
abbrev pub At : Lexer → List ℕ → Type 0
At s t = (j : Lexer) × (j.kind ≡ 0) × (lex_fetch s ≡ fetch j (skip_spaces t))

pub record Peek (s : Lexer) (kind : ℕ) (t : List ℕ) : Type 0 where
  pub ahead : Lexer
  pub run : lex_fetch s ≡ done ahead
  pub again : lex_fetch ahead ≡ done ahead
  pub is_kind : ahead.kind ≡ kind
  pub rest : ahead.input ≡ t

lex_fetch-none : (s : Lexer) → s.kind ≡ 0 → lex_fetch s ≡ fetch s (skip_spaces s.input)
unfolding lex_fetch
lex_fetch-none s k = let e : (s.kind == 0) ≡ true = ground (arith, k) in rw e

pub At-start : (s : Lexer) (t : List ℕ) → s.kind ≡ 0 → s.input ≡ t → At s t
At-start s t k e = (s, k, lex_fetch-none s k ∙ ap (λ u. fetch s (skip_spaces u)) e)

pub At-ahead : (s : Lexer) (t u : List ℕ) (kind : ℕ) → At s t → (p : Peek s kind u) → At p.ahead t
At-ahead s t u kind (j, k, e) p = (j, k, p.again ∙ sym p.run ∙ e)

skip-pad : (pad t : List ℕ) → AllSpaces pad → skip_spaces (pad ++ t) ≡ skip_spaces t
skip-pad [] t a = refl
skip-pad (c ∷ pad) t a = rw a.0 (skip-pad pad t a.1)

skip-solid : (c : ℕ) (t : List ℕ) → is_space c ≡ false → skip_spaces (c ∷ t) ≡ c ∷ t
skip-solid c t e = rw e

lex_fetch-again : (s : Lexer) (k : ℕ) → s.kind ≡ suc k → lex_fetch s ≡ done s
unfolding lex_fetch
lex_fetch-again s k e = ground (arith, e)

-- the digits in front of something else
abbrev pub Stops : List ℕ → Type 0
Stops [] = Unit
Stops (c ∷ t) = is_digit c ≡ false

scan-decimal :
    (digits t : List ℕ) (n : ℕ)
    → AllDigits digits
    → Stops t
    → scan n (digits ++ t) ≡ (decimal n digits, t)
scan-decimal [] [] n a h = refl
scan-decimal [] (c ∷ t) n a h = rw h
scan-decimal (c ∷ digits) t n a h = rw a.0 (scan-decimal digits t (10 * n + (c - b'0')) a.1 h)

-- the lexem of a number
value_lexem : Lexer → ℕ × List ℕ → Run Lexer
value_lexem j (n, t) =
    check_long (pos n) >>= λ v. done (record j { input = t; kind = 1; value = v })

fetch-digit :
    (j : Lexer) (c : ℕ) (t : List ℕ)
    → is_digit c ≡ true
    → fetch j (c ∷ t) ≡ value_lexem j (scan 0 (c ∷ t))
unfolding value_lexem
fetch-digit j c t e = rw e

module _ (pad : List ℕ) (a : AllSpaces pad) (s : Lexer) where
  pub fetch-op :
      (c : ℕ) (t : List ℕ)
      → is_op c ≡ true
      → At s (pad ++ c ∷ t)
      → (p : Peek s 2 t) × (p.ahead.op ≡ c)
  fetch-op c t o (j, k, e) =
      let solid : is_space c ≡ false = ground (arith, o) in
      let no_digit : is_digit c ≡ false = ground (arith, o) in
      let s' : Lexer = record j { input = t; kind = 2; op = c } in
      (
        record {
          ahead = s';
          run = e ∙ ap (fetch j) (skip-pad pad (c ∷ t) a ∙ skip-solid c t solid) ∙ rw (no_digit, o);
          again = lex_fetch-again s' 1 refl;
          is_kind = refl;
          rest = refl;
        },
        refl,
      )

  pub fetch-paren :
      (c : ℕ) (t : List ℕ)
      → is_paren c ≡ true
      → At s (pad ++ c ∷ t)
      → (p : Peek s 3 t) × (p.ahead.op ≡ c)
  fetch-paren c t o (j, k, e) =
      let solid : is_space c ≡ false = ground (arith, o) in
      let no_digit : is_digit c ≡ false = ground (arith, o) in
      let no_op : is_op c ≡ false = ground (arith, o) in
      let s' : Lexer = record j { input = t; kind = 3; op = c } in
      (
        record {
          ahead = s';
          run =
              e
              ∙ ap (fetch j) (skip-pad pad (c ∷ t) a ∙ skip-solid c t solid)
              ∙ rw (no_digit, no_op, o);
          again = lex_fetch-again s' 2 refl;
          is_kind = refl;
          rest = refl;
        },
        refl,
      )

  pub fetch-end : At s (pad ++ []) → Peek s 0 []
  unfolding lex_fetch
  fetch-end (j, k, e) = record {
    ahead = record j { input = [] };
    run = e ∙ ap (fetch j) (skip-pad pad [] a);
    again = rw k;
    is_kind = k;
    rest = refl;
  }

  pub fetch-number :
      (digits t : List ℕ)
      → IsNumber digits
      → Stops t
      → At s (pad ++ (digits ++ t))
      → (j : Lexer) × (lex_fetch s
          ≡ (literal digits >>= λ v. done (record j { input = t; kind = 1; value = v })))
  unfolding value_lexem
  fetch-number [] t n h l = absurd n
  fetch-number (c ∷ digits) t n h (j, k, e) =
      let solid : is_space c ≡ false = ground (arith, n.0) in
      (
        j,
        e
            ∙ ap (fetch j) (skip-pad pad (c ∷ (digits ++ t)) a ∙ skip-solid c (digits ++ t) solid)
            ∙ fetch-digit j c (digits ++ t) n.0
            ∙ ap (value_lexem j) (scan-decimal (c ∷ digits) t 0 n h),
      )
