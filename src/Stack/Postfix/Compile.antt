-- ===== src/Stack/Postfix/Compile.antt =====
-- Expressions in postfix notation, and the calculator on them.
use mipt_informatics.Base.Operators.{limited, divided, operate}
use mipt_informatics.Base.{
  zero, suc, Bool-cases, inl, inr, ltb, if◌then◌else◌, ℕ, ◌+◌, ◌^◌, ◌<◌, ◌≡◌, ◌≢◌, refl, ◌∙◌, ap,
  true, false, List, [], ◌∷◌, ◌++◌, arith, ◌==◌, length, length-append,
}
use mathlib.Core.List.{append_assoc}
use mipt_informatics.Base.Int.{ℤ, pos, negsuc, pos_part, neg_part, ◌+ℤ◌, ◌-ℤ◌, ◌*ℤ◌}
use mipt_informatics.Base.Run.{Run, done, fault, out_of_fuel, ◌>>=◌}
use mipt_informatics.Stack.{Stack, stack_create}
use mipt_informatics.Stack.Laws.{
  IsValid, contents, Pushed, stack_push-Pushed, stack_pop-cons, stack_create-IsValid,
}
use mipt_informatics.Stack.Postfix.{
  Token, op, value, checked, quotient, apply_op, reduce, read_tokens, calculate,
}

pub data Expr : Type 0 where
  number : ℕ → Expr
  binary : ℕ → Expr → Expr → Expr

-- the operators, among the characters that the calculator reads as one
abbrev pub AreOps : Expr → Type 0
AreOps (number v) = Unit
AreOps (binary c l r) = ((c == b'=') ≡ false) × AreOps l × AreOps r

-- postfix notation
abbrev pub compile : Expr → List Token
compile (number v) = value v ∷ []
compile (binary c l r) = compile l ++ (compile r ++ op c ∷ [])

-- the value on an `int` of 32 bits, with the faults of C's arithmetic
abbrev pub eval : Expr → Run ℤ
eval (number v) = limited (2 ^ 31) (pos v)
eval (binary c l r) = do x ← eval l; y ← eval r; operate (2 ^ 31) c x y

-- the switch does what the operators do
quotient-divided :
    (x y : ℤ)
    → (if pos_part y + neg_part y == 0 then fault else checked (quotient x y))
      ≡ divided (2 ^ 31) x y
quotient-divided (pos a) (pos zero) = refl
quotient-divided (negsuc a) (pos zero) = refl
quotient-divided (pos a) (pos (suc b)) = ground arith
quotient-divided (pos a) (negsuc b) = ground arith
quotient-divided (negsuc a) (pos (suc b)) = ground arith
quotient-divided (negsuc a) (negsuc b) = ground arith

checked-limited : (z : ℤ) → checked z ≡ limited (2 ^ 31) z
checked-limited (pos n) = refl
checked-limited (negsuc n) = refl

apply_op-operate : (c : ℕ) (x y : ℤ) → apply_op c x y ≡ operate (2 ^ 31) c x y
unfolding apply_op
apply_op-operate c x y =
    rw
      (
        checked-limited (x +ℤ y),
        checked-limited (x -ℤ y),
        checked-limited (x *ℤ y),
        quotient-divided x y,
      )
      (ground arith)

-- Where the expression has a value, its tokens push it; where it has none, they fault.
abbrev Evaluates : Expr → Stack ℤ → List Token → Run ℤ → Type 0
Evaluates e s rest (done v) =
    (s' : Stack ℤ) × (read_tokens 31 (compile e ++ rest) s ≡ read_tokens 31 rest s') × Pushed s v s'
Evaluates e s rest fault = read_tokens 31 (compile e ++ rest) s ≡ fault
Evaluates e s rest out_of_fuel = ⊥

reduce-Pushed :
    (c : ℕ) (s : Stack ℤ) (o1 o2 : ℤ) (below : List ℤ)
    → IsValid s
    → s.n < 2 ^ 30
    → contents s ≡ o1 ∷ o2 ∷ below
    → (v : ℤ) → apply_op c o2 o1 ≡ done v
    → (s' : Stack ℤ) × (reduce 31 c s ≡ done s')
      × IsValid s'
      × (contents s' ≡ v ∷ below)
      × (s'.n + 1 ≡ s.n)
unfolding reduce
reduce-Pushed c s o1 o2 below v h e r run =
    let (s1, run1, v1, e1, n1) = stack_pop-cons s o1 (o2 ∷ below) v e in
    let (s2, run2, v2, e2, n2) = stack_pop-cons s1 o2 below v1 e1 in
    let (s3, run3, pushed) = stack_push-Pushed s2 r v2 (omega arith) in
    (s3, rw (run1, run2, run, run3), pushed.0, rw (pushed.1, e2), omega (arith, pushed.2))

reduce-fault :
    (c : ℕ) (s : Stack ℤ) (o1 o2 : ℤ) (below : List ℤ)
    → IsValid s
    → contents s ≡ o1 ∷ o2 ∷ below
    → apply_op c o2 o1 ≡ fault
    → reduce 31 c s ≡ fault
unfolding reduce
reduce-fault c s o1 o2 below v e run =
    let (s1, run1, v1, e1, n1) = stack_pop-cons s o1 (o2 ∷ below) v e in
    let (s2, run2, v2, e2, n2) = stack_pop-cons s1 o2 below v1 e1 in rw (run1, run2, run)

module _ (c : ℕ) (rest : List Token) (h : (c == b'=') ≡ false) where
  -- an operator behind its two operands
  op-done :
      (s s1 s2 : Stack ℤ) (x y v : ℤ)
      → Pushed s x s1
      → Pushed s1 y s2
      → s2.n < 2 ^ 30
      → operate (2 ^ 31) c x y ≡ done v
      → (s' : Stack ℤ) × (read_tokens 31 (op c ∷ rest) s2 ≡ read_tokens 31 rest s') × Pushed s v s'
  unfolding read_tokens
  op-done s s1 s2 x y v (v1, e1, n1) (v2, e2, n2) room run =
      let (s', red, v', e', n') =
        reduce-Pushed c s2 y x (contents s) v2 room (e2 ∙ ap (λ l. y ∷ l) e1) v
          (apply_op-operate c x y ∙ run) in
      (s', rw (h, red), (v', e', omega arith))

  op-fault :
      (s s1 s2 : Stack ℤ) (x y : ℤ)
      → Pushed s x s1
      → Pushed s1 y s2
      → operate (2 ^ 31) c x y ≡ fault
      → read_tokens 31 (op c ∷ rest) s2 ≡ fault
  unfolding read_tokens
  op-fault s s1 s2 x y (v1, e1, n1) (v2, e2, n2) run = rw (
    h,
    reduce-fault c s2 y x (contents s) v2 (e2 ∙ ap (λ l. y ∷ l) e1) (apply_op-operate c x y ∙ run),
  )

apply_op-ends : (c : ℕ) (x y : ℤ) → apply_op c x y ≢ out_of_fuel
unfolding apply_op
apply_op-ends c x y = ground arith

operate-ends : (c : ℕ) (x y : ℤ) → operate (2 ^ 31) c x y ≢ out_of_fuel
operate-ends c x y e = apply_op-ends c x y (apply_op-operate c x y ∙ e)

module _ (c : ℕ) (l r : Expr) (rest : List Token) (s : Stack ℤ) (h : (c == b'=') ≡ false) where
  -- the tokens of the three parts, one behind the other
  regroup : compile (binary c l r) ++ rest ≡ compile l ++ (compile r ++ (op c ∷ rest))
  regroup = simp append_assoc

  apply-Evaluates :
      (s1 s2 : Stack ℤ) (x y : ℤ)
      → read_tokens 31 (compile (binary c l r) ++ rest) s ≡ read_tokens 31 (op c ∷ rest) s2
      → Pushed s x s1
      → Pushed s1 y s2
      → s2.n < 2 ^ 30
      → (result : Run ℤ) → operate (2 ^ 31) c x y ≡ result
      → Evaluates (binary c l r) s rest result
  apply-Evaluates s1 s2 x y run p1 p2 room (done v) e =
      let (s', run', pushed) = op-done c rest h s s1 s2 x y v p1 p2 room e in
      (s', run ∙ run', pushed)
  apply-Evaluates s1 s2 x y run p1 p2 room fault e = run ∙ op-fault c rest h s s1 s2 x y p1 p2 e
  apply-Evaluates s1 s2 x y run p1 p2 room out_of_fuel e = operate-ends c x y e

  right-Evaluates :
      (s1 : Stack ℤ) (x : ℤ)
      → read_tokens 31 (compile (binary c l r) ++ rest) s
        ≡ read_tokens 31 (compile r ++ (op c ∷ rest)) s1
      → Pushed s x s1
      → s.n + 2 < 2 ^ 30
      → (result : Run ℤ) → Evaluates r s1 (op c ∷ rest) result
      → Evaluates (binary c l r) s rest (result >>= λ y. operate (2 ^ 31) c x y)
  right-Evaluates s1 x run p room (done y) (s2, run2, p2) =
      apply-Evaluates s1 s2 x y (run ∙ run2) p p2 (omega (arith, p.2, p2.2))
        (operate (2 ^ 31) c x y) refl
  right-Evaluates s1 x run p room fault e = run ∙ e
  right-Evaluates s1 x run p room out_of_fuel e = e

  left-Evaluates :
      s.n + 2 < 2 ^ 30
      → (result : Run ℤ) → Evaluates l s (compile r ++ (op c ∷ rest)) result
      → ((s1 : Stack ℤ) (x : ℤ) → Pushed s x s1 → Evaluates r s1 (op c ∷ rest) (eval r))
      → Evaluates (binary c l r) s rest (result >>= λ x. (eval r >>= λ y. operate (2 ^ 31) c x y))
  left-Evaluates room (done x) (s1, run, p) next =
      right-Evaluates s1 x (ap (λ t. read_tokens 31 t s) regroup ∙ run) p room (eval r)
        (next s1 x p)
  left-Evaluates room fault e next = ap (λ t. read_tokens 31 t s) regroup ∙ e
  left-Evaluates room out_of_fuel e next = e

compile-pos : (e : Expr) → 0 < length (compile e)
compile-pos (number v) = omega arith
compile-pos (binary c l r) = omega (
  arith,
  length-append (compile l) (compile r ++ op c ∷ []),
  length-append (compile r) (op c ∷ []),
)

read_tokens-Evaluates :
    (e : Expr) (s : Stack ℤ) (rest : List Token)
    → AreOps e
    → IsValid s
    → s.n + length (compile e) < 2 ^ 30
    → Evaluates e s rest (eval e)
unfolding read_tokens
read_tokens-Evaluates (number v) s rest a valid room = elim (Bool-cases (ltb v (2 ^ 31))) [
  | inl e ↦
      let (s', run, pushed) = stack_push-Pushed s (pos v) valid (omega arith) in
      rw e (s', rw (e, run), pushed)
  | inr e ↦ rw e (rw e refl)
]
read_tokens-Evaluates (binary c l r) s rest a valid room =
    let long = length-append (compile l) (compile r ++ op c ∷ []) in
    let long' = length-append (compile r) (op c ∷ []) in
    let pos_l = compile-pos l in
    let pos_r = compile-pos r in
    left-Evaluates c l r rest s a.0 (omega arith) (eval l)
      (read_tokens-Evaluates l s (compile r ++ (op c ∷ rest)) a.1 valid (omega arith))
      (λ s1 x p. read_tokens-Evaluates r s1 (op c ∷ rest) a.2 p.0 (omega (arith, p.2)))

start :
    (e : Expr) (cells : ℕ → ℤ)
    → length (compile e) < 2 ^ 30
    → (stack_create cells 2).n + length (compile e) < 2 ^ 30
unfolding stack_create
start e cells room = omega arith

-- the end of `main`, behind the loop
finish :
    (cells : ℕ → ℤ) (e : Expr) (rest : List Token) (result : Run ℤ)
    → Evaluates e (stack_create cells 2) (op b'=' ∷ rest) result
    → calculate 31 cells (compile e ++ (op b'=' ∷ rest)) ≡ result
unfolding calculate
finish cells e rest (done v) (s, run, (valid, eq, n)) =
    let (s', pop, v', e', n') = stack_pop-cons s v [] valid eq in
    let one : (s.n == 1) ≡ true = ground arith in rw (run, one, pop)
finish cells e rest fault run = rw run
finish cells e rest out_of_fuel h = absurd h

-- For an expression without the operator `=` and with fewer than 2 ^ 30 tokens, written in postfix
-- notation and followed by `=`, the
-- calculator prints the value of the expression, and it stops with a fault exactly where the
-- evaluation of the expression does: where a number or a result is no `int` of 32 bits, a divisor is 0,
-- or a character is no operator.
pub calculate-eval :
    (cells : ℕ → ℤ) (e : Expr) (rest : List Token)
    → AreOps e
    → length (compile e) < 2 ^ 30
    → calculate 31 cells (compile e ++ (op b'=' ∷ rest)) ≡ eval e
calculate-eval cells e rest a room =
    let (valid, empty) = stack_create-IsValid cells 2 (omega arith) (omega arith) in
    finish cells e rest (eval e)
      (read_tokens-Evaluates e (stack_create cells 2) (op b'=' ∷ rest) a valid (start e cells room))
