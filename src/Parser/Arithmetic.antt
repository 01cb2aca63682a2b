-- ===== src/Parser/Arithmetic.antt =====
-- The switch of 024.c does what the operators of C do on a `long`.
use mipt_informatics.Base.{ℕ, zero, suc, ◌+◌, ◌^◌, ◌≡◌, refl, ◌∙◌, ap, arith, ◌==◌, if◌then◌else◌}
use mipt_informatics.Base.Int.{ℤ, pos, negsuc, pos_part, neg_part, ◌+ℤ◌, ◌-ℤ◌, ◌*ℤ◌}
use mipt_informatics.Base.Run.{Run, done, fault, out_of_fuel, ◌>>=◌}
use mipt_informatics.Base.Operators.{limited, divided, operate}
use mipt_informatics.Stack.Postfix.{quotient}
use mipt_informatics.Parser.{check_long, apply_long}
use mipt_informatics.Parser.Grammar.{
  Expression, missing, number, parens, with_number, with_parens, literal, eval,
}

quotient-divided :
    (x y : ℤ)
    → (if pos_part y + neg_part y == 0 then fault else check_long (quotient x y))
      ≡ divided (2 ^ 63) x y
quotient-divided (pos a) (pos zero) = refl
quotient-divided (negsuc a) (pos zero) = refl
quotient-divided (pos a) (pos (suc b)) = ground arith
quotient-divided (pos a) (negsuc b) = ground arith
quotient-divided (negsuc a) (pos (suc b)) = ground arith
quotient-divided (negsuc a) (negsuc b) = ground arith

check_long-limited : (z : ℤ) → check_long z ≡ limited (2 ^ 63) z
check_long-limited (pos n) = refl
check_long-limited (negsuc n) = refl

apply_long-operate : (c : ℕ) (x y : ℤ) → apply_long c x y ≡ operate (2 ^ 63) c x y
unfolding apply_long
apply_long-operate c x y =
    rw
      (
        check_long-limited (x +ℤ y),
        check_long-limited (x -ℤ y),
        check_long-limited (x *ℤ y),
        quotient-divided x y,
      )
      (ground arith)

pub bind_cong :
    {A B : Type 0} (m : Run A) (f g : A → Run B) → ((x : A) → f x ≡ g x) → (m >>= f) ≡ (m >>= g)
bind_cong (done x) f g h = h x
bind_cong fault f g h = refl
bind_cong out_of_fuel f g h = refl

-- the value by the switch
abbrev pub evaluated : Expression → Run ℤ
evaluated missing = done (pos 0)
evaluated (number digits) = literal digits
evaluated (parens e) = evaluated e
evaluated (with_number e op digits) = evaluated e >>= λ v. literal digits >>= λ w. apply_long op v w
evaluated (with_parens e op e') = evaluated e >>= λ v. evaluated e' >>= λ w. apply_long op v w

pub evaluated-eval : (e : Expression) → evaluated e ≡ eval e
evaluated-eval missing = refl
evaluated-eval (number digits) = refl
evaluated-eval (parens e) = evaluated-eval e
evaluated-eval (with_number e op digits) =
    bind_cong (evaluated e) (λ v. literal digits >>= λ w. apply_long op v w)
      (λ v. literal digits >>= λ w. operate (2 ^ 63) op v w)
      (λ v. bind_cong (literal digits) _ _ (λ w. apply_long-operate op v w))
    ∙ ap (λ m. m >>= λ v. literal digits >>= λ w. operate (2 ^ 63) op v w) (evaluated-eval e)
evaluated-eval (with_parens e op e') =
    bind_cong (evaluated e) (λ v. evaluated e' >>= λ w. apply_long op v w)
      (λ v. eval e' >>= λ w. operate (2 ^ 63) op v w)
      (λ v.
        bind_cong (evaluated e') _ _ (λ w. apply_long-operate op v w)
        ∙ ap (λ m. m >>= λ w. operate (2 ^ 63) op v w) (evaluated-eval e'))
    ∙ ap (λ m. m >>= λ v. eval e' >>= λ w. operate (2 ^ 63) op v w) (evaluated-eval e)
