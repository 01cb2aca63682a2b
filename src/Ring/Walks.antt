-- ===== src/Ring/Walks.antt =====
-- `list_print` and `list_sum`, which walk over a ring.
use mipt_informatics.Base.{ℕ, ◌<◌, ◌≡◌, sym, ap, ◌∙◌, List, [], ◌∷◌, ◌++◌, length, arith}
use mathlib.Core.List.{append_assoc, append-nil}
use mipt_informatics.Base.Int.{ℤ, pos, ◌+ℤ◌, +ℤ_comm, +ℤ_assoc}
use mipt_informatics.Base.Run.{done}
use mipt_informatics.Ring.{Store, list_print, list_sum}
use mipt_informatics.Ring.Chain.{IsRing, values}
use mipt_informatics.Ring.Remove.{fold, list_foreach-fold}

abbrev pub sum : List ℤ → ℤ
sum [] = pos 0
sum (v ∷ vs) = v +ℤ sum vs

fold-append : (vs printed : List ℤ) → fold (λ d p. p ++ d ∷ []) vs printed ≡ printed ++ vs
fold-append [] printed = sym (append-nil printed)
fold-append (v ∷ vs) printed = fold-append vs (printed ++ v ∷ []) ∙ append_assoc printed (v ∷ []) vs

plus_zero : (n : ℤ) → n ≡ n +ℤ pos 0
unfolding ◌+ℤ◌
plus_zero n = ground arith

fold-sum : (vs : List ℤ) (n : ℤ) → fold (λ d s. s +ℤ d) vs n ≡ n +ℤ sum vs
fold-sum [] n = plus_zero n
fold-sum (v ∷ vs) n = fold-sum vs (n +ℤ v) ∙ +ℤ_assoc n v (sum vs)

-- `list_print` prints the values of a ring in order, and `list_sum` is their sum; both end.
pub list_print-list_sum :
    (fuel : ℕ) (h : Store) (list : ℕ) (xs : List ℕ)
    → length xs < fuel
    → IsRing h list xs
    → (list_print fuel h list ≡ done (values h xs))
      × (list_sum fuel h list ≡ done (sum (values h xs)))
unfolding list_print list_sum
list_print-list_sum fuel h list xs long r = (
  list_foreach-fold fuel h list xs (λ d p. p ++ d ∷ []) [] long r
      ∙ ap done (fold-append (values h xs) []),
  list_foreach-fold fuel h list xs (λ d s. s +ℤ d) (pos 0) long r
      ∙ ap done (
          fold-sum (values h xs) (pos 0)
          ∙ +ℤ_comm (pos 0) (sum (values h xs))
          ∙ sym (plus_zero (sum (values h xs)))),
)
