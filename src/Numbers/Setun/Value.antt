-- ===== src/Numbers/Setun/Value.antt =====
-- The value of a number in balanced ternary notation, and the loop of setun.c over the digits.
use mipt_informatics.Base.{
  ℕ, suc, ◌+◌, ◌*◌, ◌^◌, ◌≡◌, refl, ap, some, List, [], ◌∷◌, arith, map, length,
}
use native.Mathlib.Nat.{pow-suc}
use mipt_informatics.Base.Int.{ℤ, pos, negsuc, sub_ℕ}
use mipt_informatics.Numbers.Setun.{add_digits, sum_loop}

pub data Trit : Type 0 where
  nought one minus : Trit

abbrev pub code : Trit → ℕ
code nought = b'0'
code one = b'1'
code minus = b'$'

abbrev pub carry_of : Trit → ℤ
carry_of nought = pos 0
carry_of one = pos 1
carry_of minus = negsuc 0

abbrev pub ups : Trit → ℕ
ups one = 1
ups _ = 0

abbrev pub downs : Trit → ℕ
downs minus = 1
downs _ = 0

-- what the digits 1 of a number stand for together, and what its digits -1 do
abbrev pub up_value : List Trit → ℕ
up_value [] = 0
up_value (t ∷ ts) = ups t * 3 ^ length ts + up_value ts

abbrev pub down_value : List Trit → ℕ
down_value [] = 0
down_value (t ∷ ts) = downs t * 3 ^ length ts + down_value ts

-- the number for which the digits stand
abbrev pub to_integer : List Trit → ℤ
to_integer ts = sub_ℕ (up_value ts) (down_value ts)

-- a digit and a carry whose value is the sum of three digits
abbrev pub half_sum : Trit → Trit → Trit × Trit
half_sum nought t = (t, nought)
half_sum one nought = (one, nought)
half_sum one one = (minus, one)
half_sum one minus = (nought, nought)
half_sum minus nought = (minus, nought)
half_sum minus one = (nought, nought)
half_sum minus minus = (one, minus)

abbrev pub digit : Trit → Trit → Trit → Trit
digit c x y = (half_sum (half_sum c x).0 y).0

abbrev pub carry : Trit → Trit → Trit → Trit
carry c x y = (half_sum (half_sum c x).1 (half_sum (half_sum c x).0 y).1).0

add_digits_lem :
    (c x y : Trit)
    → add_digits (carry_of c) (code x) (code y) ≡ some (code (digit c x y), carry_of (carry c x y))
unfolding add_digits
add_digits_lem nought nought nought = refl
add_digits_lem nought one nought = refl
add_digits_lem nought minus nought = refl
add_digits_lem one nought nought = refl
add_digits_lem one one nought = refl
add_digits_lem one minus nought = refl
add_digits_lem minus nought nought = refl
add_digits_lem minus one nought = refl
add_digits_lem minus minus nought = refl
add_digits_lem _ _ _ = refl

digit_value :
    (c x y : Trit)
    → ups (digit c x y) + 3 * ups (carry c x y) + (downs c + downs x + downs y)
      ≡ downs (digit c x y) + 3 * downs (carry c x y) + (ups c + ups x + ups y)
digit_value nought nought nought = refl
digit_value nought one nought = refl
digit_value nought minus nought = refl
digit_value one nought nought = refl
digit_value one one nought = refl
digit_value one minus nought = refl
digit_value minus nought nought = refl
digit_value minus one nought = refl
digit_value minus minus nought = refl
digit_value _ _ _ = refl

-- The digits of the loop and its last carry stand for the sum.
abbrev pub AddsUp : List Trit → List Trit → List Trit → Trit → Type 0
AddsUp xs ys ds c =
    (sum_loop (map code xs) (map code ys) ≡ some (map code ds, carry_of c))
    × (length ds ≡ length xs)
    × (up_value ds + ups c * 3 ^ length xs + (down_value xs + down_value ys)
        ≡ down_value ds + downs c * 3 ^ length xs + (up_value xs + up_value ys))

pub sum_loop-AddsUp :
    (xs ys : List Trit) → length xs ≡ length ys → (ds : List Trit) × (c : Trit) × AddsUp xs ys ds c
unfolding sum_loop
sum_loop-AddsUp [] [] h = ([], nought, (refl, refl, refl))
sum_loop-AddsUp [] (y ∷ ys) h = absurd (omega arith)
sum_loop-AddsUp (x ∷ xs) [] h = absurd (omega arith)
sum_loop-AddsUp (x ∷ xs) (y ∷ ys) h =
    let (ds, c, (run, len, eq)) = sum_loop-AddsUp xs ys (omega arith) in
    (digit c x y ∷ ds, carry c x y, (rw (run, add_digits_lem c x y), ap suc len, step ds c len eq))
  where
    step :
        (ds : List Trit) (c : Trit)
        → length ds ≡ length xs
        → up_value ds + ups c * 3 ^ length xs + (down_value xs + down_value ys)
          ≡ down_value ds + downs c * 3 ^ length xs + (up_value xs + up_value ys)
        → up_value (digit c x y ∷ ds)
            + ups (carry c x y) * 3 ^ length (x ∷ xs)
            + (down_value (x ∷ xs) + down_value (y ∷ ys))
          ≡ down_value (digit c x y ∷ ds)
            + downs (carry c x y) * 3 ^ length (x ∷ xs)
            + (up_value (x ∷ xs) + up_value (y ∷ ys))
    step ds c len eq =
        let same : length ys ≡ length xs = omega arith in
        rw (len, same, pow-suc)
          (omega (arith, eq, ap (λ (t : ℕ). t * 3 ^ length xs) (digit_value c x y)))
