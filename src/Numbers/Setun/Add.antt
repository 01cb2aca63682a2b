-- ===== src/Numbers/Setun/Add.antt =====
-- `main` of setun.c up to the print: padding and the sum.
use mipt_informatics.Base.{
  ℕ, zero, suc, ◌+◌, ◌-◌, ◌≤◌, ◌≡◌, refl, sym, ◌∙◌, ap, some, List, ◌∷◌, ◌++◌, arith, map, length,
  replicate, length-append, length-map, length-replicate,
}
use mipt_informatics.Base.Int.{pos, sub_ℕ, ◌+ℤ◌}
use mipt_informatics.Numbers.Setun.{
  add_digits, sum_loop, sum_setun, pad_front, add_padded, max_length,
}
use mipt_informatics.Numbers.Setun.Value.{
  Trit, nought, code, up_value, down_value, to_integer, sum_loop-AddsUp, carry_of,
}

-- the number `ts` with `n + 1` digits
abbrev padded : ℕ → List Trit → List Trit
padded n ts = replicate (n - length ts) nought ++ ts

abbrev SameValue : List Trit → List Trit → Type 0
SameValue xs ys = (up_value xs ≡ up_value ys) × (down_value xs ≡ down_value ys)

padded_value : (k : ℕ) (ts : List Trit) → SameValue (replicate k nought ++ ts) ts
padded_value zero ts = (refl, refl)
padded_value (suc k) ts = let v = padded_value k ts in (omega (arith, v.0), omega (arith, v.1))

map-replicate :
    (k : ℕ) (ts : List Trit) → map code (replicate k nought ++ ts) ≡ replicate k b'0' ++ map code ts
map-replicate zero ts = refl
map-replicate (suc k) ts = ap (λ l. b'0' ∷ l) (map-replicate k ts)

length-padded : (n : ℕ) (ts : List Trit) → length ts ≤ n → length (padded n ts) ≡ n
length-padded n ts h = omega (
  arith,
  length-append (replicate (n - length ts) nought) ts,
  length-replicate (n - length ts) nought,
)

pad_front-padded :
    (n : ℕ) (ts : List Trit)
    → length ts ≤ n
    → pad_front (map code ts) b'0' (length (map code ts)) (n + 1) ≡ map code (nought ∷ padded n ts)
unfolding pad_front
pad_front-padded n ts h =
    let count : n + 1 - length (map code ts) ≡ suc (n - length ts) =
      omega (arith, length-map ts code) in
    rw count (ap (λ l. b'0' ∷ l) (sym (map-replicate (n - length ts) ts)))

top_digit : (c : Trit) → add_digits (carry_of c) b'0' b'0' ≡ some (code c, pos 0)
unfolding add_digits
top_digit nought = refl
top_digit _ = refl

-- With a leading 0 in front of both numbers no carry is lost.
sum_setun-value :
    (xs ys : List Trit)
    → length xs ≡ length ys
    → (ds : List Trit) × (sum_setun (map code (nought ∷ xs)) (map code (nought ∷ ys))
        ≡ some (map code ds))
      × (length ds ≡ suc (length xs))
      × (up_value ds + (down_value xs + down_value ys)
          ≡ down_value ds + (up_value xs + up_value ys))
unfolding sum_setun sum_loop
sum_setun-value xs ys h =
    let (ds, c, (run, len, eq)) = sum_loop-AddsUp xs ys h in
    (c ∷ ds, rw (run, top_digit c), ap suc len, rw len (omega (arith, eq)))

to_integer-sum :
    (u d ux dx uy dy : ℕ) → u + (dx + dy) ≡ d + (ux + uy) → sub_ℕ u d ≡ sub_ℕ ux dx +ℤ sub_ℕ uy dy
unfolding ◌+ℤ◌
to_integer-sum u d ux dx uy dy h = ground arith

-- Of two words of digits `main` leaves a number in the block `a` before it prints: as many digits as the longer
-- word has and one more, which stand for the sum of the two numbers.
pub add_padded-value :
    (a b : List Trit)
    → (r : List Trit) × (add_padded (map code a) (map code b) ≡ some (map code r))
      × (length r ≡ max_length (length a) (length b) + 1)
      × (to_integer r ≡ to_integer a +ℤ to_integer b)
unfolding add_padded
add_padded-value a b =
    let n = max_length (length (map code a)) (length (map code b)) in
    let la : length (map code a) ≡ length a = length-map a code in
    let lb : length (map code b) ≡ length b = length-map b code in
    let fits_a : length a ≤ n = ground arith in
    let fits_b : length b ≤ n = ground arith in
    let padded_a = length-padded n a fits_a in
    let same : length (padded n a) ≡ length (padded n b) =
      padded_a ∙ sym (length-padded n b fits_b) in
    let (ds, run, len, eq) = sum_setun-value (padded n a) (padded n b) same in
    let size : n ≡ max_length (length a) (length b) = ground arith in
    let va = padded_value (n - length a) a in
    let vb = padded_value (n - length b) b in
    (
      ds,
      rw (pad_front-padded n a fits_a, pad_front-padded n b fits_b) run,
      omega (arith, len, padded_a, size),
      to_integer-sum (up_value ds) (down_value ds) (up_value a) (down_value a) (up_value b)
          (down_value b) (omega (arith, eq, va.0, va.1, vb.0, vb.1)),
    )
