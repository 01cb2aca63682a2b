-- ===== src/Numbers/Setun.antt =====
-- course1-2/1-number5/setun.c: the sum of two numbers in balanced ternary notation, whose digits
-- `1`, `0` and `$` stand for 1, 0 and -1. A string is the list of its character codes, the most
-- significant digit first. The words of the input are without their closing NUL; `pad_front` writes
-- none, so that what stands in memory behind its block is a parameter of what is printed.
pub mod Value
pub mod Add
pub mod Tests
use mipt_informatics.Base.{
  ℕ, zero, suc, ◌+◌, ◌-◌, ◌*◌, ◌<◌, ◌≤◌, ◌≡◌, refl, ◌∙◌, ap, Bool, true, false, not, ◌&&◌, ◌||◌,
  Option, none, some, List, [], ◌∷◌, ◌++◌, arith, ltb, leb, ◌==◌, if◌then◌else◌, length, replicate,
}
use mipt_informatics.Base.Fault.{◌>>=◌}
use mipt_informatics.Base.Int.{
  ℤ, pos, negsuc, pos_part, neg_part, ◌+ℤ◌, ◌-ℤ◌, ◌*ℤ◌, ◌≤ℤ◌, ltb_ℤ, int_laws,
}

-- `none` is `abort`
pub read_setun_char : ℕ → Option ℤ
read_setun_char c =
    if c == b'0'
    then some (pos 0)
    else if c == b'1'
    then some (pos 1)
    else if c == b'$'
    then some (negsuc 0)
    else none

pub write_setun_char : ℤ → Option ℕ
write_setun_char (pos zero) = some b'0'
write_setun_char (pos (suc zero)) = some b'1'
write_setun_char (negsuc zero) = some b'$'
write_setun_char _ = none

-- `while (sum > 1)` and `while (sum < -1)`: the sum and the carry
pub lower : ℕ → ℤ → ℤ → ℤ × ℤ
lower zero sum carry = (sum, carry)
lower (suc fuel) sum carry =
    let rest = lower fuel (sum -ℤ pos 3) (carry +ℤ pos 1) in
    if ltb_ℤ (pos 1) sum then rest else (sum, carry)

pub raise : ℕ → ℤ → ℤ → ℤ × ℤ
raise zero sum carry = (sum, carry)
raise (suc fuel) sum carry =
    let rest = raise fuel (sum +ℤ pos 3) (carry -ℤ pos 1) in
    if ltb_ℤ sum (negsuc 0) then rest else (sum, carry)

-- One digit of the sum and the carry. A sum of two digits and a carry lies between -3 and 3, so
-- that each loop makes one round at most.
pub add_digits : ℤ → ℕ → ℕ → Option (ℕ × ℤ)
unfolding read_setun_char write_setun_char lower raise ◌+ℤ◌ ◌-ℤ◌
add_digits carry x y = do
  a ← read_setun_char x
  b ← read_setun_char y
  let (sum, up) = lower 2 (carry +ℤ a +ℤ b) (pos 0)
  let (sum', carry') = raise 2 sum up
  digit ← write_setun_char sum'
  some (digit, carry')

-- the loop, from the last digits to the first: the new digits, and the carry that is left
pub sum_loop : List ℕ → List ℕ → Option (List ℕ × ℤ)
unfolding add_digits
sum_loop (x ∷ xs) (y ∷ ys) = do
  (digits, carry) ← sum_loop xs ys
  (digit, carry') ← add_digits carry x y
  some (digit ∷ digits, carry')
sum_loop xs ys = some ([], pos 0)

-- `sum_setun`, which drops the last carry
pub sum_setun : List ℕ → List ℕ → Option (List ℕ)
unfolding sum_loop
sum_setun a b = do (digits, carry) ← sum_loop a b; some digits

-- the `new_length` characters of the block, none of them a NUL
pub pad_front : List ℕ → ℕ → ℕ → ℕ → List ℕ
pad_front string padding old_length new_length =
    replicate (new_length - old_length) padding ++ string

abbrev max_length : ℕ → ℕ → ℕ
max_length a b = if ltb b a then a else b

-- `main` on two words, up to `sum_setun`: the block `a`
pub add_padded : List ℕ → List ℕ → Option (List ℕ)
unfolding pad_front sum_setun
add_padded a b =
    let len = max_length (length a) (length b) + 1 in
    sum_setun (pad_front a b'0' (length a) len) (pad_front b b'0' (length b) len)

-- the memory from `ret` on; `none` is a read behind the memory that is given
pub skip_padding : List ℕ → Option (List ℕ)
skip_padding [] = none
skip_padding (c ∷ []) = if c == b'0' then none else some (c ∷ [])
skip_padding (c ∷ d ∷ cs) =
    let rest = skip_padding (d ∷ cs) in
    if c == b'0' && not (d == 0) then rest else some (c ∷ d ∷ cs)

-- what `printf ("%s\n")` prints of the memory from a pointer on, up to the first NUL
pub print_string : List ℕ → Option (List ℕ)
print_string [] = none
print_string (c ∷ cs) =
    let rest = (do s ← print_string cs; some (c ∷ s)) in if c == 0 then some [] else rest

-- what `main` prints, where `behind` stands in memory behind the block `a`
pub add_setun : (behind : List ℕ) → List ℕ → List ℕ → Option (List ℕ)
unfolding add_padded skip_padding print_string
add_setun behind a b = do
  total ← add_padded a b
  ret ← skip_padding (total ++ behind)
  print_string ret
