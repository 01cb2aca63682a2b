-- ===== src/Numbers/Rome/Tests.antt =====
-- Runs of rome2arabic.c.
use mipt_informatics.Base.{◌≡◌, refl, some, [], ◌∷◌, arith}
use mipt_informatics.Numbers.Rome.{read_rome_char, rome_loop, rome2arabic}
use mipt_informatics.Numbers.Rome.Value.{numeral, rome2arabic-numeral}

-- mcmXciv
rome2arabic_run : rome2arabic (b'm' ∷ b'c' ∷ b'm' ∷ b'X' ∷ b'c' ∷ b'i' ∷ b'v' ∷ []) ≡ some 1994
unfolding rome2arabic rome_loop read_rome_char
rome2arabic_run = refl

rome2arabic-numeral_example : rome2arabic (numeral 1994) ≡ some 1994
rome2arabic-numeral_example = rome2arabic-numeral 1994 (omega arith) (omega arith)
