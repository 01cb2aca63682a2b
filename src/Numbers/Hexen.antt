-- ===== src/Numbers/Hexen.antt =====
-- course1-2/1-number5/hexen.c: a hexadecimal number is printed in binary. A string is the list of its
-- character codes without the closing NUL; `none` is `abort`.
pub mod Value
pub mod Tests
use mipt_informatics.Base.{
  ℕ, ◌+◌, ◌-◌, ◌&&◌, Option, none, some, List, [], ◌∷◌, ◌++◌, leb, ◌==◌, if◌then◌else◌, get_elem?,
}
use mipt_informatics.Base.Fault.{◌>>=◌}

-- a string of the table
abbrev pub quad : ℕ → ℕ → ℕ → ℕ → List ℕ
quad a b c d = a ∷ b ∷ c ∷ d ∷ []

pub translation_table : List (List ℕ)
translation_table =
    quad b'0' b'0' b'0' b'0'
    ∷ quad b'0' b'0' b'0' b'1'
    ∷ quad b'0' b'0' b'1' b'0'
    ∷ quad b'0' b'0' b'1' b'1'
    ∷ quad b'0' b'1' b'0' b'0'
    ∷ quad b'0' b'1' b'0' b'1'
    ∷ quad b'0' b'1' b'1' b'0'
    ∷ quad b'0' b'1' b'1' b'1'
    ∷ quad b'1' b'0' b'0' b'0'
    ∷ quad b'1' b'0' b'0' b'1'
    ∷ quad b'1' b'0' b'1' b'0'
    ∷ quad b'1' b'0' b'1' b'1'
    ∷ quad b'1' b'1' b'0' b'0'
    ∷ quad b'1' b'1' b'0' b'1'
    ∷ quad b'1' b'1' b'1' b'0'
    ∷ quad b'1' b'1' b'1' b'1'
    ∷ []

-- `tolower` of the C locale
abbrev pub to_lower : ℕ → ℕ
to_lower c = if leb b'A' c && leb c b'Z' then c + 32 else c

-- the string that is copied for a character in lower case
pub translate : ℕ → Option (List ℕ)
translate c =
    if leb b'0' c && leb c b'9'
    then get_elem? translation_table (c - b'0')
    else if leb b'a' c && leb c b'f'
    then get_elem? translation_table (c - b'a' + 0xA)
    else none

-- the loop over the characters
pub translate_all : List ℕ → Option (List ℕ)
unfolding translate
translate_all [] = some []
translate_all (c ∷ cs) = do
  bits ← translate (to_lower c)
  rest ← translate_all cs
  some (bits ++ rest)

pub skip_zeros : List ℕ → List ℕ
skip_zeros [] = []
skip_zeros (c ∷ []) = c ∷ []
skip_zeros (c ∷ d ∷ cs) = if c == b'0' then skip_zeros (d ∷ cs) else c ∷ d ∷ cs

-- what `main` prints for a word
pub hexen : List ℕ → Option (List ℕ)
unfolding translate_all skip_zeros
hexen word = do bits ← translate_all word; some (skip_zeros bits)
