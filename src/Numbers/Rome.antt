-- ===== src/Numbers/Rome.antt =====
-- course1-2/1-number5/rome2arabic.c: a Roman numeral is read from its last character to its first. A word
-- is the list of its characters, and `none` is `abort` or the read in front of an empty word. An
-- `unsigned long` has 64 bits.
pub mod Value
pub mod Tests
use mipt_informatics.Base.{
  ℕ, ◌+◌, ◌-◌, ◌^◌, ◌%◌, ◌&&◌, Option, none, some, List, [], ◌∷◌, leb, ltb, ◌==◌, if◌then◌else◌,
}
use mipt_informatics.Base.Fault.{◌>>=◌}

-- `toupper` of the C locale
abbrev pub toupper : ℕ → ℕ
toupper c = if leb b'a' c && leb c b'z' then c - 32 else c

abbrev pub switch_char : ℕ → Option ℕ
switch_char c =
    if c == b'I'
    then some 1
    else if c == b'V'
    then some 5
    else if c == b'X'
    then some 10
    else if c == b'L'
    then some 50
    else if c == b'C'
    then some 100
    else if c == b'D'
    then some 500
    else if c == b'M'
    then some 1000
    else none

pub read_rome_char : ℕ → Option ℕ
read_rome_char c = switch_char (toupper c)

-- a round of the loop: `value` and `last_digit`
abbrev pub add_digit : ℕ → ℕ × ℕ → ℕ × ℕ
add_digit digit (value, last_digit) = (
  (if ltb digit last_digit then (value + (2 ^ 64 - digit)) % 2 ^ 64 else (value + digit) % 2 ^ 64),
  digit,
)

-- the loop, behind the characters that follow
pub rome_loop : List ℕ → Option (ℕ × ℕ)
unfolding read_rome_char
rome_loop [] = some (0, 0)
rome_loop (c ∷ value_in) = do
  s ← rome_loop value_in
  digit ← read_rome_char c
  some (add_digit digit s)

pub rome2arabic : List ℕ → Option ℕ
unfolding rome_loop
rome2arabic [] = none
rome2arabic (c ∷ value_in) = do (value, last_digit) ← rome_loop (c ∷ value_in); some value
