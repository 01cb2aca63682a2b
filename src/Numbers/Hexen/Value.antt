-- ===== src/Numbers/Hexen/Value.antt =====
-- The numbers that hexadecimal and binary digits stand for.
use mipt_informatics.Base.{
  ℕ, ◌+◌, ◌-◌, ◌*◌, ◌/◌, ◌%◌, ◌<◌, ◌≡◌, refl, ap, ◌∙◌, ◌≤◌, Bool, Bool-cases, inl, inr, true, false,
  some, List, [], ◌∷◌, ◌++◌, map, arith, leb, ltb, ◌==◌, if◌then◌else◌, get_elem?,
}
use mipt_informatics.Numbers.Hexen.{
  translation_table, to_lower, translate, translate_all, skip_zeros, hexen,
}

abbrev pub bit_char : ℕ → ℕ
bit_char b = b'0' + b

-- the four binary digits of `n`
abbrev pub four_bits : ℕ → List ℕ
four_bits n = n / 8 % 2 ∷ n / 4 % 2 ∷ n / 2 % 2 ∷ n % 2 ∷ []

table_lem : (n : ℕ) → n < 16 → get_elem? translation_table n ≡ some (map bit_char (four_bits n))
unfolding translation_table
table_lem n h = ground arith

-- a hexadecimal digit, in upper or in lower case
abbrev pub hex_char : ℕ × Bool → ℕ
hex_char (n, upper) =
    if ltb n 10 then b'0' + n else (if upper then b'A' + (n - 10) else b'a' + (n - 10))

to_lower-hex_char :
    (n : ℕ) (upper : Bool)
    → n < 16
    → to_lower (hex_char (n, upper)) ≡ (if ltb n 10 then b'0' + n else b'a' + (n - 10))
to_lower-hex_char n true h = ground arith
to_lower-hex_char n false h = ground arith

translate-digit : (n : ℕ) → n < 10 → translate (b'0' + n) ≡ get_elem? translation_table n
unfolding translate
translate-digit n h =
    let index : b'0' + n - b'0' ≡ n = omega arith in
    let low : leb b'0' (b'0' + n) ≡ true = ground arith in
    let high : leb (b'0' + n) b'9' ≡ true = ground arith in rw (low, high, index)

translate-letter :
    (n : ℕ) → 10 ≤ n → n < 16 → translate (b'a' + (n - 10)) ≡ get_elem? translation_table n
unfolding translate
translate-letter n g h =
    let index : b'a' + (n - 10) - b'a' + 0xA ≡ n = omega arith in
    let digit : leb (b'a' + (n - 10)) b'9' ≡ false = ground arith in
    let low : leb b'a' (b'a' + (n - 10)) ≡ true = ground arith in
    let high : leb (b'a' + (n - 10)) b'f' ≡ true = ground arith in
    let above : leb b'0' (b'a' + (n - 10)) ≡ true = ground arith in
    rw (above, digit, low, high, index)

translate_lem :
    (n : ℕ) (upper : Bool)
    → n < 16
    → translate (to_lower (hex_char (n, upper))) ≡ some (map bit_char (four_bits n))
translate_lem n upper h =
    ap translate (to_lower-hex_char n upper h)
    ∙ (elim (Bool-cases (ltb n 10)) [
      | inl e ↦ rw e (translate-digit n (ground arith))
      | inr e ↦ rw e (translate-letter n (ground arith) h)
    ])
    ∙ table_lem n h

abbrev pub AreDigits : List (ℕ × Bool) → Type 0
AreDigits [] = Unit
AreDigits ((n, upper) ∷ ds) = (n < 16) × AreDigits ds

abbrev pub AreBits : List ℕ → Type 0
AreBits [] = Unit
AreBits (b ∷ bs) = (b < 2) × AreBits bs

-- the numbers that digits stand for, behind digits that stand for `acc`
abbrev pub bin_value : ℕ → List ℕ → ℕ
bin_value acc [] = acc
bin_value acc (b ∷ bs) = bin_value (acc * 2 + b) bs

abbrev pub hex_value : ℕ → List (ℕ × Bool) → ℕ
hex_value acc [] = acc
hex_value acc ((n, upper) ∷ ds) = hex_value (acc * 16 + n) ds

-- the binary number 0, or one without a leading 0
abbrev pub IsCanonical : List ℕ → Type 0
IsCanonical [] = ⊥
IsCanonical (b ∷ []) = Unit
IsCanonical (b ∷ c ∷ bs) = b ≡ 1

abbrev all_bits : List (ℕ × Bool) → List ℕ
all_bits [] = []
all_bits ((n, upper) ∷ ds) = four_bits n ++ all_bits ds

AreBits-all_bits : (ds : List (ℕ × Bool)) → AreBits (all_bits ds)
AreBits-all_bits [] = tt
AreBits-all_bits ((n, upper) ∷ ds) =
    (omega arith, (omega arith, (omega arith, (omega arith, AreBits-all_bits ds))))

translate_all-all_bits :
    (ds : List (ℕ × Bool))
    → AreDigits ds
    → translate_all (map hex_char ds) ≡ some (map bit_char (all_bits ds))
unfolding translate_all
translate_all-all_bits [] h = refl
translate_all-all_bits ((n, upper) ∷ ds) h =
    rw (translate_lem n upper h.0, translate_all-all_bits ds h.1)

bin_value-all_bits :
    (ds : List (ℕ × Bool)) (acc : ℕ) → AreDigits ds → bin_value acc (all_bits ds) ≡ hex_value acc ds
bin_value-all_bits [] acc h = refl
bin_value-all_bits ((n, upper) ∷ ds) acc h =
    ap (λ a. bin_value a (all_bits ds)) (omega (arith, h.0))
    ∙ bin_value-all_bits ds (acc * 16 + n) h.1

-- the number without its leading zeros
abbrev strip : List ℕ → List ℕ
strip [] = []
strip (b ∷ []) = b ∷ []
strip (b ∷ c ∷ bs) = if b == 0 then strip (c ∷ bs) else b ∷ c ∷ bs

skip_zeros-strip : (bs : List ℕ) → skip_zeros (map bit_char bs) ≡ map bit_char (strip bs)
unfolding skip_zeros
skip_zeros-strip [] = refl
skip_zeros-strip (b ∷ []) = refl
skip_zeros-strip (b ∷ c ∷ bs) = ground (arith, skip_zeros-strip (c ∷ bs))

bin_value-strip : (bs : List ℕ) → bin_value 0 (strip bs) ≡ bin_value 0 bs
bin_value-strip [] = refl
bin_value-strip (b ∷ []) = refl
bin_value-strip (b ∷ c ∷ bs) = ground (arith, bin_value-strip (c ∷ bs))

strip-IsCanonical :
    (b : ℕ) (bs : List ℕ)
    → AreBits (b ∷ bs)
    → IsCanonical (strip (b ∷ bs)) × AreBits (strip (b ∷ bs))
strip-IsCanonical b [] h = (tt, h)
strip-IsCanonical b (c ∷ bs) h = elim (Bool-cases (b == 0)) [
  | inl e ↦ rw e (strip-IsCanonical c bs h.1)
  | inr e ↦ rw e (ground (arith, h.0), h)
]

-- Of a word of hexadecimal digits that is not empty, in upper or lower case, the program prints the
-- binary digits of the same number, without leading zeros.
pub hexen-value :
    (d : ℕ × Bool) (ds : List (ℕ × Bool))
    → AreDigits (d ∷ ds)
    → (bs : List ℕ) × (hexen (map hex_char (d ∷ ds)) ≡ some (map bit_char bs))
      × IsCanonical bs
      × AreBits bs
      × (bin_value 0 bs ≡ hex_value 0 (d ∷ ds))
unfolding hexen
hexen-value (n, upper) ds h =
    let all = all_bits ((n, upper) ∷ ds) in
    let (canonical, bits) =
      strip-IsCanonical (n / 8 % 2) (n / 4 % 2 ∷ n / 2 % 2 ∷ n % 2 ∷ all_bits ds)
        (AreBits-all_bits ((n, upper) ∷ ds)) in
    (
      strip all,
      rw (translate_all-all_bits ((n, upper) ∷ ds) h) (ap some (skip_zeros-strip all)),
      canonical,
      bits,
      bin_value-strip all ∙ bin_value-all_bits ((n, upper) ∷ ds) 0 h,
    )
