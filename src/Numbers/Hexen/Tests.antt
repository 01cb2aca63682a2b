-- ===== src/Numbers/Hexen/Tests.antt =====
-- A run of the conversion.
use mipt_informatics.Base.{ℕ, ◌≡◌, Bool, true, false, some, List, [], ◌∷◌, map, arith}
use mipt_informatics.Numbers.Hexen.{hexen}
use mipt_informatics.Numbers.Hexen.Value.{
  hex_char, bit_char, AreDigits, AreBits, IsCanonical, bin_value, hex_value, hexen-value,
}

-- `1F`
abbrev digits : List (ℕ × Bool)
digits = (15, true) ∷ []

digits-AreDigits : AreDigits ((1, false) ∷ digits)
digits-AreDigits = (omega arith, (omega arith, tt))

hexen-value_example :
    (bs : List ℕ) × (hexen (map hex_char ((1, false) ∷ digits)) ≡ some (map bit_char bs))
    × IsCanonical bs
    × AreBits bs
    × (bin_value 0 bs ≡ hex_value 0 ((1, false) ∷ digits))
hexen-value_example = hexen-value (1, false) digits digits-AreDigits
