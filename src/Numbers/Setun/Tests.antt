-- ===== src/Numbers/Setun/Tests.antt =====
-- Runs of the programs on numbers.
use mipt_informatics.Base.{◌≡◌, refl, some, List, [], ◌∷◌, ◌+◌, length, map}
use mipt_informatics.Base.Int.{◌+ℤ◌}
use mipt_informatics.Numbers.Setun.{add_padded, add_setun, max_length}
use mipt_informatics.Numbers.Setun.Value.{Trit, nought, one, minus, code, to_integer}
use mipt_informatics.Numbers.Setun.Add.{add_padded-value}

-- 2 and -3
abbrev two : List Trit
two = one ∷ minus ∷ []

abbrev minus_three : List Trit
minus_three = minus ∷ nought ∷ []

add_padded-value_example :
    (r : List Trit) × (add_padded (map code two) (map code minus_three) ≡ some (map code r))
    × (length r ≡ max_length (length two) (length minus_three) + 1)
    × (to_integer r ≡ to_integer two +ℤ to_integer minus_three)
add_padded-value_example = add_padded-value two minus_three

-- with a NUL behind the block, and with a 1 in front of it
add_setun_run :
    add_setun (0 ∷ []) (map code two) (map code minus_three) ≡ some (map code (minus ∷ []))
unfolding add_setun
add_setun_run = refl

add_setun_behind :
    add_setun (b'1' ∷ 0 ∷ []) (map code two) (map code minus_three)
    ≡ some (map code (minus ∷ one ∷ []))
unfolding add_setun
add_setun_behind = refl
