-- ===== src/SearchTree/Dictionary/Tests.antt =====
-- A run of the dictionary.
use mipt_informatics.Base.{ℕ, ◌≡◌, refl, some, List, [], ◌∷◌}
use mipt_informatics.Base.Int.{ℤ, pos, negsuc}
use mipt_informatics.Base.Order.{int_order}
use mipt_informatics.SearchTree.Sort.{before_stop}
use mipt_informatics.SearchTree.Dictionary.{count_numbers}
use mipt_informatics.SearchTree.Dictionary.Counts.{Tallies, count_numbers-Tallies}

abbrev numbers : List ℤ
numbers = negsuc 2 ∷ pos 5 ∷ pos 0 ∷ pos 5 ∷ []

count_numbers-Tallies_example :
    (out : List (ℤ × ℕ)) × (count_numbers (pos 0) (pos 5 ∷ numbers) ≡ some out)
    × Tallies (before_stop (pos 0) (pos 5 ∷ numbers)) out
count_numbers-Tallies_example = count_numbers-Tallies (pos 0) (pos 5) numbers refl

count_numbers_run : count_numbers (pos 0) (pos 5 ∷ numbers) ≡ some ((negsuc 2, 1) ∷ (pos 5, 2) ∷ [])
unfolding count_numbers
count_numbers_run = refl
