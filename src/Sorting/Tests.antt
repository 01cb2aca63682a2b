-- ===== src/Sorting/Tests.antt =====
-- Runs of data_slist_sort.c.
use mipt_informatics.Base.{◌≡◌, refl, List, [], ◌∷◌}
use mipt_informatics.Base.Int.{ℤ, pos, negsuc}
use mipt_informatics.Base.Run.{done}
use mipt_informatics.Sorting.{list_sort, sort_loop, max_loop}
use mipt_informatics.Sorting.Order.{Sorts, list_sort-Sorts}

abbrev numbers : List ℤ
numbers = pos 3 ∷ negsuc 1 ∷ pos 7 ∷ pos 3 ∷ pos 0 ∷ pos 7 ∷ []

list_sort_run : list_sort numbers ≡ done (negsuc 1 ∷ pos 0 ∷ pos 3 ∷ pos 7 ∷ [])
unfolding list_sort sort_loop max_loop
list_sort_run = refl

list_sort-Sorts_example : Sorts numbers [] (list_sort numbers)
list_sort-Sorts_example = list_sort-Sorts numbers
