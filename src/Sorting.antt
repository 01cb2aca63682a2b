-- ===== src/Sorting.antt =====
-- course1-1/12-seminar-datacenter/data_slist_sort.c: a list is sorted by moving its maximal elements to the
-- front of a new one. A list of nodes is the list of their values, a pointer to a link of it the
-- index of the node behind the link.
pub mod Order
pub mod Tests
use mipt_informatics.Base.{
  ℕ, zero, suc, ◌+◌, Option, none, some, List, [], ◌∷◌, ◌==◌, if◌then◌else◌, length,
}
use mipt_informatics.Base.Int.{ℤ, ltb_ℤ, eqb_ℤ}
use mipt_informatics.Base.Run.{Run, done, out_of_fuel, ◌>>=◌}

-- the inner loop from the index `cur` on: the index of the first maximal element and its value
pub max_loop : List ℤ → (cur max : ℕ) → (val : ℤ) → ℕ × ℤ
max_loop [] cur max val = (max, val)
max_loop (x ∷ list) cur max val =
    max_loop list (cur + 1) (if ltb_ℤ val x then cur else max) (if ltb_ℤ val x then x else val)

-- `*max = tmp->next`
abbrev pub remove_at : ℕ → List ℤ → List ℤ
remove_at i [] = []
remove_at zero (x ∷ list) = list
remove_at (suc i) (x ∷ list) = x ∷ remove_at i list

-- the element that was found in front of the sorted list, unless it is there
abbrev pub insert_front : ℤ → List ℤ → List ℤ
insert_front x [] = x ∷ []
insert_front x (y ∷ sorted_list) = if eqb_ℤ x y then y ∷ sorted_list else x ∷ y ∷ sorted_list

-- `while (*list != NULL)`
pub sort_loop : (fuel : ℕ) → (list sorted_list : List ℤ) → Run (List ℤ)
unfolding max_loop
sort_loop fuel [] sorted_list = done sorted_list
sort_loop zero (x ∷ list) sorted_list = out_of_fuel
sort_loop (suc fuel) (x ∷ list) sorted_list =
    let (max, val) = max_loop list 1 0 x in
    sort_loop fuel (remove_at max (x ∷ list)) (insert_front val sorted_list)

-- a list of less than two nodes stays
pub list_sort : List ℤ → Run (List ℤ)
unfolding sort_loop
list_sort [] = done []
list_sort (x ∷ []) = done (x ∷ [])
list_sort (x ∷ y ∷ list) = sort_loop (length list + 2) (x ∷ y ∷ list) []
