-- ===== src/SearchTree/Tests.antt =====
-- Runs of the programs on search trees.
use mipt_informatics.Base.{
  ℕ, ◌^◌, ◌<◌, ◌≤◌, ◌≡◌, refl, none, some, List, [], ◌∷◌, length, if◌then◌else◌, ◌↔◌,
}
use mipt_informatics.Base.Int.{ℤ, pos, ltb_ℤ}
use mipt_informatics.Base.Order.{int_order}
use mathlib.Core.List.Perm
use mipt_informatics.SearchTree.{Tree, null, node, sort_numbers}
use mipt_informatics.SearchTree.Shape.{inorder}
use mipt_informatics.SearchTree.Add.{IsSearchTree}
use mipt_informatics.SearchTree.Sort.{before_stop, Sorts, sort_numbers-Sorts, sort_numbers-eq-none}
use mipt_informatics.SearchTree.Levels.{level}
use mipt_informatics.SearchTree.Breadth.{
  tree_breadth_first_search, depth, concat_range, tree_breadth_first_search-levels,
}
use mipt_informatics.SearchTree.Flat.{create_flat, create_flat-Built}

abbrev leaf : ℕ → Tree ℤ
leaf n = node null (pos n) null

-- 2 above 1 and 3
abbrev small_tree : Tree ℤ
small_tree = node (leaf 1) (pos 2) (leaf 3)

abbrev chain : Tree ℤ
chain = node null (pos 1) (node null (pos 2) (leaf 3))

-- 2, 1, 2 and the 0 that stops
abbrev numbers : List ℤ
numbers = pos 1 ∷ pos 2 ∷ pos 0 ∷ pos 7 ∷ []

sort_numbers-Sorts_example :
    (out : List ℤ × List ℤ) × (sort_numbers (pos 0) (pos 2 ∷ numbers) ≡ some out)
    × Sorts (before_stop (pos 0) (pos 2 ∷ numbers)) out
sort_numbers-Sorts_example = sort_numbers-Sorts (pos 0) (pos 2) numbers refl

sort_numbers_run :
    sort_numbers (pos 0) (pos 2 ∷ numbers) ≡ some (pos 1 ∷ pos 2 ∷ [], pos 1 ∷ pos 2 ∷ [])
unfolding sort_numbers
sort_numbers_run = refl

sort_numbers-eq-none_example :
    (sort_numbers (pos 0) (pos 0 ∷ numbers) ≡ none) ↔ (before_stop (pos 0) (pos 0 ∷ numbers) ≡ [])
sort_numbers-eq-none_example = sort_numbers-eq-none (pos 0) (pos 0 ∷ numbers)

small_tree-IsSearchTree : IsSearchTree small_tree
small_tree-IsSearchTree = ((tt, refl, tt), (tt, refl, tt), (tt, tt, tt, tt), (tt, tt, tt, tt))

tree_breadth_first_search-levels_example :
    tree_breadth_first_search small_tree
    ≡ some (concat_range (depth small_tree) 0 (λ n. level n small_tree))
tree_breadth_first_search-levels_example =
    tree_breadth_first_search-levels (leaf 1) (leaf 3) (pos 2)

abbrev insert_sorted : ℤ → List ℤ → List ℤ
insert_sorted x [] = x ∷ []
insert_sorted x (y ∷ ys) = if ltb_ℤ x y then x ∷ y ∷ ys else y ∷ insert_sorted x ys

abbrev insertion_sort : List ℤ → List ℤ
insertion_sort [] = []
insertion_sort (x ∷ xs) = insert_sorted x (insertion_sort xs)

abbrev pair : List ℤ
pair = pos 2 ∷ pos 1 ∷ []

create_flat-Built_example :
    (tree : Tree ℤ) × (create_flat insertion_sort pair ≡ some tree)
    × (inorder tree ≡ insertion_sort pair)
    × ((k : ℕ) → length pair < 2 ^ k → depth tree ≤ k)
create_flat-Built_example = create_flat-Built insertion_sort pair (Perm.swap (pos 2) (pos 1) [])
