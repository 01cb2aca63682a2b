-- ===== src/SearchTree.antt =====
-- The binary search trees of course1-1/11-seminar-tree and course1-1/12-seminar-datacenter.
-- A pointer to a node is a tree, `NULL` is `null`. The nodes are not shared, so a function that
-- updates a tree in place returns the new tree. `none` is a read through `NULL`. What a function
-- prints is the list of the values that it prints.
pub mod Shape
pub mod Print
pub mod Add
pub mod Sort
pub mod Levels
pub mod Breadth
pub mod Balance
pub mod Flat
pub mod Dictionary
pub mod Tests
use mipt_informatics.Base.{
  ℕ, ◌+◌, Bool, true, false, not, ◌||◌, ◌==◌, Option, none, some, List, [], ◌∷◌, ◌++◌,
  if◌then◌else◌, ltb,
}
use mipt_informatics.Base.Order.{Order}
use mipt_informatics.Base.Fault.{◌>>=◌}

-- `struct TreeNode`: its left child, its value and its right child
pub data Tree (K : Type 0) : Type 0 where
  null : Tree K
  node : Tree K → K → Tree K → Tree K

module _ {K : Type 0} where
  abbrev pub is_null : Tree K → Bool
  is_null null = true
  is_null (node l x r) = false

  -- `if (child) visit (child)`, where `run` is the visit
  abbrev pub if_child : {A : Type 0} → Tree K → A → A → A
  if_child null skip run = skip
  if_child (node l x r) skip run = run

  pub tree_create_leaf : K → Tree K
  tree_create_leaf x = node null x null

  pub tree_print : Tree K → Option (List K)
  tree_print null = none
  tree_print (node l x r) = do
    before ← if_child l (some []) (tree_print l)
    after ← if_child r (some []) (tree_print r)
    some (before ++ x ∷ after)

  -- the values of the freed nodes, in the order of the calls of `free`
  pub tree_destroy : Tree K → Option (List K)
  tree_destroy null = none
  tree_destroy (node l x r) = do
    before ← if_child l (some []) (tree_destroy l)
    after ← if_child r (some []) (tree_destroy r)
    some (before ++ (after ++ x ∷ []))

  pub tree_print_leafs : Tree K → Option (List K)
  tree_print_leafs null = none
  tree_print_leafs (node l x r) = do
    before ← if_child l (some []) (tree_print_leafs l)
    after ← if_child r (some []) (tree_print_leafs r)
    let has_children = not (is_null l) || not (is_null r)
    some (before ++ (after ++ (if not has_children then x ∷ [] else [])))

  -- `tree_print` of 13-ejudjement-day-2/tree.c
  pub tree_print_level : Tree K → (current_height height_filter : ℕ) → Option (List K)
  tree_print_level null current filter = none
  tree_print_level (node l x r) current filter =
      let before = if_child l (some []) (tree_print_level l (current + 1) filter) in
      let after = if_child r (some []) (tree_print_level r (current + 1) filter) in
      if current == filter
      then some (x ∷ [])
      else if ltb current filter
      then (do a ← before; b ← after; some (a ++ b))
      else some []

module _ {K : Type 0} ⦃o : Order K⦄ where
  -- the walk down of the loop `for (;;)` and the write at its end
  pub tree_add : Tree K → K → Tree K
  unfolding tree_create_leaf
  tree_add null x = tree_create_leaf x
  tree_add (node l v r) x =
      if o.eqb x v
      then node l v r
      else if o.less x v
      then node (tree_add l x) v r
      else node l v (tree_add r x)

  -- `while ((scanf ("%d", &x) == 1) && (x != 0))`, where `stop` is 0
  pub read_tree : K → Tree K → List K → Tree K
  unfolding tree_add
  read_tree stop tree [] = tree
  read_tree stop tree (x ∷ xs) = if o.eqb x stop then tree else read_tree stop (tree_add tree x) xs

  -- `main` of tree_2_sort_numbers.c: what it prints, and the values whose nodes it frees
  pub sort_numbers : K → List K → Option (List K × List K)
  unfolding read_tree tree_print tree_destroy
  sort_numbers stop input = do
    let tree = read_tree stop null input
    printed ← tree_print tree
    freed ← tree_destroy tree
    some (printed, freed)
