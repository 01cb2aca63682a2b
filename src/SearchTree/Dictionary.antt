-- ===== src/SearchTree/Dictionary.antt =====
-- course1-1/11-seminar-tree/tree_6_dictionary.c: how often each number occurs in the input. The
-- pointer `*new` into the tree is the list of the turns from the root to the node that it points
-- into.
pub mod Counts
pub mod Tests
use mipt_informatics.Base.{ℕ, ◌+◌, Option, none, some, List, [], ◌∷◌, if◌then◌else◌}
use mipt_informatics.Base.Order.{Order}
use mipt_informatics.Base.Fault.{◌>>=◌}
use mipt_informatics.SearchTree.{Tree, null, node, tree_print, tree_destroy}

pub data Turn : Type 0 where
  left right : Turn

module _ {K : Type 0} where
  -- `++new->count`, through a pointer to a node of the tree; `none` is any other pointer
  pub increment : List Turn → Tree (K × ℕ) → Option (Tree (K × ℕ))
  increment new null = none
  increment [] (node l (k, count) r) = some (node l (k, count + 1) r)
  increment (left ∷ new) (node l e r) = do l' ← increment new l; some (node l' e r)
  increment (right ∷ new) (node l e r) = do r' ← increment new r; some (node l e r')

  go_left : K × ℕ → Tree (K × ℕ) → Tree (K × ℕ) × List Turn → Tree (K × ℕ) × List Turn
  go_left e r (l, new) = (node l e r, left ∷ new)

  go_right : K × ℕ → Tree (K × ℕ) → Tree (K × ℕ) × List Turn → Tree (K × ℕ) × List Turn
  go_right e l (r, new) = (node l e r, right ∷ new)

module _ {K : Type 0} ⦃o : Order K⦄ where
  -- `tree_add`: the tree and `*new`
  pub find_or_add : Tree (K × ℕ) → K → Tree (K × ℕ) × List Turn
  unfolding go_left go_right
  find_or_add null k = (node null (k, 0) null, [])
  find_or_add (node l (key, count) r) k =
      if o.eqb k key
      then (node l (key, count) r, [])
      else if o.less k key
      then go_left (key, count) r (find_or_add l k)
      else go_right (key, count) l (find_or_add r k)

  -- the loop of `main`, where `stop` is 0
  pub read_counts : K → Tree (K × ℕ) → List K → Option (Tree (K × ℕ))
  unfolding find_or_add increment
  read_counts stop tree [] = some tree
  read_counts stop tree (x ∷ xs) =
      let (tree', newly_added) = find_or_add tree x in
      let rest = (do tree'' ← increment newly_added tree'; read_counts stop tree'' xs) in
      if o.eqb x stop then some tree else rest

  -- `main`: the lines that it prints
  pub count_numbers : K → List K → Option (List (K × ℕ))
  unfolding read_counts tree_print tree_destroy
  count_numbers stop input = do
    tree ← read_counts stop null input
    printed ← tree_print tree
    freed ← tree_destroy tree
    some printed
