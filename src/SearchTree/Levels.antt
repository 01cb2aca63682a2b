-- ===== src/SearchTree/Levels.antt =====
-- The levels of a tree, and what `tree_print` of course1-1/13-ejudjement-day-2/tree.c prints.
use mipt_informatics.Base.{ℕ, zero, suc, ◌+◌, ◌<◌, ◌≡◌, refl, some, List, [], ◌∷◌, ◌++◌, arith}
use mipt_informatics.SearchTree.{Tree, null, node, if_child, tree_print_level}

module _ {K : Type 0} where
  -- the values that stand `n` edges below the root, from left to right
  abbrev pub level : ℕ → Tree K → List K
  level n null = []
  level zero (node l x r) = x ∷ []
  level (suc n) (node l x r) = level n l ++ level n r

  child_past :
      (t : Tree K) (current filter : ℕ)
      → filter < current
      → if_child t (some []) (tree_print_level t current filter) ≡ some []
  unfolding tree_print_level
  child_past null current filter h = refl
  child_past (node l x r) current filter h = ground arith

  child-level :
      (t : Tree K) (current n filter : ℕ)
      → current + n ≡ filter
      → if_child t (some []) (tree_print_level t current filter) ≡ some (level n t)
  unfolding tree_print_level
  child-level null current zero filter h = refl
  child-level null current (suc n) filter h = refl
  child-level (node l x r) current zero filter h = ground arith
  child-level (node l x r) current (suc n) filter h = ground (
    arith,
    child-level l (current + 1) n filter (omega arith),
    child-level r (current + 1) n filter (omega arith),
  )

  -- From the root at height `current` the walk prints the level `filter - current`.
  pub tree_print_level-level :
      (l r : Tree K) (x : K) (current n : ℕ)
      → tree_print_level (node l x r) current (current + n) ≡ some (level n (node l x r))
  tree_print_level-level l r x current n = child-level (node l x r) current n (current + n) refl
