-- ===== src/SearchTree/Sort.antt =====
-- tree_2_sort_numbers.c as a whole: reading, printing and freeing.
use mipt_informatics.Base.{
  ◌≡◌, refl, false, ◌||◌, none, some, List, [], ◌∷◌, arith, if◌then◌else◌, ◌↔◌, Bool-cases, inl,
  inr,
}
use mathlib.Core.List.{Perm}
use mipt_informatics.Base.Order.{Order}
use mipt_informatics.SearchTree.{
  Tree, null, node, is_null, tree_create_leaf, tree_print, tree_destroy, tree_add, read_tree,
  sort_numbers,
}
use mipt_informatics.SearchTree.Shape.{inorder, postorder, contains, Increasing}
use mipt_informatics.SearchTree.Print.{tree_print-inorder, tree_destroy-postorder, postorder-perm}
use mipt_informatics.SearchTree.Add.{
  IsSearchTree, tree_add-IsSearchTree, contains-tree_add, inorder-Increasing,
}

module _ {K : Type 0} ⦃o : Order K⦄ where
  -- the numbers of the input that stand in front of the first `stop`
  abbrev pub before_stop : K → List K → List K
  before_stop stop [] = []
  before_stop stop (x ∷ xs) = if o.eqb x stop then [] else x ∷ before_stop stop xs

  read_tree-IsSearchTree :
      (stop : K) (t : Tree K) (xs : List K) → IsSearchTree t → IsSearchTree (read_tree stop t xs)
  unfolding read_tree
  read_tree-IsSearchTree stop t [] h = h
  read_tree-IsSearchTree stop t (x ∷ xs) h =
      ground (arith, read_tree-IsSearchTree stop (tree_add t x) xs, tree_add-IsSearchTree t x h)

  contains-read_tree :
      (stop : K) (t : Tree K) (xs : List K) (y : K)
      → contains (inorder (read_tree stop t xs)) y
        ≡ (contains (inorder t) y || contains (before_stop stop xs) y)
  unfolding read_tree
  contains-read_tree stop t [] y = ground arith
  contains-read_tree stop t (x ∷ xs) y =
      ground (arith, contains-read_tree stop (tree_add t x) xs y, contains-tree_add t x y)

  abbrev pub Sorts : List K → List K × List K → Type 0
  Sorts numbers (printed, freed) =
      Increasing printed × ((y : K) → contains printed y ≡ contains numbers y) × Perm freed printed

  tree-Sorts :
      (t : Tree K) (numbers : List K)
      → IsSearchTree t
      → ((y : K) → contains (inorder t) y ≡ contains numbers y)
      → Sorts numbers (inorder t, postorder t)
  tree-Sorts t numbers h same = (inorder-Increasing t h, same, postorder-perm t)

  is_null-read_tree :
      (stop : K) (t : Tree K) (xs : List K)
      → is_null t ≡ false
      → is_null (read_tree stop t xs) ≡ false
  unfolding read_tree tree_add
  is_null-read_tree stop t [] h = h
  is_null-read_tree stop null (x ∷ xs) h = cc
  is_null-read_tree stop (node l v r) (x ∷ xs) h =
      ground (arith, is_null-read_tree stop (tree_add (node l v r) x) xs)

  walks :
      (t : Tree K)
      → is_null t ≡ false
      → (tree_print t ≡ some (inorder t)) × (tree_destroy t ≡ some (postorder t))
  walks null h = cc
  walks (node l x r) h = (tree_print-inorder l r x, tree_destroy-postorder l r x)

  sort_numbers-walks :
      (stop : K) (input : List K)
      → let t = read_tree stop null input in
        is_null t ≡ false → sort_numbers stop input ≡ some (inorder t, postorder t)
  unfolding sort_numbers
  sort_numbers-walks stop input h = let w = walks (read_tree stop null input) h in rw (w.0, w.1)

  is_null-read_tree_first :
      (stop x : K) (xs : List K)
      → o.eqb x stop ≡ false
      → is_null (read_tree stop null (x ∷ xs)) ≡ false
  unfolding read_tree tree_add tree_create_leaf
  is_null-read_tree_first stop x xs h = rw h (is_null-read_tree stop (node null x null) xs refl)

  -- On an input whose first number is not `stop` the program prints, in strictly increasing order,
  -- exactly the numbers in front of the first `stop`, and frees as many nodes, with the same
  -- numbers.
  pub sort_numbers-Sorts :
      (stop x : K) (xs : List K)
      → o.eqb x stop ≡ false
      → (out : List K × List K) × (sort_numbers stop (x ∷ xs) ≡ some out)
        × Sorts (before_stop stop (x ∷ xs)) out
  sort_numbers-Sorts stop x xs h =
      let t = read_tree stop null (x ∷ xs) in
      (
        (inorder t, postorder t),
        sort_numbers-walks stop (x ∷ xs) (is_null-read_tree_first stop x xs h),
        tree-Sorts t (before_stop stop (x ∷ xs)) (read_tree-IsSearchTree stop null (x ∷ xs) tt)
            (contains-read_tree stop null (x ∷ xs)),
      )

  -- The program reads through `NULL` exactly when no number stands in front of the first `stop`.
  pub sort_numbers-eq-none :
      (stop : K) (input : List K) → (sort_numbers stop input ≡ none) ↔ (before_stop stop input ≡ [])
  unfolding sort_numbers read_tree
  sort_numbers-eq-none stop [] = (λ h. refl, λ h. refl)
  sort_numbers-eq-none stop (x ∷ xs) = elim (Bool-cases (o.eqb x stop)) [
    | inl e ↦ rw e (λ h. refl, λ h. refl)
    | inr e ↦ let out = sort_numbers-Sorts stop x xs e in (λ h. cc (out.1), λ h. cc e)
  ]
