-- ===== src/SearchTree/Add.antt =====
-- `tree_add`, the order of search trees and the values of a tree.
use mipt_informatics.Base.{◌≡◌, refl, true, ◌||◌, List, [], ◌∷◌, ◌++◌, arith}
use mathlib.Core.Bool.{or_assoc}
use mipt_informatics.Base.Order.{Order}
use mipt_informatics.SearchTree.{Tree, null, node, tree_create_leaf, tree_add}
use mipt_informatics.SearchTree.Shape.{inorder, contains, AllOf, Increasing}

module _ {K : Type 0} where
  -- every value of the tree satisfies `P`
  abbrev pub AllIn : (K → Type 0) → Tree K → Type 0
  AllIn P null = Unit
  AllIn P (node l x r) = AllIn P l × P x × AllIn P r

  AllOf-append : (P : K → Type 0) (xs ys : List K) → AllOf P xs → AllOf P ys → AllOf P (xs ++ ys)
  AllOf-append P [] ys h k = k
  AllOf-append P (x ∷ xs) ys h k = (h.0, AllOf-append P xs ys h.1 k)

  pub AllIn-inorder : (P : K → Type 0) (t : Tree K) → AllIn P t → AllOf P (inorder t)
  AllIn-inorder P null h = tt
  AllIn-inorder P (node l x r) h =
      AllOf-append P (inorder l) (x ∷ inorder r) (AllIn-inorder P l h.0)
        (h.1, AllIn-inorder P r h.2)

  AllOf-imp : {P Q : K → Type 0} → ((x : K) → P x → Q x) → (xs : List K) → AllOf P xs → AllOf Q xs
  AllOf-imp f [] h = tt
  AllOf-imp f (x ∷ xs) h = (f x h.0, AllOf-imp f xs h.1)

module _ {K : Type 0} ⦃o : Order K⦄ where
  -- left of a node stand smaller values, right of it larger ones
  abbrev pub IsSearchTree : Tree K → Type 0
  IsSearchTree null = Unit
  IsSearchTree (node l x r) =
      AllIn (λ y. o.less y x ≡ true) l
      × AllIn (λ y. o.less x y ≡ true) r
      × IsSearchTree l
      × IsSearchTree r

  AllIn-tree_add : (P : K → Type 0) (t : Tree K) (x : K) → P x → AllIn P t → AllIn P (tree_add t x)
  unfolding tree_add tree_create_leaf
  AllIn-tree_add P null x p h = (tt, p, tt)
  AllIn-tree_add P (node l v r) x p h = ground (arith, AllIn-tree_add P l x, AllIn-tree_add P r x)

  -- An insertion into a search tree yields a search tree.
  pub tree_add-IsSearchTree : (t : Tree K) (x : K) → IsSearchTree t → IsSearchTree (tree_add t x)
  unfolding tree_add tree_create_leaf
  tree_add-IsSearchTree null x h = (tt, tt, tt, tt)
  tree_add-IsSearchTree (node l v r) x h = ground (
    arith,
    tree_add-IsSearchTree l x,
    tree_add-IsSearchTree r x,
    AllIn-tree_add (λ y. o.less y v ≡ true) l x,
    AllIn-tree_add (λ y. o.less v y ≡ true) r x,
    o.lt_total x v,
  )

  contains-append :
      (xs ys : List K) (y : K) → contains (xs ++ ys) y ≡ (contains xs y || contains ys y)
  contains-append [] ys y = refl
  contains-append (x ∷ xs) ys y = rw (contains-append xs ys y, or_assoc)

  -- The values of the new tree are those of the old one and `x`.
  pub contains-tree_add :
      (t : Tree K) (x y : K)
      → contains (inorder (tree_add t x)) y ≡ (o.eqb x y || contains (inorder t) y)
  unfolding tree_add tree_create_leaf
  contains-tree_add null x y = refl
  contains-tree_add (node l v r) x y = ground (
    arith,
    contains-tree_add l x y,
    contains-tree_add r x y,
    o.eqb_iff x v,
    contains-append (inorder l) (v ∷ inorder r) y,
    contains-append (inorder (tree_add l x)) (v ∷ inorder r) y,
    contains-append (inorder l) (v ∷ inorder (tree_add r x)) y,
  )

  Increasing-append :
      (xs : List K) (x : K) (ys : List K)
      → AllOf (λ y. o.less y x ≡ true) xs
      → AllOf (λ y. o.less x y ≡ true) ys
      → Increasing xs
      → Increasing ys
      → Increasing (xs ++ x ∷ ys)
  Increasing-append [] x ys lo hi p q = (hi, q)
  Increasing-append (z ∷ xs) x ys lo hi p q = (
    AllOf-append (λ y. o.less z y ≡ true) xs (x ∷ ys) p.0
        (lo.0, AllOf-imp (λ y. o.lt_trans z x y lo.0) ys hi),
    Increasing-append xs x ys lo.1 hi p.1 q,
  )

  -- The walk in order over a search tree is strictly increasing.
  pub inorder-Increasing : (t : Tree K) → IsSearchTree t → Increasing (inorder t)
  inorder-Increasing null h = tt
  inorder-Increasing (node l x r) (below, above, hl, hr) =
      Increasing-append (inorder l) x (inorder r) (AllIn-inorder _ l below)
        (AllIn-inorder _ r above) (inorder-Increasing l hl) (inorder-Increasing r hr)
