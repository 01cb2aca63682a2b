-- ===== src/SearchTree/Shape.antt =====
-- The values of a tree in order, and its children: the independent descriptions by which the
-- theorems on trees are stated.
use mipt_informatics.Base.{ℕ, suc, ◌+◌, Bool, true, false, ◌||◌, List, [], ◌∷◌, ◌++◌}
use mipt_informatics.Base.Order.{Order}
use mathlib.Core.Path.{◌≡◌}
use mipt_informatics.SearchTree.{Tree, null, node}

module _ {K : Type 0} where
  -- left subtree, root, right subtree
  abbrev pub inorder : Tree K → List K
  inorder null = []
  inorder (node l x r) = inorder l ++ x ∷ inorder r

  abbrev pub postorder : Tree K → List K
  postorder null = []
  postorder (node l x r) = postorder l ++ (postorder r ++ x ∷ [])

  abbrev pub size : Tree K → ℕ
  size null = 0
  size (node l x r) = suc (size l + size r)

-- membership by the tests of the order
abbrev pub contains : {K : Type 0} ⦃o : Order K⦄ → List K → K → Bool
contains [] y = false
contains ⦃o⦄ (x ∷ xs) y = o.eqb x y || contains xs y

-- strictly increasing
abbrev pub AllOf : {K : Type 0} → (K → Type 0) → List K → Type 0
AllOf P [] = Unit
AllOf P (x ∷ xs) = P x × AllOf P xs

abbrev pub Increasing : {K : Type 0} ⦃o : Order K⦄ → List K → Type 0
Increasing [] = Unit
Increasing ⦃o⦄ (x ∷ xs) = AllOf (λ y. o.less x y ≡ true) xs × Increasing xs
