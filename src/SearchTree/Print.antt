-- ===== src/SearchTree/Print.antt =====
-- What the recursive walks over a tree print and free.
use mipt_informatics.Base.{◌≡◌, refl, some, []}
use mathlib.Core.List.{Perm, perm_middle, append-nil}
use mathlib.Core.List.Perm
use mipt_informatics.SearchTree.{Tree, null, node, if_child, tree_print, tree_destroy}
use mipt_informatics.SearchTree.Shape.{inorder, postorder}

module _ {K : Type 0} where
  child-inorder : (t : Tree K) → if_child t (some []) (tree_print t) ≡ some (inorder t)
  unfolding tree_print
  child-inorder null = refl
  child-inorder (node l x r) = rw (child-inorder l, child-inorder r)

  child-postorder : (t : Tree K) → if_child t (some []) (tree_destroy t) ≡ some (postorder t)
  unfolding tree_destroy
  child-postorder null = refl
  child-postorder (node l x r) = rw (child-postorder l, child-postorder r)

  -- Of a tree that is not `NULL` the walk prints the values in order, and reads no `NULL`.
  pub tree_print-inorder :
      (l r : Tree K) (x : K) → tree_print (node l x r) ≡ some (inorder (node l x r))
  tree_print-inorder l r x = child-inorder (node l x r)

  pub tree_destroy-postorder :
      (l r : Tree K) (x : K) → tree_destroy (node l x r) ≡ some (postorder (node l x r))
  tree_destroy-postorder l r x = child-postorder (node l x r)

  pub postorder-perm : (t : Tree K) → Perm (postorder t) (inorder t)
  postorder-perm null = Perm.refl []
  postorder-perm (node l x r) =
      Perm.append (postorder-perm l)
        (Perm.trans (perm_middle (postorder r) []) (Perm.cons x (rw append-nil (postorder-perm r))))
