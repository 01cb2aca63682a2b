-- ===== src/SearchTree/Breadth.antt =====
-- `tree_breadth_first_search` of course1-1/11-seminar-tree/tree_7_breadth_first_search.c. The queue
-- is the list of the nodes that it holds, in order.
use mipt_informatics.Base.{
  ℕ, zero, suc, ◌+◌, ◌≡◌, refl, Option, none, some, List, [], ◌∷◌, ◌++◌, arith, length, ◌≤◌, sym,
}
use mathlib.Core.Path.{fun_ext, ap₂}
use mathlib.Core.List.{append-nil, append_assoc}
use native.Mathlib.Nat.{zero-add, suc-add}
use Prim.Native.Nat.{max}
use mipt_informatics.Base.Fault.{◌>>=◌}
use mipt_informatics.SearchTree.{Tree, null, node}
use mipt_informatics.SearchTree.Shape.{size}
use mipt_informatics.SearchTree.Levels.{level}

module _ {K : Type 0} where
  -- `if (item->left) list_push_back (&queue, item->left)`, and the same for the right child
  push_child : Tree K → List (Tree K) → List (Tree K)
  push_child null queue = queue
  push_child (node l x r) queue = queue ++ node l x r ∷ []

  -- One round handles the first node of the queue and deletes it.
  breadth_loop : ℕ → List (Tree K) → Option (List K)
  unfolding push_child
  breadth_loop zero queue = none
  breadth_loop (suc fuel) [] = some []
  breadth_loop (suc fuel) (null ∷ queue) = none
  breadth_loop (suc fuel) (node l x r ∷ queue) = do
    rest ← breadth_loop fuel (push_child r (push_child l queue))
    some (x ∷ rest)

  -- each node is pushed once, so that there are at most as many rounds as nodes
  pub tree_breadth_first_search : Tree K → Option (List K)
  unfolding breadth_loop
  tree_breadth_first_search tree = breadth_loop (size tree + 1) (tree ∷ [])

  abbrev pub depth : Tree K → ℕ
  depth null = 0
  depth (node l x r) = suc (max (depth l) (depth r))

  -- `f i ++ f (i + 1) ++ …`, of `n` lists
  abbrev pub concat_range : ℕ → ℕ → (ℕ → List K) → List K
  concat_range zero i f = []
  concat_range (suc n) i f = f i ++ concat_range n (suc i) f

  abbrev nonnull : Tree K → List (Tree K)
  nonnull null = []
  nonnull (node l x r) = node l x r ∷ []

  abbrev kids : List (Tree K) → List (Tree K)
  kids [] = []
  kids (null ∷ ts) = kids ts
  kids (node l x r ∷ ts) = (nonnull l ++ nonnull r) ++ kids ts

  abbrev forest_level : ℕ → List (Tree K) → List K
  forest_level n [] = []
  forest_level n (t ∷ ts) = level n t ++ forest_level n ts

  abbrev AllNodes : List (Tree K) → Type 0
  AllNodes [] = Unit
  AllNodes (null ∷ ts) = ⊥
  AllNodes (node l x r ∷ ts) = AllNodes ts

  abbrev forest_size : List (Tree K) → ℕ
  forest_size [] = 0
  forest_size (t ∷ ts) = size t + forest_size ts

  abbrev forest_depth : List (Tree K) → ℕ
  forest_depth [] = 0
  forest_depth (t ∷ ts) = max (depth t) (forest_depth ts)

  push_child-append : (t : Tree K) (queue : List (Tree K)) → push_child t queue ≡ queue ++ nonnull t
  unfolding push_child
  push_child-append null queue = sym (append-nil queue)
  push_child-append (node l x r) queue = refl

  push_both :
      (l r : Tree K) (xs ys : List (Tree K))
      → push_child r (push_child l (xs ++ ys)) ≡ xs ++ (ys ++ (nonnull l ++ nonnull r))
  push_both l r xs ys = rw (push_child-append l, push_child-append r) (simp append_assoc)

  -- One level of the queue is handled, and its children stand behind the rest.
  breadth_loop-level :
      (xs ys : List (Tree K)) (fuel : ℕ) (out : List K)
      → AllNodes xs
      → breadth_loop fuel (ys ++ kids xs) ≡ some out
      → breadth_loop (length xs + fuel) (xs ++ ys) ≡ some (forest_level 0 xs ++ out)
  unfolding breadth_loop
  breadth_loop-level [] ys fuel out a h = rw zero-add (rw append-nil at h)
  breadth_loop-level (null ∷ xs) ys fuel out a h = absurd a
  breadth_loop-level (node l x r ∷ xs) ys fuel out a h =
      rw
        (
          suc-add,
          push_both l r xs ys,
          breadth_loop-level xs (ys ++ (nonnull l ++ nonnull r)) fuel out a
              (rw (append_assoc ys (nonnull l ++ nonnull r) (kids xs)) h),
        )
        refl

  forest_level-append :
      (n : ℕ) (xs ys : List (Tree K))
      → forest_level n (xs ++ ys) ≡ forest_level n xs ++ forest_level n ys
  forest_level-append n [] ys = refl
  forest_level-append n (x ∷ xs) ys = rw (forest_level-append n xs ys) (simp append_assoc)

  forest_level-nonnull : (n : ℕ) (t : Tree K) → forest_level n (nonnull t) ≡ level n t
  forest_level-nonnull n null = refl
  forest_level-nonnull n (node l x r) = append-nil (level n (node l x r))

  forest_level-kids :
      (n : ℕ) (ts : List (Tree K))
      → AllNodes ts
      → forest_level (suc n) ts ≡ forest_level n (kids ts)
  forest_level-kids n [] a = refl
  forest_level-kids n (null ∷ ts) a = absurd a
  forest_level-kids n (node l x r ∷ ts) a =
      rw
        (
          forest_level-append n (nonnull l ++ nonnull r) (kids ts),
          forest_level-append n (nonnull l) (nonnull r),
          forest_level-nonnull n l,
          forest_level-nonnull n r,
          forest_level-kids n ts a,
        )
        refl

  forest_size-append :
      (xs ys : List (Tree K)) → forest_size (xs ++ ys) ≡ forest_size xs + forest_size ys
  forest_size-append [] ys = omega arith
  forest_size-append (x ∷ xs) ys = omega (arith, forest_size-append xs ys)

  size-nonnull : (t : Tree K) → forest_size (nonnull t) ≡ size t
  size-nonnull null = refl
  size-nonnull (node l x r) = omega arith

  size-kids :
      (ts : List (Tree K)) → AllNodes ts → forest_size ts ≡ length ts + forest_size (kids ts)
  size-kids [] a = refl
  size-kids (null ∷ ts) a = absurd a
  size-kids (node l x r ∷ ts) a = omega (
    arith,
    forest_size-append (nonnull l ++ nonnull r) (kids ts),
    forest_size-append (nonnull l) (nonnull r),
    size-nonnull l,
    size-nonnull r,
    size-kids ts a,
  )

  depth-append :
      (xs ys : List (Tree K)) → forest_depth (xs ++ ys) ≡ max (forest_depth xs) (forest_depth ys)
  depth-append [] ys = omega arith
  depth-append (x ∷ xs) ys = omega (arith, depth-append xs ys)

  depth-nonnull : (t : Tree K) → forest_depth (nonnull t) ≡ depth t
  depth-nonnull null = refl
  depth-nonnull (node l x r) = omega arith

  depth-kids :
      (h : ℕ) (ts : List (Tree K))
      → AllNodes ts
      → forest_depth ts ≤ suc h
      → forest_depth (kids ts) ≤ h
  depth-kids h [] a d = omega arith
  depth-kids h (null ∷ ts) a d = absurd a
  depth-kids h (node l x r ∷ ts) a d = omega (
    arith,
    depth-append (nonnull l ++ nonnull r) (kids ts),
    depth-append (nonnull l) (nonnull r),
    depth-nonnull l,
    depth-nonnull r,
    depth-kids h ts a (omega arith),
  )

  AllNodes-append : (xs ys : List (Tree K)) → AllNodes xs → AllNodes ys → AllNodes (xs ++ ys)
  AllNodes-append [] ys a b = b
  AllNodes-append (null ∷ xs) ys a b = absurd a
  AllNodes-append (node l x r ∷ xs) ys a b = AllNodes-append xs ys a b

  AllNodes-nonnull : (t : Tree K) → AllNodes (nonnull t)
  AllNodes-nonnull null = tt
  AllNodes-nonnull (node l x r) = tt

  AllNodes-kids : (ts : List (Tree K)) → AllNodes ts → AllNodes (kids ts)
  AllNodes-kids [] a = tt
  AllNodes-kids (null ∷ ts) a = absurd a
  AllNodes-kids (node l x r ∷ ts) a =
      AllNodes-append (nonnull l ++ nonnull r) (kids ts)
        (AllNodes-append (nonnull l) (nonnull r) (AllNodes-nonnull l) (AllNodes-nonnull r))
        (AllNodes-kids ts a)

  concat_range-shift :
      (n i : ℕ) (f g : ℕ → List K)
      → ((j : ℕ) → f (suc j) ≡ g j)
      → concat_range n (suc i) f ≡ concat_range n i g
  concat_range-shift zero i f g same = refl
  concat_range-shift (suc n) i f g same = ap₂ ◌++◌ (same i) (concat_range-shift n (suc i) f g same)

  breadth_loop-levels :
      (h : ℕ) (ts : List (Tree K))
      → AllNodes ts
      → forest_depth ts ≤ h
      → breadth_loop (forest_size ts + 1) ts ≡ some (concat_range h 0 (λ n. forest_level n ts))
  unfolding breadth_loop
  breadth_loop-levels zero [] a d = refl
  breadth_loop-levels zero (null ∷ ts) a d = absurd a
  breadth_loop-levels zero (node l x r ∷ ts) a d = absurd (omega arith)
  breadth_loop-levels (suc h) ts a d =
      let fuel : forest_size ts + 1 ≡ length ts + (forest_size (kids ts) + 1) =
        omega (arith, size-kids ts a) in
      rw
        (
          fuel,
          concat_range-shift h 0 (λ n. forest_level n ts) (λ n. forest_level n (kids ts))
              (λ j. forest_level-kids j ts a),
        )
        (rw append-nil at (
          breadth_loop-level ts [] (forest_size (kids ts) + 1) _ a
            (breadth_loop-levels h (kids ts) (AllNodes-kids ts a) (depth-kids h ts a d))))

  -- From a root that is not `NULL` the search handles each level once, from the root downwards,
  -- and each level from left to right; it ends and reads no `NULL`.
  pub tree_breadth_first_search-levels :
      (l r : Tree K) (x : K)
      → let tree = node l x r in
        tree_breadth_first_search tree ≡ some (concat_range (depth tree) 0 (λ n. level n tree))
  unfolding tree_breadth_first_search
  tree_breadth_first_search-levels l r x =
      let tree = node l x r in
      let fuel : size tree + 1 ≡ forest_size (tree ∷ []) + 1 = omega arith in
      let single : (λ n. level n tree) ≡ (λ n. forest_level n (tree ∷ [])) =
        fun_ext (λ n. sym (append-nil (level n tree))) in
      rw (fuel, single) (breadth_loop-levels (depth tree) (tree ∷ []) tt (omega arith))
