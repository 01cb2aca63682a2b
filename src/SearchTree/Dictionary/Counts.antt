-- ===== src/SearchTree/Dictionary/Counts.antt =====
-- The lines that the dictionary prints, and the occurrences in the input.
use mipt_informatics.Base.{
  ℕ, ◌+◌, ◌<◌, ◌≡◌, refl, sym, ap, ◌∙◌, Bool-cases, inl, inr, false, some, List, [], ◌∷◌, ◌++◌, map,
  arith, if◌then◌else◌,
}
use mathlib.Core.Path.{subst}
use mipt_informatics.Base.Order.{Order}
use mipt_informatics.SearchTree.{
  Tree, null, node, is_null, tree_create_leaf, tree_add, tree_print, tree_destroy,
}
use mipt_informatics.SearchTree.Shape.{inorder, postorder, Increasing, AllOf}
use mipt_informatics.SearchTree.Print.{tree_print-inorder, tree_destroy-postorder}
use mipt_informatics.SearchTree.Add.{
  AllIn, AllIn-inorder, IsSearchTree, tree_add-IsSearchTree, inorder-Increasing,
}
use mipt_informatics.SearchTree.Sort.{before_stop}
use mipt_informatics.SearchTree.Dictionary.{
  increment, go_left, go_right, find_or_add, read_counts, count_numbers,
}

module _ {K : Type 0} where
  abbrev pub key : K × ℕ → K
  key (k, count) = k

  abbrev pub IsCounted : K × ℕ → Type 0
  IsCounted (k, count) = 0 < count

  abbrev keys : Tree (K × ℕ) → Tree K
  keys null = null
  keys (node l e r) = node (keys l) (key e) (keys r)

  map-append : (xs ys : List (K × ℕ)) → map key (xs ++ ys) ≡ map key xs ++ map key ys
  map-append [] ys = refl
  map-append (x ∷ xs) ys = ap (λ l. key x ∷ l) (map-append xs ys)

  inorder-keys : (t : Tree (K × ℕ)) → map key (inorder t) ≡ inorder (keys t)
  inorder-keys null = refl
  inorder-keys (node l e r) =
      rw (map-append (inorder l) (e ∷ inorder r), inorder-keys l, inorder-keys r)

module _ {K : Type 0} ⦃o : Order K⦄ where
  -- how often `y` occurs in the numbers
  abbrev pub occurrences : List K → K → ℕ
  occurrences [] y = 0
  occurrences (x ∷ xs) y = (if o.eqb x y then 1 else 0) + occurrences xs y

  -- the sum of the counts of the lines with the key `y`
  abbrev pub tally : List (K × ℕ) → K → ℕ
  tally [] y = 0
  tally ((k, count) ∷ es) y = (if o.eqb k y then count else 0) + tally es y

  tally-append : (xs ys : List (K × ℕ)) (y : K) → tally (xs ++ ys) y ≡ tally xs y + tally ys y
  tally-append [] ys y = omega arith
  tally-append ((k, count) ∷ es) ys y = omega (arith, tally-append es ys y)

  -- what `tree_add` and the increment through its pointer do together
  abbrev bump : Tree (K × ℕ) → K → Tree (K × ℕ)
  bump null k = node null (k, 1) null
  bump (node l (k', count) r) k =
      if o.eqb k k'
      then node l (k', count + 1) r
      else if o.less k k'
      then node (bump l k) (k', count) r
      else node l (k', count) (bump r k)

  increment-bump :
      (t : Tree (K × ℕ)) (k : K)
      → increment (find_or_add t k).1 (find_or_add t k).0 ≡ some (bump t k)
  unfolding increment find_or_add go_left go_right
  increment-bump null k = refl
  increment-bump (node l (k', count) r) k = elim (Bool-cases (o.eqb k k')) [
    | inl e ↦ rw e
    | inr e ↦ elim (Bool-cases (o.less k k')) [
      | inl b ↦ rw (e, b, increment-bump l k)
      | inr b ↦ rw (e, b, increment-bump r k)
    ]
  ]

  keys-bump : (t : Tree (K × ℕ)) (k : K) → keys (bump t k) ≡ tree_add (keys t) k
  unfolding tree_add tree_create_leaf
  keys-bump null k = refl
  keys-bump (node l (k', count) r) k = ground (arith, keys-bump l k, keys-bump r k)

  tally-bump :
      (t : Tree (K × ℕ)) (x y : K)
      → tally (inorder (bump t x)) y ≡ tally (inorder t) y + (if o.eqb x y then 1 else 0)
  tally-bump null x y = omega arith
  tally-bump (node l (k, count) r) x y = elim (Bool-cases (o.eqb x k)) [
    | inl e ↦
        let same : x ≡ k = (o.eqb_iff x k).0 e in
        rw
          (
            e,
            same,
            tally-append (inorder l) ((k, count + 1) ∷ inorder r) y,
            tally-append (inorder l) ((k, count) ∷ inorder r) y,
          )
          (ground arith)
    | inr e ↦ elim (Bool-cases (o.less x k)) [
      | inl b ↦
          rw
            (
              e,
              b,
              tally-append (inorder (bump l x)) ((k, count) ∷ inorder r) y,
              tally-append (inorder l) ((k, count) ∷ inorder r) y,
              tally-bump l x y,
            )
            (omega arith)
      | inr b ↦
          rw
            (
              e,
              b,
              tally-append (inorder l) ((k, count) ∷ inorder (bump r x)) y,
              tally-append (inorder l) ((k, count) ∷ inorder r) y,
              tally-bump r x y,
            )
            (omega arith)
    ]
  ]

  IsCounted-bump : (t : Tree (K × ℕ)) (x : K) → AllIn IsCounted t → AllIn IsCounted (bump t x)
  IsCounted-bump null x h = (tt, omega arith, tt)
  IsCounted-bump (node l (k, count) r) x (hl, c, hr) = elim (Bool-cases (o.eqb x k)) [
    | inl e ↦ rw e (hl, omega arith, hr)
    | inr e ↦ elim (Bool-cases (o.less x k)) [
      | inl b ↦ rw (e, b) (IsCounted-bump l x hl, c, hr)
      | inr b ↦ rw (e, b) (hl, c, IsCounted-bump r x hr)
    ]
  ]

  -- a dictionary that is right when the numbers still to come are added: `f` counts them all
  record IsDictionary (f : K → ℕ) (to_come : List K) (t : Tree (K × ℕ)) : Type 0 where
    order : IsSearchTree (keys t)
    counted : AllIn IsCounted t
    tallies : (y : K) → tally (inorder t) y + occurrences to_come y ≡ f y

  bump-IsDictionary :
      (f : K → ℕ) (x : K) (to_come : List K) (t : Tree (K × ℕ))
      → IsDictionary f (x ∷ to_come) t
      → IsDictionary f to_come (bump t x)
  bump-IsDictionary f x to_come t v = record {
    order = subst IsSearchTree (sym (keys-bump t x)) (tree_add-IsSearchTree (keys t) x v.order);
    counted = IsCounted-bump t x v.counted;
    tallies = λ y. omega (arith, tally-bump t x y, v.tallies y);
  }

  is_null-bump : (t : Tree (K × ℕ)) (x : K) → is_null (bump t x) ≡ false
  is_null-bump null x = refl
  is_null-bump (node l (k, count) r) x = ground arith

  read_counts-cons :
      (stop x : K) (xs : List K) (t : Tree (K × ℕ))
      → o.eqb x stop ≡ false
      → read_counts stop t (x ∷ xs) ≡ read_counts stop (bump t x) xs
  unfolding read_counts
  read_counts-cons stop x xs t h = rw (h, increment-bump t x)

  read_counts-IsDictionary :
      (f : K → ℕ) (stop : K) (xs : List K) (t : Tree (K × ℕ))
      → is_null t ≡ false
      → IsDictionary f (before_stop stop xs) t
      → (t' : Tree (K × ℕ)) × (read_counts stop t xs ≡ some t')
        × (is_null t' ≡ false)
        × IsDictionary f [] t'
  unfolding read_counts
  read_counts-IsDictionary f stop [] t h v = (t, refl, h, v)
  read_counts-IsDictionary f stop (x ∷ xs) t h v = elim (Bool-cases (o.eqb x stop)) [
    | inl e ↦ (t, rw e, h, rw e at v)
    | inr e ↦
        let (t', run, h', v') =
          read_counts-IsDictionary f stop xs (bump t x) (is_null-bump t x)
            (bump-IsDictionary f x (before_stop stop xs) t (rw e at v)) in
        (t', read_counts-cons stop x xs t e ∙ run, h', v')
  ]

  -- the lines `out` have increasing keys and positive counts, and count the occurrences
  abbrev pub Tallies : List K → List (K × ℕ) → Type 0
  Tallies numbers out =
      Increasing (map key out)
      × AllOf IsCounted out
      × ((y : K) → tally out y ≡ occurrences numbers y)

  walks :
      (t : Tree (K × ℕ))
      → is_null t ≡ false
      → (tree_print t ≡ some (inorder t)) × (tree_destroy t ≡ some (postorder t))
  walks null h = cc
  walks (node l x r) h = (tree_print-inorder l r x, tree_destroy-postorder l r x)

  start-IsDictionary : (numbers : List K) → IsDictionary (occurrences numbers) numbers null
  start-IsDictionary numbers = record { order = tt; counted = tt; tallies = λ y. omega arith }

  count_numbers-inorder :
      (stop : K) (input : List K) (t : Tree (K × ℕ))
      → read_counts stop null input ≡ some t
      → is_null t ≡ false
      → count_numbers stop input ≡ some (inorder t)
  unfolding count_numbers
  count_numbers-inorder stop input t run h = let w = walks t h in rw (run, w.0, w.1)

  -- On an input whose first number is not `stop` the program prints one line for each number in
  -- front of the first `stop`, in increasing order, with the number of its occurrences there.
  pub count_numbers-Tallies :
      (stop x : K) (xs : List K)
      → o.eqb x stop ≡ false
      → (out : List (K × ℕ)) × (count_numbers stop (x ∷ xs) ≡ some out)
        × Tallies (before_stop stop (x ∷ xs)) out
  count_numbers-Tallies stop x xs h =
      let numbers = x ∷ before_stop stop xs in
      let (t, run, nonnull, v) =
        read_counts-IsDictionary (occurrences numbers) stop xs (bump null x) refl (
          bump-IsDictionary (occurrences numbers) x (before_stop stop xs) null
            (start-IsDictionary numbers)) in
      (
        inorder t,
        count_numbers-inorder stop (x ∷ xs) t (read_counts-cons stop x xs null h ∙ run) nonnull,
        rw h (
          subst Increasing (sym (inorder-keys t)) (inorder-Increasing (keys t) v.order),
          AllIn-inorder IsCounted t v.counted,
          λ y. omega (arith, v.tallies y),
        ),
      )
