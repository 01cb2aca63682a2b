-- ===== src/SearchTree/Flat.antt =====
-- course1-1/12-seminar-datacenter/data_tree_flat.c: a search tree from an array.
-- `qsort` is not in the repository; it is the parameter `sort`, with its documented contract.
use mipt_informatics.Base.{
  ℕ, zero, suc, ◌+◌, ◌-◌, ◌*◌, ◌/◌, ◌^◌, ◌≤◌, ◌<◌, ◌≡◌, refl, ap, sym, ◌∙◌, length-drop,
  length-perm, take-length, ◌&&◌, Option, none, some, List, [], ◌∷◌, ◌++◌, arith, ltb, leb, ◌==◌,
  if◌then◌else◌, length, get_elem?, take, drop,
}
use native.Mathlib.Decide.{dec_lt}
use mathlib.Core.List.{Perm}
use native.Mathlib.Nat.{zero-add, suc-add, pow-suc}
use mathlib.Core.Path.{subst}
use mipt_informatics.Base.Fault.{◌>>=◌}
use mipt_informatics.SearchTree.{Tree, null, node}
use mipt_informatics.SearchTree.Shape.{inorder}
use mipt_informatics.SearchTree.Breadth.{depth}

module _ {K : Type 0} where
  -- The recursion runs on fuel; `none` is a failed `assert`, a read out of bounds or the end of the
  -- fuel.
  pub create_flat_recursive : ℕ → List K → (L R : ℕ) → Option (Tree K)
  create_flat_recursive zero array L R = none
  create_flat_recursive (suc fuel) array L R =
      let M = L + (R - L) / 2 in
      let split = (do
        x ← get_elem? array M
        left ← create_flat_recursive fuel array L M
        right ← create_flat_recursive fuel array (M + 1) R
        some (node left x right)) in
      let single = (do x ← get_elem? array L; some (node null x null)) in
      if leb L R
      then (if L == R
          then some null
          else if leb L M && leb M R
          then (if ltb M R then split else single)
          else none)
      else none

  -- `sort` stands for the call of `qsort` on the copy of the array
  pub create_flat : (sort : List K → List K) → List K → Option (Tree K)
  unfolding create_flat_recursive
  create_flat sort a = create_flat_recursive (length a + 1) (sort a) 0 (length a)

  -- the cells `L`, …, `L + n - 1`
  abbrev slice : List K → ℕ → ℕ → List K
  slice array L n = take n (drop L array)

  take-split :
      (ys : List K) (n m : ℕ)
      → n + m < length ys
      → (x : K) × (get_elem? ys n ≡ some x)
        × (take (n + suc m) ys ≡ take n ys ++ x ∷ take m (drop (suc n) ys))
  take-split [] n m h = absurd (omega arith)
  take-split (y ∷ ys) zero m h = (y, refl, rw zero-add)
  take-split (y ∷ ys) (suc n) m h =
      let (x, at, eq) = take-split ys n m (omega arith) in (x, at, rw (suc-add, eq))

  get_elem?-drop :
      (array : List K) (L n k : ℕ) → L + n ≡ k → get_elem? (drop L array) n ≡ get_elem? array k
  get_elem?-drop array zero n k e = let e' : n ≡ k = omega arith in rw e'
  get_elem?-drop [] (suc L) n k e = refl
  get_elem?-drop (a ∷ array) (suc L) n zero e = absurd (omega arith)
  get_elem?-drop (a ∷ array) (suc L) n (suc k) e = get_elem?-drop array L n k (omega arith)

  drop-drop : (array : List K) (L n k : ℕ) → L + n ≡ k → drop n (drop L array) ≡ drop k array
  drop-drop array zero n k e = let e' : n ≡ k = omega arith in rw e'
  drop-drop [] (suc L) zero zero e = refl
  drop-drop [] (suc L) zero (suc k) e = refl
  drop-drop [] (suc L) (suc n) zero e = refl
  drop-drop [] (suc L) (suc n) (suc k) e = refl
  drop-drop (a ∷ array) (suc L) n zero e = absurd (omega arith)
  drop-drop (a ∷ array) (suc L) n (suc k) e = drop-drop array L n k (omega arith)

  -- the tree that the recursion builds from the `n` cells from `L` on
  abbrev Built : List K → ℕ → ℕ → Tree K → Type 0
  Built array L n tree = (inorder tree ≡ slice array L n) × ((k : ℕ) → n < 2 ^ k → depth tree ≤ k)

  step_empty :
      (fuel : ℕ) (array : List K) (L : ℕ) → create_flat_recursive (suc fuel) array L L ≡ some null
  unfolding create_flat_recursive
  step_empty fuel array L = ground arith

  step_split :
      (fuel : ℕ) (array : List K) (L R M : ℕ) {x : K} {left right : Tree K}
      → L < R
      → M ≡ L + (R - L) / 2
      → get_elem? array M ≡ some x
      → create_flat_recursive fuel array L M ≡ some left
      → create_flat_recursive fuel array (M + 1) R ≡ some right
      → create_flat_recursive (suc fuel) array L R ≡ some (node left x right)
  unfolding create_flat_recursive
  step_split fuel array L R M h m at l r = rw (← m, at, l, r) (ground arith)

  Built-node :
      (array : List K) (L n m : ℕ) (x : K) (left right : Tree K)
      → m ≤ n
      → n ≤ suc m
      → L + n + m < length array
      → get_elem? array (L + n) ≡ some x
      → Built array L n left
      → Built array (L + n + 1) m right
      → Built array L (suc (n + m)) (node left x right)
  Built-node array L n m x left right p q h at bl br = (order_step, λ k small. depth_step k small)
    where
      order_step : inorder (node left x right) ≡ slice array L (suc (n + m))
      order_step =
          let (y, at', eq) = take-split (drop L array) n m (omega (arith, length-drop L array)) in
          let same : some x ≡ some y =
            sym at ∙ (sym (get_elem?-drop array L n (L + n) refl) ∙ at') in
          let count : suc (n + m) ≡ n + suc m = omega arith in
          let rest : drop (suc n) (drop L array) ≡ drop (L + n + 1) array =
            drop-drop array L (suc n) (L + n + 1) (omega arith) in
          rw (count, eq, rest, bl.0, br.0) (cc same)

      depth_step : (k : ℕ) → suc (n + m) < 2 ^ k → depth (node left x right) ≤ k
      depth_step zero small = absurd (omega arith)
      depth_step (suc k) small =
          let half : 2 ^ suc k ≡ 2 ^ k * 2 = pow-suc 2 k in
          omega (arith, bl.1 k (omega arith), br.1 k (omega arith))

  create_flat_recursive-Built :
      (fuel : ℕ) (array : List K) (L R : ℕ)
      → R - L < fuel
      → L ≤ R
      → R ≤ length array
      → (tree : Tree K) × (create_flat_recursive fuel array L R ≡ some tree)
        × Built array L (R - L) tree
  create_flat_recursive-Built zero array L R f h k = absurd (omega arith)
  create_flat_recursive-Built (suc fuel) array L R f h k = elim (dec_lt L R) [
    | yes lt ↦
        let M = L + (R - L) / 2 in
        let (x, at, eq) =
          take-split (drop L array) ((R - L) / 2) (R - L - (R - L) / 2 - 1)
            (omega (arith, length-drop L array)) in
        let (left, el, bl) =
          create_flat_recursive-Built fuel array L M (omega arith) (omega arith) (omega arith) in
        let (right, er, br) =
          create_flat_recursive-Built fuel array (M + 1) R (omega arith) (omega arith)
            (omega arith) in
        let at' : get_elem? array M ≡ some x =
          sym (get_elem?-drop array L ((R - L) / 2) M refl) ∙ at in
        let n_left : M - L ≡ (R - L) / 2 = omega arith in
        let count : R - L ≡ suc ((R - L) / 2 + (R - (M + 1))) = omega arith in
        (
          node left x right,
          step_split fuel array L R M lt refl at' el er,
          subst (λ c. Built array L c (node left x right)) (sym count)
              (Built-node array L ((R - L) / 2) (R - (M + 1)) x left right (omega arith)
                (omega arith) (omega arith) at' (subst (λ c. Built array L c left) n_left bl) br),
        )
    | no ge ↦
        let same : L ≡ R = omega arith in
        let none_left : R - L ≡ 0 = omega arith in
        (
          null,
          subst (λ c. create_flat_recursive (suc fuel) array L c ≡ some null) same
              (step_empty fuel array L),
          (rw none_left, λ k small. omega arith),
        )
  ]

  -- If `qsort` permutes the array, `create_flat` makes a tree that holds the sorted array in order
  -- and whose depth is at most `k` if the array has fewer than `2 ^ k` values; no `assert` fails and
  -- no read is out of bounds.
  pub create_flat-Built :
      (sort : List K → List K) (a : List K)
      → Perm (sort a) a
      → (tree : Tree K) × (create_flat sort a ≡ some tree)
        × (inorder tree ≡ sort a)
        × ((k : ℕ) → length a < 2 ^ k → depth tree ≤ k)
  unfolding create_flat
  create_flat-Built sort a perm =
      let long : length (sort a) ≡ length a = length-perm perm in
      let (tree, run, built) =
        create_flat_recursive-Built (length a + 1) (sort a) 0 (length a) (omega arith) (omega arith)
          (omega arith) in
      let all : length a - 0 ≡ length (sort a) = omega arith in
      (
        tree,
        run,
        built.0 ∙ (ap (λ c. take c (sort a)) all ∙ take-length (sort a)),
        λ k small. built.1 k (omega arith),
      )
