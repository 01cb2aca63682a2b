-- ===== src/SearchTree/Balance.antt =====
-- The heights of tree_3_depth.c and the balance check of tree_5_check_balanced.c, both of
-- course1-1/11-seminar-tree.
use mipt_informatics.Base.{
  ℕ, suc, ◌+◌, ◌-◌, ◌<◌, ◌≡◌, refl, ap, Bool, true, false, ◌&&◌, ◌||◌, Option, none, some, arith,
  ltb, leb, ◌==◌, if◌then◌else◌,
}
use Prim.Native.Nat.{max}
use mipt_informatics.Base.Fault.{◌>>=◌}
use mipt_informatics.SearchTree.{Tree, null, node, if_child}
use mipt_informatics.SearchTree.Breadth.{depth}

-- `labs (a - b)`
abbrev pub distance : ℕ → ℕ → ℕ
distance a b = if ltb a b then b - a else a - b

-- `if (child && (tmp = tree_get_height (child, height + 1)) > result) { result = tmp; }`
abbrev pub raise : ℕ → ℕ → ℕ
raise result tmp = if ltb result tmp then tmp else result

-- the test at the end of the check: 0 stands for "unbalanced"
abbrev pub verdict : (base left_height right_height : ℕ) → ℕ
verdict base left_height right_height =
    if left_height == 0 || right_height == 0 || ltb 1 (distance left_height right_height)
    then 0
    else raise (raise base left_height) right_height

verdict_lem :
    (height a b : ℕ) (p q : Bool)
    → verdict (height + 1) (if p then height + 1 + a else 0) (if q then height + 1 + b else 0)
      ≡ (if p && q && leb (distance a b) 1 then height + suc (max a b) else 0)
verdict_lem height a b true true = ground arith
verdict_lem height a b true false = ground arith
verdict_lem height a b false q = refl

module _ {K : Type 0} where
  pub tree_get_height : Tree K → ℕ → Option ℕ
  tree_get_height null height = none
  tree_get_height (node l x r) height = do
    let result = height + 1
    left ← if_child l (some result) (tree_get_height l (height + 1))
    right ← if_child r (some result) (tree_get_height r (height + 1))
    some (raise (raise result left) right)

  pub tree_get_height_and_check_balance : Tree K → ℕ → Option ℕ
  tree_get_height_and_check_balance null height = none
  tree_get_height_and_check_balance (node l x r) height = do
    let base = height + 1
    left_height ← if_child l (some base) (tree_get_height_and_check_balance l base)
    right_height ← if_child r (some base) (tree_get_height_and_check_balance r base)
    some (verdict base left_height right_height)

  -- at every node the depths of the two subtrees differ by at most 1
  abbrev pub is_balanced : Tree K → Bool
  is_balanced null = true
  is_balanced (node l x r) = is_balanced l && is_balanced r && leb (distance (depth l) (depth r)) 1

  child-depth :
      (t : Tree K) (height : ℕ)
      → if_child t (some height) (tree_get_height t height) ≡ some (height + depth t)
  unfolding tree_get_height
  child-depth null height = ground arith
  child-depth (node l x r) height =
      rw (child-depth l (height + 1), child-depth r (height + 1)) (ground arith)

  -- The height of a tree that is not `NULL` is the given height and the tree's depth.
  pub tree_get_height-depth :
      (l r : Tree K) (x : K) (height : ℕ)
      → tree_get_height (node l x r) height ≡ some (height + depth (node l x r))
  tree_get_height-depth l r x height = child-depth (node l x r) height

  child-balance :
      (t : Tree K) (height : ℕ)
      → 0 < height
      → if_child t (some height) (tree_get_height_and_check_balance t height)
        ≡ some (if is_balanced t then height + depth t else 0)
  unfolding tree_get_height_and_check_balance
  child-balance null height h = ground arith
  child-balance (node l x r) height h =
      rw (child-balance l (height + 1) (omega arith), child-balance r (height + 1) (omega arith))
        (ap some (verdict_lem height (depth l) (depth r) (is_balanced l) (is_balanced r)))

  -- Of a tree that is not `NULL` the check returns the sum of the given height and the depth if the tree is balanced, and 0 if it
  -- is not.
  pub tree_get_height_and_check_balance_lem :
      (l r : Tree K) (x : K) (height : ℕ)
      → tree_get_height_and_check_balance (node l x r) height
        ≡ some (if is_balanced (node l x r) then height + depth (node l x r) else 0)
  unfolding tree_get_height_and_check_balance
  tree_get_height_and_check_balance_lem l r x height =
      rw (child-balance l (height + 1) (omega arith), child-balance r (height + 1) (omega arith))
        (ap some (verdict_lem height (depth l) (depth r) (is_balanced l) (is_balanced r)))
