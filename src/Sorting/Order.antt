-- ===== src/Sorting/Order.antt =====
-- The sorted list is strictly increasing and has the elements of the list.
use mipt_informatics.Base.{
  ℕ, zero, suc, ◌+◌, ◌≤◌, ◌≡◌, refl, sym, ap, ◌∙◌, Bool, Bool-cases, true, false, ◌||◌, some, inl,
  inr, List, [], ◌∷◌, arith, length, get_elem?,
}
use mathlib.Core.Path.{subst}
use mipt_informatics.Base.Int.{ℤ, ltb_ℤ, eqb_ℤ, ◌≤ℤ◌}
use mipt_informatics.Base.Run.{Run, done}
use mipt_informatics.Sorting.{max_loop, remove_at, insert_front, sort_loop, list_sort}

abbrev pub contains : List ℤ → ℤ → Bool
contains [] v = false
contains (x ∷ list) v = eqb_ℤ x v || contains list v

abbrev pub AllAtMost : ℤ → List ℤ → Type 0
AllAtMost m [] = Unit
AllAtMost m (x ∷ list) = (x ≤ℤ m) × AllAtMost m list

abbrev pub IsIncreasing : List ℤ → Type 0
IsIncreasing [] = Unit
IsIncreasing (x ∷ []) = Unit
IsIncreasing (x ∷ y ∷ list) = (ltb_ℤ x y ≡ true) × IsIncreasing (y ∷ list)

-- the elements are at most the front of the sorted list
abbrev AtMostFront : List ℤ → List ℤ → Type 0
AtMostFront list [] = Unit
AtMostFront list (y ∷ sorted_list) = AllAtMost y list

AllAtMost-trans : (m n : ℤ) (list : List ℤ) → m ≤ℤ n → AllAtMost m list → AllAtMost n list
AllAtMost-trans m n [] h a = tt
AllAtMost-trans m n (x ∷ list) h a = (omega (arith, a.0), AllAtMost-trans m n list h a.1)

AllAtMost-remove_at :
    (m : ℤ) (i : ℕ) (list : List ℤ) → AllAtMost m list → AllAtMost m (remove_at i list)
AllAtMost-remove_at m i [] a = tt
AllAtMost-remove_at m zero (x ∷ list) a = a.1
AllAtMost-remove_at m (suc i) (x ∷ list) a = (a.0, AllAtMost-remove_at m i list a.1)

module _ (x : ℤ) (list : List ℤ) (cur max : ℕ) (val : ℤ) where
  max_loop-gt : ltb_ℤ val x ≡ true → max_loop (x ∷ list) cur max val ≡ max_loop list (cur + 1) cur x
  unfolding max_loop
  max_loop-gt e = rw (max_loop, e)

  max_loop-le :
      ltb_ℤ val x ≡ false → max_loop (x ∷ list) cur max val ≡ max_loop list (cur + 1) max val
  unfolding max_loop
  max_loop-le e = rw (max_loop, e)

-- the loop finds a value that is at least the first one and those of the list
max_loop-max :
    (list : List ℤ) (cur max : ℕ) (val : ℤ)
    → (val ≤ℤ (max_loop list cur max val).1) × AllAtMost (max_loop list cur max val).1 list
unfolding max_loop
max_loop-max [] cur max val = (omega arith, tt)
max_loop-max (x ∷ list) cur max val = elim (Bool-cases (ltb_ℤ val x)) [
  | inl e ↦
      let (h, a) = max_loop-max list (cur + 1) cur x in
      subst (λ r. (val ≤ℤ r.1) × AllAtMost r.1 (x ∷ list)) (sym (max_loop-gt x list cur max val e))
        (ground (arith, e, h), (h, a))
  | inr e ↦
      let (h, a) = max_loop-max list (cur + 1) max val in
      subst (λ r. (val ≤ℤ r.1) × AllAtMost r.1 (x ∷ list)) (sym (max_loop-le x list cur max val e))
        (h, (ground (arith, e, h), a))
]

-- at the index that it finds
max_loop-at :
    (list whole : List ℤ) (cur max : ℕ) (val : ℤ)
    → ((i : ℕ) → get_elem? whole (cur + i) ≡ get_elem? list i)
    → get_elem? whole max ≡ some val
    → get_elem? whole (max_loop list cur max val).0 ≡ some (max_loop list cur max val).1
unfolding max_loop
max_loop-at [] whole cur max val shift at = at
max_loop-at (x ∷ list) whole cur max val shift at =
    let shift' = λ (i : ℕ). ap (get_elem? whole) (next_index cur i) ∙ shift (suc i) in
    elim (Bool-cases (ltb_ℤ val x)) [
      | inl e ↦
          subst (λ r. get_elem? whole r.0 ≡ some r.1) (sym (max_loop-gt x list cur max val e))
            (max_loop-at list whole (cur + 1) cur x shift'
              (ap (get_elem? whole) (this_index cur) ∙ shift 0))
      | inr e ↦
          subst (λ r. get_elem? whole r.0 ≡ some r.1) (sym (max_loop-le x list cur max val e))
            (max_loop-at list whole (cur + 1) max val shift' at)
    ]
  where
    next_index : (cur i : ℕ) → cur + 1 + i ≡ cur + suc i
    next_index cur i = omega arith

    this_index : (cur : ℕ) → cur ≡ cur + 0
    this_index cur = omega arith

contains-remove_at :
    (list : List ℤ) (i : ℕ) (x v : ℤ)
    → get_elem? list i ≡ some x
    → contains list v ≡ (eqb_ℤ x v || contains (remove_at i list) v)
contains-remove_at [] i x v e = cc
contains-remove_at (y ∷ list) zero x v e = ground (arith, e)
contains-remove_at (y ∷ list) (suc i) x v e = ground (arith, contains-remove_at list i x v e)

length-remove_at :
    (list : List ℤ) (i : ℕ) (x : ℤ)
    → get_elem? list i ≡ some x
    → length (remove_at i list) + 1 ≡ length list
length-remove_at [] i x e = cc
length-remove_at (y ∷ list) zero x e = omega arith
length-remove_at (y ∷ list) (suc i) x e = omega (arith, length-remove_at list i x e)

contains-insert_front :
    (x v : ℤ) (list : List ℤ) → contains (insert_front x list) v ≡ (eqb_ℤ x v || contains list v)
contains-insert_front x v [] = refl
contains-insert_front x v (y ∷ list) = ground arith

insert_front-IsIncreasing :
    (x : ℤ) (list : List ℤ)
    → AtMostFront (x ∷ []) list
    → IsIncreasing list
    → IsIncreasing (insert_front x list)
insert_front-IsIncreasing x [] h i = tt
insert_front-IsIncreasing x (y ∷ list) h i = elim (Bool-cases (eqb_ℤ x y)) [
  | inl e ↦ rw e i
  | inr e ↦ rw e (ground (arith, e, h.0), i)
]

AllAtMost-get_elem? :
    (m x : ℤ) (list : List ℤ) (i : ℕ) → AllAtMost m list → get_elem? list i ≡ some x → x ≤ℤ m
AllAtMost-get_elem? m x [] i a e = cc
AllAtMost-get_elem? m x (y ∷ list) zero a e = ground (arith, a.0, e)
AllAtMost-get_elem? m x (y ∷ list) (suc i) a e = AllAtMost-get_elem? m x list i a.1 e

insert_front-AtMostFront :
    (x : ℤ) (list rest : List ℤ)
    → AtMostFront rest list
    → AllAtMost x rest
    → AtMostFront rest (insert_front x list)
insert_front-AtMostFront x [] rest h a = a
insert_front-AtMostFront x (y ∷ list) rest h a = elim (Bool-cases (eqb_ℤ x y)) [
  | inl e ↦ rw e h
  | inr e ↦ rw e a
]

-- a list that is strictly increasing, with the elements of two others
abbrev pub Sorts : List ℤ → List ℤ → Run (List ℤ) → Type 0
Sorts list sorted_list r =
    (result : List ℤ) × (r ≡ done result)
    × IsIncreasing result
    × ((v : ℤ) → contains result v ≡ (contains list v || contains sorted_list v))

AtMostFront-remove_at :
    (i : ℕ) (list sorted_list : List ℤ)
    → AtMostFront list sorted_list
    → AtMostFront (remove_at i list) sorted_list
AtMostFront-remove_at i list [] h = tt
AtMostFront-remove_at i list (y ∷ sorted_list) h = AllAtMost-remove_at y i list h

AtMostFront-get_elem? :
    (i : ℕ) (x : ℤ) (list sorted_list : List ℤ)
    → AtMostFront list sorted_list
    → get_elem? list i ≡ some x
    → AtMostFront (x ∷ []) sorted_list
AtMostFront-get_elem? i x list [] h e = tt
AtMostFront-get_elem? i x list (y ∷ sorted_list) h e = (AllAtMost-get_elem? y x list i h e, tt)

one_plus : (k : ℕ) → 1 + k ≡ suc k
one_plus k = omega arith

or_shuffle : (a b c : Bool) → (a || (b || c)) ≡ ((b || a) || c)
or_shuffle a b c = ground arith

sort_loop-Sorts :
    (fuel : ℕ) (list sorted_list : List ℤ)
    → length list ≤ fuel
    → AtMostFront list sorted_list
    → IsIncreasing sorted_list
    → Sorts list sorted_list (sort_loop fuel list sorted_list)
unfolding sort_loop
sort_loop-Sorts fuel [] sorted_list long h i = (sorted_list, refl, i, λ v. refl)
sort_loop-Sorts zero (x ∷ list) sorted_list long h i = absurd (omega (arith, long))
sort_loop-Sorts (suc fuel) (x ∷ list) sorted_list long h i =
    let (max, val) = max_loop list 1 0 x in
    let (first, all) = max_loop-max list 1 0 x in
    let at = max_loop-at list (x ∷ list) 1 0 x (λ k. ap (get_elem? (x ∷ list)) (one_plus k)) refl in
    let rest = remove_at max (x ∷ list) in
    let few = length-remove_at (x ∷ list) max val at in
    let (result, run, inc, same) =
      sort_loop-Sorts fuel rest (insert_front val sorted_list) (omega (arith, few, long))
        (insert_front-AtMostFront val sorted_list rest
          (AtMostFront-remove_at max (x ∷ list) sorted_list h)
          (AllAtMost-remove_at val max (x ∷ list) (first, all)))
        (insert_front-IsIncreasing val sorted_list
          (AtMostFront-get_elem? max val (x ∷ list) sorted_list h at) i) in
    (
      result,
      run,
      inc,
      λ v.
          same v
          ∙ ap (λ b. contains rest v || b) (contains-insert_front val v sorted_list)
          ∙ or_shuffle (contains rest v) (eqb_ℤ val v) (contains sorted_list v)
          ∙ ap (λ b. b || contains sorted_list v)
              (sym (contains-remove_at (x ∷ list) max val v at)),
    )

or_false : (b : Bool) → b ≡ (b || false)
or_false true = refl
or_false false = refl

-- The sort ends with a strictly increasing list that has exactly the elements of the list.
pub list_sort-Sorts : (list : List ℤ) → Sorts list [] (list_sort list)
unfolding list_sort
list_sort-Sorts [] = ([], refl, tt, λ v. refl)
list_sort-Sorts (x ∷ []) = (x ∷ [], refl, tt, λ v. or_false (contains (x ∷ []) v))
list_sort-Sorts (x ∷ y ∷ list) =
    sort_loop-Sorts (length list + 2) (x ∷ y ∷ list) [] (omega arith) tt tt
