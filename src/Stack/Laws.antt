-- ===== src/Stack/Laws.antt =====
-- The operations of the stack on the list of its values, the last one first.
use mipt_informatics.Base.{
  ℕ, zero, suc, ◌+◌, ◌-◌, ◌*◌, ◌^◌, ◌<◌, ◌≤◌, ◌≡◌, refl, ap, List, [], ◌∷◌, arith, Bool-cases, inl,
  inr, leb,
}
use native.Mathlib.Nat.{pow-suc}
use mathlib.Core.Path.{subst}
use mipt_informatics.Base.Run.{Run, done, fault, out_of_fuel}
use mipt_informatics.Stack.{Stack, int_limit, grow, write, stack_create, stack_push, stack_pop}

-- With fuel for the doublings that are left, the loop ends with a size above `n`.
grow_bounds :
    (fuel n size : ℕ)
    → n < size * 2 ^ fuel
    → 0 < size
    → size < int_limit
    → n < 2 ^ 30
    → (size' : ℕ) × (grow (suc fuel) n size ≡ done size') × (n < size') × (size' < int_limit)
unfolding grow
grow_bounds zero n size h p q k = (size, ground arith, omega arith, q)
grow_bounds (suc fuel) n size h p q k = elim (Bool-cases (leb size n)) [
  | inl full ↦
      let double : 2 ^ suc fuel ≡ 2 ^ fuel * 2 = pow-suc 2 fuel in
      let (size', run, above, small) =
        grow_bounds fuel n (size * 2) (omega (arith, ap (λ (t : ℕ). size * t) double)) (omega arith)
          (ground arith) k in
      (size', ground (arith, run), above, small)
  | inr room ↦ (size, rw room, ground arith, q)
]

-- A stack of size 0 is never enlarged: its loop does not end.
pub grow-zero : (fuel n : ℕ) → grow fuel n 0 ≡ out_of_fuel
unfolding grow
grow-zero zero n = refl
grow-zero (suc fuel) n = ground (arith, grow-zero fuel n)

module _ {A : Type 0} where
  -- the values below `n`, the last one first
  abbrev pub values : ℕ → (ℕ → A) → List A
  values zero a = []
  values (suc n) a = a n ∷ values n a

  abbrev pub contents : Stack A → List A
  contents s = values s.n s.a

  pub record IsValid (s : Stack A) : Type 0 where
    pub within : s.n ≤ s.size
    pub pos : 0 < s.size
    pub small : s.size < int_limit

  values-write : (n m : ℕ) (a : ℕ → A) (x : A) → n ≤ m → values n (write a m x) ≡ values n a
  values-write zero m a x h = refl
  values-write (suc n) m a x h = ground (arith, values-write n m a x)

  pub stack_create-IsValid :
      (cells : ℕ → A) (size : ℕ)
      → 0 < size
      → size < int_limit
      → IsValid (stack_create cells size) × (contents (stack_create cells size) ≡ [])
  unfolding stack_create
  stack_create-IsValid cells size h k = (omega arith, refl)

  -- the stack that a push onto `s` yields
  abbrev pub Pushed : Stack A → A → Stack A → Type 0
  Pushed s x s' = IsValid s' × (contents s' ≡ x ∷ contents s) × (s'.n ≡ s.n + 1)

  -- A push onto a valid stack of fewer than 2 ^ 30 values ends, with the new value on top of the
  -- others, and leaves a valid stack.
  pub stack_push-Pushed :
      (s : Stack A) (x : A)
      → IsValid s
      → s.n < 2 ^ 30
      → (s' : Stack A) × (stack_push 31 s x ≡ done s') × Pushed s x s'
  unfolding stack_push
  stack_push-Pushed s x v h =
      let (size, run, above, small) =
        grow_bounds 30 s.n s.size (omega (arith, v.pos)) v.pos v.small h in
      let after : Stack A = record { n = s.n + 1; size = size; a = write s.a s.n x } in
      (after, rw run, ground (arith, values-write s.n s.n s.a x))

  -- what a pop of the stack `s` with the values `xs` comes to
  abbrev pub Popped : Stack A → List A → Run (A × Stack A) → Type 0
  Popped s [] r = r ≡ fault
  Popped s (x ∷ xs) r =
      (s' : Stack A) × (r ≡ done (x, s')) × IsValid s' × (contents s' ≡ xs) × (s'.n + 1 ≡ s.n)

  pop_fields :
      (n size : ℕ) (a : ℕ → A)
      → IsValid (record { n = n; size = size; a = a })
      → Popped
          (record { n = n; size = size; a = a })
          (values n a)
          (stack_pop (record { n = n; size = size; a = a }))
  unfolding stack_pop
  pop_fields zero size a v = refl
  pop_fields (suc n) size a v =
      let last : suc n - 1 ≡ n = omega arith in
      (
        record { n = n; size = size; a = a },
        rw last (ground arith),
        record { within = omega (arith, v.within); pos = v.pos; small = v.small },
        refl,
        omega arith,
      )

  -- A pop of a valid stack returns the value on top and leaves a valid stack of the others; of an
  -- empty stack it fails the `assert`.
  pub stack_pop-Popped : (s : Stack A) → IsValid s → Popped s (contents s) (stack_pop s)
  stack_pop-Popped s v = pop_fields s.n s.size s.a v

  pub stack_pop-cons :
      (s : Stack A) (x : A) (xs : List A)
      → IsValid s
      → contents s ≡ x ∷ xs
      → (s' : Stack A) × (stack_pop s ≡ done (x, s'))
        × IsValid s'
        × (contents s' ≡ xs)
        × (s'.n + 1 ≡ s.n)
  stack_pop-cons s x xs v e = subst (λ l. Popped s l (stack_pop s)) e (stack_pop-Popped s v)
