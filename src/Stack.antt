-- ===== src/Stack.antt =====
-- The array stack that course1-1/9-seminar-stack/stack_postfix.c and stack_skobki.c (and, as a
-- copy, course1-2/3-neo-at-the-architect/2-fpu.c) are built on. `malloc` and `realloc` are taken to
-- succeed; `cells` gives what stands in the allocated memory.
pub mod Laws
pub mod Postfix
pub mod Tests
pub mod Brackets
use mipt_informatics.Base.{
  ℕ, zero, suc, ◌+◌, ◌-◌, ◌*◌, ◌^◌, Bool, true, false, not, List, [], ◌∷◌, Option, none, some, ltb,
  leb, ◌==◌, if◌then◌else◌,
}
use mipt_informatics.Base.Run.{Run, done, fault, out_of_fuel, ◌>>=◌, ◌>>◌, assert}

-- `struct Stack`: `a` are the cells of the array, of which `size` are allocated
pub record Stack (A : Type 0) : Type 0 where
  pub n : ℕ
  pub size : ℕ
  pub a : ℕ → A

-- one more than the largest `int`
abbrev pub int_limit : ℕ
int_limit = 2 ^ 31

-- `while (s->n >= s->size) { … s->size *= 2 … }`; a product that is no `int` is a fault
pub grow : ℕ → (n size : ℕ) → Run ℕ
grow zero n size = out_of_fuel
grow (suc fuel) n size =
    let rest = grow fuel n (size * 2) in
    if leb size n then (if ltb (size * 2) int_limit then rest else fault) else done size

module _ {A : Type 0} where
  abbrev pub write : (ℕ → A) → ℕ → A → ℕ → A
  write a i x j = if j == i then x else a j

  pub stack_create : (cells : ℕ → A) → ℕ → Stack A
  stack_create cells size = record { n = 0; size = size; a = cells }

  pub stack_is_empty : Stack A → Bool
  stack_is_empty s = s.n == 0

  pub stack_push : ℕ → Stack A → A → Run (Stack A)
  stack_push fuel s x = do
    size ← grow fuel s.n s.size
    done (record { n = s.n + 1; size = size; a = write s.a s.n x })

  pub stack_pop : Stack A → Run (A × Stack A)
  stack_pop s = do assert (not (s.n == 0)); done (s.a (s.n - 1), record s { n = s.n - 1 })

  pub stack_get : Stack A → Run A
  stack_get s = do assert (not (s.n == 0)); done (s.a (s.n - 1))

  -- the cells from 0 up to `n - 1`
  abbrev pub cells_below : ℕ → (ℕ → A) → List A
  cells_below zero a = []
  cells_below (suc n) a = a 0 ∷ cells_below n (λ i. a (suc i))

  -- the values printed; `none` is the message "Empty stack"
  pub stack_print : Stack A → Option (List A)
  stack_print s = if not (s.n == 0) then some (cells_below s.n s.a) else none

  pub stack_size : Stack A → ℕ
  stack_size s = s.n

  pub stack_clear : Stack A → Stack A
  stack_clear s = record s { n = 0 }
