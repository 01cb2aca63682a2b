-- ===== src/Stack/Brackets/Check.antt =====
-- `main` of stack_skobki.c and balanced lines.
use mipt_informatics.Base.{
  ℕ, zero, suc, ◌+◌, ◌/◌, ◌^◌, ◌<◌, ◌≤◌, ◌≡◌, refl, Bool, true, false, not, ◌||◌, inl, inr, ◌↔◌,
  Bool-cases, Option, none, some, List, [], ◌∷◌, arith, ◌==◌, if◌then◌else◌, length,
}
use mipt_informatics.Base.Fault
use mipt_informatics.Base.Run
use mipt_informatics.Base.Run.{Run, done, fault, out_of_fuel}
use mipt_informatics.Stack.{Stack, stack_create, stack_is_empty, stack_pop}
use mipt_informatics.Stack.Laws.{
  IsValid, values, contents, Popped, stack_push-Pushed, stack_pop-Popped, stack_create-IsValid,
  grow-zero,
}
use mipt_informatics.Stack.Brackets.{is_opening, opening_of, close, handle, scan_line, check_line}
use mipt_informatics.Stack.Brackets.Balanced.{
  Kind, opens, closes, plain, kind, next_open, pop_open, scan, Balanced, scan-iff-Balanced,
}

-- what the switch makes of a character
abbrev switch : ℕ → Kind
switch c = if is_opening c then opens else elim (opening_of c) [ none ↦ plain | some o ↦ closes o ]

kind-switch : (c : ℕ) → kind c ≡ switch c
kind-switch c = ground arith

abbrev is_nil : List ℕ → Bool
is_nil [] = true
is_nil (x ∷ xs) = false

-- a run whose failure flag and stack agree with the list of open brackets
abbrev Agrees : ℕ → Option (List ℕ) → Run (Bool × Stack ℕ) → Type 0
Agrees room none r = (s : Stack ℕ) × (r ≡ done (true, s))
Agrees room (some stack) r =
    (s : Stack ℕ) × (r ≡ done (false, s)) × IsValid s × (contents s ≡ stack) × (s.n ≤ room)

Agrees-weaken :
    (room : ℕ) (o : Option (List ℕ)) (r : Run (Bool × Stack ℕ))
    → Agrees room o r
    → Agrees (room + 1) o r
Agrees-weaken room none r h = h
Agrees-weaken room (some stack) r (s, run, v, e, n) = (s, run, v, e, omega arith)

module _ (s : Stack ℕ) (v : IsValid s) where
  no_top : stack_pop s ≡ fault → (s.n == 0) ≡ true
  unfolding stack_pop
  no_top p = ground arith

  close-Agrees :
      (o : ℕ) (stack : List ℕ)
      → contents s ≡ stack
      → Popped s stack (stack_pop s)
      → Agrees s.n (pop_open o stack) (close o s)
  unfolding close stack_is_empty
  close-Agrees o [] e p = (s, rw (no_top p))
  close-Agrees o (top ∷ stack) e (s', run, v', e', less) =
      let some_left : (s.n == 0) ≡ false = ground arith in
      elim (Bool-cases (top == o)) [
        | inl same ↦ rw same (s', rw some_left (rw run (rw same refl)), v', e', omega arith)
        | inr other ↦ rw other (s', rw some_left (rw run (rw other refl)))
      ]

  handle-Agrees :
      (c : ℕ) → s.n < 2 ^ 30 → Agrees (s.n + 1) (next_open (kind c) c (contents s)) (handle 31 c s)
  unfolding handle
  handle-Agrees c h = rw (kind-switch c) elim (Bool-cases (is_opening c)) [
    | inl o ↦
        let (s', run, pushed) = stack_push-Pushed s c v h in
        rw (o, run) (s', refl, pushed.0, pushed.1, omega (arith, pushed.2))
    | inr n ↦ rw n (other (opening_of c))
  ]
    where
      other :
          (o : Option ℕ)
          → Agrees
              (s.n + 1)
              (next_open (elim o [ none ↦ plain | some p ↦ closes p ]) c (contents s))
              (elim o [ none ↦ done (false, s) | some p ↦ close p s ])
      other none = (s, refl, v, refl, omega arith)
      other (some p) =
          Agrees-weaken _ (pop_open p (contents s)) _
            (close-Agrees p (contents s) refl (stack_pop-Popped s v))

-- The loop goes on with the stack behind a character, if there was no failure.
go_on-Agrees :
    (cs : List ℕ) (room total : ℕ) (o : Option (List ℕ)) (r : Run (Bool × Stack ℕ))
    → Agrees room o r
    → ((s : Stack ℕ)
        → IsValid s
        → s.n ≤ room
        → Agrees total (scan cs (contents s)) (scan_line 31 cs s))
    → Agrees total (Fault.◌>>=◌ o (scan cs)) (
        Run.◌>>=◌ r
          (λ (failure, s). elim failure [ true ↦ done (true, s) | false ↦ scan_line 31 cs s ]))
go_on-Agrees cs room total none r (s, run) next = (s, rw run)
go_on-Agrees cs room total (some stack) r (s, run, v, e, n) next = rw (run, ← e) (next s v n)

scan_line-Agrees :
    (cs : List ℕ) (room : ℕ) (s : Stack ℕ)
    → IsValid s
    → s.n ≤ room
    → room + length cs < 2 ^ 30
    → Agrees (room + length cs) (scan cs (contents s)) (scan_line 31 cs s)
unfolding scan_line
scan_line-Agrees [] room s v h k = (s, refl, v, refl, omega arith)
scan_line-Agrees (c ∷ cs) room s v h k =
    let count : room + length (c ∷ cs) ≡ room + 1 + length cs = omega arith in
    rw count (
      go_on-Agrees cs (s.n + 1) (room + 1 + length cs) (next_open (kind c) c (contents s))
        (handle 31 c s) (handle-Agrees s v c (omega arith))
        (λ s' v' h'. scan_line-Agrees cs (room + 1) s' v' (omega arith) (omega arith)))

empty-contents : (n : ℕ) (a : ℕ → ℕ) (stack : List ℕ) → values n a ≡ stack → (n == 0) ≡ is_nil stack
empty-contents zero a [] e = refl
empty-contents zero a (x ∷ stack) e = cc
empty-contents (suc n) a [] e = cc
empty-contents (suc n) a (x ∷ stack) e = ground arith

-- the answer is YES exactly if no failure occurred and no bracket is left open
answer-Agrees :
    (room : ℕ) (o : Option (List ℕ)) (r : Run (Bool × Stack ℕ))
    → Agrees room o r
    → (answer : Bool) × (Run.◌>>=◌ r (λ (failure, s). done (not (failure || not (s.n == 0))))
        ≡ done answer)
      × ((answer ≡ true) ↔ (o ≡ some []))
answer-Agrees room none r (s, run) = (false, rw run, (λ h. cc, λ h. cc))
answer-Agrees room (some []) r (s, run, v, e, n) =
    (true, rw (run, empty-contents s.n s.a [] e), (λ h. refl, λ h. refl))
answer-Agrees room (some (x ∷ xs)) r (s, run, v, e, n) =
    (false, rw (run, empty-contents s.n s.a (x ∷ xs) e), (λ h. cc, λ h. cc))

-- Of a line of at least two and fewer than 2 ^ 30 characters the program prints an answer, and the
-- answer is YES exactly if the line is balanced.
pub check_line-iff-Balanced :
    (cells : ℕ → ℕ) (str : List ℕ)
    → 2 ≤ length str
    → length str < 2 ^ 30
    → (answer : Bool) × (check_line 31 cells str ≡ done answer) × ((answer ≡ true) ↔ Balanced str)
unfolding check_line stack_is_empty
check_line-iff-Balanced cells str h k =
    let start = stack_create-IsValid cells (length str / 2) (omega arith) (omega arith) in
    let agrees =
      scan_line-Agrees str 0 (stack_create cells (length str / 2)) start.0
        (empty_n (length str / 2)) (omega arith) in
    let (answer, run, iff) = answer-Agrees (0 + length str) (scan str []) _ agrees in
    let dyck = scan-iff-Balanced str in
    (answer, run, (λ e. dyck.0 (iff.0 e), λ b. iff.1 (dyck.1 b)))
  where
    empty_n : (size : ℕ) → (stack_create cells size).n ≤ 0
    empty_n size = omega arith

-- On a line of one opening bracket the program does not end.
pub check_line-hangs :
    (fuel c : ℕ) (cells : ℕ → ℕ)
    → is_opening c ≡ true
    → check_line fuel cells (c ∷ []) ≡ out_of_fuel
unfolding check_line scan_line handle
check_line-hangs fuel c cells h = rw (h, grow-zero fuel 0)
