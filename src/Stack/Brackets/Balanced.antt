-- ===== src/Stack/Brackets/Balanced.antt =====
-- Balanced lines, and the line that is matched against a list of open brackets.
use mipt_informatics.Base.{
  ℕ, ◌≡◌, refl, sym, ◌∙◌, ◌↔◌, inl, inr, Bool-cases, Option, none, some, List, [], ◌∷◌, ◌++◌, arith,
  ◌==◌, ◌||◌, if◌then◌else◌,
}
use mathlib.Core.List.{append_assoc, append-nil}
use mathlib.Core.Path.{subst}
use mipt_informatics.Base.Fault.{◌>>=◌}

pub data Kind : Type 0 where
  opens : Kind
  closes : ℕ → Kind
  plain : Kind

-- The four pairs of brackets as codes of ASCII: 40 and 41 are ( and ), 91 and 93 are [ and ], 123 and
-- 125 are { and }, 60 and 62 are < and >.
abbrev pub kind : ℕ → Kind
kind c =
    if c == 40 || c == 60 || c == 91 || c == 123
    then opens
    else if c == 41
    then closes 40
    else if c == 62
    then closes 60
    else if c == 93
    then closes 91
    else if c == 125
    then closes 123
    else plain

pub data Balanced : List ℕ → Type 0 where
  empty : Balanced []
  skip : {c : ℕ} {cs : List ℕ} → kind c ≡ plain → Balanced cs → Balanced (c ∷ cs)
  pair :
      {o : ℕ} (inner : List ℕ) (c : ℕ) (rest : List ℕ)
      → kind o ≡ opens
      → kind c ≡ closes o
      → Balanced inner
      → Balanced rest
      → Balanced (o ∷ (inner ++ c ∷ rest))

abbrev pub pop_open : ℕ → List ℕ → Option (List ℕ)
pop_open o [] = none
pop_open o (top ∷ rest) = if top == o then some rest else none

-- the open brackets behind a character; `none` is a failure
abbrev pub next_open : Kind → ℕ → List ℕ → Option (List ℕ)
next_open opens c stack = some (c ∷ stack)
next_open (closes o) c stack = pop_open o stack
next_open plain c stack = some stack

-- the brackets that are open behind a line
abbrev pub scan : List ℕ → List ℕ → Option (List ℕ)
scan [] stack = some stack
scan (c ∷ cs) stack = next_open (kind c) c stack >>= scan cs

-- `cs` closes the brackets of the stack, one after the other, with balanced lines between
abbrev Closes : List ℕ → List ℕ → Type 0
Closes [] cs = Balanced cs
Closes (o ∷ stack) cs =
    (inner : List ℕ) × (c : ℕ) × (rest : List ℕ) × (cs ≡ inner ++ c ∷ rest)
    × (kind c ≡ closes o)
    × Balanced inner
    × Closes stack rest

-- A balanced line leaves every stack as it was.
scan-Balanced :
    {xs : List ℕ} (cs stack : List ℕ) → Balanced xs → scan (xs ++ cs) stack ≡ scan cs stack
scan-Balanced cs stack empty = refl
scan-Balanced cs stack (skip k b) = rw k (scan-Balanced cs stack b)
scan-Balanced cs stack (pair {o} inner c rest ko kc b b') =
    rw (ko, append_assoc inner (c ∷ rest) cs)
      (scan-Balanced (c ∷ (rest ++ cs)) (o ∷ stack) b
        ∙ rw kc (ground (arith, scan-Balanced cs stack b')))

Closes-skip :
    (stack : List ℕ) (c : ℕ) (cs : List ℕ)
    → kind c ≡ plain
    → Closes stack cs
    → Closes stack (c ∷ cs)
Closes-skip [] c cs k h = skip k h
Closes-skip (o ∷ stack) c cs k (inner, c', rest, eq, kc, b, h) =
    (c ∷ inner, c', rest, rw eq, kc, skip k b, h)

Closes-pair :
    (stack : List ℕ) (o c : ℕ) (inner rest : List ℕ)
    → kind o ≡ opens
    → kind c ≡ closes o
    → Balanced inner
    → Closes stack rest
    → Closes stack (o ∷ (inner ++ c ∷ rest))
Closes-pair [] o c inner rest ko kc b h = pair _ _ _ ko kc b h
Closes-pair (p ∷ stack) o c inner rest ko kc b (inner', c', rest', eq, kc', b', h) = (
  o ∷ (inner ++ c ∷ inner'),
  c',
  rest',
  rw (eq, append_assoc),
  kc',
  pair inner c inner' ko kc b b',
  h,
)

module _ (c : ℕ) (cs : List ℕ)
    (ih : (stack : List ℕ) → scan cs stack ≡ some [] → Closes stack cs) where
  Closes-next :
      (k : Kind) (stack : List ℕ)
      → kind c ≡ k
      → (next_open k c stack >>= scan cs) ≡ some []
      → Closes stack (c ∷ cs)
  Closes-next opens stack e h =
      let (inner, c', rest, eq, kc, b, more) = ih (c ∷ stack) h in
      subst (λ l. Closes stack (c ∷ l)) (sym eq) (Closes-pair stack c c' inner rest e kc b more)
  Closes-next (closes o) [] e h = cc
  Closes-next (closes o) (top ∷ stack) e h = elim (Bool-cases (top == o)) [
    | inl same ↦
        let top_eq : top ≡ o = ground arith in
        ([], c, cs, refl, rw top_eq e, empty, ih stack (rw same at h))
    | inr other ↦ absurd (cc (rw other at h))
  ]
  Closes-next plain stack e h = Closes-skip stack c cs e (ih stack h)

scan-Closes : (cs stack : List ℕ) → scan cs stack ≡ some [] → Closes stack cs
scan-Closes [] [] h = empty
scan-Closes [] (o ∷ stack) h = cc
scan-Closes (c ∷ cs) stack h = Closes-next c cs (scan-Closes cs) (kind c) stack refl h

-- A line leaves the empty stack empty exactly if it is balanced.
pub scan-iff-Balanced : (cs : List ℕ) → (scan cs [] ≡ some []) ↔ Balanced cs
scan-iff-Balanced cs = (scan-Closes cs [], λ b. rw append-nil at (scan-Balanced [] [] b))
