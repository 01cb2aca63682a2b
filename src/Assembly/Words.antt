-- ===== src/Assembly/Words.antt =====
-- The vector of 7-syntax_arm.c and the words that `tokenize` puts there. `data` are the `length` cells;
-- `malloc` and `realloc` succeed.
pub mod Fields
pub mod Growth
use mipt_informatics.Base.{
  ℕ, zero, suc, ◌+◌, ◌*◌, Bool, ◌||◌, Option, none, some, List, [], ◌∷◌, ◌++◌, leb, ◌==◌,
  if◌then◌else◌, length,
}
use mipt_informatics.Base.Run.{Run, done, fault, out_of_fuel, ◌>>=◌}

pub record Vector (A : Type 0) : Type 0 where
  pub cells : List A
  pub allocated : ℕ

unfoldable pub vector_new : {A : Type 0} → Vector A
vector_new = record { cells = []; allocated = 0 }

unfoldable pub vector_add : {A : Type 0} → Vector A → A → Vector A
vector_add vec ptr = record {
  cells = vec.cells ++ ptr ∷ [];
  allocated =
      if leb vec.allocated (length vec.cells)
      then (if vec.allocated == 0 then 1 else vec.allocated * 2)
      else vec.allocated;
}

abbrev split_last : {A : Type 0} → List A → Option (A × List A)
split_last [] = none
split_last (x ∷ cells) = elim (split_last cells) [
  | none ↦ some (x, [])
  | some (y, front) ↦ some (y, x ∷ front)
]

-- `vector_remove`, with its assert
pub vector_remove : {A : Type 0} → Vector A → Run (A × Vector A)
vector_remove vec = elim (split_last vec.cells) [
  | none ↦ fault
  | some (ptr, cells) ↦ done (ptr, record { cells = cells; allocated = vec.allocated })
]

-- " \t\r\n,()[]"
abbrev pub is_delimiter : ℕ → Bool
is_delimiter c =
    c == b' '
    || c == 9
    || c == 13
    || c == 10
    || c == b','
    || c == b'('
    || c == b')'
    || c == b'['
    || c == b']'

-- the rest of a string from the first character on that is no delimiter
abbrev pub skip : List ℕ → List ℕ
skip [] = []
skip (c ∷ s) = let rest = skip s in if is_delimiter c then rest else c ∷ s

-- the characters up to a delimiter or the NUL, and what stands behind the delimiter
abbrev pub token : List ℕ → List ℕ × List ℕ
token [] = ([], [])
token (c ∷ s) =
    let (word, rest) = token s in
    if c == 0 then ([], c ∷ s) else if is_delimiter c then ([], s) else (c ∷ word, rest)

-- from the first character on that is no delimiter
abbrev pub first_token : List ℕ → Option (List ℕ × List ℕ)
first_token [] = none
first_token (c ∷ s) = if c == 0 then none else some (token (c ∷ s))

-- `strtok_r`: a word and the rest of the string
abbrev pub strtok : List ℕ → Option (List ℕ × List ℕ)
strtok s = first_token (skip s)

unfoldable pub tokenize_loop : (fuel : ℕ) → List ℕ → Vector (List ℕ) → Run (Vector (List ℕ))
unfolding vector_add
tokenize_loop zero s words = out_of_fuel
tokenize_loop (suc fuel) s words = elim (strtok s) [
  | none ↦ done words
  | some (word, rest) ↦ tokenize_loop fuel rest (vector_add words word)
]

unfoldable pub tokenize : List ℕ → Run (Vector (List ℕ))
unfolding vector_new tokenize_loop
tokenize chars = tokenize_loop (length chars + 1) chars vector_new
