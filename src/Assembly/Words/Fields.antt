-- ===== src/Assembly/Words/Fields.antt =====
-- The words that `tokenize` puts into the vector.
use mipt_informatics.Base.{
  Bool, ◌||◌, ℕ, zero, suc, ◌+◌, ◌≤◌, ◌<◌, ◌≡◌, refl, sym, ap, ◌∙◌, Bool-cases, true, false, none,
  some, inl, inr, List, [], ◌∷◌, ◌++◌, arith, ◌==◌, if◌then◌else◌, length,
}
use mathlib.Core.List.{append_assoc, append-nil}
use mipt_informatics.Base.Run.{done}
use mipt_informatics.Assembly.Words.{
  Vector, vector_new, vector_add, is_delimiter, skip, token, first_token, strtok, tokenize_loop,
  tokenize,
}

-- a word in front of others, unless it is empty
abbrev pub emit : List ℕ → List (List ℕ) → List (List ℕ)
emit [] words = words
emit (c ∷ word) words = (c ∷ word) ∷ words

-- a space, tab, carriage return, newline, comma, or one of ( ) [ ]
abbrev pub separates : ℕ → Bool
separates c =
    c == 32 || c == 9 || c == 13 || c == 10 || c == 44 || c == 40 || c == 41 || c == 91 || c == 93

-- The words of a text up to its NUL, behind a part of a word: the longest runs of characters that are no
-- delimiters.
abbrev pub fields : List ℕ → List ℕ → List (List ℕ)
fields word [] = emit word []
fields word (c ∷ s) =
    if c == 0
    then emit word []
    else if separates c
    then emit word (fields [] s)
    else fields (word ++ c ∷ []) s

fields-nul : (c : ℕ) (s : List ℕ) → (c == 0) ≡ true → fields [] (c ∷ s) ≡ []
fields-nul c s e = rw e

-- the rest of a word
fields-token :
    (s word : List ℕ)
    → (fields word s ≡ emit (word ++ (token s).0) (fields [] (token s).1))
      × (length (token s).1 ≤ length s)
fields-token [] word = (ap (λ w. emit w []) (sym (append-nil word)), omega arith)
fields-token (c ∷ s) word = elim (Bool-cases (c == 0)) [
  | inl e ↦ rw e (rw (append-nil word, fields-nul c s e), omega arith)
  | inr e ↦ elim (Bool-cases (is_delimiter c)) [
    | inl f ↦ rw (e, f) (rw (append-nil word), omega arith)
    | inr f ↦
        let (rest, long) = fields-token s (word ++ c ∷ []) in
        rw (e, f)
          (
            rest
                ∙ ap (λ w. emit w (fields [] (token s).1)) (append_assoc word (c ∷ []) (token s).0),
            omega (arith, long),
          )
  ]
]

pub data Next (s : List ℕ) : Type 0 where
  no_word : strtok s ≡ none → fields [] s ≡ [] → Next s
  next_word :
      (word rest : List ℕ)
      → strtok s ≡ some (word, rest)
      → fields [] s ≡ word ∷ fields [] rest
      → length rest < length s
      → Next s

skip-word : (c : ℕ) (s : List ℕ) → is_delimiter c ≡ false → skip (c ∷ s) ≡ c ∷ s
skip-word c s f = rw f

strtok-word :
    (c : ℕ) (s : List ℕ)
    → is_delimiter c ≡ false
    → (c == 0) ≡ false
    → strtok (c ∷ s) ≡ some (c ∷ (token s).0, (token s).1)
strtok-word c s f e = ap first_token (skip-word c s f) ∙ rw (e, f)

pub strtok-Next : (s : List ℕ) → Next s
strtok-Next [] = no_word refl refl
strtok-Next (c ∷ s) = elim (Bool-cases (is_delimiter c)) [
  | inl f ↦
      let nz : (c == 0) ≡ false = ground (arith, f) in
      elim (strtok-Next s) [
        | no_word e k ↦ no_word (rw f e) (rw (nz, f) k)
        | next_word word rest e k long ↦
            next_word word rest (rw f e) (rw (nz, f) k) (omega (arith, long))
      ]
  | inr f ↦ elim (Bool-cases (c == 0)) [
    | inl e ↦ no_word (ap first_token (skip-word c s f) ∙ rw e) (rw e)
    | inr e ↦
        let (rest, long) = fields-token s (c ∷ []) in
        next_word (c ∷ (token s).0) (token s).1 (strtok-word c s f e) (rw (e, f) rest)
          (omega (arith, long))
  ]
]

tokenize_loop-fields :
    (fuel : ℕ) (s : List ℕ) (vec : Vector (List ℕ))
    → length s < fuel
    → (vec' : Vector (List ℕ)) × (tokenize_loop fuel s vec ≡ done vec')
      × (vec'.cells ≡ vec.cells ++ fields [] s)
unfolding tokenize_loop vector_add
tokenize_loop-fields zero s vec h = absurd (omega arith)
tokenize_loop-fields (suc fuel) s vec h = elim (strtok-Next s) [
  | no_word e f ↦ (vec, rw (tokenize_loop, e), rw f (sym (append-nil vec.cells)))
  | next_word word rest e f long ↦
      let (vec', run, cells) =
        tokenize_loop-fields fuel rest (vector_add vec word) (omega (arith, long, h)) in
      (
        vec',
        rw (tokenize_loop, e) run,
        cells ∙ append_assoc vec.cells (word ∷ []) (fields [] rest) ∙ rw f,
      )
]

-- The loop over the words ends, and the vector holds the words of the text up to its NUL, in order: the
-- longest runs of characters that are no delimiters.
pub tokenize-fields :
    (s : List ℕ) → (vec : Vector (List ℕ)) × (tokenize s ≡ done vec) × (vec.cells ≡ fields [] s)
unfolding tokenize vector_new
tokenize-fields s = tokenize_loop-fields (length s + 1) s vector_new (omega arith)
