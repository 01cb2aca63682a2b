-- ===== src/Assembly/Words/Growth.antt =====
-- The cells that the vector has allocated, of which the words take more than half.
use mipt_informatics.Base.{
  ℕ, zero, suc, ◌+◌, ◌*◌, ◌^◌, ◌≤◌, ◌<◌, ◌≡◌, ◌⊎◌, inl, inr, refl, true, false, Bool-cases, List,
  [], ◌∷◌, arith, leb, ltb, ◌==◌, if◌then◌else◌, length, length-append,
}
use native.Mathlib.Decide.{dec_lt}
use native.Mathlib.Nat.{pow-le-pow_right}
use mipt_informatics.Base.Run.{done}
use mipt_informatics.Assembly.Words.{Vector, vector_new, vector_add, tokenize_loop, tokenize}
use mipt_informatics.Assembly.Words.Fields.{no_word, next_word, strtok-Next}

-- so many words that no cell is left: none, or a power of two
abbrev pub IsFull : ℕ → Type 0
IsFull n = (n ≡ 0) ⊎ ((k : ℕ) × (n ≡ 2 ^ k))

abbrev pub IsGrown : ℕ → ℕ → Type 0
IsGrown n allocated =
    ((n ≡ 0) × (allocated ≡ 0))
    ⊎ ((k : ℕ) × (allocated ≡ 2 ^ k) × (n ≤ allocated) × (allocated < n + n))

pub full-ltb : (n allocated : ℕ) → IsGrown n allocated → IsFull n → ltb n allocated ≡ false
full-ltb n allocated (inl (e, f)) full = ground arith
full-ltb n allocated (inr (k, e, le, lt)) (inl z) = absurd (omega arith)
full-ltb n allocated (inr (k, e, le, lt)) (inr (j, z)) = elim (dec_lt j k) [
  | yes below ↦
      let more : 2 ^ suc j ≤ 2 ^ k = pow-le-pow_right (omega arith) (omega arith) in
      absurd (omega arith)
  | no above ↦
      let less : 2 ^ k ≤ 2 ^ j = pow-le-pow_right (omega arith) (omega arith) in ground arith
]

pub room-ltb : (n allocated : ℕ) → IsGrown n allocated → ¬ IsFull n → ltb n allocated ≡ true
room-ltb n allocated (inl (e, f)) room = absurd (room (inl e))
room-ltb n allocated (inr (k, e, le, lt)) room = elim (Bool-cases (ltb n allocated)) [
  | inl h ↦ h
  | inr h ↦ let same : n ≡ 2 ^ k = ground arith in absurd (room (inr (k, same)))
]

vector_add-IsGrown :
    (vec : Vector (List ℕ)) (word : List ℕ)
    → IsGrown (length vec.cells) vec.allocated
    → IsGrown (length (vector_add vec word).cells) (vector_add vec word).allocated
unfolding vector_add
vector_add-IsGrown vec word grown =
    rw (length-append vec.cells (word ∷ [])) (added (length vec.cells) vec.allocated grown)
  where
    added :
        (n a : ℕ)
        → IsGrown n a
        → IsGrown (n + 1) (if leb a n then (if a == 0 then 1 else a * 2) else a)
    added n a (inl (e, f)) = rw (e, f) (inr (0, refl, omega arith, omega arith))
    added n a (inr (k, e, le, lt)) = elim (Bool-cases (leb a n)) [
      | inl h ↦
          let some : (a == 0) ≡ false = ground arith in
          rw (h, some) (inr (suc k, rw e (omega arith), ground arith, ground arith))
      | inr h ↦ rw h (inr (k, e, ground arith, omega arith))
    ]

tokenize_loop-IsGrown :
    (fuel : ℕ) (s : List ℕ) (vec out : Vector (List ℕ))
    → IsGrown (length vec.cells) vec.allocated
    → tokenize_loop fuel s vec ≡ done out
    → IsGrown (length out.cells) out.allocated
unfolding tokenize_loop
tokenize_loop-IsGrown zero s vec out grown e = cc
tokenize_loop-IsGrown (suc fuel) s vec out grown e = elim (strtok-Next s) [
  | no_word n f ↦ let same : vec ≡ out = cc (rw (tokenize_loop, n) at e) in rw same at grown
  | next_word word rest n f long ↦
      tokenize_loop-IsGrown fuel rest (vector_add vec word) out (vector_add-IsGrown vec word grown)
        (rw (tokenize_loop, n) at e)
]

pub tokenize-IsGrown :
    (s : List ℕ) (vec : Vector (List ℕ))
    → tokenize s ≡ done vec
    → IsGrown (length vec.cells) vec.allocated
unfolding tokenize vector_new
tokenize-IsGrown s vec e =
    tokenize_loop-IsGrown (length s + 1) s vector_new vec (inl (refl, refl)) e
