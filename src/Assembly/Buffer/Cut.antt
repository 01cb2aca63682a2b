-- ===== src/Assembly/Buffer/Cut.antt =====
-- `cut_string_literals` removes the string literals.
use mipt_informatics.Base.{
  ℕ, zero, suc, ◌+◌, ◌<◌, ◌≡◌, refl, sym, ap, ◌∙◌, Bool-cases, Option, none, some, inl, inr, List,
  [], ◌∷◌, ◌++◌, arith, ◌==◌, if◌then◌else◌, length, take, drop, length-append,
}
use mathlib.Core.List.{append_assoc, append-nil}
use mipt_informatics.Base.Run.{done}
use mipt_informatics.Assembly.Buffer.{strchr, cut_loop, cut_string_literals}

abbrev quote : ℕ
quote = b'"'

-- The text without its literals, up to the NUL: `copy none` outside of a literal, `copy (some seen)`
-- behind an opening quote, where `seen` is what was seen from the quote on. A literal that is not
-- closed stays.
abbrev pub copy : Option (List ℕ) → List ℕ → List ℕ
copy none [] = []
copy (some seen) [] = seen
copy none (x ∷ s) =
    if x == quote then copy (some (x ∷ [])) s else if x == 0 then x ∷ s else x ∷ copy none s
copy (some seen) (x ∷ s) =
    if x == quote
    then copy none s
    else if x == 0
    then seen ++ x ∷ s
    else copy (some (seen ++ x ∷ [])) s

-- where the first quote stands, and what that means for the copy
data Quote (s : List ℕ) : Type 0 where
  no_quote :
      strchr s quote ≡ none
      → copy none s ≡ s
      → ((seen : List ℕ) → copy (some seen) s ≡ seen ++ s)
      → Quote s
  quote_at :
      (a r : List ℕ)
      → strchr s quote ≡ some (length a)
      → s ≡ a ++ quote ∷ r
      → copy none s ≡ a ++ copy (some (quote ∷ [])) r
      → ((seen : List ℕ) → copy (some seen) s ≡ copy none r)
      → Quote s

strchr-Quote : (s : List ℕ) → Quote s
strchr-Quote [] = no_quote refl refl (λ seen. sym (append-nil seen))
strchr-Quote (x ∷ s) = elim (Bool-cases (x == quote)) [
  | inl e ↦
      let is_quote : x ≡ quote = ground (arith, e) in
      quote_at [] s (rw e) (ap (λ c. c ∷ s) is_quote)
        (rw e (ap (λ c. copy (some (c ∷ [])) s) is_quote)) (λ seen. rw e)
  | inr e ↦ elim (Bool-cases (x == 0)) [
    | inl z ↦ no_quote (rw (e, z)) (rw (e, z)) (λ seen. rw (e, z))
    | inr z ↦ elim (strchr-Quote s) [
      | no_quote f k l ↦
          no_quote (rw (e, z, f)) (rw (e, z, k))
            (λ seen. rw (e, z) (l (seen ++ x ∷ []) ∙ append_assoc seen (x ∷ []) s))
      | quote_at a r f eq k l ↦
          quote_at (x ∷ a) r (rw (e, z, f)) (ap (λ t. x ∷ t) eq) (rw (e, z, k))
            (λ seen. rw (e, z) (l (seen ++ x ∷ [])))
    ]
  ]
]

drop-append : (a b : List ℕ) → drop (length a) (a ++ b) ≡ b
drop-append [] b = refl
drop-append (x ∷ a) b = drop-append a b

take-append : (a b : List ℕ) → take (length a) (a ++ b) ≡ a
take-append [] b = refl
take-append (x ∷ a) b = ap (λ t. x ∷ t) (take-append a b)

drop-nil : (j : ℕ) → drop {A = ℕ} j [] ≡ []
drop-nil zero = refl
drop-nil (suc j) = refl

drop-add : (i j : ℕ) (s : List ℕ) → drop (i + j) s ≡ drop j (drop i s)
drop-add zero j s = ap (λ k. drop k s) (omega arith)
drop-add (suc i) j [] =
    let e : suc i + j ≡ suc (i + j) = omega arith in ap (λ k. drop k []) e ∙ sym (drop-nil j)
drop-add (suc i) j (x ∷ s) =
    let e : suc i + j ≡ suc (i + j) = omega arith in ap (λ k. drop k (x ∷ s)) e ∙ drop-add i j s

-- behind a quote, and behind one that stands behind an index
drop-behind : (a r : List ℕ) → drop (suc (length a)) (a ++ quote ∷ r) ≡ r
drop-behind [] r = refl
drop-behind (x ∷ a) r = drop-behind a r

drop-behind_at :
    (i : ℕ) (d a r : List ℕ) → drop i d ≡ a ++ quote ∷ r → drop (i + length a + 1) d ≡ r
drop-behind_at i d a r e =
    let sum : i + length a + 1 ≡ i + suc (length a) = omega arith in
    ap (λ k. drop k d) sum
    ∙ drop-add i (suc (length a)) d
    ∙ ap (drop (suc (length a))) e
    ∙ drop-behind a r

-- the rounds of the loop
module _ (fuel : ℕ) (d : List ℕ) (pos : ℕ) where
  cut-end :
      (begin : Option ℕ)
      → strchr (drop pos d) quote ≡ none
      → cut_loop (suc fuel) d pos begin ≡ done d
  unfolding cut_loop
  cut-end none e = rw (cut_loop, e)
  cut-end (some begin) e = rw (cut_loop, e)

  cut-open :
      (n : ℕ)
      → strchr (drop pos d) quote ≡ some n
      → cut_loop (suc fuel) d pos none ≡ cut_loop fuel d (pos + n + 1) (some (pos + n))
  unfolding cut_loop
  cut-open n e = rw (cut_loop, e)

  cut-close :
      (begin n : ℕ)
      → strchr (drop pos d) quote ≡ some n
      → cut_loop (suc fuel) d pos (some begin)
        ≡ cut_loop fuel (take begin d ++ drop (pos + n + 1) d) begin none
  unfolding cut_loop
  cut-close begin n e = rw (cut_loop, e)

-- from some index in front of which everything was copied
cut_loop-copy :
    (fuel : ℕ) (pre s : List ℕ)
    → length s < fuel
    → cut_loop fuel (pre ++ s) (length pre) none ≡ done (pre ++ copy none s)
cut_loop-copy zero pre s h = absurd (omega arith)
cut_loop-copy (suc zero) pre [] h =
    cut-end 0 (pre ++ []) (length pre) none (rw (drop-append pre []))
cut_loop-copy (suc zero) pre (x ∷ s) h = absurd (omega arith)
cut_loop-copy (suc (suc fuel)) pre s h = elim (strchr-Quote s) [
  | no_quote e k l ↦
      rw k (cut-end (suc fuel) (pre ++ s) (length pre) none (rw (drop-append pre s, e)))
  | quote_at a r e eq k l ↦
      let d = pre ++ s in
      let at = drop-append pre s in
      let opens = cut-open (suc fuel) d (length pre) (length a) (ap (λ t. strchr t quote) at ∙ e) in
      let begin = length pre + length a in
      let rest : drop (begin + 1) d ≡ r = drop-behind_at (length pre) d a r (at ∙ eq) in
      elim (strchr-Quote r) [
        | no_quote f k' l' ↦
            opens
            ∙ cut-end fuel d (begin + 1) (some begin) (ap (λ t. strchr t quote) rest ∙ f)
            ∙ ap (λ t. done (pre ++ t)) (eq ∙ ap (λ t. a ++ t) (sym (l' (quote ∷ []))) ∙ sym k)
        | quote_at m r' f eq' k' l' ↦
            let closes =
              cut-close fuel d (begin + 1) begin (length m) (ap (λ t. strchr t quote) rest ∙ f) in
            let front : take begin d ≡ pre ++ a =
              ap (λ n. take n d) (sym (length-append pre a))
              ∙ ap (take (length (pre ++ a)))
                  (ap (λ t. pre ++ t) eq ∙ sym (append_assoc pre a (quote ∷ r)))
              ∙ take-append (pre ++ a) (quote ∷ r) in
            let behind : drop (begin + 1 + length m + 1) d ≡ r' =
              drop-behind_at (begin + 1) d m r' (rest ∙ eq') in
            let long : length r' < fuel =
              let one = ap length eq ∙ length-append a (quote ∷ r) in
              let two = ap length eq' ∙ length-append m (quote ∷ r') in
              omega (arith, one, two, h) in
            let more = cut_loop-copy fuel (pre ++ a) r' long in
            opens
            ∙ closes
            ∙ rw (front, behind)
                (ap (λ i. cut_loop fuel ((pre ++ a) ++ r') i none) (sym (length-append pre a)))
            ∙ more
            ∙ ap done (
                append_assoc pre a (copy none r')
                ∙ ap (λ t. pre ++ t) (ap (λ t. a ++ t) (sym (l' (quote ∷ []))) ∙ sym k))
      ]
]

-- What is left of a text: the literals are removed with their quotes, up to the NUL, and a literal that is
-- not closed stays. The loop ends.
pub cut_string_literals-copy : (s : List ℕ) → cut_string_literals s ≡ done (copy none s)
unfolding cut_string_literals
cut_string_literals-copy s = cut_loop-copy (length s + 1) [] s (omega arith)
