-- ===== src/Multiplexer/Flow/Slices.antt =====
-- The bytes of a buffer after the parent has written some of them, and after it has read new ones;
-- and a family with one member replaced.
use mipt_informatics.Base.{
  ℕ, zero, suc, ◌+◌, ◌-◌, ◌<◌, ◌≤◌, ◌≡◌, refl, sym, ap, ◌∙◌, false, List, [], ◌∷◌, ◌++◌, get_or,
  length, lt→ltb, Bool-cases, inl, inr, ◌==◌, arith,
}
use native.Mathlib.Numerals.{unary_clauses}
use mipt_informatics.Multiplexer.{Buffer, update}
use mipt_informatics.Multiplexer.Actions.{slice, pending, fill}

pub slice-add :
    (buf : ℕ → ℕ) (begin m k : ℕ)
    → slice buf begin (m + k) ≡ slice buf begin m ++ slice buf (begin + m) k
unfolding slice
slice-add buf begin zero k =
    let count : 0 + k ≡ k = omega arith in
    let place : begin + 0 ≡ begin = omega arith in rw (count, place) refl
slice-add buf begin (suc m) k =
    let count : suc m + k ≡ suc (m + k) = omega arith in
    let place : begin + suc m ≡ suc begin + m = omega arith in
    rw (count, place) (ap (λ l. buf begin ∷ l) (slice-add buf (suc begin) m k))

slice-get_or :
    (bytes : List ℕ) (buf : ℕ → ℕ) (begin : ℕ)
    → ((i : ℕ) → i < length bytes → buf (begin + i) ≡ get_or bytes i 0)
    → slice buf begin (length bytes) ≡ bytes
unfolding slice
slice-get_or [] buf begin h = refl
slice-get_or (x ∷ xs) buf begin h =
    let first : buf begin ≡ x = simp unary_clauses at (h 0 (omega arith)) in
    let others : slice buf (suc begin) (length xs) ≡ xs = slice-get_or xs buf (suc begin) (λ i lt.
      let place : suc begin + i ≡ begin + suc i = omega arith in
      rw place (h (suc i) (omega arith))) in
    cc

pub slice-fill : (bytes : List ℕ) (buf : ℕ → ℕ) → slice (fill bytes buf) 0 (length bytes) ≡ bytes
unfolding fill
slice-fill bytes buf =
    slice-get_or bytes _ 0
      (λ i lt. let place : 0 + i ≡ i = omega arith in rw (place, lt→ltb i (length bytes) lt) refl)

-- `begin += wr_bytes`
pub slice-pending :
    (b : Buffer) (wr_bytes : ℕ)
    → wr_bytes ≤ b.end - b.begin
    → slice b.buf b.begin wr_bytes ++ pending (record b { begin = b.begin + wr_bytes }) ≡ pending b
unfolding pending
slice-pending b wr_bytes h =
    sym (slice-add b.buf b.begin wr_bytes (b.end - (b.begin + wr_bytes)))
    ∙ ap (slice b.buf b.begin) (omega arith)

pub update_self {ℓ} : {A : Type ℓ} (f : ℕ → A) (i : ℕ) (v : A) → update f i v i ≡ v
unfolding update
update_self f i v = ground arith

pub update_ne {ℓ} :
    {A : Type ℓ} (f : ℕ → A) (i j : ℕ) (v : A) → (i == j) ≡ false → update f j v i ≡ f i
unfolding update
update_ne f i j v e = rw e refl

-- A family with a member replaced has the property that its members and the new one have; likewise
-- two families with their members at one place.
pub update_ind {ℓ κ} :
    {A : Type ℓ} (P : ℕ → A → Type κ) (f : ℕ → A) (i : ℕ) (v : A)
    → ((j : ℕ) → P j (f j))
    → P i v
    → (j : ℕ) → P j (update f i v j)
update_ind P f i v old new j = elim (Bool-cases (j == i)) [
  | inl e ↦ let same : j ≡ i = ground arith in rw (same, update_self f i v) new
  | inr e ↦ rw (update_ne f j i v e) (old j)
]

pub update_ind_2 {ℓ κ μ} :
    {A : Type ℓ} {B : Type κ} (P : ℕ → A → B → Type μ) (f : ℕ → A) (g : ℕ → B) (i : ℕ) (v : A)
    (w : B)
    → ((j : ℕ) → P j (f j) (g j))
    → P i v w
    → (j : ℕ) → P j (update f i v j) (update g i w j)
update_ind_2 P f g i v w old new j = elim (Bool-cases (j == i)) [
  | inl e ↦ let same : j ≡ i = ground arith in rw (same, update_self f i v, update_self g i w) new
  | inr e ↦ rw (update_ne f j i v e, update_ne g j i w e) (old j)
]
