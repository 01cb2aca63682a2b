-- ===== src/Database/Residue.antt =====
-- The index of a bucket, from a hash of either sign.
use mipt_informatics.Base.{
  ℕ, zero, suc, ◌+◌, ◌-◌, ◌%◌, ◌<◌, ◌≡◌, refl, ap, ◌∙◌, Bool-cases, true, false, inl, inr, arith,
  ◌==◌,
}
use mipt_informatics.Base.Int.{ℤ, pos, negsuc, ◌+ℤ◌, pos_part, ltb_ℤ}
use mipt_informatics.Database.{bucket_count, remainder, raise, lower, hash_get_bucket}

-- a key and an index that differ by a multiple of the number of buckets
abbrev pub IsResidue : ℤ → ℕ → Type 0
IsResidue (pos n) i = n % bucket_count ≡ i
IsResidue (negsuc n) i = (n + 1 + i) % bucket_count ≡ 0

-- no round of the loop, and one
raise-zero : (fuel : ℕ) (hash : ℤ) → ltb_ℤ hash (pos 0) ≡ false → raise fuel hash ≡ hash
unfolding raise
raise-zero zero hash e = refl
raise-zero (suc fuel) hash e = rw e

raise-suc :
    (fuel : ℕ) (hash : ℤ)
    → ltb_ℤ hash (pos 0) ≡ true
    → raise (suc fuel) hash ≡ raise fuel (hash +ℤ pos bucket_count)
unfolding raise
raise-suc fuel hash e = rw e

lower-zero : (fuel : ℕ) (hash : ℤ) → ltb_ℤ hash (pos bucket_count) ≡ true → lower fuel hash ≡ hash
unfolding lower
lower-zero zero hash e = refl
lower-zero (suc fuel) hash e = rw e

-- the two loops, from a remainder on
loops : ℤ → ℕ
loops r = pos_part (lower 2 (raise 2 r))

loops-pos : (r : ℕ) → r < bucket_count → loops (pos r) ≡ r
unfolding loops
loops-pos r h =
    let keeps : ltb_ℤ (pos r) (pos 0) ≡ false = ground arith in
    let below : ltb_ℤ (pos r) (pos bucket_count) ≡ true = ground (arith, h) in
    rw (raise-zero 2 (pos r) keeps, lower-zero 2 (pos r) below)

loops-negsuc : (r : ℕ) → r + 1 < bucket_count → loops (negsuc r) ≡ bucket_count - (r + 1)
unfolding loops ◌+ℤ◌
loops-negsuc r h =
    let m = bucket_count - (r + 1) in
    let rises : ltb_ℤ (negsuc r) (pos 0) ≡ true = ground arith in
    let up : negsuc r +ℤ pos bucket_count ≡ pos m = ground (arith, h) in
    let keeps : ltb_ℤ (pos m) (pos 0) ≡ false = ground arith in
    let below : ltb_ℤ (pos m) (pos bucket_count) ≡ true = ground (arith, h) in
    rw (raise-suc 1 (negsuc r) rises, up, raise-zero 1 (pos m) keeps, lower-zero 2 (pos m) below)

hash_get_bucket-loops : (k : ℤ) → hash_get_bucket k ≡ loops (remainder k)
unfolding hash_get_bucket loops
hash_get_bucket-loops k = refl

-- The index is below the number of the buckets, and it is the residue of the key, also of a key below
-- 0.
pub hash_get_bucket-IsResidue :
    (k : ℤ) → (hash_get_bucket k < bucket_count) × IsResidue k (hash_get_bucket k)
hash_get_bucket-IsResidue (pos n) =
    let e : hash_get_bucket (pos n) ≡ n % bucket_count =
      hash_get_bucket-loops (pos n) ∙ loops-pos (n % bucket_count) (omega arith) in
    rw e (omega arith, refl)
hash_get_bucket-IsResidue (negsuc n) = elim (Bool-cases ((n + 1) % bucket_count == 0)) [
  | inl z ↦
      let r : remainder (negsuc n) ≡ pos 0 = rw z in
      let e : hash_get_bucket (negsuc n) ≡ 0 =
        hash_get_bucket-loops (negsuc n) ∙ ap loops r ∙ loops-pos 0 (omega arith) in
      let end : (n + 1) % bucket_count ≡ 0 = ground (arith, z) in
      rw e (omega arith, omega (arith, end))
  | inr z ↦
      let m = (n + 1) % bucket_count - 1 in
      let r : remainder (negsuc n) ≡ negsuc m = rw z in
      let above : 0 < (n + 1) % bucket_count = ground (arith, z) in
      let e : hash_get_bucket (negsuc n) ≡ bucket_count - (m + 1) =
        hash_get_bucket-loops (negsuc n) ∙ ap loops r ∙ loops-negsuc m (omega arith) in
      rw e (omega arith, omega arith)
]
