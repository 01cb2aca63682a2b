-- ===== src/Matrices/Sums.antt =====
-- The loops of the product on integers without a bound: the cells that they leave are the sums of the
-- products of a row and a column.
use mipt_informatics.Base.{ℕ, zero, suc, ◌+◌, ◌*◌, ◌<◌, ◌≡◌, ◌≢◌, refl, sym, ap, ◌∙◌, arith}
use native.Mathlib.Nat.{mul-suc, mul_comm}
use native.Mathlib.Decide.{ℕ_discrete}
use mipt_informatics.Base.Int.{ℤ, pos, ◌+ℤ◌, ◌*ℤ◌}
use mipt_informatics.Matrices.{Matrix, place, set_cell}

-- the loop over `k`, with sums and products of any size
unfoldable pub products_added : Matrix → Matrix → ℕ → ℕ → ℕ → Matrix → Matrix
products_added a b i j zero r = r
products_added a b i j (suc k) r =
    let r' = products_added a b i j k r in
    set_cell r' (place r' i j)
      (r'.cells (place r' i j) +ℤ a.cells (place a i k) *ℤ b.cells (place b k j))

-- the loop over `j`, with the assignment of 0
unfoldable pub row_filled : Matrix → Matrix → ℕ → ℕ → Matrix → Matrix
row_filled a b i zero r = r
row_filled a b i (suc j) r =
    let r' = row_filled a b i j r in
    products_added a b i j a.columns (set_cell r' (place r' i j) (pos 0))

unfoldable pub rows_filled : Matrix → Matrix → ℕ → Matrix → Matrix
rows_filled a b zero r = r
rows_filled a b (suc i) r = let r' = rows_filled a b i r in row_filled a b i r'.columns r'

-- the sum of `a (i, l) * b (l, j)` over `l` below `k`
unfoldable pub dot : Matrix → Matrix → ℕ → ℕ → ℕ → ℤ
dot a b i j zero = pos 0
dot a b i j (suc k) = dot a b i j k +ℤ a.cells (i * a.columns + k) *ℤ b.cells (k * b.columns + j)

module _ (a b : Matrix) (i : ℕ) where
  pub columns-products_added :
      (j k : ℕ) (r : Matrix) → (products_added a b i j k r).columns ≡ r.columns
  unfolding products_added
  columns-products_added j zero r = refl
  columns-products_added j (suc k) r = columns-products_added j k r

  pub products_added_ne :
      (j k : ℕ) (r : Matrix) (q : ℕ)
      → q ≢ i * r.columns + j
      → (products_added a b i j k r).cells q ≡ r.cells q
  unfolding products_added
  products_added_ne j zero r q ne = refl
  products_added_ne j (suc k) r q ne =
      ground (arith, products_added_ne j k r q ne, columns-products_added j k r)

  pub products_added_self :
      (j k : ℕ) (r : Matrix)
      → r.cells (i * r.columns + j) ≡ pos 0
      → (products_added a b i j k r).cells (i * r.columns + j) ≡ dot a b i j k
  unfolding products_added dot
  products_added_self j zero r e = e
  products_added_self j (suc k) r e =
      ground (arith, products_added_self j k r e, columns-products_added j k r)

  cell_ne :
      (j : ℕ) (r : Matrix) (q : ℕ)
      → q ≢ i * r.columns + j
      → (products_added a b i j a.columns (set_cell r (place r i j) (pos 0))).cells q ≡ r.cells q
  cell_ne j r q ne =
      products_added_ne j a.columns (set_cell r (place r i j) (pos 0)) q ne ∙ ground arith

  cell_self :
      (j : ℕ) (r : Matrix)
      → (products_added a b i j a.columns (set_cell r (place r i j) (pos 0))).cells
          (i * r.columns + j)
        ≡ dot a b i j a.columns
  cell_self j r = products_added_self j a.columns (set_cell r (place r i j) (pos 0)) (ground arith)

  pub columns-row_filled : (n : ℕ) (r : Matrix) → (row_filled a b i n r).columns ≡ r.columns
  unfolding row_filled
  columns-row_filled zero r = refl
  columns-row_filled (suc n) r = columns-products_added n a.columns _ ∙ columns-row_filled n r

  row_filled_below :
      (n : ℕ) (r : Matrix) (q : ℕ) → q < i * r.columns → (row_filled a b i n r).cells q ≡ r.cells q
  unfolding row_filled
  row_filled_below zero r q lt = refl
  row_filled_below (suc n) r q lt =
      let c = columns-row_filled n r in
      cell_ne n (row_filled a b i n r) q (rw c (λ e. omega arith)) ∙ row_filled_below n r q lt

  -- the cell of column `n` after its pass, in an array with `w` columns
  abbrev row_cells : ℕ → Matrix → ℕ → ℤ
  row_cells n r w =
      (products_added a b i n a.columns
          (set_cell (row_filled a b i n r) (place (row_filled a b i n r) i n) (pos 0))).cells
        (i * w + n)

  row_filled_at :
      (n j : ℕ) (r : Matrix)
      → j < n
      → (row_filled a b i n r).cells (i * r.columns + j) ≡ dot a b i j a.columns
  unfolding row_filled
  row_filled_at zero j r lt = absurd (omega arith)
  row_filled_at (suc n) j r lt = elim (ℕ_discrete j n) [
    | yes e ↦
        rw e
          (ap (row_cells n r) (sym (columns-row_filled n r)) ∙ cell_self n (row_filled a b i n r))
    | no ne ↦
        let c = columns-row_filled n r in
        cell_ne n (row_filled a b i n r) (i * r.columns + j) (rw c (λ e. ne (omega arith)))
        ∙ row_filled_at n j r (omega arith)
  ]

suc_mul : (m c : ℕ) → suc m * c ≡ m * c + c
suc_mul m c = mul_comm (suc m) c ∙ (mul-suc c m ∙ ap (λ k. k + c) (mul_comm c m))

mul_lt : (i m j c : ℕ) → i < m → j < c → i * c + j < m * c
mul_lt i zero j c lt le = absurd (omega arith)
mul_lt i (suc m) j c lt le =
    let more : suc m * c ≡ m * c + c = suc_mul m c in
    elim (ℕ_discrete i m) [
      | yes e ↦ rw e (omega arith)
      | no ne ↦ let below = mul_lt i m j c (omega arith) le in omega arith
    ]

module _ (a b : Matrix) where
  pub columns-rows_filled : (n : ℕ) (r : Matrix) → (rows_filled a b n r).columns ≡ r.columns
  unfolding rows_filled
  columns-rows_filled zero r = refl
  columns-rows_filled (suc n) r =
      columns-row_filled a b n (rows_filled a b n r).columns _ ∙ columns-rows_filled n r

  pub rows_filled_at :
      (n i j : ℕ) (r : Matrix)
      → i < n
      → j < r.columns
      → (rows_filled a b n r).cells (i * r.columns + j) ≡ dot a b i j a.columns
  unfolding rows_filled
  rows_filled_at zero i j r lt le = absurd (omega arith)
  rows_filled_at (suc n) i j r lt le = elim (ℕ_discrete i n) [
    | yes e ↦
        let c = columns-rows_filled n r in
        rw e (
          ap
            (λ w.
              (row_filled a b n (rows_filled a b n r).columns (rows_filled a b n r)).cells
                (n * w + j))
            (sym c)
          ∙ row_filled_at a b n (rows_filled a b n r).columns j (rows_filled a b n r) (rw c le))
    | no ne ↦
        let c = columns-rows_filled n r in
        row_filled_below a b n (rows_filled a b n r).columns (rows_filled a b n r)
          (i * r.columns + j) (rw c (mul_lt i n j r.columns (omega arith) le))
        ∙ rows_filled_at n i j r (omega arith) le
  ]

rows-products_added :
    (a b : Matrix) (i j k : ℕ) (r : Matrix) → (products_added a b i j k r).rows ≡ r.rows
unfolding products_added
rows-products_added a b i j zero r = refl
rows-products_added a b i j (suc k) r = rows-products_added a b i j k r

rows-row_filled : (a b : Matrix) (i n : ℕ) (r : Matrix) → (row_filled a b i n r).rows ≡ r.rows
unfolding row_filled
rows-row_filled a b i zero r = refl
rows-row_filled a b i (suc n) r =
    rows-products_added a b i n a.columns _ ∙ rows-row_filled a b i n r

pub rows-rows_filled : (a b : Matrix) (n : ℕ) (r : Matrix) → (rows_filled a b n r).rows ≡ r.rows
unfolding rows_filled
rows-rows_filled a b zero r = refl
rows-rows_filled a b (suc n) r =
    rows-row_filled a b n (rows_filled a b n r).columns _ ∙ rows-rows_filled a b n r
