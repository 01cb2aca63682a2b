-- ===== src/Matrices/Product.antt =====
-- The product of two matrices whose sums and products are values of a `long`.
use mipt_informatics.Base.{
  ℕ, zero, suc, ◌+◌, ◌*◌, ◌^◌, ◌<◌, ◌≤◌, ◌≡◌, ◌≢◌, refl, ap, ◌∙◌, Bool-cases, inl, inr, ==_iff,
  Option, none, some, ◌==◌, arith,
}
use mipt_informatics.Base.Int.{ℤ, pos, negsuc, ◌*ℤ◌}
use mipt_informatics.Base.Run.{Run, done, ◌>>=◌}
use mipt_informatics.Base.Operators.{limited}
use mipt_informatics.Matrices.{
  Matrix, place, set_cell, matrix_create, add_products, fill_row, fill_rows, matrix_multiply,
}
use mipt_informatics.Matrices.Sums.{
  dot, products_added, row_filled, rows_filled, products_added_self, columns-products_added,
  columns-rows_filled, rows_filled_at, rows-rows_filled,
}

-- A matrix with the given shape, and the sums of products in its cells.
pub record IsProduct (a b r : Matrix) : Type 0 where
  pub rows : r.rows ≡ a.rows
  pub columns : r.columns ≡ b.columns
  pub cell : (i j : ℕ) → i < a.rows → j < b.columns → r.cells (place r i j) ≡ dot a b i j a.columns

-- from - 2 ^ 63 to 2 ^ 63 - 1
abbrev pub InLong : ℤ → Type 0
InLong (pos n) = n < 2 ^ 63
InLong (negsuc n) = n < 2 ^ 63

-- Every product of two cells that the loops form, and every sum that they pass through, is a `long`.
abbrev pub AllInLong : Matrix → Matrix → Type 0
AllInLong a b =
    (i j k : ℕ)
    → i < a.rows
    → j < b.columns
    → k < a.columns
    → InLong (a.cells (i * a.columns + k) *ℤ b.cells (k * b.columns + j))
      × InLong (dot a b i j (suc k))

limited-done : (z : ℤ) → InLong z → limited (2 ^ 63) z ≡ done z
limited-done (pos n) h = ground arith
limited-done (negsuc n) h = ground arith

module _ (a b : Matrix) (small : AllInLong a b) where
  add_products-done :
      (i j k : ℕ) (r : Matrix)
      → i < a.rows
      → j < b.columns
      → k ≤ a.columns
      → r.cells (i * r.columns + j) ≡ pos 0
      → add_products a b i j k r ≡ done (products_added a b i j k r)
  unfolding add_products products_added dot
  add_products-done i j zero r p q le e = refl
  add_products-done i j (suc k) r p q le e =
      let (product, sum) = small i j k p q (omega arith) in
      let r' = products_added a b i j k r in
      let cell : r'.cells (i * r'.columns + j) ≡ dot a b i j k =
        ap (λ w. r'.cells (i * w + j)) (columns-products_added a b i j k r)
        ∙ products_added_self a b i j k r e in
      let fits = limited-done (dot a b i j (suc k)) sum in
      rw (add_products-done i j k r p q (omega arith) e, limited-done _ product, cell)
        (ap (λ m. m >>= λ v. done (set_cell r' (i * r'.columns + j) v)) fits)

  fill_row-done :
      (i n : ℕ) (r : Matrix)
      → i < a.rows
      → n ≤ b.columns
      → fill_row a b i n r ≡ done (row_filled a b i n r)
  unfolding fill_row row_filled
  fill_row-done i zero r p le = refl
  fill_row-done i (suc n) r p le =
      rw (fill_row-done i n r p (omega arith))
        (add_products-done i n a.columns _ p (omega arith) (omega arith) (ground arith))

  fill_rows-done :
      (n : ℕ) (r : Matrix)
      → n ≤ a.rows
      → r.columns ≡ b.columns
      → fill_rows a b n r ≡ done (rows_filled a b n r)
  unfolding fill_rows rows_filled
  fill_rows-done zero r le c = refl
  fill_rows-done (suc n) r le c =
      let columns = columns-rows_filled a b n r ∙ c in
      rw (fill_rows-done n r (omega arith) c) (
        fill_row-done n (rows_filled a b n r).columns (rows_filled a b n r) (omega arith)
          (omega (arith, columns)))

filled-IsProduct :
    (memory : ℕ → ℤ) (a b : Matrix)
    → IsProduct a b (rows_filled a b a.rows (matrix_create a.rows b.columns memory))
filled-IsProduct memory a b =
    let r = matrix_create a.rows b.columns memory in
    let c = columns-rows_filled a b a.rows r in
    record {
      rows = rows-rows_filled a b a.rows r;
      columns = c;
      cell = λ i j p q.
          ap (λ w. (rows_filled a b a.rows r).cells (i * w + j)) c
          ∙ rows_filled_at a b a.rows i j r p q;
    }

-- What the multiplication does: null exactly if the columns of `a` are not as many as the rows of `b`.
abbrev pub Multiplies : Matrix → Matrix → Run (Option Matrix) → Type 0
Multiplies a b (done none) = a.columns ≢ b.rows
Multiplies a b (done (some r)) = (a.columns ≡ b.rows) × IsProduct a b r
Multiplies a b _ = ⊥

-- When all products of two cells and all sums on the way are values of a `long` of 64 bits, the product of
-- two matrices ends without an overflow: null if the columns of the first are not as many as the
-- rows of the second, and otherwise with the rows of the first and the columns of the second, where
-- each cell is the sum of the products of the row and the column; what memory held does not matter.
pub matrix_multiply-Multiplies :
    (memory : ℕ → ℤ) (a b : Matrix) → AllInLong a b → Multiplies a b (matrix_multiply memory a b)
unfolding matrix_multiply
matrix_multiply-Multiplies memory a b small = elim (Bool-cases (a.columns == b.rows)) [
  | inl e ↦
      let r = matrix_create a.rows b.columns memory in
      rw (e, fill_rows-done a b small a.rows r (omega arith) refl)
        ((==_iff a.columns b.rows).0 e, filled-IsProduct memory a b)
  | inr e ↦ rw e (λ same. ground arith)
]
