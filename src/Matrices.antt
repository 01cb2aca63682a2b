-- ===== src/Matrices.antt =====
-- course1-1/14-seminar-line-age/matrices.c: the product of two matrices, whose cells stand row by row
-- in one array. A loop over an index is a recursion on the number of passes that are done. A
-- `long` has 64 bits. `malloc` succeeds; the cells that it gives are a parameter, and a null matrix is
-- `none`.
pub mod Sums
pub mod Product
pub mod Tests
use mipt_informatics.Base.{ℕ, zero, suc, ◌+◌, ◌*◌, ◌^◌, Option, none, some, ◌==◌, if◌then◌else◌}
use mipt_informatics.Base.Int.{ℤ, pos, ◌+ℤ◌, ◌*ℤ◌}
use mipt_informatics.Base.Run.{Run, done, ◌>>=◌}
use mipt_informatics.Base.Operators.{limited}

pub record Matrix : Type 0 where
  pub rows : ℕ
  pub columns : ℕ
  pub cells : ℕ → ℤ

-- the place of `DATA (m, r, c)` in the array
abbrev pub place : Matrix → ℕ → ℕ → ℕ
place m r c = r * m.columns + c

abbrev pub set_cell : Matrix → ℕ → ℤ → Matrix
set_cell m p v = record m { cells = λ i. if i == p then v else m.cells i }

abbrev pub matrix_create : ℕ → ℕ → (ℕ → ℤ) → Matrix
matrix_create rows columns memory = record { rows = rows; columns = columns; cells = memory }

-- the loop over `k`; a product or a sum that is no `long` is undefined behaviour
unfoldable pub add_products : Matrix → Matrix → ℕ → ℕ → ℕ → Matrix → Run Matrix
add_products a b i j zero r = done r
add_products a b i j (suc k) r = do
  r' ← add_products a b i j k r
  product ← limited (2 ^ 63) (a.cells (place a i k) *ℤ b.cells (place b k j))
  sum ← limited (2 ^ 63) (r'.cells (place r' i j) +ℤ product)
  done (set_cell r' (place r' i j) sum)

-- the loop over `j`, with the assignment of 0
unfoldable pub fill_row : Matrix → Matrix → ℕ → ℕ → Matrix → Run Matrix
fill_row a b i zero r = done r
fill_row a b i (suc j) r = do
  r' ← fill_row a b i j r
  add_products a b i j a.columns (set_cell r' (place r' i j) (pos 0))

unfoldable pub fill_rows : Matrix → Matrix → ℕ → Matrix → Run Matrix
fill_rows a b zero r = done r
fill_rows a b (suc i) r = do r' ← fill_rows a b i r; fill_row a b i r'.columns r'

unfoldable pub matrix_multiply : (ℕ → ℤ) → Matrix → Matrix → Run (Option Matrix)
matrix_multiply memory a b =
    if a.columns == b.rows
    then (do r ← fill_rows a b a.rows (matrix_create a.rows b.columns memory); done (some r))
    else done none
