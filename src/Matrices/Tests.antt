-- ===== src/Matrices/Tests.antt =====
-- The product of a matrix of one row and one of one column.
use mipt_informatics.Base.{zero, suc, ◌+◌, arith}
use mipt_informatics.Base.Int.{pos, ◌+ℤ◌, ◌*ℤ◌}
use mipt_informatics.Matrices.{Matrix, matrix_multiply}
use mipt_informatics.Matrices.Sums.{dot}
use mipt_informatics.Matrices.Product.{AllInLong, Multiplies, matrix_multiply-Multiplies}

abbrev row : Matrix
row = record { rows = 1; columns = 2; cells = λ i. pos i }

abbrev column : Matrix
column = record { rows = 2; columns = 1; cells = λ i. pos (i + 3) }

row-AllInLong : AllInLong row column
unfolding dot ◌+ℤ◌ ◌*ℤ◌
row-AllInLong zero zero zero p q r = (omega arith, omega arith)
row-AllInLong zero zero (suc zero) p q r = (omega arith, omega arith)
row-AllInLong zero zero (suc (suc k)) p q r = absurd (omega arith)
row-AllInLong (suc i) j k p q r = absurd (omega arith)
row-AllInLong zero (suc j) k p q r = absurd (omega arith)

matrix_multiply-Multiplies_example : Multiplies row column (matrix_multiply (λ i. pos 9) row column)
matrix_multiply-Multiplies_example =
    matrix_multiply-Multiplies (λ i. pos 9) row column row-AllInLong
