-- ===== src/HashTable/Tests.antt =====
-- A run of the prediction.
use mipt_informatics.Base.{◌+◌, ◌≡◌, List, [], ◌∷◌, arith}
use mipt_informatics.Base.Int.{ℤ, pos, negsuc}
use mipt_informatics.Base.Run.{done}
use mipt_informatics.HashTable.{predict}
use mipt_informatics.HashTable.Buckets.{enough_rounds}
use mipt_informatics.HashTable.Predict.{AreInts, follower, last_of, or_else, predict-follower}

-- 4 was followed by 9, then by -7
abbrev numbers : List ℤ
numbers = pos 9 ∷ pos 4 ∷ negsuc 6 ∷ pos 4 ∷ []

numbers-AreInts : AreInts (pos 4 ∷ numbers)
numbers-AreInts = (omega arith, (omega arith, (omega arith, (omega arith, (omega arith, tt)))))

predict-follower_example :
    predict (enough_rounds + 1) (pos 4 ∷ numbers)
    ≡ done (or_else (follower (last_of (pos 4) numbers) (pos 4 ∷ numbers)) (negsuc 0))
predict-follower_example =
    predict-follower (enough_rounds + 1) (pos 4) numbers (omega arith) numbers-AreInts
