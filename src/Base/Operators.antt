-- ===== src/Base/Operators.antt =====
-- The operators `+`, `-`, `*` and `/` of C on the signed integers below a limit, written from the
-- language's rules: division cuts towards 0, a divisor 0 and a result out of range are faults.
use Prim.Native.Nat.{ℕ, zero, suc, ◌/◌}
use mipt_informatics.Base.Tests.{ltb, ◌==◌, if◌then◌else◌}
use mipt_informatics.Base.Int.{ℤ, pos, negsuc, ◌+ℤ◌, ◌-ℤ◌, ◌*ℤ◌}
use mipt_informatics.Base.Run.{Run, done, fault}

-- -n
abbrev pub negated : ℕ → ℤ
negated zero = pos 0
negated (suc n) = negsuc n

-- a result from `-limit` to `limit - 1`
abbrev pub limited : ℕ → ℤ → Run ℤ
limited limit (pos n) = if ltb n limit then done (pos n) else fault
limited limit (negsuc n) = if ltb n limit then done (negsuc n) else fault

-- The quotient has the magnitude of the operands' and the sign that they have together.
abbrev pub divided : ℕ → ℤ → ℤ → Run ℤ
divided limit x (pos zero) = fault
divided limit (pos a) (pos (suc b)) = limited limit (pos (a / suc b))
divided limit (pos a) (negsuc b) = limited limit (negated (a / suc b))
divided limit (negsuc a) (pos (suc b)) = limited limit (negated (suc a / suc b))
divided limit (negsuc a) (negsuc b) = limited limit (pos (suc a / suc b))

-- codes of ASCII: + is 43, - is 45, * is 42, / is 47
abbrev pub operate : (limit c : ℕ) → ℤ → ℤ → Run ℤ
operate limit c x y =
    if c == 42
    then limited limit (x *ℤ y)
    else if c == 43
    then limited limit (x +ℤ y)
    else if c == 45
    then limited limit (x -ℤ y)
    else if c == 47
    then divided limit x y
    else fault
