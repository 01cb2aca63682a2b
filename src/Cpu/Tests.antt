-- ===== src/Cpu/Tests.antt =====
-- Runs of the processor.
use mipt_informatics.Base.{ℕ, ◌+◌, ◌%◌, ◌<◌, List, [], ◌∷◌, arith}
use mipt_informatics.Base.Int.{ℤ, pos, negsuc}
use mipt_informatics.Cpu.{execute}
use mipt_informatics.Cpu.Commands.{enough_fuel, holding, PrintsBytes, execute-PrintsBytes}

abbrev bytes : ℕ → ℕ
bytes i = (200 + i) % 256

bytes-AreBytes : (i : ℕ) → bytes i < 256
bytes-AreBytes i = omega arith

abbrev fuel : ℕ
fuel = enough_fuel + 1

-- a move of -1 into the first register, a print and the end
abbrev program : List ℤ
program = pos 2 ∷ pos 5 ∷ negsuc 0 ∷ pos 4 ∷ []

execute-PrintsBytes_example : PrintsBytes (execute 5 fuel program (holding bytes))
execute-PrintsBytes_example =
    execute-PrintsBytes 5 fuel program bytes (omega arith) (omega arith) bytes-AreBytes
