-- ===== src/Cpu.antt =====
-- course1-2/3-neo-at-the-architect/1-cpu.c: a processor with four registers of 8 bits. The input is
-- the list of the decimal numbers that `scanf` finds; it ends at the end of the file or at anything
-- else. `%d` reads a number as it is, if it is an `int`, and `%u` reads it modulo 2 ^ 32.
pub mod Registers
pub mod Commands
pub mod Tests
use mipt_informatics.Base.{
  ℕ, zero, suc, ◌+◌, ◌-◌, ◌%◌, ◌^◌, Bool, true, false, not, ◌&&◌, List, [], ◌∷◌, leb, ltb, ◌==◌,
  if◌then◌else◌,
}
use mipt_informatics.Base.Int.{ℤ, pos, negsuc, ltb_ℤ, eqb_ℤ, ◌+ℤ◌, ◌-ℤ◌}
use mipt_informatics.Base.Run.{Run, done, fault, out_of_fuel, ◌>>=◌, ◌>>◌, assert}

-- `int regs[4]`
abbrev pub Regs : Type 0
Regs = ℕ → ℤ

pub reg_nr_to_idx : ℕ → Run ℕ
reg_nr_to_idx nr = do assert (leb 5 nr); assert (leb nr 8); done (nr - 5)

-- `while (*reg < 0) { *reg += 0x100; }`
pub raise_reg : ℕ → ℤ → Run ℤ
raise_reg zero reg = out_of_fuel
raise_reg (suc fuel) reg =
    let rest = raise_reg fuel (reg +ℤ pos 0x100) in if ltb_ℤ reg (pos 0) then rest else done reg

-- `while (*reg > 0xFF) { *reg -= 0x100; }`
pub lower_reg : ℕ → ℤ → Run ℤ
lower_reg zero reg = out_of_fuel
lower_reg (suc fuel) reg =
    let rest = lower_reg fuel (reg -ℤ pos 0x100) in if ltb_ℤ (pos 0xff) reg then rest else done reg

pub adjust_reg_8bit : ℕ → ℤ → Run ℤ
unfolding raise_reg lower_reg ◌+ℤ◌ ◌-ℤ◌
adjust_reg_8bit fuel reg = do reg' ← raise_reg fuel reg; lower_reg fuel reg'

-- what `%u` stores for a number of the input
abbrev pub as_unsigned : ℤ → ℕ
as_unsigned (pos n) = n % 2 ^ 32
as_unsigned (negsuc n) = 2 ^ 32 - 1 - n % 2 ^ 32

-- the `int` that an `unsigned` is converted to
abbrev pub as_int : ℕ → ℤ
as_int w = if ltb w (2 ^ 31) then pos w else negsuc (2 ^ 32 - w - 1)

abbrev pub store : Regs → ℕ → ℤ → Regs
store regs i v = λ j. if j == i then v else regs j

-- `regs[…] = value; adjust_reg_8bit (&regs[…]);`
pub assign : ℕ → Regs → ℕ → ℤ → Run Regs
unfolding adjust_reg_8bit
assign fuel regs i value = do v ← adjust_reg_8bit fuel value; done (store regs i v)

-- One pass of the loop. It sets `halt` or `error`, or goes on with the rest of the input, having
-- printed the registers or not.
pub data Pass : Type 0 where
  halt : Pass
  error : Pass
  go_on : List ℤ → Regs → Pass
  print : List ℤ → Pass

abbrev pub with_two : List ℤ → (ℕ → ℕ → List ℤ → Run Pass) → Run Pass
with_two [] body = done error
with_two (a ∷ []) body = done error
with_two (a ∷ b ∷ rest) body = body (as_unsigned a) (as_unsigned b) rest

pub cmd_add : ℕ → Regs → ℕ → ℕ → List ℤ → Run Pass
unfolding assign reg_nr_to_idx ◌+ℤ◌
cmd_add fuel regs arg_dest arg_src rest = do
  dest ← reg_nr_to_idx arg_dest
  src ← reg_nr_to_idx arg_src
  regs' ← assign fuel regs dest (regs dest +ℤ regs src)
  done (go_on rest regs')

pub cmd_sub : ℕ → Regs → ℕ → ℕ → List ℤ → Run Pass
unfolding assign reg_nr_to_idx ◌-ℤ◌
cmd_sub fuel regs arg_dest arg_src rest = do
  dest ← reg_nr_to_idx arg_dest
  src ← reg_nr_to_idx arg_src
  regs' ← assign fuel regs dest (regs dest -ℤ regs src)
  done (go_on rest regs')

pub cmd_mov : ℕ → Regs → ℕ → ℕ → List ℤ → Run Pass
unfolding assign reg_nr_to_idx
cmd_mov fuel regs arg_dest arg_data rest = do
  dest ← reg_nr_to_idx arg_dest
  regs' ← assign fuel regs dest (as_int arg_data)
  done (go_on rest regs')

pub pass : ℕ → List ℤ → Regs → Run Pass
unfolding cmd_add cmd_sub cmd_mov
pass fuel [] regs = done error
pass fuel (cmd ∷ input) regs =
    if eqb_ℤ cmd (pos 0)
    then done halt
    else if eqb_ℤ cmd (pos 1)
    then with_two input (cmd_add fuel regs)
    else if eqb_ℤ cmd (pos 2)
    then with_two input (cmd_sub fuel regs)
    else if eqb_ℤ cmd (pos 3)
    then with_two input (cmd_mov fuel regs)
    else if eqb_ℤ cmd (pos 4)
    then done (print input)
    else done error

-- the lines that `CMD_IR` printed, and whether the exit status is that of an error
abbrev pub Report : Type 0
Report = List (List ℤ) × Bool

abbrev pub add_line : List ℤ → Report → Report
add_line line (lines, failed) = (line ∷ lines, failed)

abbrev pub line_of : Regs → List ℤ
line_of regs = regs 0 ∷ regs 1 ∷ regs 2 ∷ regs 3 ∷ []

-- `while (!halt && !error)`; each pass takes a number from the input
pub execute : ℕ → ℕ → List ℤ → Regs → Run Report
unfolding pass
execute zero fuel input regs = out_of_fuel
execute (suc rounds) fuel input regs = do
  p ← pass fuel input regs
  elim p [
    | halt ↦ done ([], false)
    | error ↦ done ([], true)
    | go_on rest regs' ↦ execute rounds fuel rest regs'
    | print rest ↦ execute rounds fuel rest regs >>= λ report. done (add_line (line_of regs) report)
  ]
