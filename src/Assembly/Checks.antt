-- ===== src/Assembly/Checks.antt =====
-- The checks of 7-syntax_arm.c on the words. A pointer to a word is the memory from there on: the word,
-- its NUL, and what stands behind the NUL, which `behind` gives for a word with so many words after it.
-- The sizes of operands are 0, 1 and 2, as in the enumeration.
pub mod Registers
pub mod Loops
use mipt_informatics.Base.{
  ℕ, zero, suc, Bool, true, false, not, ◌&&◌, ◌||◌, Option, none, some, List, [], ◌∷◌, ltb, leb,
  ◌==◌, if◌then◌else◌, length,
}

abbrev pub memory : (ℕ → ℕ) → List ℕ → ℕ → ℕ
memory behind [] zero = 0
memory behind [] (suc i) = behind i
memory behind (c ∷ word) zero = c
memory behind (c ∷ word) (suc i) = memory behind word i

-- `word + 1`
abbrev pub next : (ℕ → ℕ) → ℕ → ℕ
next word i = word (suc i)

abbrev pub x86_operand_16 : ℕ
x86_operand_16 = 0

abbrev pub x86_operand_32 : ℕ
x86_operand_32 = 1

abbrev pub x86_operand_64 : ℕ
x86_operand_64 = 2

-- `MAX`
abbrev pub max : ℕ → ℕ → ℕ
max a b = if ltb b a then a else b

-- `!strcmp (v, w)`
abbrev pub equal : List ℕ → List ℕ → Bool
equal [] [] = true
equal [] (d ∷ w) = false
equal (c ∷ v) [] = false
equal (c ∷ v) (d ∷ w) = c == d && equal v w

abbrev pub vldr : List ℕ
vldr = b'v' ∷ b'l' ∷ b'd' ∷ b'r' ∷ []

abbrev pub vstr : List ℕ
vstr = b'v' ∷ b's' ∷ b't' ∷ b'r' ∷ []

abbrev pub ldr : List ℕ
ldr = b'l' ∷ b'd' ∷ b'r' ∷ []

abbrev pub str : List ℕ
str = b's' ∷ b't' ∷ b'r' ∷ []

-- the loop of `check_arm_and_vfp_insns`: the instruction set is ARM, and VFP is present
unfoldable pub arm_loop : List (List ℕ) → (arm : Bool) → Bool × Bool
arm_loop [] arm = (arm, false)
arm_loop (word ∷ words) arm =
    let rest = arm_loop words (if equal word ldr || equal word str then true else arm) in
    if equal word vldr || equal word vstr then (true, true) else rest

unfoldable pub check_x86_gp_reg : (ℕ → ℕ) → Bool
check_x86_gp_reg word =
    if not (word 2 == 0)
    then false
    else if word 1 == b'x'
    then leb b'a' (word 0) && leb (word 0) b'd'
    else if word 1 == b'i'
    then word 0 == b's' || word 0 == b'd'
    else if word 1 == b'p'
    then word 0 == b's' || word 0 == b'b'
    else false

-- a register, and the sizes of operands behind it
unfoldable pub check_x86_reg : (ℕ → ℕ) → ℕ → Bool × ℕ
check_x86_reg word operands =
    if word 1 == b's' && word 2 == 0
    then (word 0 == b'c' || word 0 == b'd' || word 0 == b's', operands)
    else if check_x86_gp_reg word
    then (true, operands)
    else if check_x86_gp_reg (next word)
    then (if word 0 == b'e'
        then (true, max operands x86_operand_32)
        else if word 0 == b'r'
        then (true, max operands x86_operand_64)
        else (false, operands))
    else (false, operands)

module _ (behind : ℕ → ℕ → ℕ) where
  -- the loop of `check_x86_regs_flavor_and_size`: the flavor is that of AT&T, and the size
  unfoldable pub regs_loop : List (List ℕ) → (att : Bool) → (operands : ℕ) → Bool × ℕ
  regs_loop [] att operands = (att, operands)
  regs_loop (name ∷ words) att operands =
      let word = memory (behind (length words)) name in
      let (percent, operands') =
        if word 0 == b'%' then check_x86_reg (next word) operands else (false, operands) in
      let marked = regs_loop words true operands' in
      let plain = regs_loop words att (check_x86_reg word operands').1 in
      if percent then (if operands' == x86_operand_64 then (true, operands') else marked) else plain

-- `check_x87_commands`
unfoldable pub check_x87_commands : List (List ℕ) → Bool
check_x87_commands [] = false
check_x87_commands (word ∷ words) =
    let rest = check_x87_commands words in
    if equal word (b'f' ∷ b'i' ∷ b'n' ∷ b'i' ∷ b't' ∷ [])
      || equal word (b'f' ∷ b'l' ∷ b'd' ∷ [])
      || equal word (b'f' ∷ b's' ∷ b't' ∷ [])
    then true
    else rest
