-- ===== src/Assembly/Report.antt =====
-- `main` of 7-syntax_arm.c, from the blocks that it reads to what it prints. A loop over the words reads
-- the first cell before it compares with the end, and the cell behind the last word when it has
-- not returned before.
pub mod Expected
use mipt_informatics.Base.{
  ℕ, Bool, true, false, Option, none, some, List, [], ◌∷◌, ◌++◌, ◌==◌, ◌||◌, ltb, length,
  if◌then◌else◌,
}
use mipt_informatics.Base.Run.{Run, done, fault, ◌>>=◌, ◌>>◌, assert}
use mipt_informatics.Assembly.Buffer.{Buffer, read_blocks, cut_string_literals, lowercase}
use mipt_informatics.Assembly.Words.{Vector, tokenize}
use mipt_informatics.Assembly.Checks.{arm_loop, regs_loop, check_x87_commands, x86_operand_16}

-- the words of a loop; without words `data` is NULL
abbrev pub foreach : Vector (List ℕ) → Run (List (List ℕ))
foreach vec = elim (vec.cells) [ [] ↦ fault | word ∷ words ↦ done (word ∷ words) ]

-- the cell behind the last word is one that is allocated, or the loop has returned before
abbrev pub behind_last : (returned : Bool) → Vector (List ℕ) → Run (Unit {0})
behind_last returned vec = assert (returned || ltb (length vec.cells) vec.allocated)

abbrev pub digit : Bool → ℕ
digit b = if b then b'1' else b'0'

-- "64", "32" or "16"
abbrev pub size_text : ℕ → List ℕ
size_text operands =
    if operands == 2
    then b'6' ∷ b'4' ∷ []
    else if operands == 1
    then b'3' ∷ b'2' ∷ []
    else b'1' ∷ b'6' ∷ []

abbrev pub report_arm : Bool → List ℕ
report_arm vfp = b'0' ∷ b' ' ∷ digit vfp ∷ 10 ∷ []

abbrev pub report_x86 : (att x87 : Bool) → ℕ → List ℕ
report_x86 att x87 operands =
    b'8' ∷ b'6' ∷ b' ' ∷ digit att ∷ b' ' ∷ digit x87 ∷ b' ' ∷ size_text operands ++ 10 ∷ []

module _ (behind : ℕ → ℕ → ℕ) where
  -- The checks, and what is printed. `check_arm_and_vfp_insns` returns early where it finds VFP. The
  -- later loops run only where it has read the cell behind the last word of the same vector.
  unfoldable pub check_words : Vector (List ℕ) → Run (List ℕ)
  check_words vec = do
    words ← foreach vec
    let (arm, vfp) = arm_loop words false
    behind_last vfp vec
    let (att, operands) = regs_loop behind words false x86_operand_16
    let x87 = check_x87_commands words
    done (if arm then report_arm vfp else report_x86 att x87 operands)

  unfoldable pub main : List (List ℕ) → Run (List ℕ)
  unfolding check_words
  main blocks = do
    b ← read_blocks (record { chars = []; data_allocd = 0 }) blocks
    chars ← cut_string_literals b.chars
    vec ← tokenize (lowercase chars)
    check_words vec
