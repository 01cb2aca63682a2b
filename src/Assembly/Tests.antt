-- ===== src/Assembly/Tests.antt =====
-- Runs of 7-syntax_arm.c.
use mipt_informatics.Base.{ℕ, ◌≡◌, refl, none, List, [], ◌∷◌, ◌++◌, arith}
use mipt_informatics.Base.Run.{done, fault}
use mipt_informatics.Assembly.Buffer.{read_blocks, cut_loop, cut_string_literals, lowercase}
use mipt_informatics.Assembly.Buffer.Cut.{copy, cut_string_literals-copy}
use mipt_informatics.Assembly.Buffer.Read.{concat}
use mipt_informatics.Assembly.Words.{vector_new, vector_add, tokenize_loop, tokenize}
use mipt_informatics.Assembly.Words.Fields.{fields}
use mipt_informatics.Assembly.Checks.{
  arm_loop, check_x86_gp_reg, check_x86_reg, regs_loop, check_x87_commands,
}
use mipt_informatics.Assembly.Report.{check_words, main}
use mipt_informatics.Assembly.Report.Expected.{lower_case, IsExpected, main-IsExpected}

abbrev mov_eax : List ℕ
mov_eax = b'M' ∷ b'O' ∷ b'V' ∷ b' ' ∷ b'%' ∷ b'e' ∷ b'a' ∷ b'x' ∷ []

-- two literals, one of them not closed
abbrev literals : List ℕ
literals = b'"' ∷ b'l' ∷ b'd' ∷ b'r' ∷ b'"' ∷ 10 ∷ b'f' ∷ b'l' ∷ b'd' ∷ b'"' ∷ b's' ∷ 0 ∷ []

abbrev junk : ℕ → ℕ → ℕ
junk n i = b's'

main_run :
    main junk (mov_eax ∷ literals ∷ [])
    ≡ done (b'8' ∷ b'6' ∷ b' ' ∷ b'1' ∷ b' ' ∷ b'0' ∷ b' ' ∷ b'3' ∷ b'2' ∷ 10 ∷ [])
unfolding main check_words read_blocks cut_loop cut_string_literals lowercase vector_new vector_add
    tokenize_loop tokenize arm_loop check_x86_gp_reg check_x86_reg regs_loop check_x87_commands
main_run = refl

-- two words, which take all cells
main_behind : main junk (mov_eax ∷ (10 ∷ []) ∷ []) ≡ fault
unfolding main check_words read_blocks cut_loop cut_string_literals lowercase vector_new vector_add
    tokenize_loop tokenize arm_loop check_x86_gp_reg check_x86_reg regs_loop check_x87_commands
main_behind = refl

main-IsExpected_example :
    IsExpected
      (fields [] (lower_case (copy none (concat (mov_eax ∷ (10 ∷ []) ∷ []) ++ 0 ∷ []))))
      (main junk (mov_eax ∷ (10 ∷ []) ∷ []))
main-IsExpected_example =
    main-IsExpected junk (mov_eax ∷ (10 ∷ []) ∷ []) (omega arith, (omega arith, tt))

cut_string_literals-copy_example : cut_string_literals literals ≡ done (copy none literals)
cut_string_literals-copy_example = cut_string_literals-copy literals
