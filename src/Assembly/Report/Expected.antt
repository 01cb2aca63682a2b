-- ===== src/Assembly/Report/Expected.antt =====
-- What 7-syntax_arm.c prints, from the words of its input.
use mipt_informatics.Base.{
  zero, suc, ◌+◌, Bool, true, ◌⊎◌, ◌&&◌, ◌||◌, leb, ltb, length, ℕ, ◌≡◌, refl, sym, ap, ◌∙◌,
  Bool-cases, false, inl, inr, List, [], ◌∷◌, ◌++◌, none, arith, ◌==◌, if◌then◌else◌,
}
use mipt_informatics.Base.Run.{Run, done, fault, ◌>>◌, assert}
use mathlib.Core.Path.{subst}
use mipt_informatics.Assembly.Buffer.{cut_string_literals, tolower, lowercase}
use mipt_informatics.Assembly.Buffer.Cut.{copy, cut_string_literals-copy}
use mipt_informatics.Assembly.Buffer.Read.{AreBlocks, concat, read_blocks-concat}
use mipt_informatics.Assembly.Words.{Vector, is_delimiter}
use mipt_informatics.Assembly.Words.Fields.{emit, fields, tokenize-fields}
use mipt_informatics.Assembly.Words.Growth.{IsFull, IsGrown, full-ltb, room-ltb, tokenize-IsGrown}
use mipt_informatics.Assembly.Checks.Registers.{NoNul}
use mipt_informatics.Assembly.Checks.Loops.{
  any, is_in, arm_names, vfp_names, x87_names, is_marked, widest, AllNoNul, arm_loop-any,
  check_x87_commands-any, regs_loop-widest, max_zero,
}
use mipt_informatics.Assembly.Report.{digit, size_text, report_arm, report_x86, check_words, main}

-- the letters A to Z, which are 65 to 90, as a to z
abbrev pub lower_case : List ℕ → List ℕ
lower_case [] = []
lower_case (c ∷ s) = (if leb 65 c && leb c 90 then c + 32 else c) ∷ lower_case s

abbrev flag : Bool → ℕ
flag true = b'1'
flag false = b'0'

abbrev bits : ℕ → List ℕ
bits zero = b'1' ∷ b'6' ∷ []
bits (suc zero) = b'3' ∷ b'2' ∷ []
bits (suc (suc zero)) = b'6' ∷ b'4' ∷ []
bits (suc (suc (suc n))) = b'1' ∷ b'6' ∷ []

-- The line for the words: 0 and VFP for ARM; 86, AT&T, x87 and the size for x86.
abbrev pub report : List (List ℕ) → List ℕ
report words =
    if any (is_in arm_names) words
    then b'0' ∷ b' ' ∷ flag (any (is_in vfp_names) words) ∷ 10 ∷ []
    else b'8'
        ∷ b'6'
        ∷ b' '
        ∷ flag (any is_marked words)
        ∷ b' '
        ∷ flag (any (is_in x87_names) words)
        ∷ b' '
        ∷ bits (widest words)
      ++ 10 ∷ []

pub record IsExpected (words : List (List ℕ)) (result : Run (List ℕ)) : Type 0 where
  pub reads_behind : any (is_in vfp_names) words ≡ false → IsFull (length words) → result ≡ fault
  pub prints :
      (any (is_in vfp_names) words ≡ true) ⊎ ¬ IsFull (length words) → result ≡ done (report words)

lowercase-lower_case : (s : List ℕ) → lowercase s ≡ lower_case s
unfolding lowercase
lowercase-lower_case [] = refl
lowercase-lower_case (c ∷ s) = ap (λ t. tolower c ∷ t) (lowercase-lower_case s)

digit-flag : (b : Bool) → digit b ≡ flag b
digit-flag true = refl
digit-flag false = refl

size_text-bits : (n : ℕ) → size_text n ≡ bits n
size_text-bits n = ground arith

NoNul-snoc : (w : List ℕ) (c : ℕ) → NoNul w → (c == 0) ≡ false → NoNul (w ++ c ∷ [])
NoNul-snoc [] c n h = (h, tt)
NoNul-snoc (d ∷ w) c n h = (n.0, NoNul-snoc w c n.1 h)

AllNoNul-emit :
    (word : List ℕ) (words : List (List ℕ))
    → NoNul word
    → AllNoNul words
    → AllNoNul (emit word words)
AllNoNul-emit [] words n ns = ns
AllNoNul-emit (c ∷ word) words n ns = (n, ns)

-- words hold no NUL
AllNoNul-fields : (s word : List ℕ) → NoNul word → AllNoNul (fields word s)
AllNoNul-fields [] [] n = tt
AllNoNul-fields [] (d ∷ word) n = (n, tt)
AllNoNul-fields (c ∷ s) word n = elim (Bool-cases (c == 0)) [
  | inl e ↦ rw e (AllNoNul-emit word [] n tt)
  | inr e ↦ elim (Bool-cases (is_delimiter c)) [
    | inl f ↦ rw (e, f) (AllNoNul-emit word (fields [] s) n (AllNoNul-fields s [] tt))
    | inr f ↦ rw (e, f) (AllNoNul-fields s (word ++ c ∷ []) (NoNul-snoc word c n e))
  ]
]

-- what is printed, from the results of the loops
printed-report :
    (words : List (List ℕ))
    → (if any (is_in arm_names) words
        then report_arm (any (is_in vfp_names) words)
        else report_x86 (any is_marked words) (any (is_in x87_names) words) (widest words))
      ≡ report words
printed-report words =
    rw
      (
        digit-flag (any (is_in vfp_names) words),
        digit-flag (any is_marked words),
        digit-flag (any (is_in x87_names) words),
        size_text-bits (widest words),
      )
      refl

module _ (behind : ℕ → ℕ → ℕ) where
  -- the checks of one word at least
  check_cells-report :
      (word : List ℕ) (words : List (List ℕ)) (size : ℕ)
      → AllNoNul (word ∷ words)
      → check_words behind (record { cells = word ∷ words; allocated = size }) ≡ (
          assert (any (is_in vfp_names) (word ∷ words) || ltb (length (word ∷ words)) size)
          >> done (report (word ∷ words)))
  unfolding check_words
  check_cells-report word words size n =
      rw
        (
          arm_loop-any (word ∷ words) false,
          regs_loop-widest behind (word ∷ words) false 0 n (omega arith),
          check_x87_commands-any (word ∷ words),
          ← max_zero (widest (word ∷ words)),
        )
        (ap
          (λ r.
            assert (any (is_in vfp_names) (word ∷ words) || ltb (length (word ∷ words)) size)
            >> done r)
          (printed-report (word ∷ words)))

  check_cells-IsExpected :
      (words : List (List ℕ)) (size : ℕ)
      → AllNoNul words
      → IsGrown (length words) size
      → IsExpected words (check_words behind (record { cells = words; allocated = size }))
  unfolding check_words
  check_cells-IsExpected [] size n grown = record {
    reads_behind = λ e full. refl;
    prints = λ h. elim h [ inl e ↦ cc | inr room ↦ absurd (room (inl refl)) ];
  }
  check_cells-IsExpected (word ∷ words) size n grown =
      let run = check_cells-report word words size n in
      record {
        reads_behind =
            λ e full. run ∙ rw (e, full-ltb (length (word ∷ words)) size grown full) refl;
        prints = λ h. elim h [
          | inl e ↦ run ∙ rw e refl
          | inr room ↦
              let left = room-ltb (length (word ∷ words)) size grown room in
              run ∙ elim (Bool-cases (any (is_in vfp_names) (word ∷ words))) [
                | inl e ↦ rw e refl
                | inr e ↦ rw (e, left) refl
              ]
        ];
      }

  check_words-IsExpected :
      (vec : Vector (List ℕ))
      → AllNoNul vec.cells
      → IsGrown (length vec.cells) vec.allocated
      → IsExpected vec.cells (check_words behind vec)
  check_words-IsExpected vec n grown = check_cells-IsExpected vec.cells vec.allocated n grown

  -- Whatever stands in the memory behind the words, and for blocks of at most 4096 characters: the words are
  -- those of the text without its literals, in lower case. If one of them is an instruction of VFP, or
  -- they are neither none nor a power of two many, the program ends and prints 0 and whether VFP is
  -- used, if one of the words is an instruction of ARM, and if none is, 86, whether a register has a
  -- percent sign in front, whether the x87 is used, and the greatest size of the registers. In the
  -- other cases it reads behind the cells of the vector.
  pub main-IsExpected :
      (blocks : List (List ℕ))
      → AreBlocks blocks
      → IsExpected
          (fields [] (lower_case (copy none (concat blocks ++ 0 ∷ []))))
          (main behind blocks)
  unfolding main
  main-IsExpected blocks a =
      let (b, read, chars) = read_blocks-concat (record { chars = []; data_allocd = 0 }) blocks a in
      let cut : cut_string_literals b.chars ≡ done (copy none (concat blocks ++ 0 ∷ [])) =
        ap cut_string_literals chars ∙ cut_string_literals-copy (concat blocks ++ 0 ∷ []) in
      let text = lowercase (copy none (concat blocks ++ 0 ∷ [])) in
      let (vec, run, cells) = tokenize-fields text in
      let nuls = subst AllNoNul (sym cells) (AllNoNul-fields text [] tt) in
      let checked = check_words-IsExpected vec nuls (tokenize-IsGrown text vec run) in
      rw (← lowercase-lower_case (copy none (concat blocks ++ 0 ∷ [])))
        (rw (read, cut, run) (subst (λ w. IsExpected w (check_words behind vec)) cells checked))
