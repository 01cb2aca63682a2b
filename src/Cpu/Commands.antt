-- ===== src/Cpu/Commands.antt =====
-- The commands of 1-cpu.c over registers that hold bytes.
use mipt_informatics.Base.{
  ℕ, zero, suc, ◌+◌, ◌-◌, ◌%◌, ◌^◌, ◌<◌, ◌≡◌, ◌⊎◌, inl, inr, Bool-cases, ◌&&◌, true, false, Bool,
  List, [], ◌∷◌, arith, leb, ◌==◌, if◌then◌else◌, length,
}
use mathlib.Core.Path.{fun_ext}
use mipt_informatics.Base.Int.{eqb_ℤ, ℤ, pos, negsuc, ◌+ℤ◌, ◌-ℤ◌}
use mipt_informatics.Base.Run.{Run, done, fault, out_of_fuel, ◌>>=◌}
use mipt_informatics.Cpu.{
  Regs, as_unsigned, with_two, reg_nr_to_idx, as_int, store, assign, Pass, halt, error, go_on,
  print, cmd_add, cmd_sub, cmd_mov, line_of, add_line, pass, execute,
}
use mipt_informatics.Cpu.Registers.{residue, Enough, adjust_reg_8bit-residue}

-- enough rounds for every `int`
abbrev pub enough_fuel : ℕ
enough_fuel = 2 ^ 23 + 2

reg_nr_to_idx-some : (i : ℕ) → i < 4 → reg_nr_to_idx (i + 5) ≡ done i
unfolding reg_nr_to_idx
reg_nr_to_idx-some i h = ground arith

assign-residue :
    (fuel : ℕ) (regs : Regs) (i : ℕ) (z : ℤ)
    → {n : ℕ} → Enough fuel z × (residue z ≡ n)
    → assign fuel regs i z ≡ done (store regs i (pos n))
unfolding assign
assign-residue fuel regs i z (h, e) = rw (adjust_reg_8bit-residue fuel z h, e)

module _ (fuel a b : ℕ) (long : enough_fuel < fuel) (ha : a < 256) (hb : b < 256) where
  sum_byte : Enough fuel (pos a +ℤ pos b) × (residue (pos a +ℤ pos b) ≡ (a + b) % 256)
  unfolding ◌+ℤ◌
  sum_byte = ground arith

  difference_byte : Enough fuel (pos a -ℤ pos b) × (residue (pos a -ℤ pos b) ≡ (a + 256 - b) % 256)
  unfolding ◌-ℤ◌
  difference_byte = ground arith

word_byte :
    (fuel w : ℕ)
    → enough_fuel < fuel
    → w < 2 ^ 32
    → Enough fuel (as_int w) × (residue (as_int w) ≡ w % 256)
word_byte fuel w long h = ground arith

-- registers that hold the bytes `v`
abbrev pub holding : (ℕ → ℕ) → Regs
holding v i = pos (v i)

abbrev pub AreBytes : (ℕ → ℕ) → Type 0
AreBytes v = (i : ℕ) → v i < 256

module _ (fuel : ℕ) (v : ℕ → ℕ) (i j : ℕ) (rest : List ℤ) (long : enough_fuel < fuel)
    (bytes : AreBytes v) (hi : i < 4) (hj : j < 4) where
  -- With bytes in the registers, which the program numbers from 5, the commands store the sum, the
  -- difference and the moved number modulo 256 in the first register, and leave the others.
  pub commands-mod :
      (cmd_add fuel (holding v) (i + 5) (j + 5) rest
        ≡ done (go_on rest (store (holding v) i (pos ((v i + v j) % 256)))))
      × (cmd_sub fuel (holding v) (i + 5) (j + 5) rest
          ≡ done (go_on rest (store (holding v) i (pos ((v i + 256 - v j) % 256)))))
      × ((w : ℕ)
          → w < 2 ^ 32
          → cmd_mov fuel (holding v) (i + 5) w rest
            ≡ done (go_on rest (store (holding v) i (pos (w % 256)))))
  unfolding cmd_add cmd_sub cmd_mov
  commands-mod = (
    rw (
      reg_nr_to_idx-some i hi,
      reg_nr_to_idx-some j hj,
      assign-residue fuel (holding v) i (pos (v i) +ℤ pos (v j))
          (sum_byte fuel (v i) (v j) long (bytes i) (bytes j)),
    ),
    rw (
      reg_nr_to_idx-some i hi,
      reg_nr_to_idx-some j hj,
      assign-residue fuel (holding v) i (pos (v i) -ℤ pos (v j))
          (difference_byte fuel (v i) (v j) long (bytes i) (bytes j)),
    ),
    λ w h. rw (
      reg_nr_to_idx-some i hi,
      assign-residue fuel (holding v) i (as_int w) (word_byte fuel w long h),
    ),
  )

-- A byte stored among bytes leaves bytes.
store-holding :
    (v : ℕ → ℕ) (i n : ℕ) → store (holding v) i (pos n) ≡ holding (λ j. if j == i then n else v j)
store-holding v i n = fun_ext (λ j. ground arith)

abbrev pub AreBytesIn : List ℤ → Type 0
AreBytesIn [] = Unit
AreBytesIn (pos n ∷ line) = (n < 256) × AreBytesIn line
AreBytesIn (negsuc n ∷ line) = ⊥

abbrev pub LinesOfBytes : List (List ℤ) → Type 0
LinesOfBytes [] = Unit
LinesOfBytes (line ∷ lines) = AreBytesIn line × LinesOfBytes lines

as_unsigned-lt : (z : ℤ) → as_unsigned z < 2 ^ 32
as_unsigned-lt (pos n) = omega arith
as_unsigned-lt (negsuc n) = omega arith

-- a run that ends, by itself or by a failed `assert`, having printed bytes only
abbrev pub PrintsBytes : Run (List (List ℤ) × Bool) → Type 0
PrintsBytes (done (lines, failed)) = LinesOfBytes lines
PrintsBytes fault = Unit
PrintsBytes out_of_fuel = ⊥

-- a pass over `n` numbers of input that leaves bytes in the registers and takes at least one number
abbrev KeepsBytes : ℕ → Run Pass → Type 0
KeepsBytes n (done halt) = Unit
KeepsBytes n (done error) = Unit
KeepsBytes n (done (go_on rest regs)) =
    (w : ℕ → ℕ) × (regs ≡ holding w) × AreBytes w × (length rest < n)
KeepsBytes n (done (print rest)) = length rest < n
KeepsBytes n fault = Unit
KeepsBytes n out_of_fuel = ⊥

reg_nr-cases : (nr : ℕ) → ((i : ℕ) × (i < 4) × (nr ≡ i + 5)) ⊎ (reg_nr_to_idx nr ≡ fault)
unfolding reg_nr_to_idx
reg_nr-cases nr = elim (Bool-cases (leb 5 nr && leb nr 8)) [
  | inl within ↦ inl (nr - 5, ground arith, ground arith)
  | inr outside ↦ inr (ground arith)
]

module _ (fuel : ℕ) (v : ℕ → ℕ) (rest : List ℤ) (count : ℕ) (long : enough_fuel < fuel)
    (bytes : AreBytes v) (shorter : length rest < count) where
  stored-KeepsBytes :
      (i n : ℕ) → n < 256 → KeepsBytes count (done (go_on rest (store (holding v) i (pos n))))
  stored-KeepsBytes i n h = (
    (λ j. if j == i then n else v j),
    store-holding v i n,
    (λ j. ground (arith, bytes j)),
    shorter,
  )

  two_registers :
      (d s : ℕ)
      → KeepsBytes count (cmd_add fuel (holding v) d s rest)
        × KeepsBytes count (cmd_sub fuel (holding v) d s rest)
  unfolding cmd_add cmd_sub
  two_registers d s = elim (reg_nr-cases d) [
    | inr bad ↦ rw bad (tt, tt)
    | inl (i, hi, e) ↦ elim (reg_nr-cases s) [
      | inr bad ↦ rw (e, reg_nr_to_idx-some i hi, bad) (tt, tt)
      | inl (j, hj, e') ↦
          let both = commands-mod fuel v i j rest long bytes hi hj in
          rw (e, e')
            (
              rw (both.0) (stored-KeepsBytes i ((v i + v j) % 256) (omega arith)),
              rw (both.1) (stored-KeepsBytes i ((v i + 256 - v j) % 256) (omega arith)),
            )
    ]
  ]

  one_register : (d w : ℕ) → w < 2 ^ 32 → KeepsBytes count (cmd_mov fuel (holding v) d w rest)
  unfolding cmd_mov
  one_register d w h = elim (reg_nr-cases d) [
    | inr bad ↦ rw bad tt
    | inl (i, hi, e) ↦
        rw (e, (commands-mod fuel v i i rest long bytes hi hi).2 w h)
          (stored-KeepsBytes i (w % 256) (omega arith))
  ]

-- the switch over the command
switch-KeepsBytes :
    (input : List ℤ) (is_hlt is_add is_sub is_mov is_ir : Bool) (add sub mov : Run Pass)
    → KeepsBytes (suc (length input)) add
    → KeepsBytes (suc (length input)) sub
    → KeepsBytes (suc (length input)) mov
    → KeepsBytes (suc (length input)) (
        if is_hlt
        then done halt
        else if is_add
        then add
        else if is_sub
        then sub
        else if is_mov
        then mov
        else if is_ir
        then done (print input)
        else done error)
switch-KeepsBytes input true b c d e add sub mov x y z = tt
switch-KeepsBytes input false true c d e add sub mov x y z = x
switch-KeepsBytes input false false true d e add sub mov x y z = y
switch-KeepsBytes input false false false true e add sub mov x y z = z
switch-KeepsBytes input false false false false true add sub mov x y z = omega arith
switch-KeepsBytes input false false false false false add sub mov x y z = tt

module _ (fuel : ℕ) (v : ℕ → ℕ) (long : enough_fuel < fuel) (bytes : AreBytes v) where
  with_two-KeepsBytes :
      (input : List ℤ) (body : ℕ → ℕ → List ℤ → Run Pass)
      → ((a b : ℕ) (rest : List ℤ)
          → b < 2 ^ 32
          → length rest < suc (length input)
          → KeepsBytes (suc (length input)) (body a b rest))
      → KeepsBytes (suc (length input)) (with_two input body)
  with_two-KeepsBytes [] body keeps = tt
  with_two-KeepsBytes (a ∷ []) body keeps = tt
  with_two-KeepsBytes (a ∷ b ∷ rest) body keeps =
      keeps (as_unsigned a) (as_unsigned b) rest (as_unsigned-lt b) (omega arith)

  pass-KeepsBytes : (input : List ℤ) → KeepsBytes (length input) (pass fuel input (holding v))
  unfolding pass
  pass-KeepsBytes [] = tt
  pass-KeepsBytes (cmd ∷ input) =
      switch-KeepsBytes input (eqb_ℤ cmd (pos 0)) (eqb_ℤ cmd (pos 1)) (eqb_ℤ cmd (pos 2))
        (eqb_ℤ cmd (pos 3)) (eqb_ℤ cmd (pos 4)) _ _ _
        (with_two-KeepsBytes input _
          (λ a b rest h k. (two_registers fuel v rest (suc (length input)) long bytes k a b).0))
        (with_two-KeepsBytes input _
          (λ a b rest h k. (two_registers fuel v rest (suc (length input)) long bytes k a b).1))
        (with_two-KeepsBytes input _
          (λ a b rest h k. one_register fuel v rest (suc (length input)) long bytes k a b h))

line-AreBytesIn : (v : ℕ → ℕ) → AreBytes v → AreBytesIn (line_of (holding v))
line-AreBytesIn v bytes = (bytes 0, (bytes 1, (bytes 2, (bytes 3, tt))))

module _ (rounds fuel count : ℕ) (v : ℕ → ℕ) (bytes : AreBytes v)
    (ih : (rest : List ℤ) (w : ℕ → ℕ)
      → length rest < count
      → AreBytes w
      → PrintsBytes (execute rounds fuel rest (holding w))) where
  print-PrintsBytes :
      (report : Run (List (List ℤ) × Bool))
      → PrintsBytes report
      → PrintsBytes (report >>= λ r. done (add_line (line_of (holding v)) r))
  print-PrintsBytes (done (lines, failed)) h = (line-AreBytesIn v bytes, h)
  print-PrintsBytes fault h = tt
  print-PrintsBytes out_of_fuel h = h

  next-PrintsBytes :
      (p : Run Pass)
      → KeepsBytes count p
      → PrintsBytes (
          p >>= λ q. elim q [
            | halt ↦ done ([], false)
            | error ↦ done ([], true)
            | go_on rest regs ↦ execute rounds fuel rest regs
            | print rest ↦ execute rounds fuel rest (holding v) >>= λ report.
                done (add_line (line_of (holding v)) report)
          ])
  next-PrintsBytes (done halt) h = tt
  next-PrintsBytes (done error) h = tt
  next-PrintsBytes (done (go_on rest regs)) (w, e, bw, shorter) = rw e (ih rest w shorter bw)
  next-PrintsBytes (done (print rest)) h =
      print-PrintsBytes (execute rounds fuel rest (holding v)) (ih rest v h bytes)
  next-PrintsBytes fault h = tt
  next-PrintsBytes out_of_fuel h = h

-- Started with bytes in its registers, with a round for each number of the input and one more and
-- with the fuel that an `int` needs, the program ends or fails an `assert`, and if it ends, all that
-- it has printed are bytes.
pub execute-PrintsBytes :
    (rounds fuel : ℕ) (input : List ℤ) (v : ℕ → ℕ)
    → length input < rounds
    → enough_fuel < fuel
    → AreBytes v
    → PrintsBytes (execute rounds fuel input (holding v))
unfolding execute
execute-PrintsBytes zero fuel input v r long bytes = absurd (omega arith)
execute-PrintsBytes (suc rounds) fuel input v r long bytes =
    next-PrintsBytes rounds fuel (length input) v bytes
      (λ rest w h bw. execute-PrintsBytes rounds fuel rest w (omega arith) long bw)
      (pass fuel input (holding v)) (pass-KeepsBytes fuel v long bytes input)
