-- ===== src/Assembly/Checks/Loops.antt =====
-- The loops of the checks over all words.
use mipt_informatics.Base.{
  ℕ, ◌≤◌, ◌≡◌, refl, ap, ◌∙◌, Bool, Bool-cases, true, false, ◌&&◌, ◌||◌, Option, Option-cases, none,
  some, inl, inr, List, [], ◌∷◌, arith, ◌==◌, if◌then◌else◌, length,
}
use mathlib.Core.Path.{subst}
use mipt_informatics.Assembly.Checks.{max, equal, ldr, str, arm_loop, regs_loop, check_x87_commands}
use mipt_informatics.Assembly.Checks.Registers.{
  member, width, NoNul, check_x86_reg-widen, size_of, width-le, width_nil, width_percent,
  widen-size,
}

abbrev pub any : (List ℕ → Bool) → List (List ℕ) → Bool
any p [] = false
any p (word ∷ words) = p word || any p words

-- the instructions of ARM, with and without those of VFP
abbrev pub vfp_names : List (List ℕ)
vfp_names = (b'v' ∷ b'l' ∷ b'd' ∷ b'r' ∷ []) ∷ (b'v' ∷ b's' ∷ b't' ∷ b'r' ∷ []) ∷ []

abbrev pub arm_names : List (List ℕ)
arm_names =
    (b'v' ∷ b'l' ∷ b'd' ∷ b'r' ∷ [])
    ∷ (b'v' ∷ b's' ∷ b't' ∷ b'r' ∷ [])
    ∷ (b'l' ∷ b'd' ∷ b'r' ∷ [])
    ∷ (b's' ∷ b't' ∷ b'r' ∷ [])
    ∷ []

abbrev pub x87_names : List (List ℕ)
x87_names =
    (b'f' ∷ b'i' ∷ b'n' ∷ b'i' ∷ b't' ∷ [])
    ∷ (b'f' ∷ b'l' ∷ b'd' ∷ [])
    ∷ (b'f' ∷ b's' ∷ b't' ∷ [])
    ∷ []

abbrev pub is_in : List (List ℕ) → List ℕ → Bool
is_in names word = member word names

pub arm_loop-any :
    (words : List (List ℕ)) (arm : Bool)
    → arm_loop words arm ≡ (arm || any (is_in arm_names) words, any (is_in vfp_names) words)
unfolding arm_loop
arm_loop-any [] arm = ground arith
arm_loop-any (word ∷ words) arm =
    let rest = arm_loop-any words (if equal word ldr || equal word str then true else arm) in
    ground (arith, rest)

pub check_x87_commands-any :
    (words : List (List ℕ)) → check_x87_commands words ≡ any (is_in x87_names) words
unfolding check_x87_commands
check_x87_commands-any [] = refl
check_x87_commands-any (word ∷ words) = ground (arith, check_x87_commands-any words)

-- a word without the percent sign of AT&T
abbrev pub unmarked : List ℕ → List ℕ
unmarked [] = []
unmarked (c ∷ word) = if c == b'%' then word else c ∷ word

abbrev pub is_some : Option ℕ → Bool
is_some none = false
is_some (some n) = true

-- a register with a percent sign in front
abbrev pub is_marked : List ℕ → Bool
is_marked [] = false
is_marked (c ∷ word) = c == b'%' && is_some (width word)

abbrev pub widest : List (List ℕ) → ℕ
widest [] = 0
widest (word ∷ words) = max (size_of (width (unmarked word))) (widest words)

abbrev pub AllNoNul : List (List ℕ) → Type 0
AllNoNul [] = Unit
AllNoNul (word ∷ words) = NoNul word × AllNoNul words

max-le : (a b : ℕ) → a ≤ 2 → b ≤ 2 → max a b ≤ 2
max-le a b h k = ground (arith, h, k)

max_assoc : (a b c : ℕ) → max (max a b) c ≡ max a (max b c)
max_assoc a b c = ground arith

pub max_zero : (b : ℕ) → b ≡ max 0 b
max_zero b = ground arith

pair_eq : {a a' : Bool} {b b' : ℕ} → a ≡ a' → b ≡ b' → ◌≡◌ {A = Bool × ℕ} (a, b) (a', b')
pair_eq {a' = a'} {b = b} p q = ap (λ x. (x, b)) p ∙ ap (λ y. (a', y)) q

max_full : (a b : ℕ) → (a == 2) ≡ true → b ≤ 2 → a ≡ max a b
max_full a b e h = ground (arith, e, h)

or-true : (b : Bool) → true ≡ (b || true)
or-true true = refl
or-true false = refl

widest-le : (words : List (List ℕ)) → widest words ≤ 2
widest-le [] = omega arith
widest-le (word ∷ words) =
    max-le (size_of (width (unmarked word))) (widest words) (width-le (unmarked word))
      (widest-le words)

module _ (behind : ℕ → ℕ → ℕ) where
  -- the rounds of the loop
  regs-empty :
      (words : List (List ℕ)) (att : Bool) (operands : ℕ)
      → regs_loop behind ([] ∷ words) att operands ≡ regs_loop behind words att operands
  unfolding regs_loop
  regs-empty words att operands =
      rw (check_x86_reg-widen (behind (length words)) [] operands tt, width_nil)

  module _ (c : ℕ) (word : List ℕ) (words : List (List ℕ)) (att : Bool) (operands : ℕ)
      (n : NoNul (c ∷ word)) where
    regs-plain :
        (c == b'%') ≡ false
        → regs_loop behind ((c ∷ word) ∷ words) att operands
          ≡ regs_loop behind words att (max operands (size_of (width (c ∷ word))))
    unfolding regs_loop
    regs-plain e = rw e (
        rw (check_x86_reg-widen (behind (length words)) (c ∷ word) operands n)
          (ap (regs_loop behind words att) (widen-size operands (width (c ∷ word)))))

    regs-percent :
        (c == b'%') ≡ true
        → width word ≡ none
        → regs_loop behind ((c ∷ word) ∷ words) att operands ≡ regs_loop behind words att operands
    unfolding regs_loop
    regs-percent e none_here =
        rw (e, check_x86_reg-widen (behind (length words)) word operands n.1, none_here)
          (rw (
            check_x86_reg-widen (behind (length words)) (c ∷ word) operands n,
            width_percent c word e,
          ))

    regs-marked :
        (m : ℕ)
        → (c == b'%') ≡ true
        → width word ≡ some m
        → regs_loop behind ((c ∷ word) ∷ words) att operands ≡ (
            if max operands m == 2
            then (true, max operands m)
            else regs_loop behind words true (max operands m))
    unfolding regs_loop
    regs-marked m e here =
        rw (e, check_x86_reg-widen (behind (length words)) word operands n.1, here)

  pub regs_loop-widest :
      (words : List (List ℕ)) (att : Bool) (operands : ℕ)
      → AllNoNul words
      → operands ≤ 2
      → regs_loop behind words att operands
        ≡ (att || any is_marked words, max operands (widest words))
  unfolding regs_loop
  regs_loop-widest [] att operands n h = ground arith
  regs_loop-widest ([] ∷ words) att operands (n, ns) h =
      regs-empty words att operands
      ∙ regs_loop-widest words att operands ns h
      ∙ rw width_nil (pair_eq refl (ap (max operands) (max_zero (widest words))))
  regs_loop-widest ((c ∷ word) ∷ words) att operands (n, ns) h = elim (Bool-cases (c == b'%')) [
    | inr e ↦
        let s = size_of (width (c ∷ word)) in
        let more =
          regs_loop-widest words att (max operands s) ns
            (max-le operands s h (width-le (c ∷ word))) in
        regs-plain c word words att operands n e
        ∙ more
        ∙ rw e (pair_eq refl (max_assoc operands s (widest words)))
    | inl e ↦ elim (Option-cases (width word)) [
      | inl none_here ↦
          regs-percent c word words att operands n e none_here
          ∙ regs_loop-widest words att operands ns h
          ∙ rw (e, none_here) (pair_eq refl (ap (max operands) (max_zero (widest words))))
      | inr (m, here) ↦
          let o = max operands m in
          let small : o ≤ 2 =
            max-le operands m h (subst (λ k. size_of k ≤ 2) here (width-le word)) in
          regs-marked c word words att operands n m e here ∙ elim (Bool-cases (o == 2)) [
            | inl full ↦
                rw (full, e, here)
                  (pair_eq (or-true att) (
                    max_full o (widest words) full (widest-le words)
                    ∙ max_assoc operands m (widest words)))
            | inr f ↦
                rw (f, e, here)
                  (regs_loop-widest words true o ns small
                    ∙ pair_eq (or-true att) (max_assoc operands m (widest words)))
          ]
    ]
  ]
