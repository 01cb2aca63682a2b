-- ===== src/Assembly/Checks/Registers.antt =====
-- What `check_x86_reg` takes for a register.
use mipt_informatics.Base.{
  ℕ, ◌≤◌, ◌≡◌, refl, sym, Bool, Bool-cases, true, false, ◌&&◌, ◌||◌, Option, none, some, inl, inr,
  List, [], ◌∷◌, arith, ◌==◌, if◌then◌else◌,
}
use mathlib.Core.Path.{subst}
use mipt_informatics.Assembly.Checks.{memory, max, equal, check_x86_gp_reg, check_x86_reg}

abbrev pub member : List ℕ → List (List ℕ) → Bool
member w [] = false
member w (name ∷ names) = equal w name || member w names

abbrev pub pair : ℕ → ℕ → List ℕ
pair c d = c ∷ d ∷ []

abbrev pub segment_registers : List (List ℕ)
segment_registers = pair b'c' b's' ∷ pair b'd' b's' ∷ pair b's' b's' ∷ []

abbrev pub gp_registers : List (List ℕ)
gp_registers =
    pair b'a' b'x'
    ∷ pair b'b' b'x'
    ∷ pair b'c' b'x'
    ∷ pair b'd' b'x'
    ∷ pair b's' b'i'
    ∷ pair b'd' b'i'
    ∷ pair b's' b'p'
    ∷ pair b'b' b'p'
    ∷ []

-- 1 for a name with e in front, 2 for one with r
abbrev pub prefix_width : ℕ → Bool → Option ℕ
prefix_width c false = none
prefix_width c true = if c == b'e' then some 1 else if c == b'r' then some 2 else none

-- the size of the operands of a register, by its name
pub width : List ℕ → Option ℕ
width [] = none
width (c ∷ w) =
    if member (c ∷ w) segment_registers || member (c ∷ w) gp_registers
    then some 0
    else prefix_width c (member w gp_registers)

abbrev pub NoNul : List ℕ → Type 0
NoNul [] = Unit
NoNul (c ∷ w) = ((c == 0) ≡ false) × NoNul w

-- a register, and the greater size
abbrev pub widen : ℕ → Option ℕ → Bool × ℕ
widen operands none = (false, operands)
widen operands (some n) = (true, max operands n)

long_segment : (c d e : ℕ) (w : List ℕ) → member (c ∷ d ∷ e ∷ w) segment_registers ≡ false
long_segment c d e w = ground arith

long_gp : (c d e : ℕ) (w : List ℕ) → member (c ∷ d ∷ e ∷ w) gp_registers ≡ false
long_gp c d e w = ground arith

prefixed :
    (gp : Bool) (c operands : ℕ)
    → (if gp
        then (if c == b'e'
            then (true, max operands 1)
            else if c == b'r'
            then (true, max operands 2)
            else (false, operands))
        else (false, operands))
      ≡ widen operands (prefix_width c gp)
prefixed false c operands = refl
prefixed true c operands = ground arith

abbrev pub size_of : Option ℕ → ℕ
size_of none = 0
size_of (some n) = n

prefix_width-le : (c : ℕ) (gp : Bool) → size_of (prefix_width c gp) ≤ 2
prefix_width-le c false = omega arith
prefix_width-le c true = ground arith

pub width-le : (w : List ℕ) → size_of (width w) ≤ 2
unfolding width
width-le [] = omega arith
width-le (c ∷ w) =
    elim (Bool-cases (member (c ∷ w) segment_registers || member (c ∷ w) gp_registers)) [
      | inl e ↦ rw e (omega arith)
      | inr e ↦ rw e (prefix_width-le c (member w gp_registers))
    ]

pub width_nil : width [] ≡ none
unfolding width
width_nil = refl

-- no name of a register starts with a percent sign
pub width_percent : (c : ℕ) (w : List ℕ) → (c == b'%') ≡ true → width (c ∷ w) ≡ none
unfolding width
width_percent c w e =
    let is_percent : c ≡ b'%' = ground (arith, e) in
    subst (λ d. width (d ∷ w) ≡ none) (sym is_percent) (at_percent (member w gp_registers))
  where
    at_percent : (gp : Bool) → prefix_width b'%' gp ≡ none
    at_percent false = refl
    at_percent true = refl

pub widen-size : (operands : ℕ) (o : Option ℕ) → (widen operands o).1 ≡ max operands (size_of o)
widen-size operands none = ground arith
widen-size operands (some n) = refl

module _ (behind : ℕ → ℕ) where
  gp_reg-member :
      (w : List ℕ) → NoNul w → check_x86_gp_reg (memory behind w) ≡ member w gp_registers
  unfolding check_x86_gp_reg
  gp_reg-member [] n = ground arith
  gp_reg-member (c ∷ []) n = ground arith
  gp_reg-member (c ∷ d ∷ []) n = ground arith
  gp_reg-member (c ∷ d ∷ e ∷ w) n = ground (arith, n)

  -- For a word without NUL, whatever stands behind it: it is a register exactly if it is one of the names
  -- of segment registers, of general registers, or of these with e or r in front, and the size of operands
  -- becomes at least that of the name.
  pub check_x86_reg-widen :
      (w : List ℕ) (operands : ℕ)
      → NoNul w
      → check_x86_reg (memory behind w) operands ≡ widen operands (width w)
  unfolding check_x86_reg width
  check_x86_reg-widen [] operands n = rw (gp_reg-member [] n) (ground (arith, n))
  check_x86_reg-widen (c ∷ []) operands n =
      rw (gp_reg-member (c ∷ []) n, gp_reg-member [] n.1) (ground (arith, n))
  check_x86_reg-widen (c ∷ d ∷ []) operands n =
      rw (gp_reg-member (c ∷ d ∷ []) n, gp_reg-member (d ∷ []) n.1) (ground (arith, n))
  check_x86_reg-widen (c ∷ d ∷ e ∷ w) operands n =
      let off : (d == b's' && e == 0) ≡ false = ground (arith, n) in
      rw
        (
          gp_reg-member (c ∷ d ∷ e ∷ w) n,
          gp_reg-member (d ∷ e ∷ w) n.1,
          off,
          long_segment c d e w,
          long_gp c d e w,
        )
        (prefixed (member (d ∷ e ∷ w) gp_registers) c operands)
