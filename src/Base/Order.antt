-- ===== src/Base/Order.antt =====
-- The order that a search tree needs of its keys, with the order of the C type `int`.
use mipt_informatics.Base.Int.{ℤ, ltb_ℤ, eqb_ℤ}
use mathlib.Core.Path.{◌≡◌}
use mathlib.Core.Logic.{◌↔◌}
use mathlib.Core.Bool.{Bool, true, false}
use native.Mathlib.Omega.{arith}

-- The tests `a == b` and `a < b`, with the laws of a strict linear order.
pub record Order (K : Type 0) : Type 0 where
  pub eqb : K → K → Bool
  pub less : K → K → Bool
  pub eqb_iff : (a b : K) → (eqb a b ≡ true) ↔ (a ≡ b)
  pub lt_irrefl : (a : K) → less a a ≡ false
  pub lt_trans : (a b c : K) → less a b ≡ true → less b c ≡ true → less a c ≡ true
  pub lt_total : (a b : K) → eqb a b ≡ false → less a b ≡ false → less b a ≡ true

pub eqb_iff_ℤ : (a b : ℤ) → (eqb_ℤ a b ≡ true) ↔ (a ≡ b)
eqb_iff_ℤ a b = ground arith

pub lt_irrefl_ℤ : (a : ℤ) → ltb_ℤ a a ≡ false
lt_irrefl_ℤ a = ground arith

pub lt_trans_ℤ : (a b c : ℤ) → ltb_ℤ a b ≡ true → ltb_ℤ b c ≡ true → ltb_ℤ a c ≡ true
lt_trans_ℤ a b c p q = ground arith

pub lt_total_ℤ : (a b : ℤ) → eqb_ℤ a b ≡ false → ltb_ℤ a b ≡ false → ltb_ℤ b a ≡ true
lt_total_ℤ a b p q = ground arith

instance abbrev pub int_order : Order ℤ
int_order = record {
  eqb = eqb_ℤ;
  less = ltb_ℤ;
  eqb_iff = eqb_iff_ℤ;
  lt_irrefl = lt_irrefl_ℤ;
  lt_trans = lt_trans_ℤ;
  lt_total = lt_total_ℤ;
}
