-- ===== src/Cpu/Registers.antt =====
-- `adjust_reg_8bit` of 1-cpu.c and the residue modulo 256.
use mipt_informatics.Base.{ℕ, zero, suc, ◌+◌, ◌-◌, ◌/◌, ◌%◌, ◌<◌, ◌≤◌, ◌≡◌, ap, ◌∙◌, arith}
use mipt_informatics.Base.Int.{ℤ, pos, negsuc, ◌+ℤ◌, ◌-ℤ◌}
use mipt_informatics.Base.Run.{done}
use mipt_informatics.Cpu.{raise_reg, lower_reg, adjust_reg_8bit}

-- the residue of an integer modulo 256
abbrev pub residue : ℤ → ℕ
residue (pos n) = n % 256
residue (negsuc n) = 255 - n % 256

sub_256 : (n : ℕ) → 256 ≤ n → pos n -ℤ pos 256 ≡ pos (n - 256)
unfolding ◌-ℤ◌
sub_256 n h = ground arith

add_256_low : (n : ℕ) → n < 256 → negsuc n +ℤ pos 256 ≡ pos (255 - n)
unfolding ◌+ℤ◌
add_256_low n h = ground arith

add_256_high : (n : ℕ) → 256 ≤ n → negsuc n +ℤ pos 256 ≡ negsuc (n - 256)
unfolding ◌+ℤ◌
add_256_high n h = ground arith

lower_reg-residue : (fuel n : ℕ) → n / 256 < fuel → lower_reg fuel (pos n) ≡ done (pos (n % 256))
unfolding lower_reg
lower_reg-residue zero n h = absurd (omega arith)
lower_reg-residue (suc fuel) n h = ground (arith, sub_256 n, lower_reg-residue fuel (n - 256))

raise_reg-residue :
    (fuel n : ℕ) → n / 256 + 1 < fuel → raise_reg fuel (negsuc n) ≡ done (pos (255 - n % 256))
unfolding raise_reg
raise_reg-residue zero n h = absurd (omega arith)
raise_reg-residue (suc zero) n h = absurd (omega arith)
raise_reg-residue (suc (suc fuel)) n h =
    ground (arith, add_256_low n, add_256_high n, raise_reg-residue (suc fuel) (n - 256))

-- more rounds than the distance of the number to the range of a byte needs
abbrev pub Enough : ℕ → ℤ → Type 0
Enough fuel (pos n) = n / 256 < fuel
Enough fuel (negsuc n) = n / 256 + 1 < fuel

raise_reg-pos : (fuel n : ℕ) → raise_reg (suc fuel) (pos n) ≡ done (pos n)
unfolding raise_reg
raise_reg-pos fuel n = ground arith

-- With fuel for its rounds, the adjustment computes the residue modulo 256, of a negative number
-- too.
pub adjust_reg_8bit-residue :
    (fuel : ℕ) (z : ℤ) → Enough fuel z → adjust_reg_8bit fuel z ≡ done (pos (residue z))
unfolding adjust_reg_8bit
adjust_reg_8bit-residue zero (pos n) h = absurd (omega arith)
adjust_reg_8bit-residue (suc fuel) (pos n) h =
    rw (raise_reg-pos fuel n) (lower_reg-residue (suc fuel) n h)
adjust_reg_8bit-residue fuel (negsuc n) h =
    rw (raise_reg-residue fuel n h)
      (lower_reg-residue fuel (255 - n % 256) (omega arith) ∙ ap (λ k. done (pos k)) (omega arith))
