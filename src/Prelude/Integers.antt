-- ===== src/Prelude/Integers.antt =====
-- Go's signed `int` as an unbounded integer, for the fields that can be negative.
use Prim.Native.Nat.{ℕ, zero, suc, ◌+◌, ◌-◌, ◌*◌, ◌/◌}
use mathlib.Core.Bool.{Bool, true, false, not}
use k8s_diagnose.Prelude.Tests.{leb, nat_eq, if◌then◌else◌}

-- `negsuc n` is -(n + 1).
pub data ℤ : Type 0 where
  pos : ℕ → ℤ
  negsuc : ℕ → ℤ

abbrev pub int_leb : ℤ → ℤ → Bool
int_leb (pos a) (pos b) = leb a b
int_leb (pos a) (negsuc b) = false
int_leb (negsuc a) (pos b) = true
int_leb (negsuc a) (negsuc b) = leb b a

abbrev pub int_ltb : ℤ → ℤ → Bool
int_ltb a b = not (int_leb b a)

abbrev pub int_eq : ℤ → ℤ → Bool
int_eq (pos a) (pos b) = nat_eq a b
int_eq (pos a) (negsuc b) = false
int_eq (negsuc a) (pos b) = false
int_eq (negsuc a) (negsuc b) = nat_eq a b

abbrev pub int_min : ℤ → ℤ → ℤ
int_min a b = if int_leb a b then a else b

abbrev pub int_max : ℤ → ℤ → ℤ
int_max a b = if int_leb a b then b else a

-- The number that a non-negative integer is; 0 for a negative one, as `max(0, x)` gives.
abbrev pub pos_part : ℤ → ℕ
pos_part (pos n) = n
pos_part (negsuc n) = 0

-- `-n`
abbrev pub neg : ℕ → ℤ
neg zero = pos 0
neg (suc n) = negsuc n

abbrev pub int_scale : ℤ → ℕ → ℤ
int_scale (pos a) k = pos (a * k)
int_scale (negsuc a) k = neg (suc a * k)

-- Go's `/` rounds towards zero. A division by zero panics there; the code tests the divisor first.
abbrev pub int_quot : ℤ → ℤ → ℤ
int_quot (pos a) (pos b) = pos (a / b)
int_quot (pos a) (negsuc b) = neg (a / suc b)
int_quot (negsuc a) (pos b) = neg (suc a / b)
int_quot (negsuc a) (negsuc b) = pos (suc a / suc b)

abbrev pub sub_ℕ : ℕ → ℕ → ℤ
sub_ℕ a b = if leb b a then pos (a - b) else negsuc (b - a - 1)

abbrev pub int_add : ℤ → ℤ → ℤ
int_add (pos a) (pos b) = pos (a + b)
int_add (pos a) (negsuc b) = sub_ℕ a (suc b)
int_add (negsuc a) (pos b) = sub_ℕ b (suc a)
int_add (negsuc a) (negsuc b) = negsuc (a + b + 1)

abbrev pub int_neg : ℤ → ℤ
int_neg (pos n) = neg n
int_neg (negsuc n) = pos (suc n)
