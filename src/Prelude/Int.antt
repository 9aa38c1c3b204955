-- ===== src/Prelude/Int.antt =====
-- Go's signed integers over the native numbers. `negsuc n` is -(n + 1). Nothing wraps here: a
-- component whose values can leave 64 bits writes that out itself.
use Prim.Native.Nat.{ℕ, suc, zero, ◌+◌, ◌-◌, ◌/◌, ◌%◌}
use mathlib.Core.Bool.{Bool, true, false}
use durable_integrations.Prelude.Tests.{ltb, leb, ◌==◌, if◌then◌else◌}

pub data ℤ : Type 0 where
  pos : ℕ → ℤ
  negsuc : ℕ → ℤ

-- a - b, as an integer.
abbrev pub sub_ℕ : ℕ → ℕ → ℤ
sub_ℕ a b = if leb b a then pos (a - b) else negsuc (b - a - 1)

-- -n
abbrev pub neg : ℕ → ℤ
neg zero = pos 0
neg (suc n) = negsuc n

infixl 65 ◌+ℤ◌
abbrev pub ◌+ℤ◌ : ℤ → ℤ → ℤ
pos a +ℤ pos b = pos (a + b)
pos a +ℤ negsuc b = sub_ℕ a (suc b)
negsuc a +ℤ pos b = sub_ℕ b (suc a)
negsuc a +ℤ negsuc b = negsuc (a + b + 1)

abbrev pub ltbℤ : ℤ → ℤ → Bool
ltbℤ (pos a) (pos b) = ltb a b
ltbℤ (pos a) (negsuc b) = false
ltbℤ (negsuc a) (pos b) = true
ltbℤ (negsuc a) (negsuc b) = ltb b a

abbrev pub eqbℤ : ℤ → ℤ → Bool
eqbℤ (pos a) (pos b) = a == b
eqbℤ (pos a) (negsuc b) = false
eqbℤ (negsuc a) (pos b) = false
eqbℤ (negsuc a) (negsuc b) = a == b

-- Go's `/` and `%`, which truncate towards zero, by a positive number.
abbrev pub quot : ℤ → ℕ → ℤ
quot (pos a) m = pos (a / m)
quot (negsuc a) m = neg (suc a / m)

abbrev pub rem : ℤ → ℕ → ℤ
rem (pos a) m = pos (a % m)
rem (negsuc a) m = neg (suc a % m)
