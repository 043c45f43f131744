-- ===== src/Prelude/Int.antt =====
-- Signed 64-bit integers: Go's `int64`, as the integer that it stands for.
use Prim.Native.Nat.{ℕ, ◌+◌, ◌-◌, ◌%◌, ◌^◌, ◌<◌, ◌≤◌}
use mathlib.Core.Path.{◌≡◌, refl}
use mathlib.Core.Bool.{Bool, true, false}
use native.Mathlib.Omega.{arith}
use revolution.Prelude.Tests.{ltb, if◌then◌else◌}

-- `negsuc n` is -(n + 1).
pub data ℤ : Type 0 where
  pos : ℕ → ℤ
  negsuc : ℕ → ℤ

-- `a < b`.
abbrev pub lt_int : ℤ → ℤ → Bool
lt_int (pos a) (pos b) = ltb a b
lt_int (pos a) (negsuc b) = false
lt_int (negsuc a) (pos b) = true
lt_int (negsuc a) (negsuc b) = ltb b a

-- `a <= b`.
abbrev pub le_int : ℤ → ℤ → Bool
le_int a b = if lt_int b a then false else true

-- SQL's two-argument `MAX`.
abbrev pub max_int : ℤ → ℤ → ℤ
max_int a b = if lt_int a b then b else a

abbrev pub word_mod : ℕ
word_mod = 2 ^ 64

-- The bit pattern of an integer, and the integer that a bit pattern stands for.
abbrev pub to_word : ℤ → ℕ
to_word (pos n) = n % word_mod
to_word (negsuc n) = word_mod - 1 - n % word_mod

abbrev pub of_word : ℕ → ℤ
of_word w = if ltb w (2 ^ 63) then pos w else negsuc (word_mod - 1 - w)

-- `a + b` on `int64`, which wraps.
unfoldable pub add64 : ℤ → ℤ → ℤ
add64 a b = of_word ((to_word a + to_word b) % word_mod)

pub lt_int_irrefl : (a : ℤ) → lt_int a a ≡ false
lt_int_irrefl (pos a) = ground arith
lt_int_irrefl (negsuc a) = ground arith

pub max_int_comm : (a b : ℤ) → max_int a b ≡ max_int b a
max_int_comm (pos a) (pos b) = ground arith
max_int_comm (pos a) (negsuc b) = refl
max_int_comm (negsuc a) (pos b) = refl
max_int_comm (negsuc a) (negsuc b) = ground arith

pub max_int_assoc : (a b c : ℤ) → max_int (max_int a b) c ≡ max_int a (max_int b c)
max_int_assoc a b c = ground arith

pub le_int-max_int : (a b : ℤ) → le_int a (max_int a b) ≡ true
le_int-max_int a b = ground arith

-- A sum of two non-negative integers that fits is exact, and one that does not is negative.
pub add64_fits : (a b : ℕ) → a + b < 2 ^ 63 → add64 (pos a) (pos b) ≡ pos (a + b)
unfolding add64
add64_fits a b h = ground arith

pub add64_wraps :
    (a b : ℕ)
    → a < 2 ^ 63
    → b < 2 ^ 63
    → 2 ^ 63 ≤ a + b
    → add64 (pos a) (pos b) ≡ negsuc (2 ^ 64 - 1 - (a + b))
unfolding add64
add64_wraps a b ha hb h = ground arith
