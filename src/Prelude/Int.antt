-- ===== src/Prelude/Int.antt =====
-- Go's `int` on a 64-bit machine: a signed number, with the wrap-around of addition written out.
use Prim.Native.Nat.{◌≤◌, ℕ, zero, suc, ◌+◌, ◌-◌, ◌%◌, ◌^◌, ◌<◌}
use mathlib.Core.Path.{◌≡◌, refl, ap}
use mathlib.Core.Logic.{◌⊎◌, inl, inr}
use mathlib.Core.Bool.{Bool, true, false}
use native.Mathlib.Omega.{arith}
use forward_stub.Prelude.Tests.{Bool-cases, if◌then◌else◌, ltb}

-- `negsuc n` is -(n + 1).
pub data ℤ : Type 0 where
  pos : ℕ → ℤ
  negsuc : ℕ → ℤ

-- x < 0
abbrev pub is_neg : ℤ → Bool
is_neg (pos n) = false
is_neg (negsuc n) = true

-- x <= 0
abbrev pub is_nonpos : ℤ → Bool
is_nonpos (pos zero) = true
is_nonpos (pos (suc n)) = false
is_nonpos (negsuc n) = true

-- x == 0
abbrev pub is_zero : ℤ → Bool
is_zero (pos zero) = true
is_zero (pos (suc n)) = false
is_zero (negsuc n) = false

-- x == -1
abbrev pub is_minus_one : ℤ → Bool
is_minus_one (pos n) = false
is_minus_one (negsuc zero) = true
is_minus_one (negsuc (suc n)) = false

abbrev pub ltb_ℤ : ℤ → ℤ → Bool
ltb_ℤ (pos a) (pos b) = ltb a b
ltb_ℤ (pos a) (negsuc b) = false
ltb_ℤ (negsuc a) (pos b) = true
ltb_ℤ (negsuc a) (negsuc b) = ltb b a

-- The value of a number that is known not to be negative.
abbrev pub to_nat : ℤ → ℕ
to_nat (pos n) = n
to_nat (negsuc n) = 0

abbrev pub int_half : ℕ
int_half = 2 ^ 63

-- The int64 whose bit pattern is the number modulo 2 ^ 64.
abbrev pub wrap_int : ℕ → ℤ
wrap_int n = let w = n % 2 ^ 64 in if ltb w int_half then pos w else negsuc (2 ^ 64 - w - 1)

-- The sum of an int and a length, as an int.
unfoldable pub int_add : ℤ → ℕ → ℤ
int_add (pos a) b = wrap_int (a + b)
int_add (negsuc a) b = if ltb a b then pos (b - a - 1) else negsuc (a - b)

pub wrap_int_small : (n : ℕ) → n < int_half → wrap_int n ≡ pos n
wrap_int_small n h = ground arith

-- A sum of two numbers below 2 ^ 63 that does not fit wraps to a negative number, so that it is
-- less than either.
pub wrap_int_large :
    (a b : ℕ)
    → a < int_half
    → b < int_half
    → int_half ≤ a + b
    → ltb_ℤ (wrap_int (a + b)) (pos a) ≡ true
wrap_int_large a b ha hb h = ground arith

pub lt_cases : (a b : ℕ) → (a < b) ⊎ (b ≤ a)
lt_cases a b = elim (Bool-cases (ltb a b)) [
  | inl h ↦ inl (ground arith)
  | inr h ↦ inr (ground arith)
]

-- x++ and x-- on a count that stays far from the ends of the range.
abbrev pub int_inc : ℤ → ℤ
int_inc (pos n) = pos (suc n)
int_inc (negsuc zero) = pos 0
int_inc (negsuc (suc n)) = negsuc n

abbrev pub int_dec : ℤ → ℤ
int_dec (pos zero) = negsuc 0
int_dec (pos (suc n)) = pos n
int_dec (negsuc n) = negsuc (suc n)

abbrev pub inc_by : ℕ → ℤ → ℤ
inc_by zero x = x
inc_by (suc k) x = int_inc (inc_by k x)

abbrev pub dec_by : ℕ → ℤ → ℤ
dec_by zero x = x
dec_by (suc k) x = dec_by k (int_dec x)

pub dec-inc : (x : ℤ) → int_dec (int_inc x) ≡ x
dec-inc (pos n) = refl
dec-inc (negsuc zero) = refl
dec-inc (negsuc (suc n)) = refl

pub dec_by-inc_by : (k : ℕ) (x : ℤ) → dec_by k (inc_by k x) ≡ x
dec_by-inc_by zero x = refl
dec_by-inc_by (suc k) x = rw (dec-inc (inc_by k x)) (dec_by-inc_by k x)

pub inc_by-pos : (k n : ℕ) → inc_by k (pos n) ≡ pos (k + n)
inc_by-pos zero n = ap pos (omega arith)
inc_by-pos (suc k) n = rw (inc_by-pos k n) (ap pos (omega arith))

pub dec_by-pos : (k n : ℕ) → dec_by k (pos (k + n)) ≡ pos n
dec_by-pos k n = rw (← inc_by-pos k n) (dec_by-inc_by k (pos n))

pub inc_by-int_inc : (k : ℕ) (x : ℤ) → inc_by k (int_inc x) ≡ int_inc (inc_by k x)
inc_by-int_inc zero x = refl
inc_by-int_inc (suc k) x = ap int_inc (inc_by-int_inc k x)
