-- ===== src/Prelude/Int.antt =====
-- Signed integers over the native numbers, under the library's names (its ℤ stands on the unary ℕ).
use Prim.Native.Nat.{ℕ, zero, suc, ◌+◌, ◌-◌, ◌*◌, ◌/◌, ◌%◌, ◌^◌, ◌≤◌, ◌<◌}
use mathlib.Core.Path.{◌≡◌, refl, ap}
use native.Mathlib.Omega.{arith}
use mathlib.Core.Bool.{Bool}
use proxy_speedtest.Prelude.Tests.{ltb, if◌then◌else◌}

-- `negsuc n` is -(n + 1).
pub data ℤ : Type 0 where
  pos : ℕ → ℤ
  negsuc : ℕ → ℤ

abbrev pub pos_part : ℤ → ℕ
pos_part (pos n) = n
pos_part (negsuc n) = 0

abbrev pub neg_part : ℤ → ℕ
neg_part (pos n) = 0
neg_part (negsuc n) = suc n

abbrev pub ◌≤ℤ◌ : ℤ → ℤ → Type 0
◌≤ℤ◌ a b = pos_part a + neg_part b ≤ pos_part b + neg_part a

abbrev pub ltb_ℤ : ℤ → ℤ → Bool
ltb_ℤ a b = ltb (pos_part a + neg_part b) (pos_part b + neg_part a)

-- Arithmetic of int64, which wraps around: the residue of a number modulo 2 ^ 64, and the int64 that
-- has it.
abbrev pub residue : ℤ → ℕ
residue (pos n) = n % 2 ^ 64
residue (negsuc n) = 2 ^ 64 - 1 - n % 2 ^ 64

abbrev pub int64_of : ℕ → ℤ
int64_of n = if ltb n (2 ^ 63) then pos n else negsuc (2 ^ 64 - 1 - n)

abbrev pub add_int64 : ℤ → ℤ → ℤ
add_int64 a b = int64_of ((residue a + residue b) % 2 ^ 64)

abbrev pub mul_int64 : ℤ → ℤ → ℤ
mul_int64 a b = int64_of ((residue a * residue b) % 2 ^ 64)

-- The quotient by a positive number, towards zero.
abbrev pub negate : ℕ → ℤ
negate zero = pos zero
negate (suc n) = negsuc n

abbrev pub quot : ℤ → ℕ → ℤ
quot (pos n) d = pos (n / d)
quot (negsuc n) d = negate (suc n / d)

-- Sums and products of naturals below 2 ^ 63 do not wrap.
pub add_int64_small : (a b : ℕ) → a + b < 2 ^ 63 → add_int64 (pos a) (pos b) ≡ pos (a + b)
add_int64_small a b h = ground arith

mul_fits : (a b n : ℕ) → a * b ≡ n → n < 2 ^ 63 → int64_of (n % 2 ^ 64) ≡ pos n
mul_fits a b n e h = ground arith

pub mul_int64_small :
    (a b : ℕ) → a < 2 ^ 63 → b < 2 ^ 63 → a * b < 2 ^ 63 → mul_int64 (pos a) (pos b) ≡ pos (a * b)
mul_int64_small a b ha hb h =
    let ra : a % 2 ^ 64 ≡ a = omega arith in
    let rb : b % 2 ^ 64 ≡ b = omega arith in rw (ra, rb) (mul_fits a b (a * b) refl h)

residue-int64_of : (n : ℕ) → n < 2 ^ 64 → residue (int64_of n) ≡ n
residue-int64_of n h = ground arith

-- Wrapped sums do not depend on the order of the terms.
pub add_int64_swap : (t a b : ℤ) → add_int64 (add_int64 t a) b ≡ add_int64 (add_int64 t b) a
add_int64_swap t a b =
    rw
      (
        residue-int64_of ((residue t + residue a) % 2 ^ 64) (omega arith),
        residue-int64_of ((residue t + residue b) % 2 ^ 64) (omega arith),
      )
      (let e : ((residue t + residue a) % 2 ^ 64 + residue b) % 2 ^ 64
            ≡ ((residue t + residue b) % 2 ^ 64 + residue a) % 2 ^ 64 =
          omega arith in
        ap int64_of e)
