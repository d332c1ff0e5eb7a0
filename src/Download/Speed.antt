-- ===== src/Download/Speed.antt =====
-- download/download.go `ByteCountIEC` and internal/tester/download.go `FormatSpeed`: the unit of a
-- speed. The quotient of floats that is printed before the unit is given by its two terms.
use proxy_speedtest.Prelude.{
  ℕ, zero, suc, ◌+◌, ◌*◌, ◌/◌, ◌^◌, ◌≤◌, ◌<◌, ◌≡◌, refl, arith, ltb, leb, if◌then◌else◌, Bool-cases,
  inl, inr, sym, ◌∙◌, ap,
}
use native.Mathlib.Nat.{
  le-div_iff_mul-le, div-lt_iff_lt-mul, div-div-eq-div-mul, pow-suc, pow-le-pow_right,
}

-- `for n := b / unit; n >= unit; n /= unit { div *= unit; exp++ }`, on fuel.
unfoldable pub scale : ℕ → ℕ → ℕ → ℕ → ℕ × ℕ
scale zero n div exp = (div, exp)
scale (suc f) n div exp =
    let more = scale f (n / 1024) (div * 1024) (exp + 1) in if leb 1024 n then more else (div, exp)

-- Plain bytes below 1024; above, the divisor and the index into "KMGTPE".
pub data Shown : Type 0 where
  bytes : ℕ → Shown
  scaled : ℕ → ℕ → ℕ → Shown

unfoldable pub byte_count : ℕ → Shown
byte_count b =
    if ltb b 1024 then bytes b else let (div, exp) = scale 8 (b / 1024) 1024 0 in scaled b div exp

-- `div` is the power of 1024 that `e` counts, and `b` has one to four digits before the point in it.
pub record IsUnit (b div e : ℕ) : Type 0 where
  pub power : div ≡ 1024 ^ (e + 1)
  pub below : div ≤ b
  pub above : b < 1024 * div

scale-IsUnit :
    (f n b div e : ℕ)
    → n ≡ b / div
    → 1 ≤ n
    → n < 1024 ^ f
    → div ≡ 1024 ^ (e + 1)
    → 0 < div
    → IsUnit b ((scale f n div e).0) ((scale f n div e).1)
unfolding scale
scale-IsUnit zero n b div e k h l p d = absurd (omega arith)
scale-IsUnit (suc f) n b div e k h l p d =
    let short : (x : ℕ) → 1024 ^ (x + 1) ≡ 1024 ^ x * 1024 =
      λ x. ap (λ (y : ℕ). 1024 ^ y) (omega arith) ∙ pow-suc 1024 x in
    let fuel = pow-suc 1024 f in
    let at_least : div ≤ b =
      let q : 1 ≤ b / div = omega arith in omega (arith, (le-div_iff_mul-le d).0 q) in
    let at_most : n < 1024 → b < 1024 * div = λ i. (div-lt_iff_lt-mul d).0 (omega arith) in
    elim (Bool-cases (leb 1024 n))
      as (λ _. IsUnit b ((scale (suc f) n div e).0) ((scale (suc f) n div e).1)) [
        | inl t ↦ rw t (
            scale-IsUnit f (n / 1024) b (div * 1024) (e + 1)
              (ap (λ (x : ℕ). x / 1024) k ∙ div-div-eq-div-mul b div 1024) (ground arith)
              (ground arith) (ap (λ (x : ℕ). x * 1024) p ∙ sym (short (e + 1))) (omega arith))
        | inr t ↦ rw t record { power = p; below = at_least; above = at_most (ground arith) }
      ]

-- What a byte count of 63 bits is shown as: a unit out of "KMGTPE" that fits.
abbrev pub Fits : ℕ → Shown → Type 0
Fits b (bytes n) = (n ≡ b) × (b < 1024)
Fits b (scaled n div e) = (n ≡ b) × (e < 6) × IsUnit b div e

letter : (b div e : ℕ) → b < 2 ^ 63 → IsUnit b div e → e < 6
letter b div e h u = elim (Bool-cases (ltb e 6)) [
  | inl t ↦ ground arith
  | inr t ↦
      let big : 1024 ^ 7 ≤ 1024 ^ (e + 1) = pow-le-pow_right (omega arith) {i = 7} (ground arith) in
      absurd (omega (arith, u.power, u.below))
]

-- For every count below 2^63, with the fuel the loop is run on: a count below 1024 is shown as
-- itself, any other by a divisor that is the power of 1024 of the letter chosen, at most the count
-- and more than a 1024th of it, and the letter stands in "KMGTPE".
pub byte_count-Fits : (b : ℕ) → b < 2 ^ 63 → Fits b (byte_count b)
unfolding byte_count
byte_count-Fits b h = elim (Bool-cases (ltb b 1024)) as (λ _. Fits b (byte_count b)) [
  | inl t ↦ rw t (refl, ground arith)
  | inr t ↦
      let u =
        scale-IsUnit 8 (b / 1024) b 1024 0 refl (ground arith) (omega arith) refl (omega arith) in
      rw t (refl, letter b _ _ h u, u)
]
