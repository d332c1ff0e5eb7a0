-- ===== src/Pool/Classes.antt =====
-- The classes of sizes and capacities.
use proxy_speedtest.Prelude.{
  ℕ, zero, suc, ◌+◌, ◌*◌, ◌/◌, ◌%◌, ◌^◌, ◌≤◌, ◌<◌, ◌≡◌, ◌≢◌, refl, ap, sym, ◌∙◌, some, arith, ◌⊎◌,
  Bool-cases, inl, inr, ◌==◌, ltb,
}
use native.Mathlib.Nat.{pow-suc, pow-le-pow_right}
use proxy_speedtest.Pool.{len_bits, msb, get_class, put_class}

len_bits-zero : (f : ℕ) → len_bits f 0 ≡ 0
unfolding len_bits
len_bits-zero zero = refl
len_bits-zero (suc f) = ground arith

-- `m` is the position of the highest bit of `n`.
pub record IsMsb (n m : ℕ) : Type 0 where
  pub below : 2 ^ m ≤ n
  pub above : n < 2 ^ suc m

len_bits-IsMsb : (f n : ℕ) → 0 < n → n < 2 ^ f → (m : ℕ) × (len_bits f n ≡ suc m) × IsMsb n m
unfolding len_bits
len_bits-IsMsb zero n h k = absurd (omega arith)
len_bits-IsMsb (suc f) n h k = elim (Bool-cases (n / 2 == 0)) [
  | inl e ↦
      let half : n / 2 ≡ 0 = ground arith in
      let rest : len_bits f (n / 2) ≡ 0 = ap (len_bits f) half ∙ len_bits-zero f in
      (0, ground (arith, rest), record { below = ground arith; above = ground arith })
  | inr e ↦
      let (m, l, b) = len_bits-IsMsb f (n / 2) (ground arith) (omega (arith, pow-suc 2 f)) in
      (
        suc m,
        ground (arith, l),
        record {
          below = omega (arith, pow-suc 2 m, b.below);
          above = omega (arith, pow-suc 2 (suc m), b.above);
        },
      )
]

-- Powers of two are in the order of their exponents.
exponent-lt : (a b : ℕ) → 2 ^ a < 2 ^ b → a < b
exponent-lt a b h = elim (Bool-cases (ltb a b)) [
  | inl e ↦ ground arith
  | inr e ↦
      let big : 2 ^ b ≤ 2 ^ a = pow-le-pow_right (omega arith) {i = b} (ground arith) in
      absurd (omega arith)
]

msb-IsMsb : (n : ℕ) → 0 < n → n ≤ 65536 → IsMsb n (msb n)
unfolding msb
msb-IsMsb n h k =
    let (m, l, b) = len_bits-IsMsb 32 n h (omega arith) in
    let small : m < 17 = exponent-lt m 17 (omega (arith, b.below)) in
    let same : n % 2 ^ 32 ≡ n = omega arith in
    let is : (len_bits 32 (n % 2 ^ 32) + 65535) % 65536 ≡ m = rw (same, l) (omega arith) in rw is b

msb_unique : (n m : ℕ) → 0 < n → n ≤ 65536 → IsMsb n m → msb n ≡ m
msb_unique n m h k b =
    let c = msb-IsMsb n h k in
    let low : msb n < suc m = exponent-lt (msb n) (suc m) (omega (arith, c.below, b.above)) in
    let high : m < suc (msb n) = exponent-lt m (suc (msb n)) (omega (arith, b.below, c.above)) in
    omega arith

-- What `Get` promises of the class that it chooses.
pub record IsClass (size k : ℕ) : Type 0 where
  pub index : k < 17
  pub enough : size ≤ 2 ^ k
  pub waste : 2 ^ k < 2 * size

get_class-cases :
    (size k : ℕ)
    → get_class size ≡ some k
    → (0 < size)
      × (size ≤ 65536)
      × (((size ≡ 2 ^ msb size) × (msb size ≡ k)) ⊎ ((size ≢ 2 ^ msb size) × (msb size + 1 ≡ k)))
unfolding get_class
get_class-cases size k e = ground arith

pub get_class-IsClass : (size k : ℕ) → get_class size ≡ some k → IsClass size k
get_class-IsClass size k e =
    let (h, l, c) = get_class-cases size k e in
    let b = msb-IsMsb size h l in
    let next : 2 ^ (msb size + 1) ≡ 2 ^ msb size * 2 =
      ap (λ (x : ℕ). 2 ^ x) (omega arith) ∙ pow-suc 2 (msb size) in
    elim c as (λ _. IsClass size k) [
      | inl (x, y) ↦ rw (sym y) (record {
        index = exponent-lt (msb size) 17 (omega arith);
        enough = omega arith;
        waste = omega arith;
      })
      | inr (x, y) ↦
          let strict : 2 ^ msb size < size = omega (arith, b.below) in
          rw (sym y) (record {
            index = omega (arith, exponent-lt (msb size) 16 (omega arith));
            enough = omega (arith, b.above, pow-suc 2 (msb size));
            waste = omega arith;
          })
    ]

-- The capacity that `Put` accepts is the power of two of the pool that takes it.
pub put_class-power : (capacity k : ℕ) → put_class capacity ≡ some k → capacity ≡ 2 ^ k
unfolding put_class
put_class-power capacity k e = ground arith

-- A slice from any of the pools is taken back by the same pool.
pub put_class-pow : (k : ℕ) → k < 17 → put_class (2 ^ k) ≡ some k
unfolding put_class
put_class-pow k h =
    let low : 2 ^ 0 ≤ 2 ^ k = pow-le-pow_right (omega arith) {i = 0} (omega arith) in
    let high : 2 ^ k ≤ 2 ^ 16 = pow-le-pow_right (omega arith) {i = k} {j = 16} (omega arith) in
    let is =
      msb_unique (2 ^ k) k (omega arith) (omega arith)
        (record { below = omega arith; above = omega (arith, pow-suc 2 k) }) in
    rw is (ground arith)
