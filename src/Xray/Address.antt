-- ===== src/Xray/Address.antt =====
-- internal/xray/config.go `itoa` and `GetServerAddr`: the text of an address, read back.
use proxy_speedtest.Prelude.{
  ℕ, zero, suc, ◌+◌, ◌*◌, ◌/◌, ◌%◌, ◌≤◌, ◌<◌, ◌≡◌, ◌≢◌, refl, sym, ap, ◌∙◌, [], none, some, ◌∷◌,
  ◌++◌, arith, ltb, Bool-cases, inl, inr,
}
use mathlib.Core.List.{append_assoc, append-nil, cons-ne-nil, append-ne-nil_of_right_ne-nil}
use proxy_speedtest.Text.{Str, cut_last}
use proxy_speedtest.Text.Numbers.{value, parse_digits, parse_uint, uint_value, parse_u16, max_u16}
use proxy_speedtest.Xray.Config.{ProxyConfig, itoa_fuel, itoa, get_server_addr}

-- One more digit, read behind a number that fits with it.
read_digit :
    (max a d i : ℕ) (rest : Str)
    → d < 10
    → i ≤ max
    → i ≡ a * 10 + d
    → parse_digits max a ((48 + d) ∷ rest) ≡ parse_digits max i rest
unfolding parse_digits
read_digit max a d i rest h k e = rw e (ground arith)

-- The digits of `i`, read after nothing, leave `i` in the accumulator.
read_itoa :
    (max f i : ℕ) (rest : Str)
    → i < f
    → i ≤ max
    → parse_digits max 0 (itoa_fuel f i ++ rest) ≡ parse_digits max i rest
unfolding itoa_fuel
read_itoa max zero i rest h k = absurd (omega arith)
read_itoa max (suc f) i rest h k = elim (Bool-cases (ltb i 10)) [
  | inl e ↦ rw e (read_digit max 0 i i rest (ground arith) k (omega arith))
  | inr e ↦
      rw (e, append_assoc)
        (read_itoa max f (i / 10) ((48 + i % 10) ∷ rest) (ground arith) (omega arith)
          ∙ read_digit max (i / 10) (i % 10) i rest (omega arith) k (omega arith))
]

parse_uint-some :
    (max : ℕ) (s : Str) (n : ℕ)
    → parse_digits max 0 s ≡ value n
    → s ≢ []
    → parse_uint max s ≡ value n
unfolding parse_uint
parse_uint-some max [] n e h = absurd (h refl)
parse_uint-some max (c ∷ s) n e h = e

itoa-nonempty : (f i : ℕ) → itoa_fuel (suc f) i ≢ []
unfolding itoa_fuel
itoa-nonempty f i = elim (Bool-cases (ltb i 10)) as (λ _. itoa_fuel (suc f) i ≢ []) [
  | inl e ↦ rw e (cons-ne-nil (48 + i) [])
  | inr e ↦
      rw e (append-ne-nil_of_right_ne-nil (itoa_fuel f (i / 10)) (cons-ne-nil (48 + i % 10) []))
]

parse_u16-itoa : (n : ℕ) → n ≤ max_u16 → parse_u16 (itoa n) ≡ n
unfolding parse_u16 itoa uint_value parse_digits
parse_u16-itoa n h =
    let r : parse_digits max_u16 0 (itoa_fuel (suc n) n) ≡ value n =
      ap (parse_digits max_u16 0) (sym (append-nil (itoa_fuel (suc n) n)))
      ∙ read_itoa max_u16 (suc n) n [] (omega arith) h in
    ap (uint_value max_u16) (parse_uint-some max_u16 (itoa_fuel (suc n) n) n r (itoa-nonempty n n))

cut_last-none :
    (a b : Str) (c : ℕ) → cut_last a c ≡ none → cut_last b c ≡ none → cut_last (a ++ b) c ≡ none
unfolding cut_last
cut_last-none [] b c h k = k
cut_last-none (d ∷ a) b c h k = ground (arith, cut_last-none a b c)

cut_last-itoa : (f i : ℕ) → cut_last (itoa_fuel f i) b':' ≡ none
unfolding itoa_fuel cut_last
cut_last-itoa zero i = refl
cut_last-itoa (suc f) i =
    elim (Bool-cases (ltb i 10)) as (λ _. cut_last (itoa_fuel (suc f) i) b':' ≡ none) [
      | inl e ↦ rw e (ground arith)
      | inr e ↦ rw e (
          cut_last-none (itoa_fuel f (i / 10)) ((48 + i % 10) ∷ []) b':' (cut_last-itoa f (i / 10))
            (ground arith))
    ]

cut_last-append : (a b : Str) (c : ℕ) → cut_last b c ≡ none → cut_last (a ++ c ∷ b) c ≡ some (a, b)
unfolding cut_last
cut_last-append [] b c h = rw h (ground arith)
cut_last-append (d ∷ a) b c h = rw (cut_last-append a b c h) refl

-- The server address of a configuration with a 16-bit port, whatever its address holds (colons
-- too), splits at its last colon into that address and a text that is parsed as that port.
pub get_server_addr-cut_last :
    (c : ProxyConfig)
    → c.port ≤ max_u16
    → (t : Str) × (cut_last (get_server_addr c) b':' ≡ some (c.address, t)) × (parse_u16 t ≡ c.port)
unfolding get_server_addr itoa
get_server_addr-cut_last c h = (
  itoa c.port,
  cut_last-append c.address (itoa c.port) b':' (cut_last-itoa (suc c.port) c.port),
  parse_u16-itoa c.port h,
)
