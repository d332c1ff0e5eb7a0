-- ===== src/Text/Numbers.antt =====
-- What the code uses of Go's package `strconv`.
use proxy_speedtest.Prelude.{
  ℕ, ◌+◌, ◌-◌, ◌*◌, ◌^◌, ◌≤◌, Bool, true, false, ◌&&◌, [], ◌∷◌, arith, leb, ltb, ◌==◌,
  if◌then◌else◌,
}
use proxy_speedtest.Prelude.Int.{ℤ, pos, negsuc}
use proxy_speedtest.Text.{Str}

-- The value that `strconv.ParseUint(s, 10, bits)` returns beside its error: 0 at a syntax error, and
-- `max` as soon as the digits read so far pass `max = 2 ^ bits - 1`.
pub data Parsed : Type 0 where
  value : ℕ → Parsed
  syntax range : Parsed

unfoldable pub parse_digits : ℕ → ℕ → Str → Parsed
parse_digits max n [] = value n
parse_digits max n (c ∷ s) =
    let rest = parse_digits max (n * 10 + (c - 48)) s in
    if leb 48 c && leb c 57 then (if ltb max (n * 10 + (c - 48)) then range else rest) else syntax

unfoldable pub parse_uint : ℕ → Str → Parsed
unfolding parse_digits
parse_uint max [] = syntax
parse_uint max (c ∷ s) = parse_digits max 0 (c ∷ s)

-- The first result of ParseUint, with the error dropped.
unfoldable pub uint_value : ℕ → Parsed → ℕ
uint_value max (value n) = n
uint_value max syntax = 0
uint_value max range = max

abbrev pub max_u16 : ℕ
max_u16 = 65535

-- `p, _ := strconv.ParseUint(s, 10, 16)`
unfoldable pub parse_u16 : Str → ℕ
unfolding parse_uint uint_value
parse_u16 s = uint_value max_u16 (parse_uint max_u16 s)

-- The magnitude and the sign to an int64, clamped as ParseInt does at a range error.
unfoldable pub signed : Bool → ℕ → ℤ
signed false n = if leb (2 ^ 63) n then pos (2 ^ 63 - 1) else pos n
signed true n =
    if ltb (2 ^ 63) n then negsuc (2 ^ 63 - 1) else (if n == 0 then pos 0 else negsuc (n - 1))

-- `v, _ := strconv.Atoi(s)`
unfoldable pub atoi : Str → ℤ
unfolding parse_uint uint_value signed
atoi [] = pos 0
atoi (c ∷ s) =
    let magnitude = λ (t : Str). uint_value (2 ^ 64 - 1) (parse_uint (2 ^ 64 - 1) t) in
    if c == b'-'
    then signed true (magnitude s)
    else if c == b'+'
    then signed false (magnitude s)
    else signed false (magnitude (c ∷ s))

parse_digits-le : (max n : ℕ) (s : Str) → n ≤ max → uint_value max (parse_digits max n s) ≤ max
unfolding parse_digits uint_value
parse_digits-le max n [] h = h
parse_digits-le max n (c ∷ s) h = ground (arith, parse_digits-le max (n * 10 + (c - 48)) s)

pub parse_u16-le : (s : Str) → parse_u16 s ≤ max_u16
unfolding parse_u16
parse_u16-le [] = omega arith
parse_u16-le (c ∷ s) = parse_digits-le max_u16 0 (c ∷ s) (omega arith)
