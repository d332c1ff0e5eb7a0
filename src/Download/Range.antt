-- ===== src/Download/Range.antt =====
-- download/range.go: a file of `len` bytes is split into `part` ranges.
use proxy_speedtest.Prelude.{
  ℕ, zero, suc, ◌+◌, ◌-◌, ◌*◌, ◌/◌, ◌≤◌, ◌<◌, ◌≡◌, refl, List, [], ◌∷◌, ◌++◌, arith, ltb, ◌==◌,
  if◌then◌else◌, length, not, ap, sym, ◌∙◌,
}
use native.Mathlib.Nat.{
  mul-le-mul_left, mul-add, mul-one, mul-zero, le-div_iff_mul-le, div-mul-le_self,
}
use proxy_speedtest.Text.{Str, str}
use proxy_speedtest.Xray.Config.{itoa}

pub record Range : Type 0 where
  pub url : Str
  pub range_from : ℕ
  pub range_to : ℕ

-- `toHeader`: the end of the file stands for an open range.
unfoldable pub to_header : Range → ℕ → Str
to_header r content_length =
    if not (r.range_to == content_length)
    then str "bytes=" ++ (itoa r.range_from ++ (b'-' ∷ itoa r.range_to))
    else str "bytes=" ++ (itoa r.range_from ++ (b'-' ∷ []))

unfoldable pub range_at : ℕ → ℕ → Str → ℕ → Range
range_at part len u j = record {
  url = u;
  range_from = len / part * j;
  range_to = if ltb j (part - 1) then len / part * (j + 1) - 1 else len;
}

-- The loop of `calcRange`, for the `n` values from `j` on.
unfoldable pub ranges_from : ℕ → ℕ → Str → ℕ → ℕ → List Range
ranges_from part len u zero j = []
ranges_from part len u (suc n) j = range_at part len u j ∷ ranges_from part len u n (j + 1)

-- `part` is not negative and `len` is a length; the division is reached with `part` above 0 only.
unfoldable pub calc_range : ℕ → ℕ → Str → List Range
calc_range part len u = ranges_from part len u part 0

-- The ranges follow one another from byte `a` on and end at `b`; all but the last hold a byte.
abbrev pub Tiles : ℕ → ℕ → List Range → Type 0
Tiles a b [] = ⊥
Tiles a b (r ∷ []) = (r.range_from ≡ a) × (r.range_to ≡ b)
Tiles a b (r ∷ s ∷ rs) =
    (r.range_from ≡ a) × (a ≤ r.range_to) × (r.range_to < b) × Tiles (r.range_to + 1) b (s ∷ rs)

ranges_from-Tiles :
    (q part len : ℕ) (u : Str) (n j a : ℕ)
    → 0 < q
    → q * part ≤ len
    → len / part ≡ q
    → suc n + j ≡ part
    → a ≡ q * j
    → Tiles a len (ranges_from part len u (suc n) j)
unfolding ranges_from range_at
ranges_from-Tiles q part len u zero j a p h d e k = rw d (ground arith)
ranges_from-Tiles q part len u (suc n) j a p h d e k =
    let step : q * (j + 1) ≡ q * j + q = mul-add q j 1 ∙ ap (λ (x : ℕ). q * j + x) (mul-one q) in
    let below : q * (j + 1) ≤ q * part = mul-le-mul_left q (omega arith) in
    let rest = λ (b : ℕ) (i : b ≡ q * (j + 1)).
      ranges_from-Tiles q part len u n (j + 1) b p h d (omega arith) i in
    rw d (ground arith, ground arith, ground arith, rest _ (ground arith))

length-ranges_from : (part len : ℕ) (u : Str) (n j : ℕ) → length (ranges_from part len u n j) ≡ n
unfolding ranges_from
length-ranges_from part len u zero j = refl
length-ranges_from part len u (suc n) j = ap suc (length-ranges_from part len u n (j + 1))

-- For a file of at least `part` bytes and at least one part: there are `part` ranges, the first
-- starts at byte 0, each next one starts behind the end of the one before it, none of them but the
-- last reaches the length, and the last one ends at the length.
pub calc_range-Tiles :
    (part len : ℕ) (u : Str)
    → 0 < part
    → part ≤ len
    → Tiles 0 len (calc_range part len u) × (length (calc_range part len u) ≡ part)
unfolding calc_range
calc_range-Tiles zero len u h k = absurd (omega arith)
calc_range-Tiles (suc n) len u h k =
    let all =
      ranges_from-Tiles (len / suc n) (suc n) len u n 0 0 ((le-div_iff_mul-le h).1 (omega arith))
        (div-mul-le_self len (suc n)) refl (omega arith) (sym (mul-zero (len / suc n))) in
    (all, length-ranges_from (suc n) len u (suc n) 0)
