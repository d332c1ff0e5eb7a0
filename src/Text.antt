-- ===== src/Text.antt =====
-- Go strings as lists of bytes, and what the code uses of Go's package `strings`. Literals and the
-- texts that are tested against them are ASCII; a byte above 127 has no case and is no space.
pub mod Numbers
pub mod Laws
pub mod Trim
use Prim.Native.Char.{code}
use Prim.Native.String.{String}
use proxy_speedtest.Prelude.{
  ℕ, zero, suc, ◌+◌, ◌-◌, Bool, true, false, ◌&&◌, ◌||◌, List, [], ◌∷◌, ◌++◌, map, Option, none,
  some, leb, ◌==◌, if◌then◌else◌, drop, length,
}

abbrev pub Str : Type 0
Str = List ℕ

-- The bytes of an ASCII literal.
unfoldable pub str : String → Str
str String.[] = []
str (String.◌∷◌ c s) = code c ∷ str s

unfoldable pub eq_str : Str → Str → Bool
eq_str [] [] = true
eq_str [] (d ∷ t) = false
eq_str (c ∷ s) [] = false
eq_str (c ∷ s) (d ∷ t) = (c == d) && eq_str s t

-- strings.ToLower
unfoldable pub lower_byte : ℕ → ℕ
lower_byte c = if leb b'A' c && leb c b'Z' then c + 32 else c

abbrev pub to_lower : Str → Str
to_lower = map lower_byte

-- strings.HasPrefix, strings.HasSuffix, strings.TrimPrefix
unfoldable pub has_prefix : Str → Str → Bool
has_prefix s [] = true
has_prefix [] (d ∷ t) = false
has_prefix (c ∷ s) (d ∷ t) = (c == d) && has_prefix s t

unfoldable pub has_suffix : Str → Str → Bool
unfolding eq_str
has_suffix s t = leb (length t) (length s) && eq_str (drop (length s - length t) s) t

unfoldable pub trim_prefix : Str → Str → Str
unfolding has_prefix
trim_prefix s t = if has_prefix s t then drop (length t) s else s

-- strings.Cut: the text before and after the first `sep`.
unfoldable pub cut : Str → Str → Option (Str × Str)
unfolding has_prefix
cut [] sep = if has_prefix [] sep then some ([], []) else none
cut (c ∷ s) sep =
    let rest = cut s sep in
    if has_prefix (c ∷ s) sep
    then some ([], drop (length sep) (c ∷ s))
    else elim rest [ none ↦ none | some (a, b) ↦ some (c ∷ a, b) ]

-- strings.Contains
unfoldable pub contains : Str → Str → Bool
unfolding cut
contains s sep = elim (cut s sep) [ none ↦ false | some _ ↦ true ]

-- The text before and after the last byte `c`, for strings.LastIndex of a one-byte text.
unfoldable pub cut_last : Str → ℕ → Option (Str × Str)
cut_last [] c = none
cut_last (d ∷ s) c = elim (cut_last s c) [
  | some (a, b) ↦ some (d ∷ a, b)
  | none ↦ if d == c then some ([], s) else none
]

-- strings.Replace(s, old, new, 1)
unfoldable pub replace_first : Str → Str → Str → Str
unfolding cut
replace_first s old new = elim (cut s old) [ none ↦ s | some (a, b) ↦ a ++ (new ++ b) ]

-- strings.Split at one byte; never empty.
unfoldable pub split_from : Str → ℕ → Str → List Str
split_from cur c [] = cur ∷ []
split_from cur c (d ∷ s) =
    let closed = cur ∷ split_from [] c s in
    let longer = split_from (cur ++ d ∷ []) c s in if d == c then closed else longer

unfoldable pub split : Str → ℕ → List Str
unfolding split_from
split s c = split_from [] c s

unfoldable pub is_space : ℕ → Bool
is_space c = (leb 9 c && leb c 13) || c == 32

-- strings.TrimSpace
unfoldable pub trim_left : Str → Str
trim_left [] = []
trim_left (c ∷ s) = if is_space c then trim_left s else c ∷ s

unfoldable pub trim_right : Str → Str
trim_right [] = []
trim_right (c ∷ s) = elim (trim_right s) [
  | [] ↦ if is_space c then [] else c ∷ []
  | d ∷ t ↦ c ∷ d ∷ t
]

unfoldable pub trim_space : Str → Str
trim_space s = trim_right (trim_left s)

-- strings.TrimRight(s, c) for one byte.
unfoldable pub trim_right_byte : Str → ℕ → Str
trim_right_byte [] c = []
trim_right_byte (d ∷ s) c = elim (trim_right_byte s c) [
  | [] ↦ if d == c then [] else d ∷ []
  | e ∷ t ↦ d ∷ e ∷ t
]

-- strings.Join
unfoldable pub join : List Str → Str → Str
join [] sep = []
join (s ∷ []) sep = s
join (s ∷ t ∷ rest) sep = s ++ (sep ++ join (t ∷ rest) sep)
