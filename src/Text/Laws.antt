-- ===== src/Text/Laws.antt =====
-- Equality and prefixes of texts.
use proxy_speedtest.Prelude.{◌≡◌, refl, true, [], ◌∷◌, ◌⊎◌, inl, inr, arith}
use proxy_speedtest.Text.{Str, eq_str, has_prefix}

pub eq_str_refl : (s : Str) → eq_str s s ≡ true
unfolding eq_str
eq_str_refl [] = refl
eq_str_refl (c ∷ s) = ground (arith, eq_str_refl s)

pub eq_of_eq_str : (s t : Str) → eq_str s t ≡ true → s ≡ t
unfolding eq_str
eq_of_eq_str [] [] h = refl
eq_of_eq_str [] (d ∷ t) h = cc
eq_of_eq_str (c ∷ s) [] h = cc
eq_of_eq_str (c ∷ s) (d ∷ t) h = ground (arith, eq_of_eq_str s t)

pub eq_str-of_eq : (s t : Str) → s ≡ t → eq_str s t ≡ true
eq_str-of_eq s t h = rw h (eq_str_refl t)

-- Two texts that begin with prefixes of which neither begins with the other differ; here, a text
-- has at most one of two such prefixes.
pub has_prefix-both :
    (s t u : Str)
    → has_prefix s t ≡ true
    → has_prefix s u ≡ true
    → (has_prefix t u ≡ true) ⊎ (has_prefix u t ≡ true)
unfolding has_prefix
has_prefix-both s [] [] h k = inl refl
has_prefix-both s [] (e ∷ u) h k = inr refl
has_prefix-both s (d ∷ t) [] h k = inl refl
has_prefix-both [] (d ∷ t) (e ∷ u) h k = cc
has_prefix-both (c ∷ s) (d ∷ t) (e ∷ u) h k = ground (arith, has_prefix-both s t u)
