-- ===== src/Text/Trim.antt =====
-- `trim_space` is idempotent.
use proxy_speedtest.Prelude.{
  ℕ, ◌≡◌, refl, ◌∙◌, ap, false, [], ◌∷◌, arith, if◌then◌else◌, Bool-cases, inl, inr, sym,
}
use proxy_speedtest.Text.{Str, is_space, trim_left, trim_right, trim_space}

-- The text is empty or does not begin with a space.
abbrev HeadSolid : Str → Type 0
HeadSolid [] = Unit
HeadSolid (c ∷ s) = is_space c ≡ false

trim_left-HeadSolid : (s : Str) → HeadSolid (trim_left s)
unfolding trim_left
trim_left-HeadSolid [] = tt
trim_left-HeadSolid (c ∷ s) = elim (Bool-cases (is_space c)) [
  | inl e ↦ rw e (trim_left-HeadSolid s)
  | inr e ↦ rw e e
]

trim_left_solid : (s : Str) → HeadSolid s → trim_left s ≡ s
unfolding trim_left
trim_left_solid [] h = refl
trim_left_solid (c ∷ s) h = rw h

module _ (c : ℕ) where
  abbrev keep : Str → Str
  keep [] = if is_space c then [] else c ∷ []
  keep (d ∷ t) = c ∷ d ∷ t

  trim_right-cons : (s : Str) → trim_right (c ∷ s) ≡ keep (trim_right s)
  unfolding trim_right
  trim_right-cons s = ground arith

  keep-HeadSolid : (t : Str) → is_space c ≡ false → HeadSolid (keep t)
  keep-HeadSolid [] h = rw h h
  keep-HeadSolid (d ∷ t) h = h

trim_right-HeadSolid : (s : Str) → HeadSolid s → HeadSolid (trim_right s)
unfolding trim_right
trim_right-HeadSolid [] h = tt
trim_right-HeadSolid (c ∷ s) h = rw trim_right-cons (keep-HeadSolid c (trim_right s) h)

trim_right-keep : (c : ℕ) (t : Str) → trim_right t ≡ t → trim_right (keep c t) ≡ keep c t
trim_right-keep c [] h = unfold trim_right in ground arith
trim_right-keep c (d ∷ t) h = trim_right-cons c (d ∷ t) ∙ ap (keep c) h

trim_right_idem : (s : Str) → trim_right (trim_right s) ≡ trim_right s
trim_right_idem [] = unfold trim_right in refl
trim_right_idem (c ∷ s) =
    ap trim_right (trim_right-cons c s)
    ∙ trim_right-keep c (trim_right s) (trim_right_idem s)
    ∙ sym (trim_right-cons c s)

pub trim_space_idem : (s : Str) → trim_space (trim_space s) ≡ trim_space s
unfolding trim_space
trim_space_idem s =
    ap trim_right (
      trim_left_solid (trim_right (trim_left s))
        (trim_right-HeadSolid (trim_left s) (trim_left-HeadSolid s)))
    ∙ trim_right_idem (trim_left s)
