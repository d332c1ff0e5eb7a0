-- ===== src/Command/Plan.antt =====
-- `ParseOutputPlan`: the formats of the targets, and where they go.
use proxy_speedtest.Prelude.{
  ℕ, suc, ◌≤◌, ◌≡◌, refl, sym, ap, subst, Bool, true, false, not, ◌&&◌, ◌||◌, List, [], ◌∷◌, ◌++◌,
  Option, none, some, if◌then◌else◌, arith, All, map, ◌==◌, Bool-cases, inl, inr,
}
use proxy_speedtest.Text.{Str, str, eq_str, to_lower, trim_space, split}
use proxy_speedtest.Text.Laws.{eq_str_refl, eq_of_eq_str, eq_str-of_eq}
use proxy_speedtest.Command.{
  OutputTarget, ext_for, valid_format, mem, read_formats, without_none, kept_formats, data_count,
  pic_path, data_path, used_after, make_targets, plan_of, planned_targets, timestamp_name,
  parse_output_plan,
}

abbrev pub Distinct : List Str → Type 0
Distinct [] = Unit
Distinct (f ∷ fs) = (mem f fs ≡ false) × Distinct fs

-- A format that can be asked for.
abbrev pub AreFormats : List Str → Type 0
AreFormats fs = Distinct fs × All (λ f. valid_format f ≡ true) fs

eq_str_sym : (a b : Str) → eq_str a b ≡ true → eq_str b a ≡ true
eq_str_sym a b e = eq_str-of_eq b a (sym (eq_of_eq_str a b e))

mem-append : (g f : Str) (fs : List Str) → mem g (fs ++ f ∷ []) ≡ (mem g fs || eq_str g f)
mem-append g f [] = ground arith
mem-append g f (h ∷ fs) = ground (arith, mem-append g f fs)

AreFormats-append :
    (f : Str) (fs : List Str)
    → valid_format f ≡ true
    → mem f fs ≡ false
    → AreFormats fs
    → AreFormats (fs ++ f ∷ [])
AreFormats-append f [] v m a = ((refl, tt), (v, tt))
AreFormats-append f (g ∷ fs) v m a =
    let rest = AreFormats-append f fs v (ground (arith, m)) (a.0.1, a.1.1) in
    ((ground (arith, mem-append g f fs, a.0.0, m, eq_str_sym g f), rest.0), (a.1.0, rest.1))

abbrev OnSome : {A : Type 0} → (A → Type 0) → Option A → Type 0
OnSome P none = Unit
OnSome P (some a) = P a

OnSome-if :
    {A : Type 0}
    → (P : A → Type 0) (b : Bool) (x y : Option A) → (b ≡ true → OnSome P x)
    → (b ≡ false → OnSome P y)
    → OnSome P (if b then x else y)
OnSome-if P true x y p q = p refl
OnSome-if P false x y p q = q refl

read_formats-AreFormats :
    (parts fs : List Str) → AreFormats fs → OnSome AreFormats (read_formats parts fs)
unfolding read_formats
read_formats-AreFormats [] fs a = a
read_formats-AreFormats (part ∷ parts) fs a =
    let f = to_lower (trim_space part) in
    let skip = read_formats-AreFormats parts fs a in
    OnSome-if AreFormats (eq_str f []) _ _ (λ e. skip)
      (λ e.
        OnSome-if AreFormats (not (valid_format f)) _ _ (λ v. tt)
          (λ v.
            OnSome-if AreFormats (mem f fs) _ _ (λ m. skip)
              (λ m.
                read_formats-AreFormats parts (fs ++ f ∷ [])
                  (AreFormats-append f fs (ground (arith, v)) m a))))

mem-without_none : (g : Str) (fs : List Str) → mem g fs ≡ false → mem g (without_none fs) ≡ false
mem-without_none g [] m = refl
mem-without_none g (f ∷ fs) m = ground (arith, mem-without_none g fs)

-- The formats without `none`.
abbrev pub ArePlanned : List Str → Type 0
ArePlanned fs = AreFormats fs × (mem (str "none") fs ≡ false)

without_none-ArePlanned : (fs : List Str) → AreFormats fs → ArePlanned (without_none fs)
without_none-ArePlanned [] a = ((tt, tt), refl)
without_none-ArePlanned (f ∷ fs) a = ground (
  arith,
  without_none-ArePlanned fs (a.0.1, a.1.1),
  mem-without_none f fs a.0.0,
  eq_str_sym (str "none") f,
)

kept_formats-ArePlanned : (fs : List Str) → AreFormats fs → ArePlanned (kept_formats fs)
unfolding valid_format str eq_str
kept_formats-ArePlanned [] a = (((refl, tt), (refl, tt)), refl)
kept_formats-ArePlanned (f ∷ fs) a = without_none-ArePlanned (f ∷ fs) a

make_targets-formats :
    (stamp : Str → Str) (n : ℕ) (file pic : Str) (used : Bool) (fs : List Str)
    → map (λ t. t.format) (make_targets stamp n file pic used fs) ≡ fs
unfolding make_targets
make_targets-formats stamp n file pic used [] = refl
make_targets-formats stamp n file pic used (f ∷ fs) = elim (Bool-cases (eq_str f (str "pic"))) [
  | inl e ↦
      rw (e, make_targets-formats stamp n file pic used fs)
        (ap (λ g. g ∷ fs) (sym (eq_of_eq_str f (str "pic") e)))
  | inr e ↦ rw (e, make_targets-formats stamp n file pic (used_after file used) fs) refl
]

-- The targets that are written to the standard output.
abbrev pub to_stdout : List OutputTarget → ℕ
to_stdout [] = 0
to_stdout (t ∷ ts) = if eq_str t.path [] then suc (to_stdout ts) else to_stdout ts

pic_path-nonempty :
    (stamp : Str → Str) (n : ℕ) (file pic : Str)
    → ((e : Str) → eq_str (stamp e) [] ≡ false)
    → eq_str (pic_path stamp n file pic) [] ≡ false
pic_path-nonempty stamp n file pic h = ground (arith, h (str ".png"))

data_path-empty :
    (stamp : Str → Str) (n : ℕ) (file : Str) (used : Bool) (f : Str)
    → ((e : Str) → eq_str (stamp e) [] ≡ false)
    → eq_str (data_path stamp n file used f) [] ≡ (eq_str file [] && (n == 1))
data_path-empty stamp n file used f h = ground (arith, h (ext_for f), eq_str_refl [])

make_targets-to_stdout :
    (stamp : Str → Str) (n : ℕ) (file pic : Str) (used : Bool) (fs : List Str)
    → ((e : Str) → eq_str (stamp e) [] ≡ false)
    → to_stdout (make_targets stamp n file pic used fs)
      ≡ (if eq_str file [] && (n == 1) then data_count fs else 0)
unfolding make_targets
make_targets-to_stdout stamp n file pic used [] h = ground arith
make_targets-to_stdout stamp n file pic used (f ∷ fs) h = ground (
  arith,
  pic_path-nonempty stamp n file pic h,
  data_path-empty stamp n file used f h,
  make_targets-to_stdout stamp n file pic used fs h,
  make_targets-to_stdout stamp n file pic (used_after file used) fs h,
)

plan_of-to_stdout :
    (stamp : Str → Str) (file pic : Str) (fs : List Str)
    → ((e : Str) → eq_str (stamp e) [] ≡ false)
    → to_stdout (plan_of stamp file pic fs) ≤ 1
plan_of-to_stdout stamp file pic fs h = ground (
  arith,
  make_targets-to_stdout stamp (data_count (kept_formats fs)) file pic false (kept_formats fs) h,
)

plan_of-ArePlanned :
    (stamp : Str → Str) (file pic : Str) (fs : List Str)
    → AreFormats fs
    → ArePlanned (map (λ t. t.format) (plan_of stamp file pic fs))
plan_of-ArePlanned stamp file pic fs a =
    let kept = kept_formats fs in
    rw (make_targets-formats stamp (data_count kept) file pic false kept)
      (kept_formats-ArePlanned fs a)

planned :
    (stamp : Str → Str) (file pic : Str) (o : Option (List Str))
    → ((e : Str) → eq_str (stamp e) [] ≡ false)
    → OnSome AreFormats o
    → OnSome
        (λ ts. ArePlanned (map (λ t. t.format) ts) × (to_stdout ts ≤ 1))
        (planned_targets stamp file pic o)
planned stamp file pic none h a = tt
planned stamp file pic (some fs) h a =
    (plan_of-ArePlanned stamp file pic fs a, plan_of-to_stdout stamp file pic fs h)

timestamp_name-nonempty : (now e : Str) → eq_str (timestamp_name now e) [] ≡ false
unfolding timestamp_name str eq_str
timestamp_name-nonempty now e = refl

-- The formats of a plan that `ParseOutputPlan` returns are valid and distinct, and `none` is not among
-- them; and one target at most goes to the standard output.
pub parse_output_plan-ArePlanned :
    (now spec file pic : Str) (ts : List OutputTarget)
    → parse_output_plan now spec file pic ≡ some ts
    → ArePlanned (map (λ t. t.format) ts) × (to_stdout ts ≤ 1)
unfolding parse_output_plan
parse_output_plan-ArePlanned now spec file pic ts e =
    subst (OnSome (λ t. ArePlanned (map (λ t. t.format) t) × (to_stdout t ≤ 1))) e (
      planned (timestamp_name now) file pic (read_formats (split spec b',') [])
        (timestamp_name-nonempty now) (read_formats-AreFormats (split spec b',') [] (tt, tt)))
