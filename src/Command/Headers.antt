-- ===== src/Command/Headers.antt =====
-- `mergeHeaderLists`: which value a header has at the end.
use proxy_speedtest.Prelude.{
  ◌≡◌, refl, sym, ap, ◌∙◌, true, List, [], ◌∷◌, Option, none, some, if◌then◌else◌, arith,
}
use proxy_speedtest.Text.{Str, eq_str, to_lower, trim_space}
use proxy_speedtest.Text.Laws.{eq_of_eq_str, eq_str-of_eq}
use proxy_speedtest.Command.{
  HeaderKv, equal_fold, replace_or_add, add_header, add_headers, add_groups, merge_header_lists,
}

equal_fold_sym : (a b : Str) → equal_fold a b ≡ true → equal_fold b a ≡ true
equal_fold_sym a b e =
    eq_str-of_eq (to_lower b) (to_lower a) (sym (eq_of_eq_str (to_lower a) (to_lower b) e))

equal_fold_trans :
    (a b c : Str) → equal_fold a b ≡ true → equal_fold b c ≡ true → equal_fold a c ≡ true
equal_fold_trans a b c e f =
    eq_str-of_eq (to_lower a) (to_lower c)
      (eq_of_eq_str (to_lower a) (to_lower b) e ∙ eq_of_eq_str (to_lower b) (to_lower c) f)

-- Without regard to case, the first header of a name.
abbrev pub get : Str → List HeaderKv → Option HeaderKv
get n [] = none
get n (h ∷ hs) = if equal_fold h.name n then some h else get n hs

abbrev pub or_else : {A : Type 0} → Option A → Option A → Option A
or_else none b = b
or_else (some a) b = some a

-- A header with its name trimmed, if that is the name that is asked for, and no empty one.
abbrev pub named : Str → HeaderKv → Option HeaderKv
named n h =
    let name = trim_space h.name in
    if eq_str name []
    then none
    else if equal_fold name n
    then some (record h { name = name })
    else none

-- The last header of a name in all groups.
abbrev pub last_in : Str → List HeaderKv → Option HeaderKv
last_in n [] = none
last_in n (h ∷ hs) = or_else (last_in n hs) (named n h)

abbrev pub last_named : Str → List (List HeaderKv) → Option HeaderKv
last_named n [] = none
last_named n (g ∷ gs) = or_else (last_named n gs) (last_in n g)

get-replace_or_add :
    (n : Str) (h : HeaderKv) (ms : List HeaderKv)
    → get n (replace_or_add h ms) ≡ (if equal_fold h.name n then some h else get n ms)
unfolding replace_or_add
get-replace_or_add n h [] = refl
get-replace_or_add n h (m ∷ ms) = ground (
  arith,
  get-replace_or_add n h ms,
  equal_fold_sym m.name h.name,
  equal_fold_trans h.name m.name n,
  equal_fold_trans m.name h.name n,
  equal_fold_sym h.name n,
  equal_fold_trans m.name n h.name,
)

get-add_header :
    (n : Str) (h : HeaderKv) (ms : List HeaderKv)
    → get n (add_header h ms) ≡ or_else (named n h) (get n ms)
unfolding add_header
get-add_header n h ms =
    ground (arith, get-replace_or_add n (record h { name = trim_space h.name }) ms)

or_else_assoc :
    {A : Type 0} → (a b c : Option A) → or_else a (or_else b c) ≡ or_else (or_else a b) c
or_else_assoc none b c = refl
or_else_assoc (some a) b c = refl

get-add_headers :
    (n : Str) (hs ms : List HeaderKv)
    → get n (add_headers hs ms) ≡ or_else (last_in n hs) (get n ms)
unfolding add_headers
get-add_headers n [] ms = refl
get-add_headers n (h ∷ hs) ms =
    get-add_headers n hs (add_header h ms)
    ∙ ap (or_else (last_in n hs)) (get-add_header n h ms)
    ∙ or_else_assoc (last_in n hs) (named n h) (get n ms)

get-add_groups :
    (n : Str) (gs : List (List HeaderKv)) (ms : List HeaderKv)
    → get n (add_groups gs ms) ≡ or_else (last_named n gs) (get n ms)
unfolding add_groups
get-add_groups n [] ms = refl
get-add_groups n (g ∷ gs) ms =
    get-add_groups n gs (add_headers g ms)
    ∙ ap (or_else (last_named n gs)) (get-add_headers n g ms)
    ∙ or_else_assoc (last_named n gs) (last_in n g) (get n ms)

or_else-none : {A : Type 0} → (a : Option A) → or_else a none ≡ a
or_else-none none = refl
or_else-none (some a) = refl

-- No two headers have the same name.
abbrev pub Distinct : List HeaderKv → Type 0
Distinct [] = Unit
Distinct (h ∷ hs) = (get h.name hs ≡ none) × Distinct hs

get-same :
    (a b : Str) (hs : List HeaderKv) → equal_fold a b ≡ true → get a hs ≡ none → get b hs ≡ none
get-same a b [] s e = refl
get-same a b (h ∷ hs) s e =
    ground (arith, get-same a b hs s, equal_fold_trans h.name b a, equal_fold_sym a b)

replace_or_add-Distinct :
    (h : HeaderKv) (ms : List HeaderKv) → Distinct ms → Distinct (replace_or_add h ms)
unfolding replace_or_add
replace_or_add-Distinct h [] d = (refl, tt)
replace_or_add-Distinct h (m ∷ ms) d = ground (
  arith,
  get-same m.name h.name ms,
  get-replace_or_add m.name h ms,
  equal_fold_sym h.name m.name,
  replace_or_add-Distinct h ms d.1,
)

add_headers-Distinct : (hs ms : List HeaderKv) → Distinct ms → Distinct (add_headers hs ms)
unfolding add_headers add_header
add_headers-Distinct [] ms d = d
add_headers-Distinct (h ∷ hs) ms d =
    add_headers-Distinct hs (add_header h ms)
      (ground (arith, replace_or_add-Distinct (record h { name = trim_space h.name }) ms d))

add_groups-Distinct :
    (gs : List (List HeaderKv)) (ms : List HeaderKv) → Distinct ms → Distinct (add_groups gs ms)
unfolding add_groups
add_groups-Distinct [] ms d = d
add_groups-Distinct (g ∷ gs) ms d =
    add_groups-Distinct gs (add_headers g ms) (add_headers-Distinct g ms d)

-- `mergeHeaderLists` has one header for a name, without regard to case: the last one of the name in all
-- lists, with its name trimmed, where an empty name does not count.
pub get-merge_header_lists :
    (n : Str) (groups : List (List HeaderKv))
    → Distinct (merge_header_lists groups)
      × (get n (merge_header_lists groups) ≡ last_named n groups)
get-merge_header_lists n groups = (
  add_groups-Distinct groups [] tt,
  get-add_groups n groups [] ∙ or_else-none (last_named n groups),
)
