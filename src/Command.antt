-- ===== src/Command.antt =====
-- web/cmdoutput.go: the headers, the output plan and the links of the command line.
pub mod Headers
pub mod Plan
mod Tests
use proxy_speedtest.Prelude.{
  ℕ, zero, suc, ◌+◌, ◌-◌, ◌≡◌, Bool, true, false, not, ◌&&◌, ◌||◌, List, [], ◌∷◌, ◌++◌, Option,
  none, some, if◌then◌else◌, ltb, leb, ◌==◌, length, take, map,
}
use proxy_speedtest.Text.{Str, str, eq_str, to_lower, trim_space, split}

-- strings.EqualFold
abbrev pub equal_fold : Str → Str → Bool
equal_fold s t = eq_str (to_lower s) (to_lower t)

pub record HeaderKv : Type 0 where
  pub name : Str
  pub value : Str

-- The inner loop of `mergeHeaderLists`, and the append where it has not replaced a header.
unfoldable pub replace_or_add : HeaderKv → List HeaderKv → List HeaderKv
replace_or_add h [] = h ∷ []
replace_or_add h (m ∷ ms) = if equal_fold m.name h.name then h ∷ ms else m ∷ replace_or_add h ms

unfoldable pub add_header : HeaderKv → List HeaderKv → List HeaderKv
add_header h merged =
    let name = trim_space h.name in
    if eq_str name [] then merged else replace_or_add (record h { name = name }) merged

unfoldable pub add_headers : List HeaderKv → List HeaderKv → List HeaderKv
add_headers [] merged = merged
add_headers (h ∷ hs) merged = add_headers hs (add_header h merged)

unfoldable pub add_groups : List (List HeaderKv) → List HeaderKv → List HeaderKv
add_groups [] merged = merged
add_groups (g ∷ gs) merged = add_groups gs (add_headers g merged)

-- `mergeHeaderLists`
abbrev pub merge_header_lists : List (List HeaderKv) → List HeaderKv
merge_header_lists groups = add_groups groups []

pub record OutputTarget : Type 0 where
  pub format : Str
  pub path : Str

unfoldable pub ext_for : Str → Str
ext_for f =
    if eq_str f (str "json")
    then str ".json"
    else if eq_str f (str "csv")
    then str ".csv"
    else if eq_str f (str "text") || eq_str f (str "table")
    then str ".txt"
    else if eq_str f (str "pic")
    then str ".png"
    else str ".out"

-- `timestampName`, with the text of the time.
unfoldable pub timestamp_name : Str → Str → Str
timestamp_name now ext = str "speedtest-" ++ (now ++ ext)

unfoldable pub valid_format : Str → Bool
valid_format f =
    eq_str f (str "json")
    || eq_str f (str "csv")
    || eq_str f (str "text")
    || eq_str f (str "table")
    || eq_str f (str "pic")
    || eq_str f (str "none")

abbrev pub mem : Str → List Str → Bool
mem f [] = false
mem f (g ∷ gs) = eq_str f g || mem f gs

-- The loop over the parts of the list; none is its error.
unfoldable pub read_formats : List Str → List Str → Option (List Str)
read_formats [] formats = some formats
read_formats (part ∷ parts) formats =
    let f = to_lower (trim_space part) in
    let skip = read_formats parts formats in
    let keep = read_formats parts (formats ++ f ∷ []) in
    if eq_str f []
    then skip
    else if not (valid_format f)
    then none
    else if mem f formats
    then skip
    else keep

abbrev pub without_none : List Str → List Str
without_none [] = []
without_none (f ∷ fs) = if eq_str f (str "none") then without_none fs else f ∷ without_none fs

-- From `len(formats) == 0` on: `none` alone is no format, and among others it is left out.
abbrev pub kept_formats : List Str → List Str
kept_formats [] = str "json" ∷ []
kept_formats fs = without_none fs

abbrev pub data_count : List Str → ℕ
data_count [] = 0
data_count (f ∷ fs) = if eq_str f (str "pic") then data_count fs else suc (data_count fs)

-- The path of a picture.
abbrev pub pic_path : (Str → Str) → ℕ → Str → Str → Str
pic_path stamp count file pic =
    if not (eq_str pic [])
    then pic
    else if (count == 0) && not (eq_str file [])
    then file
    else stamp (str ".png")

-- The path of data, where `used` tells that the file has been taken.
abbrev pub data_path : (Str → Str) → ℕ → Str → Bool → Str → Str
data_path stamp count file used f =
    if not (eq_str file []) && not used
    then file
    else if eq_str file [] && (count == 1)
    then []
    else stamp (ext_for f)

abbrev pub used_after : Str → Bool → Bool
used_after file used = used || not (eq_str file [])

-- The loop that makes the targets; `stamp` is `timestampName` at the time of the call.
unfoldable pub make_targets : (Str → Str) → ℕ → Str → Str → Bool → List Str → List OutputTarget
make_targets stamp count file pic used [] = []
make_targets stamp count file pic used (f ∷ fs) =
    let after_pic = make_targets stamp count file pic used fs in
    let after_data = make_targets stamp count file pic (used_after file used) fs in
    if eq_str f (str "pic")
    then record { format = str "pic"; path = pic_path stamp count file pic } ∷ after_pic
    else record { format = f; path = data_path stamp count file used f } ∷ after_data

abbrev pub plan_of : (Str → Str) → Str → Str → List Str → List OutputTarget
plan_of stamp file pic formats =
    let kept = kept_formats formats in make_targets stamp (data_count kept) file pic false kept

abbrev pub planned_targets :
    (Str → Str) → Str → Str → Option (List Str) → Option (List OutputTarget)
planned_targets stamp file pic none = none
planned_targets stamp file pic (some formats) = some (plan_of stamp file pic formats)

-- `ParseOutputPlan`; none is its error.
unfoldable pub parse_output_plan : Str → Str → Str → Str → Option (List OutputTarget)
parse_output_plan now spec file pic =
    planned_targets (timestamp_name now) file pic (read_formats (split spec b',') [])
