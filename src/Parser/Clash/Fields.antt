-- ===== src/Parser/Clash/Fields.antt =====
-- internal/parser/clash.go: the typed reads of a `map[string]interface{}`.
use Prim.Native.String.{String}
use proxy_speedtest.Prelude.{ℕ, Bool, true, false, List, [], ◌∷◌, Option, none, some, if◌then◌else◌}
use proxy_speedtest.Prelude.Int.{ℤ, pos}
use proxy_speedtest.Text.{Str, str, eq_str}
use proxy_speedtest.GoLib.{GoLib, Value, Values, Entries, u16}

-- `m[key]`
unfoldable pub entry_of : {F : Type 0} → Entries F → Str → Option (Value F)
unfolding eq_str
entry_of Entries.end k = none
entry_of (Entries.entry j v m) k = if eq_str j k then some v else entry_of m k

-- `len(m) > 0`
abbrev pub some_entry : {F : Type 0} → Entries F → Bool
some_entry Entries.end = false
some_entry (Entries.entry k v m) = true

unfoldable pub as_string : {F : Type 0} → Option (Value F) → Str
as_string (some (Value.string s)) = s
as_string _ = []

unfoldable pub as_u16 : {F : Type 0} → GoLib F → Option (Value F) → ℕ
as_u16 go (some (Value.int n)) = u16 n
as_u16 go (some (Value.int64 n)) = u16 n
as_u16 go (some (Value.float f)) = go.float_u16 f
as_u16 go _ = 0

unfoldable pub as_int : {F : Type 0} → GoLib F → Option (Value F) → ℤ
as_int go (some (Value.int n)) = n
as_int go (some (Value.int64 n)) = n
as_int go (some (Value.float f)) = go.float_int f
as_int go _ = pos 0

unfoldable pub as_bool : {F : Type 0} → Option (Value F) → Bool
as_bool (some (Value.bool b)) = b
as_bool _ = false

unfoldable pub as_map : {F : Type 0} → Option (Value F) → Entries F
as_map (some (Value.map m)) = m
as_map _ = Entries.end

-- the texts among the items; the others are left out
unfoldable pub texts_of : {F : Type 0} → Values F → List Str
texts_of Values.nil = []
texts_of (Values.cons (Value.string s) vs) = s ∷ texts_of vs
texts_of (Values.cons _ vs) = texts_of vs

unfoldable pub as_strings : {F : Type 0} → Option (Value F) → List Str
unfolding texts_of
as_strings (some (Value.list vs)) = texts_of vs
as_strings (some (Value.strings l)) = l
as_strings _ = []

abbrev pub get_string : {F : Type 0} → Entries F → String → Str
get_string m key = as_string (entry_of m (str key))

abbrev pub get_u16 : {F : Type 0} → GoLib F → Entries F → String → ℕ
get_u16 go m key = as_u16 go (entry_of m (str key))

abbrev pub get_int : {F : Type 0} → GoLib F → Entries F → String → ℤ
get_int go m key = as_int go (entry_of m (str key))

abbrev pub get_bool : {F : Type 0} → Entries F → String → Bool
get_bool m key = as_bool (entry_of m (str key))

abbrev pub get_map : {F : Type 0} → Entries F → String → Entries F
get_map m key = as_map (entry_of m (str key))

abbrev pub get_strings : {F : Type 0} → Entries F → String → List Str
get_strings m key = as_strings (entry_of m (str key))
