-- ===== src/Xray/Json.antt =====
-- The `map[string]interface{}` values that internal/xray/dialer.go builds: a JSON tree. A map is a
-- list of fields in which a key that is set again is replaced.
use Prim.Native.String.{String}
use text.Mathlib.Text.{◌==◌}
use proxy_speedtest.Prelude.{
  ℕ, Bool, true, ◌&&◌, List, [], ◌∷◌, Option, none, some, if◌then◌else◌, not,
}
use proxy_speedtest.Prelude.Int.{ℤ}
use proxy_speedtest.Text.{Str}

mutual
  pub data Json : Type 0 where
    string : Str → Json
    num : ℕ → Json
    int : ℤ → Json
    bool : Bool → Json
    bytes : List ℕ → Json
    strings : List (Str × Str) → Json
    arr : Items → Json
    obj : Fields → Json

  pub data Items : Type 0 where
    nil : Items
    cons : Json → Items → Items

  pub data Fields : Type 0 where
    end : Fields
    field : String → Json → Fields → Fields

-- `m[k] = v`
unfoldable pub put : String → Json → Fields → Fields
put k v end = field k v end
put k v (field j w m) = if j == k then field k v m else field j w (put k v m)

unfoldable pub lookup : String → Fields → Option Json
lookup k end = none
lookup k (field j w m) = if j == k then some w else lookup k m

abbrev pub one : Json → Items
one j = cons j nil

-- `if cond { m[k] = v }`
abbrev pub put_if : Bool → String → Json → Fields → Fields
put_if b k v m = if b then put k v m else m

unfoldable pub texts : List Str → Items
texts [] = nil
texts (s ∷ rest) = cons (string s) (texts rest)

-- The value at a path of keys.
unfoldable pub at_path : List String → Json → Option Json
unfolding lookup
at_path [] j = some j
at_path (k ∷ ks) (obj m) = elim (lookup k m) [ none ↦ none | some v ↦ at_path ks v ]
at_path (k ∷ ks) _ = none

-- No map of the tree has the key.
unfoldable mutual
  pub lacks : String → Json → Bool
  lacks k (arr xs) = lacks_items k xs
  lacks k (obj m) = lacks_fields k m
  lacks k _ = true

  pub lacks_items : String → Items → Bool
  lacks_items k nil = true
  lacks_items k (cons j xs) = lacks k j && lacks_items k xs

  pub lacks_fields : String → Fields → Bool
  lacks_fields k end = true
  lacks_fields k (field j v m) = not (j == k) && (lacks k v && lacks_fields k m)
