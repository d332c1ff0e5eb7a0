-- ===== src/GoLib.antt =====
-- The Go packages that the parsers call and that are not part of the repository: net/url, net,
-- encoding/base64, encoding/hex, encoding/json, yaml.v3, net/http and os. A value of `GoLib` gives
-- their results, `none` where the call returns an error. `F` is the type float64.
use proxy_speedtest.Prelude.{
  ℕ, ◌-◌, ◌%◌, ◌<◌, Bool, List, [], ◌∷◌, Option, none, some, if◌then◌else◌,
}
use proxy_speedtest.Prelude.Int.{ℤ, pos, negsuc}
use proxy_speedtest.Text.{Str, eq_str}

pub record UserInfo : Type 0 where
  pub username : Str
  pub password : Option Str

-- A url.URL with the results of its methods: `hostname` and `port` of Hostname() and Port(), `query`
-- the pairs of Query() in their order.
pub record Url : Type 0 where
  pub scheme : Str
  pub host : Str
  pub hostname : Str
  pub port : Str
  pub fragment : Str
  pub user : Option UserInfo
  pub query : List (Str × Str)

-- `Query().Get(key)`: the first value of the key, or "".
unfoldable pub query_get : List (Str × Str) → Str → Str
unfolding eq_str
query_get [] k = []
query_get ((j, v) ∷ q) k = if eq_str j k then v else query_get q k

-- Methods on a nil *Userinfo: Username and Password return "".
abbrev pub username_of : Option UserInfo → Str
username_of none = []
username_of (some u) = u.username

abbrev pub password_of : Option UserInfo → Str
password_of none = []
password_of (some u) = elim u.password [ none ↦ [] | some p ↦ p ]

-- The values of an `interface{}` that encoding/json and yaml.v3 produce, and those that the
-- type switches of the code name besides.
mutual
  pub data Value (F : Type 0) : Type 0 where
    string : Str → Value F
    int : ℤ → Value F
    int64 : ℤ → Value F
    float : F → Value F
    bool : Bool → Value F
    list : Values F → Value F
    strings : List Str → Value F
    map : Entries F → Value F
    other : Value F

  pub data Values (F : Type 0) : Type 0 where
    nil : Values F
    cons : Value F → Values F → Values F

  pub data Entries (F : Type 0) : Type 0 where
    end : Entries F
    entry : Str → Value F → Entries F → Entries F

-- `vmessJSON`, the target of json.Unmarshal; `port` is none where the key is missing.
pub record VmessJson (F : Type 0) : Type 0 where
  pub ps : Str
  pub add : Str
  pub port : Value F
  pub id : Str
  pub scy : Str
  pub net : Str
  pub header : Str
  pub host : Str
  pub path : Str
  pub tls : Str
  pub sni : Str
  pub alpn : Str
  pub fp : Str

pub data Base64 : Type 0 where
  std url raw_std raw_url : Base64

pub record GoLib (F : Type 0) : Type 0 where
  pub parse_url : Str → Option Url
  -- `String()` of a user info that is not nil; on nil the method dereferences the pointer.
  pub user_string : UserInfo → Str
  pub query_unescape : Str → Option Str
  pub split_host_port : Str → Option (Str × Str)
  pub base64 : Base64 → Str → Option Str
  pub hex : Str → Option (List ℕ)
  pub vmess_json : Str → Option (VmessJson F)
  -- the conversions `uint16(f)`, `int(f)` and `byte(f)` of a float64
  pub float_u16 : F → ℕ
  pub float_int : F → ℤ
  pub float_byte : F → ℕ
  -- yaml.Unmarshal into the `proxies` of a Clash file
  pub clash_yaml : Str → Option (List (Entries F))
  -- client.Get and io.ReadAll: the status, and the body unless reading failed
  pub http_get : Str → Option (ℕ × Option Str)
  -- os.Stat succeeds; os.ReadFile
  pub stat : Str → Bool
  pub read_file : Str → Option Str

-- `uint16(n)` and `byte(n)` of an int: two's complement, wrapped.
unfoldable pub wrap : ℕ → ℤ → ℕ
wrap m (pos n) = n % m
wrap m (negsuc n) = m - 1 - n % m

abbrev pub u16 : ℤ → ℕ
u16 = wrap 65536

abbrev pub byte : ℤ → ℕ
byte = wrap 256

-- What the Go conversion promises of its target type.
pub record IsSound {F : Type 0} (go : GoLib F) : Type 0 where
  pub u16_range : (f : F) → go.float_u16 f < 65536
