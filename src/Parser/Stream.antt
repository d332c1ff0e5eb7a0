-- ===== src/Parser/Stream.antt =====
-- What the link parsers share.
use Prim.Native.String.{String}
use proxy_speedtest.Prelude.{ℕ, zero, suc, List, [], ◌∷◌}
use proxy_speedtest.Text.{Str, str, split}
use proxy_speedtest.GoLib.{GoLib, Url, query_get}
use proxy_speedtest.Parser.Outcome.{Outcome, bad_url, from_option}

-- `query.Get("key")`
abbrev pub get : Url → String → Str
get u key = query_get u.query (str key)

-- `if x != "" { list = strings.Split(x, ",") }`
abbrev pub comma_list : Str → List Str
comma_list [] = []
comma_list (c ∷ s) = split (c ∷ s) b','

-- `if port == 0 { port = d }`
abbrev pub port_or : ℕ → ℕ → ℕ
port_or zero d = d
port_or (suc n) d = suc n

-- `url.Parse(link)`, where an error ends the parser.
abbrev pub url_of : {F : Type 0} → GoLib F → Str → Outcome Url
url_of go link = from_option bad_url (go.parse_url link)
