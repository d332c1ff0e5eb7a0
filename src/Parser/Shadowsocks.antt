-- ===== src/Parser/Shadowsocks.antt =====
-- internal/parser/shadowsocks.go
use proxy_speedtest.Prelude.{ℕ, Bool, ◌&&◌, ◌||◌, none, some, ◌==◌, if◌then◌else◌}
use proxy_speedtest.Text.{
  Str, str, eq_str, has_prefix, to_lower, replace_first, trim_prefix, cut, cut_last,
}
use proxy_speedtest.Text.Numbers.{parse_u16}
use proxy_speedtest.GoLib.{GoLib, Url}
use proxy_speedtest.Xray.Config
use proxy_speedtest.Xray.Config.{Protocol, ProxyConfig, new_config}
use proxy_speedtest.Xray.Stream.{filled, or_default}
use proxy_speedtest.Parser.Base64.{decode_base64_flexible}
use proxy_speedtest.Parser.Outcome.{
  Outcome, ok, err, from_option, not_nil, wrong_scheme, not_base64, missing_at, missing_method,
  bad_host_port, invalid_port, ◌>>=◌,
}
use proxy_speedtest.Parser.Stream.{url_of}

unfoldable pub can_parse : Str → Bool
can_parse link =
    has_prefix (to_lower link) (str "ss://") || has_prefix (to_lower link) (str "shadowsocks://")

-- The four variables that both branches of `Parse` set.
pub record Server : Type 0 where
  pub method : Str
  pub password : Str
  pub host : Str
  pub port : ℕ

-- SIP002: `ss://base64(method:password)@host:port`, where what is no base64 stands as it is.
unfoldable pub sip002 : {F : Type 0} → GoLib F → Url → Str → Server
sip002 go u user_info =
    let decoded : Str = elim (decode_base64_flexible go user_info) [
      | none ↦ user_info
      | some d ↦ d
    ] in
    elim (cut decoded (str ":")) [
      | some (m, p) ↦ record {
        method = m;
        password = p;
        host = u.hostname;
        port = parse_u16 u.port;
      }
      | none ↦ record {
        method = str "aes-256-gcm";
        password = decoded;
        host = u.hostname;
        port = parse_u16 u.port;
      }
    ]

-- `method:password@host:port`, the text of a legacy link.
unfoldable pub legacy_text : {F : Type 0} → GoLib F → Str → Outcome Server
legacy_text go decoded = do
  (user_part, host_part) ← from_option missing_at (cut_last decoded b'@')
  (m, p) ← from_option missing_method (cut user_part (str ":"))
  (h, port_text) ← from_option bad_host_port (go.split_host_port host_part)
  ok (record { method = m; password = p; host = h; port = parse_u16 port_text })

-- Legacy: `ss://base64(method:password@host:port)#remarks`.
unfoldable pub legacy : {F : Type 0} → GoLib F → Str → Outcome Server
unfolding legacy_text
legacy go link = do
  let encoded = trim_prefix link (str "ss://")
  let body : Str = elim (cut encoded (str "#")) [ none ↦ encoded | some (a, _) ↦ a ]
  decoded ← from_option not_base64 (decode_base64_flexible go body)
  legacy_text go decoded

-- `u.User.String()` is called before anything is known of `u.User`.
unfoldable pub server_of : {F : Type 0} → GoLib F → Str → Url → Outcome Server
unfolding sip002 legacy
server_of go link u = do
  user ← not_nil u.user
  let text = go.user_string user
  if filled text && filled u.host then ok (sip002 go u text) else legacy go link

abbrev pub ss_protocol : Str → Protocol
ss_protocol method = if has_prefix method (str "2022-") then Config.ss2022 else Config.shadowsocks

unfoldable pub config_of : Url → Server → ProxyConfig
config_of u s = record (new_config (ss_protocol s.method)) {
  tag = or_default u.fragment s.host;
  address = s.host;
  port = s.port;
  method = s.method;
  password = s.password;
}

-- The test of the port that follows both branches, and the configuration.
unfoldable pub checked : Url → Server → Outcome ProxyConfig
unfolding config_of
checked u s = if s.port == 0 then err invalid_port else ok (config_of u s)

unfoldable pub parse : {F : Type 0} → GoLib F → Str → Outcome ProxyConfig
unfolding server_of checked
parse go link = do
  let normal = replace_first link (str "shadowsocks://") (str "ss://")
  u ← url_of go normal
  if eq_str u.scheme (str "ss")
      then (do s ← server_of go normal u; checked u s)
      else err wrong_scheme
