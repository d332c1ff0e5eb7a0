-- ===== src/Parser/Vmess.antt =====
-- internal/parser/vmess.go
use proxy_speedtest.Prelude.{ℕ, Bool, ◌&&◌, ◌||◌, not, [], none, some, ◌==◌, if◌then◌else◌}
use proxy_speedtest.Text.{Str, str, eq_str, has_prefix, to_lower, trim_prefix, contains, cut}
use proxy_speedtest.Text.Numbers.{parse_u16}
use proxy_speedtest.GoLib.{GoLib, Url, Value, VmessJson, u16, raw_url}
use proxy_speedtest.Xray.Config
use proxy_speedtest.Xray.Config.{
  ProxyConfig, StreamSettings, new_config, new_stream, zero_tls, zero_tcp, zero_ws, zero_grpc,
  zero_kcp,
}
use proxy_speedtest.Xray.Stream.{or_default}
use proxy_speedtest.Parser.Base64.{decode_base64}
use proxy_speedtest.Parser.Outcome.{
  Outcome, ok, err, from_option, not_nil, not_base64, bad_json, invalid_port, ◌>>=◌,
}
use proxy_speedtest.Parser.Stream.{get, comma_list, port_or, url_of}

unfoldable pub can_parse : Str → Bool
can_parse link = has_prefix (to_lower link) (str "vmess://")

unfoldable pub parse_port : {F : Type 0} → GoLib F → Value F → ℕ
parse_port go (Value.string p) = parse_u16 p
parse_port go (Value.float f) = go.float_u16 f
parse_port go (Value.int n) = u16 n
parse_port go (Value.int64 n) = u16 n
parse_port go _ = 0

unfoldable pub json_security : {F : Type 0} → VmessJson F → StreamSettings → StreamSettings
json_security d s =
    if eq_str d.tls (str "tls")
    then record s {
      security = str "tls";
      tls =
          some
            (record zero_tls { server_name = d.sni; alpn = comma_list d.alpn; fingerprint = d.fp });
    }
    else s

unfoldable pub json_transport : {F : Type 0} → VmessJson F → StreamSettings → StreamSettings
json_transport d s =
    let n = d.net in
    if eq_str n (str "ws") || eq_str n (str "websocket")
    then record s {
      network = str "ws";
      ws = some (record zero_ws { path = d.path; host = d.host });
    }
    else if eq_str n (str "h2") || eq_str n (str "http")
    then record s {
      network = str "h2";
      h2 = some (record { path = d.path; host = comma_list d.host });
    }
    else if eq_str n (str "grpc") || eq_str n (str "gun")
    then record s { network = str "grpc"; grpc = some (record zero_grpc { service_name = d.path }) }
    else if eq_str n (str "tcp")
    then record s {
      network = str "tcp";
      tcp =
          if eq_str d.header (str "http")
          then some (record zero_tcp { header_type = str "http"; host = d.host; path = d.path })
          else s.tcp;
    }
    else if eq_str n (str "kcp") || eq_str n (str "mkcp")
    then record s { network = str "kcp"; kcp = some (record zero_kcp { header_type = d.header }) }
    else record s { network = or_default s.network (str "tcp") }

unfoldable pub json_stream : {F : Type 0} → VmessJson F → StreamSettings
unfolding json_security json_transport
json_stream d = json_transport d (json_security d (new_stream d.net (str "none")))

unfoldable pub json_config : {F : Type 0} → VmessJson F → ℕ → ProxyConfig
unfolding json_stream
json_config d p = record (new_config Config.vmess) {
  tag = or_default d.ps d.add;
  address = d.add;
  port = p;
  uuid = d.id;
  security = or_default d.scy (str "auto");
  stream = some (json_stream d);
}

-- `parseV2RayN`
unfoldable pub parse_v2rayn : {F : Type 0} → GoLib F → Str → Outcome ProxyConfig
unfolding parse_port json_config
parse_v2rayn go json = do
  d ← from_option bad_json (go.vmess_json json)
  let p = parse_port go d.port
  if p == 0 then err invalid_port else ok (json_config d p)

-- The cipher and the UUID of a Shadowrocket link: `method:uuid`, its base64, or the UUID alone.
unfoldable pub rocket_user : {F : Type 0} → GoLib F → Str → Str × Str
rocket_user go info = elim (cut info (str ":")) [
  | some (m, id) ↦ (m, id)
  | none ↦ elim (go.base64 raw_url info) [
    | none ↦ ([], info)
    | some decoded ↦ elim (cut decoded (str ":")) [ some (m, id) ↦ (m, id) | none ↦ ([], decoded) ]
  ]
]

unfoldable pub rocket_security : Url → StreamSettings → StreamSettings
rocket_security u s =
    if eq_str (get u "tls") (str "tls") || eq_str (get u "security") (str "tls")
    then record s {
      security = str "tls";
      tls = some (record zero_tls {
        server_name = get u "sni";
        alpn = comma_list (get u "alpn");
        fingerprint = get u "fp";
      });
    }
    else s

unfoldable pub rocket_transport : Url → StreamSettings → StreamSettings
rocket_transport u s =
    let n = s.network in
    if eq_str n (str "ws") || eq_str n (str "websocket")
    then record s {
      network = str "ws";
      ws = some (record zero_ws { path = get u "path"; host = get u "host" });
    }
    else if eq_str n (str "grpc") || eq_str n (str "gun")
    then record s {
      network = str "grpc";
      grpc = some (record zero_grpc {
        service_name = or_default (get u "service-name") (get u "serviceName");
      });
    }
    else s

unfoldable pub rocket_stream : Url → StreamSettings
unfolding rocket_security rocket_transport
rocket_stream u =
    let network = or_default (or_default (get u "type") (get u "net")) (str "tcp") in
    rocket_transport u (rocket_security u (new_stream network (str "none")))

unfoldable pub rocket_config : Url → Str × Str → ProxyConfig
unfolding rocket_stream
rocket_config u (m, id) = record (new_config Config.vmess) {
  tag = or_default u.fragment u.hostname;
  address = u.hostname;
  port = port_or (parse_u16 u.port) 443;
  uuid = id;
  security = or_default m (str "auto");
  stream = some (rocket_stream u);
}

-- `parseShadowrocket`; `u.User.String()` needs a user info.
unfoldable pub parse_shadowrocket : {F : Type 0} → GoLib F → Str → Outcome ProxyConfig
unfolding rocket_user rocket_config
parse_shadowrocket go link = do
  u ← url_of go link
  user ← not_nil u.user
  ok (rocket_config u (rocket_user go (go.user_string user)))

unfoldable pub parse : {F : Type 0} → GoLib F → Str → Outcome ProxyConfig
unfolding parse_v2rayn parse_shadowrocket
parse go link =
    let encoded = trim_prefix (trim_prefix link (str "vmess://")) (str "VMESS://") in
    if contains encoded (str "@") && not (contains encoded (str "{"))
    then parse_shadowrocket go link
    else (do decoded ← from_option not_base64 (decode_base64 go encoded); parse_v2rayn go decoded)
