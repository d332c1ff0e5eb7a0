-- ===== src/Xray/Stream.antt =====
-- internal/xray/dialer.go, `buildStreamJSON`: the transport and security settings. The cases of the
-- switch on the network are functions of their own, in the order of the source.
use Prim.Native.String.{String}
use mathlib.Core.List.{List, [], ◌∷◌}
use proxy_speedtest.Prelude.{Bool, true, ◌||◌, Option, none, some, if◌then◌else◌}
use proxy_speedtest.Text.{Str, str, eq_str}
use proxy_speedtest.Xray.Config.{
  TlsSettings, RealitySettings, TcpSettings, WsSettings, GrpcSettings, H2Settings, KcpSettings,
  HttpUpgradeSettings, SplitHttpSettings, StreamSettings, ProxyConfig,
}
use proxy_speedtest.Xray.Json.{
  string, strings, bool, arr, obj, Fields, end, field, put, put_if, one, texts,
}

-- `x != ""`
abbrev pub filled : Str → Bool
filled [] = Bool.false
filled (_ ∷ _) = true

abbrev pub some_item {ℓ} : {A : Type ℓ} → List A → Bool
some_item [] = Bool.false
some_item (_ ∷ _) = true

unfoldable pub tls_json : TlsSettings → Fields
tls_json t = put_if (filled t.fingerprint) "fingerprint" (string t.fingerprint) (
    put_if (some_item t.alpn) "alpn" (arr (texts t.alpn))
      (put_if (filled t.server_name) "serverName" (string t.server_name) end))

unfoldable pub reality_json : RealitySettings → Fields
reality_json r = put_if (filled r.fingerprint) "fingerprint" (string r.fingerprint) (
    put_if (filled r.spider_x) "spiderX" (string r.spider_x) (
      put_if (filled r.short_id) "shortId" (string r.short_id) (
        put_if (filled r.public_key) "publicKey" (string r.public_key)
          (put_if (filled r.server_name) "serverName" (string r.server_name) end))))

unfoldable pub ws_json : WsSettings → Fields
ws_json w = put_if (some_item w.headers) "headers" (strings w.headers) (
    put_if (filled w.host) "host" (string w.host)
      (put_if (filled w.path) "path" (string w.path) end))

unfoldable pub grpc_json : GrpcSettings → Fields
grpc_json g =
    put_if g.multi_mode "multiMode" (bool true)
      (put_if (filled g.service_name) "serviceName" (string g.service_name) end)

unfoldable pub h2_json : H2Settings → Fields
h2_json h =
    put_if (some_item h.host) "host" (arr (texts h.host))
      (put_if (filled h.path) "path" (string h.path) end)

unfoldable pub kcp_json : KcpSettings → Fields
kcp_json k =
    put_if (filled k.seed) "seed" (string k.seed)
      (put_if (filled k.header_type) "header" (obj (field "type" (string k.header_type) end)) end)

unfoldable pub http_upgrade_json : HttpUpgradeSettings → Fields
http_upgrade_json h =
    put_if (filled h.host) "host" (string h.host)
      (put_if (filled h.path) "path" (string h.path) end)

unfoldable pub split_http_json : SplitHttpSettings → Fields
split_http_json s = put_if (filled s.mode) "mode" (string s.mode) (
    put_if (filled s.host) "host" (string s.host)
      (put_if (filled s.path) "path" (string s.path) end))

unfoldable pub tcp_json : TcpSettings → Fields
tcp_json t =
    field "header"
      (obj (
        field "type" (string (str "http")) (
          field "request"
            (obj (
              field "path" (arr (one (string t.path)))
                (field "headers" (obj (field "Host" (arr (one (string t.host))) end)) end)))
            end)))
      end

-- `if stream.X != nil { settings[key] = … }`
abbrev pub put_some {ℓ} : {A : Type ℓ} → Option A → String → (A → Fields) → Fields → Fields
put_some none key f m = m
put_some (some a) key f m = put key (obj (f a)) m

-- The case "tcp", which keeps the network's name.
abbrev pub put_tcp : Option TcpSettings → Fields → Fields
put_tcp none m = m
put_tcp (some t) m = put_if (eq_str t.header_type (str "http")) "tcpSettings" (obj (tcp_json t)) m

-- The switch on the network, which also rewrites the network's name.
unfoldable pub put_transport : Str → StreamSettings → Fields → Fields
put_transport n s m =
    if eq_str n (str "ws") || eq_str n (str "websocket")
    then put_some s.ws "wsSettings" ws_json (put "network" (string (str "ws")) m)
    else if eq_str n (str "grpc") || eq_str n (str "gun")
    then put_some s.grpc "grpcSettings" grpc_json (put "network" (string (str "grpc")) m)
    else if eq_str n (str "h2") || eq_str n (str "http")
    then put_some s.h2 "httpSettings" h2_json (put "network" (string (str "h2")) m)
    else if eq_str n (str "kcp") || eq_str n (str "mkcp")
    then put_some s.kcp "kcpSettings" kcp_json (put "network" (string (str "kcp")) m)
    else if eq_str n (str "httpupgrade")
    then put_some s.http_upgrade "httpupgradeSettings" http_upgrade_json
        (put "network" (string (str "httpupgrade")) m)
    else if eq_str n (str "splithttp") || eq_str n (str "xhttp")
    then put_some s.split_http "splithttpSettings" split_http_json
        (put "network" (string (str "splithttp")) m)
    else if eq_str n (str "tcp")
    then put_tcp s.tcp m
    else m

-- `if security == name && stream.X != nil { settings[key] = … }`
abbrev pub put_security {ℓ} :
    {A : Type ℓ} → Bool → Option A → String → (A → Fields) → Fields → Fields
put_security true o key f m = put_some o key f m
put_security Bool.false o key f m = m

-- `if x == "" { x = d }`
abbrev pub or_default : Str → Str → Str
or_default [] d = d
or_default (c ∷ s) d = c ∷ s

unfoldable pub build_stream : StreamSettings → Fields
build_stream s =
    let network = or_default s.network (str "tcp") in
    let security = or_default s.security (str "none") in
    let base = field "network" (string network) (field "security" (string security) end) in
    let with_tls = put_security (eq_str security (str "tls")) s.tls "tlsSettings" tls_json base in
    let with_reality =
      put_security (eq_str security (str "reality")) s.reality "realitySettings" reality_json
        with_tls in
    put_transport network s with_reality

-- `buildStreamJSON`: nil where the configuration has no stream.
abbrev pub stream_fields : Option StreamSettings → Option Fields
stream_fields none = none
stream_fields (some s) = some (build_stream s)

abbrev pub build_stream_json : ProxyConfig → Option Fields
build_stream_json c = stream_fields c.stream
