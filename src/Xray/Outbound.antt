-- ===== src/Xray/Outbound.antt =====
-- internal/xray/dialer.go: the outbound of each protocol, and the whole configuration.
use proxy_speedtest.Prelude.{ℕ, [], ◌∷◌, ◌++◌, Option, none, some}
use proxy_speedtest.Prelude.Int.{ℤ, pos, negsuc}
use proxy_speedtest.Text.{Str, str}
use proxy_speedtest.Xray.Config.{
  Protocol, vmess, vless, trojan, shadowsocks, ss2022, wireguard, http, socks, direct, other,
  ProxyConfig, itoa,
}
use proxy_speedtest.Xray.Json.{
  Json, string, num, int, bytes, arr, obj, Fields, end, field, put, put_if, one, texts,
}
use proxy_speedtest.Xray.Stream.{filled, some_item, or_default, build_stream_json}

-- `[]interface{}{m}` for one map
abbrev pub one_obj : Fields → Json
one_obj m = arr (one (obj m))

unfoldable pub build_vmess : ProxyConfig → Fields
build_vmess c =
    field "vnext"
      (one_obj (
        field "address" (string c.address) (
          field "port" (num c.port) (
            field "users"
              (one_obj (
                field "id" (string c.uuid)
                  (field "security" (string (or_default c.security (str "auto"))) end)))
              end))))
      end

unfoldable pub build_vless : ProxyConfig → Fields
build_vless c =
    let user = field "id" (string c.uuid) (field "encryption" (string (str "none")) end) in
    field "vnext"
      (one_obj (
        field "address" (string c.address) (
          field "port" (num c.port)
            (field "users" (one_obj (put_if (filled c.flow) "flow" (string c.flow) user)) end))))
      end

unfoldable pub build_trojan : ProxyConfig → Fields
build_trojan c =
    field "servers"
      (one_obj (
        field "address" (string c.address)
          (field "port" (num c.port) (field "password" (string c.password) end))))
      end

-- the server of both Shadowsocks builders
abbrev pub ss_server : ProxyConfig → Str → Fields
ss_server c m =
    field "servers"
      (one_obj (
        field "address" (string c.address) (
          field "port" (num c.port)
            (field "method" (string m) (field "password" (string c.password) end)))))
      end

unfoldable pub build_shadowsocks : ProxyConfig → Fields
build_shadowsocks c = ss_server c (or_default c.method (str "aes-256-gcm"))

unfoldable pub build_ss2022 : ProxyConfig → Fields
build_ss2022 c = ss_server c c.method

-- `if x == 0 { x = d }`
abbrev pub int_or_default : ℤ → ℤ → ℤ
int_or_default (pos ℕ.zero) d = d
int_or_default (pos (ℕ.suc n)) d = pos (ℕ.suc n)
int_or_default (negsuc n) d = negsuc n

unfoldable pub build_wireguard : ProxyConfig → Fields
build_wireguard c =
    let peer = field "publicKey" (string c.peer_public_key) (
      field "endpoint" (string (c.address ++ (b':' ∷ itoa c.port))) (
        field "allowedIPs" (arr (texts (str "0.0.0.0/0" ∷ str "::/0" ∷ [])))
          (field "keepAlive" (num 25) end))) in
    let settings = field "secretKey" (string c.private_key) (
      field "address" (arr (texts (or_default c.local_address (str "10.0.0.2/32") ∷ []))) (
        field "mtu" (int (int_or_default c.mtu (pos 1420))) (
          field "peers"
            (one_obj
              (put_if (filled c.pre_shared_key) "preSharedKey" (string c.pre_shared_key) peer))
            end))) in
    put_if (some_item c.reserved) "reserved" (bytes c.reserved) settings

-- `buildHTTPJSON` and `buildSOCKSJSON`, which have the same body
unfoldable pub build_http : ProxyConfig → Fields
build_http c =
    let server = field "address" (string c.address) (field "port" (num c.port) end) in
    let users = one_obj (field "user" (string c.username) (field "pass" (string c.password) end)) in
    field "servers" (one_obj (put_if (filled c.username) "users" users server)) end

unfoldable pub build_socks : ProxyConfig → Fields
build_socks c =
    let server = field "address" (string c.address) (field "port" (num c.port) end) in
    let users = one_obj (field "user" (string c.username) (field "pass" (string c.password) end)) in
    field "servers" (one_obj (put_if (filled c.username) "users" users server)) end

-- The switch of `buildOutboundJSON`: xray's name of the protocol and its settings.
unfoldable pub protocol_settings : ProxyConfig → Protocol → Option (Str × Fields)
protocol_settings c vmess = some (str "vmess", build_vmess c)
protocol_settings c vless = some (str "vless", build_vless c)
protocol_settings c trojan = some (str "trojan", build_trojan c)
protocol_settings c shadowsocks = some (str "shadowsocks", build_shadowsocks c)
protocol_settings c ss2022 = some (str "shadowsocks", build_ss2022 c)
protocol_settings c wireguard = some (str "wireguard", build_wireguard c)
protocol_settings c http = some (str "http", build_http c)
protocol_settings c socks = some (str "socks", build_socks c)
protocol_settings c direct = some (str "freedom", end)
protocol_settings c (other s) = none

-- `outbound["streamSettings"] = stream`, unless it is nil.
abbrev pub with_stream : Option Fields → Fields → Fields
with_stream none m = m
with_stream (some stream) m = put "streamSettings" (obj stream) m

abbrev pub outbound_of : Option (Str × Fields) → Option Fields → Option Fields
outbound_of none stream = none
outbound_of (some (name, settings)) stream = some (
    with_stream stream (
      field "tag" (string (str "proxy"))
        (field "protocol" (string name) (field "settings" (obj settings) end))))

-- `none` is the error "unsupported protocol".
unfoldable pub build_outbound : ProxyConfig → Option Fields
build_outbound c = outbound_of (protocol_settings c c.protocol) (build_stream_json c)

-- `buildJSONConfig`, before json.Marshal.
abbrev pub config_json : Option Fields → Option Json
config_json none = none
config_json (some outbound) = some (
    obj (
      field "log" (obj (field "loglevel" (string (str "none")) end))
        (field "outbounds" (one_obj outbound) end)))

unfoldable pub build_json_config : ProxyConfig → Option Json
build_json_config c = config_json (build_outbound c)
