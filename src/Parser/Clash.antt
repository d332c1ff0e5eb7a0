-- ===== src/Parser/Clash.antt =====
-- internal/parser/clash.go
pub mod Fields
use proxy_speedtest.Prelude.{ℕ, Bool, ◌||◌, List, [], ◌∷◌, Option, none, some, if◌then◌else◌}
use proxy_speedtest.Prelude.Int.{ℤ}
use proxy_speedtest.Text.{Str, str, eq_str, has_prefix}
use proxy_speedtest.GoLib.{GoLib, Value, Values, Entries, byte}
use proxy_speedtest.Xray.Config
use proxy_speedtest.Xray.Config.{
  ProxyConfig, StreamSettings, new_config, new_stream, zero_tls, zero_ws, zero_grpc,
}
use proxy_speedtest.Xray.Stream.{or_default}
use proxy_speedtest.Parser.Outcome.{
  Outcome, ok, err, bad_yaml, no_proxies, unsupported_type, no_valid_proxies, from_option, ◌>>=◌,
}
use proxy_speedtest.Parser.Shadowsocks.{ss_protocol}
use Fields.{get_string, get_u16, get_int, get_bool, get_map, get_strings, entry_of, some_entry}

-- The fields that every kind of proxy reads.
abbrev pub base : {F : Type 0} → GoLib F → Config.Protocol → Entries F → ProxyConfig
base go p m = record (new_config p) {
  tag = get_string m "name";
  address = get_string m "server";
  port = get_u16 go m "port";
}

abbrev pub first_stream : {F : Type 0} → Entries F → Str → StreamSettings
first_stream m security = new_stream (or_default (get_string m "network") (str "tcp")) security

-- The case "ws" and the case "grpc" of the three switches on the network.
unfoldable pub set_ws_grpc : {F : Type 0} → Entries F → StreamSettings → StreamSettings
set_ws_grpc m s =
    if eq_str s.network (str "ws")
    then record s {
      ws = some (record zero_ws {
        path = get_string (get_map m "ws-opts") "path";
        host = get_string (get_map (get_map m "ws-opts") "headers") "Host";
      });
    }
    else if eq_str s.network (str "grpc")
    then record s {
      grpc = some (record zero_grpc {
        service_name = get_string (get_map m "grpc-opts") "grpc-service-name";
      });
    }
    else s

unfoldable pub vmess_security : {F : Type 0} → Entries F → StreamSettings → StreamSettings
vmess_security m s =
    if get_bool m "tls"
    then record s {
      security = str "tls";
      tls = some (record zero_tls {
        server_name = get_string m "servername";
        allow_insecure = get_bool m "skip-cert-verify";
        alpn = get_strings m "alpn";
      });
    }
    else s

unfoldable pub vmess_transport : {F : Type 0} → Entries F → StreamSettings → StreamSettings
unfolding set_ws_grpc
vmess_transport m s =
    if eq_str s.network (str "h2")
    then record s {
      h2 = some (record {
        path = get_string (get_map m "h2-opts") "path";
        host = get_strings (get_map m "h2-opts") "host";
      });
    }
    else set_ws_grpc m s

unfoldable pub vmess_stream : {F : Type 0} → Entries F → StreamSettings
vmess_stream m = vmess_transport m (vmess_security m (first_stream m (str "none")))

unfoldable pub parse_vmess : {F : Type 0} → GoLib F → Entries F → ProxyConfig
unfolding vmess_stream
parse_vmess go m = record (base go Config.vmess m) {
  uuid = get_string m "uuid";
  security = or_default (get_string m "cipher") (str "auto");
  stream = some (vmess_stream m);
}

-- TLS, and Reality in its place where there are `reality-opts`.
unfoldable pub vless_security : {F : Type 0} → Entries F → StreamSettings → StreamSettings
vless_security m s =
    let t =
      if get_bool m "tls"
      then record s {
        security = str "tls";
        tls = some (record zero_tls {
          server_name = get_string m "servername";
          allow_insecure = get_bool m "skip-cert-verify";
          fingerprint = get_string m "client-fingerprint";
          alpn = get_strings m "alpn";
        });
      }
      else s in
    let r = get_map m "reality-opts" in
    if some_entry r
    then record t {
      security = str "reality";
      reality = some (record {
        server_name = [];
        public_key = get_string r "public-key";
        short_id = get_string r "short-id";
        spider_x = [];
        fingerprint = get_string m "client-fingerprint";
      });
      tls = none;
    }
    else t

unfoldable pub vless_stream : {F : Type 0} → Entries F → StreamSettings
vless_stream m = set_ws_grpc m (vless_security m (first_stream m (str "none")))

unfoldable pub parse_vless : {F : Type 0} → GoLib F → Entries F → ProxyConfig
unfolding vless_stream
parse_vless go m = record (base go Config.vless m) {
  uuid = get_string m "uuid";
  flow = get_string m "flow";
  stream = some (vless_stream m);
}

unfoldable pub trojan_stream : {F : Type 0} → Entries F → StreamSettings
unfolding set_ws_grpc
trojan_stream m = set_ws_grpc m (record (first_stream m (str "tls")) {
  tls = some (record zero_tls {
    server_name = or_default (get_string m "sni") (get_string m "server");
    allow_insecure = get_bool m "skip-cert-verify";
    alpn = get_strings m "alpn";
  });
})

unfoldable pub parse_trojan : {F : Type 0} → GoLib F → Entries F → ProxyConfig
unfolding trojan_stream
parse_trojan go m = record (base go Config.trojan m) {
  password = get_string m "password";
  stream = some (trojan_stream m);
}

unfoldable pub parse_shadowsocks : {F : Type 0} → GoLib F → Entries F → ProxyConfig
parse_shadowsocks go m = record (base go (ss_protocol (get_string m "cipher")) m) {
  method = get_string m "cipher";
  password = get_string m "password";
}

unfoldable pub parse_socks : {F : Type 0} → GoLib F → Entries F → ProxyConfig
parse_socks go m = record (base go Config.socks m) {
  username = get_string m "username";
  password = get_string m "password";
}

unfoldable pub parse_http : {F : Type 0} → GoLib F → Entries F → ProxyConfig
parse_http go m = record (base go Config.http m) {
  username = get_string m "username";
  password = get_string m "password";
  stream =
      if get_bool m "tls"
      then some (record (new_stream (str "tcp") (str "tls")) {
        tls = some (record zero_tls {
          server_name = get_string m "sni";
          allow_insecure = get_bool m "skip-cert-verify";
        });
      })
      else none;
}

-- A list entry that is no number leaves a zero byte.
unfoldable pub reserved_bytes : {F : Type 0} → GoLib F → Values F → List ℕ
reserved_bytes go Values.nil = []
reserved_bytes go (Values.cons (Value.int n) vs) = byte n ∷ reserved_bytes go vs
reserved_bytes go (Values.cons (Value.float f) vs) = go.float_byte f ∷ reserved_bytes go vs
reserved_bytes go (Values.cons _ vs) = 0 ∷ reserved_bytes go vs

unfoldable pub reserved_of : {F : Type 0} → GoLib F → Option (Value F) → List ℕ
unfolding reserved_bytes
reserved_of go (some (Value.list vs)) = reserved_bytes go vs
reserved_of go _ = []

unfoldable pub parse_wireguard : {F : Type 0} → GoLib F → Entries F → ProxyConfig
unfolding reserved_of
parse_wireguard go m = record (base go Config.wireguard m) {
  private_key = get_string m "private-key";
  peer_public_key = get_string m "public-key";
  pre_shared_key = get_string m "preshared-key";
  local_address = get_string m "ip";
  mtu = get_int go m "mtu";
  reserved = reserved_of go (entry_of m (str "reserved"));
}

unfoldable pub parse_proxy : {F : Type 0} → GoLib F → Entries F → Outcome ProxyConfig
parse_proxy go m =
    let t = get_string m "type" in
    if eq_str t (str "vmess")
    then ok (parse_vmess go m)
    else if eq_str t (str "vless")
    then ok (parse_vless go m)
    else if eq_str t (str "trojan")
    then ok (parse_trojan go m)
    else if eq_str t (str "ss") || eq_str t (str "shadowsocks")
    then ok (parse_shadowsocks go m)
    else if eq_str t (str "socks5")
    then ok (parse_socks go m)
    else if eq_str t (str "http") || eq_str t (str "https")
    then ok (parse_http go m)
    else if eq_str t (str "wireguard")
    then ok (parse_wireguard go m)
    else err unsupported_type

-- An entry that is refused is left out.
abbrev pub add_proxy : Outcome ProxyConfig → List ProxyConfig → List ProxyConfig
add_proxy (ok c) cs = c ∷ cs
add_proxy _ cs = cs

-- The loop of `parseClashYAML`.
unfoldable pub collect_proxies : {F : Type 0} → GoLib F → List (Entries F) → List ProxyConfig
collect_proxies go [] = []
collect_proxies go (m ∷ ms) = add_proxy (parse_proxy go m) (collect_proxies go ms)

abbrev pub or_no_valid : List ProxyConfig → Outcome (List ProxyConfig)
or_no_valid [] = err no_valid_proxies
or_no_valid (c ∷ cs) = ok (c ∷ cs)

-- `clash.Proxies`, which must not be empty.
abbrev pub some_proxies {ℓ} : {A : Type ℓ} → List A → Outcome (List A)
some_proxies [] = err no_proxies
some_proxies (m ∷ ms) = ok (m ∷ ms)

unfoldable pub parse_yaml : {F : Type 0} → GoLib F → Str → Outcome (List ProxyConfig)
parse_yaml go content = do
  entries ← from_option bad_yaml (go.clash_yaml content)
  proxies ← some_proxies entries
  or_no_valid (collect_proxies go proxies)
