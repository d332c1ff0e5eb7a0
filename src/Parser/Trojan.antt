-- ===== src/Parser/Trojan.antt =====
-- internal/parser/trojan.go
use proxy_speedtest.Prelude.{Bool, ◌||◌, none, some, if◌then◌else◌}
use proxy_speedtest.Text.{Str, str, eq_str, has_prefix, to_lower}
use proxy_speedtest.Text.Numbers.{parse_u16}
use proxy_speedtest.GoLib.{GoLib, Url, username_of}
use proxy_speedtest.Xray.Config
use proxy_speedtest.Xray.Config.{
  ProxyConfig, StreamSettings, new_config, new_stream, zero_tls, zero_ws, zero_grpc,
}
use proxy_speedtest.Xray.Stream.{or_default}
use proxy_speedtest.Parser.Outcome.{Outcome, ok, err, wrong_scheme, ◌>>=◌}
use proxy_speedtest.Parser.Stream.{get, comma_list, port_or, url_of}

unfoldable pub can_parse : Str → Bool
can_parse link = has_prefix (to_lower link) (str "trojan://")

-- `sni`, or `peer`, or the address
unfoldable pub sni_of : Url → Str
sni_of u = or_default (or_default (get u "sni") (get u "peer")) u.hostname

-- TLS always, replaced by Reality where the query asks for it.
unfoldable pub set_security : Url → StreamSettings → StreamSettings
unfolding sni_of
set_security u s =
    let with_tls = record s {
      tls = some (record zero_tls {
        server_name = sni_of u;
        allow_insecure =
            eq_str (get u "allowInsecure") (str "1")
            || eq_str (get u "skip-cert-verify") (str "true");
        alpn = comma_list (get u "alpn");
        fingerprint = get u "fp";
      });
    } in
    if eq_str (get u "security") (str "reality")
    then record with_tls {
      security = str "reality";
      reality = some (record {
        server_name = sni_of u;
        public_key = get u "pbk";
        short_id = get u "sid";
        spider_x = get u "spx";
        fingerprint = get u "fp";
      });
      tls = none;
    }
    else with_tls

unfoldable pub set_transport : Url → StreamSettings → StreamSettings
set_transport u s =
    let n = s.network in
    if eq_str n (str "ws") || eq_str n (str "websocket")
    then record s {
      network = str "ws";
      ws = some (record zero_ws { path = get u "path"; host = get u "host" });
    }
    else if eq_str n (str "grpc") || eq_str n (str "gun")
    then record s {
      network = str "grpc";
      grpc = some (record zero_grpc {
        service_name = or_default (get u "serviceName") (get u "service-name");
      });
    }
    else if eq_str n (str "h2") || eq_str n (str "http")
    then record s {
      network = str "h2";
      h2 = some (record { path = get u "path"; host = comma_list (get u "host") });
    }
    else s

unfoldable pub stream_of : Url → StreamSettings
unfolding set_security set_transport
stream_of u =
    set_transport u
      (set_security u (new_stream (or_default (get u "type") (str "tcp")) (str "tls")))

unfoldable pub config_of : Url → ProxyConfig
unfolding stream_of
config_of u = record (new_config Config.trojan) {
  tag = or_default u.fragment u.hostname;
  address = u.hostname;
  port = port_or (parse_u16 u.port) 443;
  password = username_of u.user;
  stream = some (stream_of u);
}

unfoldable pub parse : {F : Type 0} → GoLib F → Str → Outcome ProxyConfig
unfolding config_of
parse go link = do
  u ← url_of go link
  if eq_str u.scheme (str "trojan") then ok (config_of u) else err wrong_scheme
