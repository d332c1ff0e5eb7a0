-- ===== src/Parser/Vless.antt =====
-- internal/parser/vless.go
use proxy_speedtest.Prelude.{Bool, [], ◌∷◌, ◌||◌, some, if◌then◌else◌}
use proxy_speedtest.Text.{Str, str, eq_str, has_prefix, to_lower}
use proxy_speedtest.Text.Numbers.{parse_u16, atoi}
use proxy_speedtest.GoLib.{GoLib, Url, username_of}
use proxy_speedtest.Xray.Config.{
  ProxyConfig, StreamSettings, new_config, new_stream, zero_tls, zero_tcp, zero_ws, zero_grpc,
  zero_kcp,
}
use proxy_speedtest.Xray.Config
use proxy_speedtest.Xray.Stream.{or_default}
use proxy_speedtest.Parser.Outcome.{Outcome, ok, err, wrong_scheme, ◌>>=◌}
use proxy_speedtest.Parser.Stream.{get, comma_list, port_or, url_of}
use proxy_speedtest.Prelude.Int.{pos}

unfoldable pub can_parse : Str → Bool
can_parse link = has_prefix (to_lower link) (str "vless://")

-- The switch on the query's `security`.
unfoldable pub set_security : Url → StreamSettings → StreamSettings
set_security u s =
    if eq_str (get u "security") (str "tls")
    then record s {
      security = str "tls";
      tls = some (record zero_tls {
        server_name = get u "sni";
        fingerprint = get u "fp";
        allow_insecure = eq_str (get u "allowInsecure") (str "1");
        alpn = comma_list (get u "alpn");
      });
    }
    else if eq_str (get u "security") (str "reality")
    then record s {
      security = str "reality";
      reality = some (record {
        server_name = get u "sni";
        public_key = get u "pbk";
        short_id = get u "sid";
        spider_x = get u "spx";
        fingerprint = get u "fp";
      });
    }
    else s

-- The switch on the network.
unfoldable pub set_transport : Url → StreamSettings → StreamSettings
set_transport u s =
    let n = s.network in
    if eq_str n (str "tcp")
    then (if eq_str (get u "headerType") (str "http")
        then record s {
          tcp = some (record zero_tcp {
            header_type = str "http";
            host = get u "host";
            path = get u "path";
          });
        }
        else s)
    else if eq_str n (str "ws") || eq_str n (str "websocket")
    then record s {
      network = str "ws";
      ws = some (record zero_ws {
        path = get u "path";
        host = get u "host";
        max_early_data = elim (get u "ed") [ [] ↦ pos 0 | c ∷ t ↦ atoi (c ∷ t) ];
      });
    }
    else if eq_str n (str "grpc") || eq_str n (str "gun")
    then record s {
      network = str "grpc";
      grpc = some (record zero_grpc {
        service_name = or_default (get u "serviceName") (get u "service-name");
        multi_mode = eq_str (get u "mode") (str "multi");
      });
    }
    else if eq_str n (str "h2") || eq_str n (str "http")
    then record s {
      network = str "h2";
      h2 = some (record { path = get u "path"; host = comma_list (get u "host") });
    }
    else if eq_str n (str "kcp") || eq_str n (str "mkcp")
    then record s {
      network = str "kcp";
      kcp = some (record zero_kcp { header_type = get u "headerType"; seed = get u "seed" });
    }
    else if eq_str n (str "quic")
    then record s { network = str "tcp" }
    else if eq_str n (str "httpupgrade")
    then record s {
      network = str "httpupgrade";
      http_upgrade = some (record { path = get u "path"; host = get u "host"; headers = [] });
    }
    else if eq_str n (str "splithttp") || eq_str n (str "xhttp")
    then record s {
      network = str "splithttp";
      split_http =
          some (record {
            path = get u "path";
            host = get u "host";
            headers = [];
            mode = get u "mode";
          });
    }
    else s

unfoldable pub stream_of : Url → StreamSettings
unfolding set_security set_transport
stream_of u =
    set_transport u
      (set_security u (new_stream (or_default (get u "type") (str "tcp")) (str "none")))

unfoldable pub config_of : Url → ProxyConfig
unfolding stream_of
config_of u = record (new_config Config.vless) {
  tag = or_default u.fragment u.hostname;
  address = u.hostname;
  port = port_or (parse_u16 u.port) 443;
  uuid = username_of u.user;
  flow = get u "flow";
  stream = some (stream_of u);
}

unfoldable pub parse : {F : Type 0} → GoLib F → Str → Outcome ProxyConfig
unfolding config_of
parse go link = do
  u ← url_of go link
  if eq_str u.scheme (str "vless") then ok (config_of u) else err wrong_scheme
