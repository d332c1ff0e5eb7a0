-- ===== src/Parser/Http.antt =====
-- internal/parser/http.go
use proxy_speedtest.Prelude.{Bool, false, ◌||◌, ◌++◌, none, some, if◌then◌else◌}
use proxy_speedtest.Text.{Str, str, eq_str, has_prefix, to_lower}
use proxy_speedtest.Text.Numbers.{parse_u16}
use proxy_speedtest.GoLib.{GoLib, Url, username_of, password_of}
use proxy_speedtest.Xray.Config
use proxy_speedtest.Xray.Config.{ProxyConfig, new_config, new_stream, zero_tls}
use proxy_speedtest.Xray.Stream.{filled, or_default}
use proxy_speedtest.Parser.Outcome.{Outcome, ok, err, wrong_scheme, ◌>>=◌}
use proxy_speedtest.Parser.Stream.{port_or, url_of}

-- Only a URL with a user name, or with one of four ports, is taken for a proxy.
unfoldable pub looks_like_proxy : Url → Bool
looks_like_proxy u =
    filled (username_of u.user)
    || (eq_str u.port (str "8080")
        || (eq_str u.port (str "8888")
            || (eq_str u.port (str "3128") || eq_str u.port (str "1080"))))

unfoldable pub can_parse : {F : Type 0} → GoLib F → Str → Bool
unfolding looks_like_proxy
can_parse go link =
    if has_prefix (to_lower link) (str "http://") || has_prefix (to_lower link) (str "https://")
    then elim (go.parse_url link) [ none ↦ false | some u ↦ looks_like_proxy u ]
    else false

unfoldable pub config_of : Url → ProxyConfig
config_of u =
    let https = eq_str u.scheme (str "https") in
    record (new_config Config.http) {
      tag = or_default u.fragment (str "http-" ++ u.hostname);
      address = u.hostname;
      port = port_or (parse_u16 u.port) (if https then 443 else 8080);
      username = username_of u.user;
      password = password_of u.user;
      stream =
          if https
          then some (record (new_stream (str "tcp") (str "tls")) {
            tls = some (record zero_tls { server_name = u.hostname });
          })
          else none;
    }

unfoldable pub parse : {F : Type 0} → GoLib F → Str → Outcome ProxyConfig
unfolding config_of
parse go link = do
  u ← url_of go link
  if eq_str u.scheme (str "http") || eq_str u.scheme (str "https")
      then ok (config_of u)
      else err wrong_scheme
