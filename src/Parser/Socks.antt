-- ===== src/Parser/Socks.antt =====
-- internal/parser/socks.go
use proxy_speedtest.Prelude.{Bool, ◌||◌, ◌++◌, if◌then◌else◌}
use proxy_speedtest.Text.{Str, str, eq_str, has_prefix, to_lower, replace_first}
use proxy_speedtest.Text.Numbers.{parse_u16}
use proxy_speedtest.GoLib.{GoLib, Url, username_of, password_of}
use proxy_speedtest.Xray.Config
use proxy_speedtest.Xray.Config.{ProxyConfig, new_config}
use proxy_speedtest.Xray.Stream.{or_default}
use proxy_speedtest.Parser.Outcome.{Outcome, ok, err, wrong_scheme, ◌>>=◌}
use proxy_speedtest.Parser.Stream.{port_or, url_of}

unfoldable pub can_parse : Str → Bool
can_parse link =
    let lower = to_lower link in
    has_prefix lower (str "socks://")
    || (has_prefix lower (str "socks5://")
        || (has_prefix lower (str "socks4://") || has_prefix lower (str "socks4a://")))

-- The three replacements of the scheme, each of the first occurrence.
unfoldable pub normalize : Str → Str
normalize link =
    replace_first
      (replace_first (replace_first link (str "socks://") (str "socks5://")) (str "socks4://")
        (str "socks5://"))
      (str "socks4a://") (str "socks5://")

unfoldable pub config_of : Url → ProxyConfig
config_of u = record (new_config Config.socks) {
  tag = or_default u.fragment (str "socks5-" ++ u.hostname);
  address = u.hostname;
  port = port_or (parse_u16 u.port) 1080;
  username = username_of u.user;
  password = password_of u.user;
}

unfoldable pub parse : {F : Type 0} → GoLib F → Str → Outcome ProxyConfig
unfolding normalize config_of
parse go link = do
  u ← url_of go (normalize link)
  if eq_str u.scheme (str "socks5") then ok (config_of u) else err wrong_scheme
