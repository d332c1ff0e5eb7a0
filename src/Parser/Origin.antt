-- ===== src/Parser/Origin.antt =====
-- What the field `Link`, documented as the original link, holds after parsing.
use proxy_speedtest.Prelude.{◌≡◌, ◌≢◌, refl, []}
use proxy_speedtest.GoLib.{GoLib}
use proxy_speedtest.Text.{Str}
use proxy_speedtest.Xray.Config
use proxy_speedtest.Xray.Config.{ProxyConfig}
use proxy_speedtest.Parser.Http
use proxy_speedtest.Parser.Shadowsocks
use proxy_speedtest.Parser.Socks
use proxy_speedtest.Parser.Trojan
use proxy_speedtest.Parser.Vless
use proxy_speedtest.Parser.Vmess
use proxy_speedtest.Parser.Wireguard
use proxy_speedtest.Parser.Outcome.{ok}
use proxy_speedtest.Parser.Link.{parse_link}
use proxy_speedtest.Parser.Returned.{Holds, Returns-link}

abbrev Unlinked : ProxyConfig → Type 0
Unlinked c = c.protocol ≢ Config.direct → c.link ≡ []

links-Unlinked : {F : Type 0} (go : GoLib F) → Holds go Unlinked
unfolding Vmess.json_config Vmess.rocket_config Vless.config_of Trojan.config_of
    Shadowsocks.config_of Wireguard.config_of Http.config_of Socks.config_of
links-Unlinked go = record {
  direct = λ t l n. absurd (n refl);
  vmess = λ d e n. refl;
  rocket = λ u m n. refl;
  vless = λ u n. refl;
  trojan = λ u n. refl;
  shadowsocks = λ u s r e n. refl;
  wireguard = λ u n. refl;
  http = λ u n. refl;
  socks = λ u n. refl;
}

-- Whatever the link, a configuration that `ParseLink` returns has an empty `Link`, unless it is the
-- direct connection: no proxy parser stores the link that it has read.
pub parse_link-Unlinked :
    {F : Type 0} (go : GoLib F) (link : Str) (c : ProxyConfig)
    → parse_link go link ≡ ok c
    → c.protocol ≢ Config.direct
    → c.link ≡ []
parse_link-Unlinked go link c e = (Returns-link (links-Unlinked go) link).at c e
