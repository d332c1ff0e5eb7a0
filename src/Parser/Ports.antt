-- ===== src/Parser/Ports.antt =====
-- Ports of parsed links.
use proxy_speedtest.Prelude.{ℕ, ◌≡◌, ◌≢◌, ◌<◌, refl, arith}
use proxy_speedtest.GoLib
use proxy_speedtest.GoLib.{GoLib, Url, VmessJson, Value, IsSound}
use proxy_speedtest.Prelude.Int.{ℤ}
use proxy_speedtest.Text.{Str}
use proxy_speedtest.Text.Numbers.{parse_u16, parse_u16-le}
use proxy_speedtest.Xray.Config
use proxy_speedtest.Xray.Config.{ProxyConfig}
use proxy_speedtest.Parser.Outcome.{ok}
use proxy_speedtest.Parser.Stream.{port_or}
use proxy_speedtest.Parser.Http
use proxy_speedtest.Parser.Shadowsocks
use proxy_speedtest.Parser.Socks
use proxy_speedtest.Parser.Trojan
use proxy_speedtest.Parser.Vless
use proxy_speedtest.Parser.Vmess
use proxy_speedtest.Parser.Wireguard
use proxy_speedtest.Parser.Link.{parse_link}
use proxy_speedtest.Parser.Returned.{Holds, Returns-link}

abbrev pub HasPort : ProxyConfig → Type 0
HasPort c = c.protocol ≢ Config.direct → (0 < c.port) × (c.port < 65536)

port_or_bounds :
    (s : Str) (d : ℕ)
    → 0 < d
    → d < 65536
    → (0 < port_or (parse_u16 s) d) × (port_or (parse_u16 s) d < 65536)
port_or_bounds s d h k = ground (arith, parse_u16-le s)

pub wrap-lt : (n : ℤ) → GoLib.u16 n < 65536
unfolding GoLib.wrap
wrap-lt n = ground arith

parse_port-lt :
    {F : Type 0} (go : GoLib F) → IsSound go → (v : Value F) → Vmess.parse_port go v < 65536
unfolding Vmess.parse_port
parse_port-lt go g (Value.string s) = omega (arith, parse_u16-le s)
parse_port-lt go g (Value.int n) = wrap-lt n
parse_port-lt go g (Value.int64 n) = wrap-lt n
parse_port-lt go g (Value.float f) = g.u16_range f
parse_port-lt go g _ = omega arith

pub links-HasPort : {F : Type 0} (go : GoLib F) → IsSound go → Holds go HasPort
unfolding Vmess.json_config Vmess.rocket_config Vless.config_of Trojan.config_of
    Shadowsocks.config_of Wireguard.config_of Http.config_of Socks.config_of
links-HasPort go g = record {
  direct = λ t l n. absurd (n refl);
  vmess = λ d e n. ground (arith, parse_port-lt go g d.port);
  rocket = λ u m n. port_or_bounds u.port 443 (omega arith) (omega arith);
  vless = λ u n. port_or_bounds u.port 443 (omega arith) (omega arith);
  trojan = λ u n. port_or_bounds u.port 443 (omega arith) (omega arith);
  shadowsocks = λ u s r e n. ground arith;
  wireguard = λ u n. port_or_bounds u.port 51820 (omega arith) (omega arith);
  http = λ u n. ground (arith, port_or_bounds u.port 443, port_or_bounds u.port 8080);
  socks = λ u n. port_or_bounds u.port 1080 (omega arith) (omega arith);
}

-- Whatever the link, a configuration that `ParseLink` returns has a port from 1 to 65535, unless it
-- is the direct connection; float64 ports are converted into 16 bits.
pub parse_link-HasPort :
    {F : Type 0} (go : GoLib F)
    → IsSound go
    → (link : Str) (c : ProxyConfig) → parse_link go link ≡ ok c
    → c.protocol ≢ Config.direct
    → (0 < c.port) × (c.port < 65536)
parse_link-HasPort go g link c e = (Returns-link (links-HasPort go g) link).at c e
