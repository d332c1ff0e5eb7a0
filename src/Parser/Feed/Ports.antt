-- ===== src/Parser/Feed/Ports.antt =====
-- The ports of a subscription fit 16 bits.
use proxy_speedtest.Prelude.{◌≡◌, ◌<◌, List, All, arith}
use proxy_speedtest.GoLib.{GoLib, Value, IsSound}
use proxy_speedtest.Prelude.{Option, some}
use proxy_speedtest.Text.{Str}
use proxy_speedtest.Xray.Config.{ProxyConfig}
use proxy_speedtest.Parser.Outcome.{ok}
use proxy_speedtest.Parser.Clash
use proxy_speedtest.Parser.Clash.Fields.{as_u16}
use proxy_speedtest.Parser.Ports.{wrap-lt, links-HasPort}
use proxy_speedtest.Parser.Returned.{Holds}
use proxy_speedtest.Parser.Http
use proxy_speedtest.Parser.Shadowsocks
use proxy_speedtest.Parser.Socks
use proxy_speedtest.Parser.Trojan
use proxy_speedtest.Parser.Vless
use proxy_speedtest.Parser.Vmess
use proxy_speedtest.Parser.Wireguard
use proxy_speedtest.Parser.Feed.{EntryHolds, Returns-subscription}
use proxy_speedtest.Parser.Subscription.{parse_subscription}

abbrev pub FitsPort : ProxyConfig → Type 0
FitsPort c = c.port < 65536

module _ {F : Type 0} (go : GoLib F) (g : IsSound go) where
  links-FitsPort : Holds go FitsPort
  unfolding Vmess.json_config Vmess.rocket_config Vless.config_of Trojan.config_of
      Shadowsocks.config_of Wireguard.config_of Http.config_of Socks.config_of
  links-FitsPort =
      let h = links-HasPort go g in
      record {
        direct = λ t l. omega arith;
        vmess = λ d e. (h.vmess d e (λ x. cc)).1;
        rocket = λ u m. (h.rocket u m (λ x. cc)).1;
        vless = λ u. (h.vless u (λ x. cc)).1;
        trojan = λ u. (h.trojan u (λ x. cc)).1;
        shadowsocks = λ u s r e. ground arith;
        wireguard = λ u. (h.wireguard u (λ x. cc)).1;
        http = λ u. (h.http u (λ x. cc)).1;
        socks = λ u. (h.socks u (λ x. cc)).1;
      }

  as_u16-lt : (v : Option (Value F)) → as_u16 go v < 65536
  unfolding as_u16
  as_u16-lt (some (Value.int n)) = wrap-lt n
  as_u16-lt (some (Value.int64 n)) = wrap-lt n
  as_u16-lt (some (Value.float f)) = g.u16_range f
  as_u16-lt _ = omega arith

  entries-FitsPort : EntryHolds go FitsPort
  unfolding Clash.parse_vmess Clash.parse_vless Clash.parse_trojan Clash.parse_shadowsocks
      Clash.parse_socks Clash.parse_http Clash.parse_wireguard
  entries-FitsPort = record {
    vmess = λ m. as_u16-lt _;
    vless = λ m. as_u16-lt _;
    trojan = λ m. as_u16-lt _;
    shadowsocks = λ m. as_u16-lt _;
    socks = λ m. as_u16-lt _;
    http = λ m. as_u16-lt _;
    wireguard = λ m. as_u16-lt _;
  }

  -- Every configuration of the list that `ParseSubscription` returns has a port below 65536, also
  -- where an integer of a Clash file, negative or large, is converted into 16 bits.
  pub parse_subscription-FitsPort :
      (input : Str) (cs : List ProxyConfig) → parse_subscription go input ≡ ok cs → All FitsPort cs
  parse_subscription-FitsPort input cs e =
      (Returns-subscription links-FitsPort entries-FitsPort input).at cs e
