-- ===== src/Parser/Feed/Dialable.antt =====
-- The JSON of the configurations of a subscription.
use proxy_speedtest.Prelude.{◌≡◌, true, List, All, All-map, is_some, arith}
use proxy_speedtest.GoLib.{GoLib}
use proxy_speedtest.Text.{Str}
use proxy_speedtest.Xray.Config.{ProxyConfig}
use proxy_speedtest.Xray.Outbound.{build_outbound, build_json_config}
use proxy_speedtest.Parser.Outcome.{ok}
use proxy_speedtest.Parser.Clash
use proxy_speedtest.Parser.Dialable.{Known, links-IsKnown, known-settings, ss_protocol-IsKnown}
use proxy_speedtest.Parser.Feed.{EntryHolds, Returns-subscription}
use proxy_speedtest.Parser.Subscription.{parse_subscription}

entries-IsKnown : {F : Type 0} (go : GoLib F) → EntryHolds go Known
unfolding Clash.parse_vmess Clash.parse_vless Clash.parse_trojan Clash.parse_shadowsocks
    Clash.parse_socks Clash.parse_http Clash.parse_wireguard
entries-IsKnown go = record {
  vmess = λ m. tt;
  vless = λ m. tt;
  trojan = λ m. tt;
  shadowsocks = λ m. ss_protocol-IsKnown _;
  socks = λ m. tt;
  http = λ m. tt;
  wireguard = λ m. tt;
}

abbrev pub IsDialable : ProxyConfig → Type 0
IsDialable c = is_some (build_json_config c) ≡ true

Known-IsDialable : (c : ProxyConfig) → Known c → IsDialable c
unfolding build_json_config build_outbound
Known-IsDialable c h = ground (arith, known-settings c c.protocol h)

-- Whatever the input is (a URL, a file, base64 or links, with a Clash file or a list behind it), the
-- dialer builds a JSON for every configuration of the list that `ParseSubscription` returns.
pub parse_subscription-IsDialable :
    {F : Type 0} (go : GoLib F) (input : Str) (cs : List ProxyConfig)
    → parse_subscription go input ≡ ok cs
    → All IsDialable cs
parse_subscription-IsDialable go input cs e =
    All-map Known-IsDialable cs
      ((Returns-subscription (links-IsKnown go) (entries-IsKnown go) input).at cs e)
