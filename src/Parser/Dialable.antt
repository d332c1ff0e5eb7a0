-- ===== src/Parser/Dialable.antt =====
-- From a link to the JSON that the dialer hands to xray-core.
use proxy_speedtest.Prelude.{◌≡◌, refl, true, arith, is_some}
use proxy_speedtest.GoLib.{GoLib}
use proxy_speedtest.Text.{Str}
use proxy_speedtest.Xray.Config
use proxy_speedtest.Xray.Config.{ProxyConfig, StreamSettings, Protocol}
use proxy_speedtest.Xray.Outbound.{protocol_settings, build_outbound, build_json_config}
use proxy_speedtest.Parser.Outcome.{ok}
use proxy_speedtest.Parser.Http
use proxy_speedtest.Parser.Shadowsocks
use proxy_speedtest.Parser.Socks
use proxy_speedtest.Parser.Trojan
use proxy_speedtest.Parser.Vless
use proxy_speedtest.Parser.Vmess
use proxy_speedtest.Parser.Wireguard
use proxy_speedtest.Parser.Link.{parse_link}
use proxy_speedtest.Parser.Returned.{Holds, Returns-link}

-- One of the nine protocols.
abbrev pub IsKnown : Protocol → Type 0
IsKnown (Config.other s) = ⊥
IsKnown _ = Unit

pub ss_protocol-IsKnown : (m : Str) → IsKnown (Shadowsocks.ss_protocol m)
ss_protocol-IsKnown m = ground arith

abbrev pub Known : ProxyConfig → Type 0
Known c = IsKnown c.protocol

pub links-IsKnown : {F : Type 0} (go : GoLib F) → Holds go Known
unfolding Vmess.json_config Vmess.rocket_config Vless.config_of Trojan.config_of
    Shadowsocks.config_of Wireguard.config_of Http.config_of Socks.config_of
links-IsKnown go = record {
  direct = λ t l. tt;
  vmess = λ d e. tt;
  rocket = λ u m. tt;
  vless = λ u. tt;
  trojan = λ u. tt;
  shadowsocks = λ u s r e. ss_protocol-IsKnown s.method;
  wireguard = λ u. tt;
  http = λ u. tt;
  socks = λ u. tt;
}

pub known-settings :
    (c : ProxyConfig) (p : Protocol) → IsKnown p → is_some (protocol_settings c p) ≡ true
unfolding protocol_settings
known-settings c Config.vmess h = refl
known-settings c (Config.other s) h = absurd h
known-settings c _ h = refl

-- Every configuration that `ParseLink` returns is one for which the dialer builds a JSON: the error
-- "unsupported protocol" is not reached from a link.
pub parse_link-IsDialable :
    {F : Type 0} (go : GoLib F) (link : Str) (c : ProxyConfig)
    → parse_link go link ≡ ok c
    → is_some (build_json_config c) ≡ true
unfolding build_json_config build_outbound
parse_link-IsDialable go link c e =
    ground (arith, known-settings c c.protocol ((Returns-link (links-IsKnown go) link).at c e))
