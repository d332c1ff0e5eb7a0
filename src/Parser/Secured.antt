-- ===== src/Parser/Secured.antt =====
-- The security of a parsed stream and its settings agree, through to the JSON.
use proxy_speedtest.Prelude.{◌≡◌, refl, true, false, Option, none, some, arith, is_some}
use proxy_speedtest.GoLib.{GoLib, Url, VmessJson}
use proxy_speedtest.Text.{Str, str, eq_str}
use proxy_speedtest.Xray.Config.{ProxyConfig, StreamSettings, new_stream}
use proxy_speedtest.Xray.Json.{lookup}
use proxy_speedtest.Xray.Laws.{lookup-build_stream}
use proxy_speedtest.Xray.Stream.{build_stream, or_default}
use proxy_speedtest.Parser.Outcome.{ok}
use proxy_speedtest.Parser.Http
use proxy_speedtest.Parser.Shadowsocks
use proxy_speedtest.Parser.Socks
use proxy_speedtest.Parser.Trojan
use proxy_speedtest.Parser.Vless
use proxy_speedtest.Parser.Vmess
use proxy_speedtest.Parser.Wireguard
use proxy_speedtest.Parser.Link.{parse_link}
use proxy_speedtest.Parser.Returned.{Holds, Returns-link}

-- The TLS settings are there exactly under the security "tls", those of Reality under "reality".
pub record Agrees (s : StreamSettings) : Type 0 where
  pub tls : is_some s.tls ≡ eq_str s.security (str "tls")
  pub reality : is_some s.reality ≡ eq_str s.security (str "reality")
  pub named : or_default s.security (str "none") ≡ s.security

abbrev pub StreamAgrees : Option StreamSettings → Type 0
StreamAgrees none = Unit
StreamAgrees (some s) = Agrees s

pub new-Agrees : (n : Str) → Agrees (new_stream n (str "none"))
unfolding str eq_str
new-Agrees n = record { tls = refl; reality = refl; named = refl }

-- A stream whose security and settings are those of another.
pub record SameSecurity (s t : StreamSettings) : Type 0 where
  pub security : t.security ≡ s.security
  pub tls : t.tls ≡ s.tls
  pub reality : t.reality ≡ s.reality

pub Agrees-same : {s t : StreamSettings} → SameSecurity s t → Agrees s → Agrees t
Agrees-same {s} {t} e a = record {
  tls = rw (e.tls, e.security) a.tls;
  reality = rw (e.reality, e.security) a.reality;
  named = rw e.security a.named;
}

pub literals :
    (eq_str (str "tls") (str "tls") ≡ true)
    × (eq_str (str "tls") (str "reality") ≡ false)
    × (eq_str (str "reality") (str "tls") ≡ false)
    × (eq_str (str "reality") (str "reality") ≡ true)
    × (or_default (str "tls") (str "none") ≡ str "tls")
    × (or_default (str "reality") (str "none") ≡ str "reality")
unfolding str eq_str
literals = (refl, refl, refl, refl, refl, refl)

module _ (u : Url) (s : StreamSettings) where
  vless-SameSecurity : SameSecurity s (Vless.set_transport u s)
  unfolding Vless.set_transport
  vless-SameSecurity = ground arith

  trojan-SameSecurity : SameSecurity s (Trojan.set_transport u s)
  unfolding Trojan.set_transport
  trojan-SameSecurity = ground arith

  rocket-SameSecurity : SameSecurity s (Vmess.rocket_transport u s)
  unfolding Vmess.rocket_transport
  rocket-SameSecurity = ground arith

json-SameSecurity :
    {F : Type 0} (d : VmessJson F) (s : StreamSettings) → SameSecurity s (Vmess.json_transport d s)
unfolding Vmess.json_transport
json-SameSecurity d s = ground arith

module _ (u : Url) (n : Str) where
  vless-Agrees : Agrees (Vless.set_security u (new_stream n (str "none")))
  unfolding Vless.set_security
  vless-Agrees = ground (arith, new-Agrees n, literals)

  trojan-Agrees : Agrees (Trojan.set_security u (new_stream n (str "tls")))
  unfolding Trojan.set_security
  trojan-Agrees = ground (arith, literals)

  rocket-Agrees : Agrees (Vmess.rocket_security u (new_stream n (str "none")))
  unfolding Vmess.rocket_security
  rocket-Agrees = ground (arith, new-Agrees n, literals)

json-Agrees :
    {F : Type 0} (d : VmessJson F) (n : Str)
    → Agrees (Vmess.json_security d (new_stream n (str "none")))
unfolding Vmess.json_security
json-Agrees d n = ground (arith, new-Agrees n, literals)

abbrev pub Secured : ProxyConfig → Type 0
Secured c = StreamAgrees c.stream

http-Agrees : (u : Url) → Secured (Http.config_of u)
unfolding Http.config_of
http-Agrees u = ground (arith, literals)

pub links-Secured : {F : Type 0} (go : GoLib F) → Holds go Secured
links-Secured go = record {
  direct = λ t l. tt;
  vmess =
      λ d e. unfold Vmess.json_config in Agrees-same (json-SameSecurity d _) (json-Agrees d d.net);
  rocket = λ u m.
      unfold Vmess.rocket_config in Agrees-same (rocket-SameSecurity u _) (rocket-Agrees u _);
  vless = λ u. unfold Vless.config_of in Agrees-same (vless-SameSecurity u _) (vless-Agrees u _);
  trojan =
      λ u. unfold Trojan.config_of in Agrees-same (trojan-SameSecurity u _) (trojan-Agrees u _);
  shadowsocks = λ u s r e. unfold Shadowsocks.config_of in tt;
  wireguard = λ u. unfold Wireguard.config_of in tt;
  http = http-Agrees;
  socks = λ u. unfold Socks.config_of in tt;
}

-- The JSON of a stream has the settings of its security, and no others.
abbrev pub JsonAgrees : Option StreamSettings → Type 0
JsonAgrees none = Unit
JsonAgrees (some s) =
    (is_some (lookup "tlsSettings" (build_stream s)) ≡ eq_str s.security (str "tls"))
    × (is_some (lookup "realitySettings" (build_stream s)) ≡ eq_str s.security (str "reality"))

pub Agrees-json : (o : Option StreamSettings) → StreamAgrees o → JsonAgrees o
Agrees-json none a = tt
Agrees-json (some s) a = ground (arith, lookup-build_stream s, a.tls, a.reality, a.named)

-- Of every link that `ParseLink` accepts: the JSON of its stream, where it has one, holds TLS
-- settings exactly if its security is "tls", and Reality settings exactly if it is "reality".
pub parse_link-IsSecured :
    {F : Type 0} (go : GoLib F) (link : Str) (c : ProxyConfig)
    → parse_link go link ≡ ok c
    → JsonAgrees c.stream
parse_link-IsSecured go link c e =
    Agrees-json c.stream ((Returns-link (links-Secured go) link).at c e)
