-- ===== src/Parser/Feed/Secured.antt =====
-- The security of the streams of a subscription.
use proxy_speedtest.Prelude.{◌≡◌, List, All, All-map, arith}
use proxy_speedtest.GoLib.{GoLib, Entries}
use proxy_speedtest.Text.{Str, str}
use proxy_speedtest.Xray.Config.{ProxyConfig, StreamSettings, new_stream}
use proxy_speedtest.Parser.Outcome.{ok}
use proxy_speedtest.Parser.Clash
use proxy_speedtest.Parser.Secured.{
  Agrees, SameSecurity, Agrees-same, new-Agrees, literals, Secured, links-Secured, JsonAgrees,
  Agrees-json,
}
use proxy_speedtest.Parser.Feed.{EntryHolds, Returns-subscription}
use proxy_speedtest.Parser.Subscription.{parse_subscription}

module _ {F : Type 0} (m : Entries F) where
  ws_grpc-SameSecurity : (s : StreamSettings) → SameSecurity s (Clash.set_ws_grpc m s)
  unfolding Clash.set_ws_grpc
  ws_grpc-SameSecurity s = ground arith

  vmess-SameSecurity : (s : StreamSettings) → SameSecurity s (Clash.vmess_transport m s)
  unfolding Clash.vmess_transport Clash.set_ws_grpc
  vmess-SameSecurity s = ground arith

  vmess_security-Agrees : (n : Str) → Agrees (Clash.vmess_security m (new_stream n (str "none")))
  unfolding Clash.vmess_security
  vmess_security-Agrees n = ground (arith, new-Agrees n, literals)

  vless_security-Agrees : (n : Str) → Agrees (Clash.vless_security m (new_stream n (str "none")))
  unfolding Clash.vless_security
  vless_security-Agrees n = ground (arith, new-Agrees n, literals)

  vmess-Agrees : Agrees (Clash.vmess_stream m)
  unfolding Clash.vmess_stream
  vmess-Agrees = Agrees-same (vmess-SameSecurity _) (vmess_security-Agrees _)

  vless-Agrees : Agrees (Clash.vless_stream m)
  unfolding Clash.vless_stream
  vless-Agrees = Agrees-same (ws_grpc-SameSecurity _) (vless_security-Agrees _)

  trojan-Agrees : Agrees (Clash.trojan_stream m)
  unfolding Clash.trojan_stream
  trojan-Agrees = Agrees-same (ws_grpc-SameSecurity _) (ground (arith, literals))

http-Agrees : {F : Type 0} (go : GoLib F) (m : Entries F) → Secured (Clash.parse_http go m)
unfolding Clash.parse_http
http-Agrees go m = ground (arith, literals)

entries-Secured : {F : Type 0} (go : GoLib F) → EntryHolds go Secured
entries-Secured go = record {
  vmess = λ m. unfold Clash.parse_vmess in vmess-Agrees m;
  vless = λ m. unfold Clash.parse_vless in vless-Agrees m;
  trojan = λ m. unfold Clash.parse_trojan in trojan-Agrees m;
  shadowsocks = λ m. unfold Clash.parse_shadowsocks in tt;
  socks = λ m. unfold Clash.parse_socks in tt;
  http = http-Agrees go;
  wireguard = λ m. unfold Clash.parse_wireguard in tt;
}

-- Whatever the input is (a URL, a file, base64 or links, with a Clash file or a list behind it), of
-- every configuration of the list that `ParseSubscription` returns: the JSON of its stream, where it
-- has one, holds TLS settings exactly if its security is "tls", and Reality settings exactly if it
-- is "reality".
pub parse_subscription-IsSecured :
    {F : Type 0} (go : GoLib F) (input : Str) (cs : List ProxyConfig)
    → parse_subscription go input ≡ ok cs
    → All (λ c. JsonAgrees c.stream) cs
parse_subscription-IsSecured go input cs e =
    All-map (λ c a. Agrees-json c.stream a) cs
      ((Returns-subscription (links-Secured go) (entries-Secured go) input).at cs e)
