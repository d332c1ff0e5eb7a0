-- ===== src/Parser/Feed.antt =====
-- Properties of every configuration in the list that a subscription returns.
pub mod Dialable
pub mod Secured
pub mod Ports
use proxy_speedtest.Prelude.{
  ℕ, ◌≡◌, refl, Bool, true, false, List, [], ◌∷◌, Option, none, some, All, if◌then◌else◌, arith,
}
use proxy_speedtest.GoLib.{GoLib, Entries}
use proxy_speedtest.Text.{Str, split, trim_space}
use proxy_speedtest.Xray.Config.{ProxyConfig}
use proxy_speedtest.Parser.Outcome.{Outcome, ok, err, panic, ◌>>=◌}
use proxy_speedtest.Parser.Base64.{decode_base64}
use proxy_speedtest.Parser.Clash
use proxy_speedtest.Parser.Link.{
  parse_link, is_skipped, add_line, collect, or_no_links, parse_links,
}
use proxy_speedtest.Parser.Returned.{
  Holds, Returns, Returns-link, Returns-ok, Returns-err, Returns-panic, Returns-bind,
  Returns-bind_at, Returns-if, outcome_rules,
}
use proxy_speedtest.Parser.Subscription.{
  parse_content, parse_response, parse_subscription_url, parse_subscription_file,
  parse_subscription,
}

-- A property of every configuration that is built from an entry of a Clash file.
pub record EntryHolds {F : Type 0} (go : GoLib F) (P : ProxyConfig → Type 0) : Type 0 where
  pub vmess : (m : Entries F) → P (Clash.parse_vmess go m)
  pub vless : (m : Entries F) → P (Clash.parse_vless go m)
  pub trojan : (m : Entries F) → P (Clash.parse_trojan go m)
  pub shadowsocks : (m : Entries F) → P (Clash.parse_shadowsocks go m)
  pub socks : (m : Entries F) → P (Clash.parse_socks go m)
  pub http : (m : Entries F) → P (Clash.parse_http go m)
  pub wireguard : (m : Entries F) → P (Clash.parse_wireguard go m)

module _ {F : Type 0} {go : GoLib F} {P : ProxyConfig → Type 0} (h : Holds go P)
    (k : EntryHolds go P) where
  Returns-entry : (m : Entries F) → Returns P (Clash.parse_proxy go m)
  unfolding Clash.parse_proxy
  Returns-entry m =
      search
        (outcome_rules, k.vmess, k.vless, k.trojan, k.shadowsocks, k.socks, k.http, k.wireguard)
        depth 12

  add_proxy-All :
      (o : Outcome ProxyConfig) (cs : List ProxyConfig)
      → Returns P o
      → All P cs
      → All P (Clash.add_proxy o cs)
  add_proxy-All (ok c) cs p q = (p.at c refl, q)
  add_proxy-All (err e) cs p q = q
  add_proxy-All panic cs p q = q

  collect_proxies-All : (ms : List (Entries F)) → All P (Clash.collect_proxies go ms)
  unfolding Clash.collect_proxies
  collect_proxies-All [] = tt
  collect_proxies-All (m ∷ ms) = add_proxy-All _ _ (Returns-entry m) (collect_proxies-All ms)

  Returns-no_valid : (cs : List ProxyConfig) → All P cs → Returns (All P) (Clash.or_no_valid cs)
  Returns-no_valid [] p = Returns-err _
  Returns-no_valid (c ∷ cs) p = Returns-ok (c ∷ cs) p

  Returns-yaml : (content : Str) → Returns (All P) (Clash.parse_yaml go content)
  unfolding Clash.parse_yaml
  Returns-yaml content = search (outcome_rules, Returns-no_valid, collect_proxies-All)

  Returns-add_line :
      (o : Outcome ProxyConfig) (rest : Outcome (List ProxyConfig))
      → Returns P o
      → Returns (All P) rest
      → Returns (All P) (add_line o rest)
  Returns-add_line (ok c) rest p q =
      Returns-bind_at rest q _ (λ cs r. Returns-ok (c ∷ cs) (p.at c refl, r))
  Returns-add_line (err e) rest p q = q
  Returns-add_line panic rest p q = Returns-panic

  Returns-collect : (lines : List Str) → Returns (All P) (collect go lines)
  unfolding collect
  Returns-collect [] = Returns-ok [] tt
  Returns-collect (line ∷ lines) =
      let l = trim_space line in
      Returns-if (is_skipped l) _ (add_line (parse_link go l) (collect go lines))
        (λ e. Returns-collect lines)
        (λ e. Returns-add_line _ _ (Returns-link h l) (Returns-collect lines))

  Returns-no_links : (cs : List ProxyConfig) → All P cs → Returns (All P) (or_no_links cs)
  Returns-no_links [] p = Returns-err _
  Returns-no_links (c ∷ cs) p = Returns-ok (c ∷ cs) p

  Returns-links : (input : Str) → Returns (All P) (parse_links go input)
  unfolding parse_links
  Returns-links input = Returns-bind_at _ (Returns-collect _) _ Returns-no_links

  Returns-content : (content : Str) → Returns (All P) (parse_content go content)
  unfolding parse_content
  Returns-content content = Returns-links _

  Returns-response : (r : ℕ × Option Str) → Returns (All P) (parse_response go r)
  unfolding parse_response
  Returns-response r = search (outcome_rules, Returns-yaml, Returns-content)

  pub Returns-subscription : (input : Str) → Returns (All P) (parse_subscription go input)
  unfolding parse_subscription parse_subscription_url parse_subscription_file
  Returns-subscription input =
      search (outcome_rules, Returns-yaml, Returns-content, Returns-response) depth 10
