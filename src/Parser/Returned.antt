-- ===== src/Parser/Returned.antt =====
-- Properties of whatever a parser returns: one rule for each way to build an outcome, and one for
-- each parser, from its configuration to every link that it accepts.
use proxy_speedtest.Prelude.{
  ◌≡◌, refl, Bool, true, false, arith, List, [], ◌∷◌, subst, if◌then◌else◌, ◌==◌, ◌≤◌,
}
use proxy_speedtest.GoLib.{GoLib, Url, VmessJson}
use proxy_speedtest.Text.{Str, eq_str, str, replace_first}
use proxy_speedtest.Text.Numbers.{max_u16, parse_u16-le}
use proxy_speedtest.Xray.Config
use proxy_speedtest.Xray.Config.{ProxyConfig, new_config}
use proxy_speedtest.Parser.Outcome.{wrong_scheme, ParseError, Outcome, ok, err, panic, ◌>>=◌}
use proxy_speedtest.Parser.Stream.{url_of}
use proxy_speedtest.Parser.Vless
use proxy_speedtest.Parser.Trojan
use proxy_speedtest.Parser.Shadowsocks
use proxy_speedtest.Parser.Wireguard
use proxy_speedtest.Parser.Http
use proxy_speedtest.Parser.Socks
use proxy_speedtest.Parser.Vmess
use proxy_speedtest.Parser.Direct
use proxy_speedtest.Parser.Link.{Parser, parse_with, first_parser, parse_link}

abbrev OfReturned {ℓ κ} : {A : Type ℓ} → (A → Type κ) → Outcome A → Type κ
OfReturned P (ok a) = P a
OfReturned P (err e) = Unit
OfReturned P panic = Unit

-- Whatever `o` returns has the property.
pub record Returns {ℓ κ} {A : Type ℓ} (P : A → Type κ) (o : Outcome A) : Type (ℓ ⊔ κ) where
  pub at : (a : A) → o ≡ ok a → P a

module _ {ℓ κ} {A : Type ℓ} {P : A → Type κ} where
  pub Returns-ok : (a : A) → P a → Returns P (ok a)
  Returns-ok a p = record { at = λ b e. subst (OfReturned P) e p }

  pub Returns-err : (e : ParseError) → Returns P (err e)
  Returns-err e = record { at = λ b p. cc }

  pub Returns-panic : Returns P panic
  Returns-panic = record { at = λ b p. cc }

  pub Returns-if :
      (b : Bool) (x y : Outcome A)
      → (b ≡ true → Returns P x)
      → (b ≡ false → Returns P y)
      → Returns P (if b then x else y)
  Returns-if true x y hx hy = hx refl
  Returns-if false x y hx hy = hy refl

module _ {ℓ κ μ} {A : Type ℓ} {B : Type κ} {P : B → Type μ} where
  pub Returns-bind :
      (m : Outcome A) (f : A → Outcome B) → ((a : A) → Returns P (f a)) → Returns P (m >>= f)
  Returns-bind (ok a) f h = h a
  Returns-bind (err e) f h = Returns-err e
  Returns-bind panic f h = Returns-panic

module _ {ℓ κ μ ν} {A : Type ℓ} {B : Type κ} {P : B → Type μ} {Q : A → Type ν} where
  pub Returns-bind_at :
      (m : Outcome A)
      → Returns Q m
      → (f : A → Outcome B) → ((a : A) → Q a → Returns P (f a))
      → Returns P (m >>= f)
  Returns-bind_at (ok a) q f h = h a (q.at a refl)
  Returns-bind_at (err e) q f h = Returns-err e
  Returns-bind_at panic q f h = Returns-panic

  Returns-bind_of :
      {m : Outcome A}
      → Returns Q m
      → (f : A → Outcome B) → ((a : A) → Q a → Returns P (f a))
      → Returns P (m >>= f)
  Returns-bind_of {m} q f h = Returns-bind_at m q f h

pub ruleset outcome_rules = (Returns-ok, Returns-err, Returns-panic, Returns-if, Returns-bind)

-- Every port that a Shadowsocks link names fits 16 bits.
abbrev InRange : Shadowsocks.Server → Type 0
InRange s = s.port ≤ max_u16

module _ {F : Type 0} (go : GoLib F) where
  legacy-InRange : (link : Str) → Returns InRange (Shadowsocks.legacy go link)
  unfolding Shadowsocks.legacy
  legacy-InRange link = search (outcome_rules, parse_u16-le) depth 12

  sip002-InRange : (u : Url) (t : Str) → InRange (Shadowsocks.sip002 go u t)
  unfolding Shadowsocks.sip002
  sip002-InRange u t = ground (arith, parse_u16-le u.port)

  server_of-InRange : (link : Str) (u : Url) → Returns InRange (Shadowsocks.server_of go link u)
  server_of-InRange link u =
      unfold Shadowsocks.server_of in search (outcome_rules, legacy-InRange, sip002-InRange) depth 8

module _ {F : Type 0} (go : GoLib F) (P : ProxyConfig → Type 0) (link : Str) where
  pub Returns-vless : ((u : Url) → P (Vless.config_of u)) → Returns P (Vless.parse go link)
  unfolding Vless.parse
  Returns-vless h = search outcome_rules

  pub Returns-trojan : ((u : Url) → P (Trojan.config_of u)) → Returns P (Trojan.parse go link)
  unfolding Trojan.parse
  Returns-trojan h = search outcome_rules

  pub Returns-http : ((u : Url) → P (Http.config_of u)) → Returns P (Http.parse go link)
  unfolding Http.parse
  Returns-http h = search outcome_rules

  pub Returns-socks : ((u : Url) → P (Socks.config_of u)) → Returns P (Socks.parse go link)
  unfolding Socks.parse
  Returns-socks h = search outcome_rules

  pub Returns-wireguard :
      ((u : Url) → P (Wireguard.config_of go u)) → Returns P (Wireguard.parse go link)
  unfolding Wireguard.parse
  Returns-wireguard h = search outcome_rules

  parse_lem : Shadowsocks.parse go link ≡ (
      url_of go (replace_first link (str "shadowsocks://") (str "ss://")) >>= λ u.
      if eq_str u.scheme (str "ss")
      then (Shadowsocks.server_of go (replace_first link (str "shadowsocks://") (str "ss://")) u
          >>= Shadowsocks.checked u)
      else err wrong_scheme)
  unfolding Shadowsocks.parse
  parse_lem = refl

  abbrev pub ForServers : Type 0
  ForServers =
      (u : Url) (s : Shadowsocks.Server)
      → s.port ≤ max_u16
      → (s.port == 0) ≡ false
      → P (Shadowsocks.config_of u s)

  module _ (h : ForServers) where
    checked-Returns :
        (u : Url) (s : Shadowsocks.Server) → s.port ≤ max_u16 → Returns P (Shadowsocks.checked u s)
    checked-Returns u s r = unfold Shadowsocks.checked in search outcome_rules

    server-Returns :
        (l : Str) (u : Url) → Returns P (Shadowsocks.server_of go l u >>= Shadowsocks.checked u)
    server-Returns l u =
        Returns-bind_of (server_of-InRange go l u) (Shadowsocks.checked u) (checked-Returns u)

    pub Returns-shadowsocks : Returns P (Shadowsocks.parse go link)
    Returns-shadowsocks = rw parse_lem (search (outcome_rules, server-Returns))

  Returns-v2rayn :
      ((d : VmessJson F)
        → (Vmess.parse_port go d.port == 0) ≡ false
        → P (Vmess.json_config d (Vmess.parse_port go d.port)))
      → (json : Str) → Returns P (Vmess.parse_v2rayn go json)
  unfolding Vmess.parse_v2rayn
  Returns-v2rayn h json = search outcome_rules depth 8

  Returns-shadowrocket :
      ((u : Url) (m : Str × Str) → P (Vmess.rocket_config u m))
      → Returns P (Vmess.parse_shadowrocket go link)
  unfolding Vmess.parse_shadowrocket
  Returns-shadowrocket h = search outcome_rules depth 8

  pub Returns-vmess :
      ((d : VmessJson F)
        → (Vmess.parse_port go d.port == 0) ≡ false
        → P (Vmess.json_config d (Vmess.parse_port go d.port)))
      → ((u : Url) (m : Str × Str) → P (Vmess.rocket_config u m))
      → Returns P (Vmess.parse go link)
  unfolding Vmess.parse
  Returns-vmess h k = search (outcome_rules, Returns-v2rayn, Returns-shadowrocket) depth 8

  Returns-direct :
      ((t l : Str) → P (record (new_config Config.direct) { tag = t; link = l }))
      → Returns P (Direct.parse go link)
  unfolding Direct.parse
  Returns-direct h = search outcome_rules

-- A property of every configuration that a link parser builds.
pub record Holds {F : Type 0} (go : GoLib F) (P : ProxyConfig → Type 0) : Type 0 where
  pub direct : (t l : Str) → P (record (new_config Config.direct) { tag = t; link = l })
  pub vmess :
      (d : VmessJson F)
      → (Vmess.parse_port go d.port == 0) ≡ false
      → P (Vmess.json_config d (Vmess.parse_port go d.port))
  pub rocket : (u : Url) (m : Str × Str) → P (Vmess.rocket_config u m)
  pub vless : (u : Url) → P (Vless.config_of u)
  pub trojan : (u : Url) → P (Trojan.config_of u)
  pub shadowsocks :
      (u : Url) (s : Shadowsocks.Server)
      → s.port ≤ max_u16
      → (s.port == 0) ≡ false
      → P (Shadowsocks.config_of u s)
  pub wireguard : (u : Url) → P (Wireguard.config_of go u)
  pub http : (u : Url) → P (Http.config_of u)
  pub socks : (u : Url) → P (Socks.config_of u)

module _ {F : Type 0} {go : GoLib F} {P : ProxyConfig → Type 0} (h : Holds go P) where
  pub Returns-with : (p : Parser) (link : Str) → Returns P (parse_with go p link)
  unfolding parse_with
  Returns-with Parser.direct link = Returns-direct go P link h.direct
  Returns-with Parser.vmess link = Returns-vmess go P link h.vmess h.rocket
  Returns-with Parser.vless link = Returns-vless go P link h.vless
  Returns-with Parser.trojan link = Returns-trojan go P link h.trojan
  Returns-with Parser.shadowsocks link = Returns-shadowsocks go P link h.shadowsocks
  Returns-with Parser.wireguard link = Returns-wireguard go P link h.wireguard
  Returns-with Parser.http link = Returns-http go P link h.http
  Returns-with Parser.socks link = Returns-socks go P link h.socks

  Returns-first : (ps : List Parser) (link : Str) → Returns P (first_parser go ps link)
  unfolding first_parser
  Returns-first [] link = Returns-err _
  Returns-first (p ∷ ps) link =
      Returns-if _ _ _ (λ e. Returns-with p link) (λ e. Returns-first ps link)

  pub Returns-link : (link : Str) → Returns P (parse_link go link)
  unfolding parse_link
  Returns-link link = search (outcome_rules, Returns-first)
