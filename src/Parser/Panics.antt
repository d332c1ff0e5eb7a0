-- ===== src/Parser/Panics.antt =====
-- The links that make `ParseLink` of internal/parser/parser.go panic.
use proxy_speedtest.Prelude.{
  ◌≡◌, ◌↔◌, ◌∙◌, refl, not, ◌&&◌, Bool, true, false, List, [], ◌∷◌, Option, none, some,
  if◌then◌else◌,
}
use proxy_speedtest.GoLib.{GoLib, Url}
use proxy_speedtest.Text.{Str, eq_str, str, replace_first, trim_space, trim_prefix, contains}
use proxy_speedtest.Xray.Config.{ProxyConfig}
use proxy_speedtest.Parser.Base64.{decode_base64}
use proxy_speedtest.Xray.Stream.{filled}
use proxy_speedtest.Parser.Outcome.{
  empty_link, not_base64, ParseError, Outcome, ok, err, panic, from_option, not_nil, ◌>>=◌,
}
use proxy_speedtest.Parser.Vless
use proxy_speedtest.Parser.Trojan
use proxy_speedtest.Parser.Shadowsocks
use proxy_speedtest.Parser.Wireguard
use proxy_speedtest.Parser.Http
use proxy_speedtest.Parser.Socks
use proxy_speedtest.Parser.Vmess
use proxy_speedtest.Parser.Direct
use proxy_speedtest.Parser.Link.{Parser, can_parse, parse_with, first_parser, parsers, parse_link}
use proxy_speedtest.Parser.Dispatch.{parse_link-parse_with}

-- The outcome is a panic only where `P` holds.
pub record Blames {ℓ} {A : Type ℓ} (P : Type 0) (o : Outcome A) : Type ℓ where
  pub why : o ≡ panic → P

module _ {ℓ} {A : Type ℓ} {P : Type 0} where
  Blames-ok : (a : A) → Blames P (ok a)
  Blames-ok a = record { why = λ e. absurd cc }

  Blames-err : (e : ParseError) → Blames {A = A} P (err e)
  Blames-err e = record { why = λ p. absurd cc }

  Blames-from_option : (e : ParseError) (o : Option A) → Blames P (from_option e o)
  Blames-from_option e none = Blames-err e
  Blames-from_option e (some a) = Blames-ok a

  Blames-not_nil : (o : Option A) → (o ≡ none → P) → Blames P (not_nil o)
  Blames-not_nil none h = record { why = λ e. h refl }
  Blames-not_nil (some a) h = Blames-ok a

  Blames-if :
      (b : Bool) (x y : Outcome A)
      → (b ≡ true → Blames P x)
      → (b ≡ false → Blames P y)
      → Blames P (if b then x else y)
  Blames-if true x y p q = p refl
  Blames-if false x y p q = q refl

module _ {ℓ κ} {A : Type ℓ} {B : Type κ} {P : Type 0} where
  Blames-bind :
      (m : Outcome A) (f : A → Outcome B)
      → Blames P m
      → ((a : A) → Blames P (f a))
      → Blames P (m >>= f)
  Blames-bind (ok a) f p q = q a
  Blames-bind (err e) f p q = Blames-err e
  Blames-bind panic f p q = record { why = λ e. p.why refl }

  Blames-from :
      (e : ParseError) (o : Option A) (f : A → Outcome B)
      → ((a : A) → o ≡ some a → Blames P (f a))
      → Blames P (from_option e o >>= f)
  Blames-from e none f q = Blames-err e
  Blames-from e (some a) f q = q a refl

ruleset calm_rules = (Blames-ok, Blames-err, Blames-from_option, Blames-if, Blames-bind)

-- The URL of a Shadowsocks link, and that of a VMess link in the form of Shadowrocket, which have to have a
-- user info.
abbrev pub ss_text : Str → Str
ss_text l = replace_first l (str "shadowsocks://") (str "ss://")

abbrev pub LacksUser : {F : Type 0} → GoLib F → Str → Type 0
LacksUser go l = (u : Url) × (go.parse_url l ≡ some u) × (u.user ≡ none)

abbrev pub LacksSsUser : {F : Type 0} → GoLib F → Str → Type 0
LacksSsUser go l =
    (u : Url) × (go.parse_url (ss_text l) ≡ some u)
    × (eq_str u.scheme (str "ss") ≡ true)
    × (u.user ≡ none)

-- A VMess link in the form of Shadowrocket.
abbrev pub is_rocket : Str → Bool
is_rocket l =
    let encoded = trim_prefix (trim_prefix l (str "vmess://")) (str "VMESS://") in
    contains encoded (str "@") && not (contains encoded (str "{"))

-- A parser takes the user info of a URL that has none.
abbrev pub NilUser : {F : Type 0} → GoLib F → Parser → Str → Type 0
NilUser go Parser.direct l = ⊥
NilUser go Parser.vmess l = (is_rocket l ≡ true) × LacksUser go l
NilUser go Parser.vless l = ⊥
NilUser go Parser.trojan l = ⊥
NilUser go Parser.shadowsocks l = LacksSsUser go l
NilUser go Parser.wireguard l = ⊥
NilUser go Parser.http l = ⊥
NilUser go Parser.socks l = ⊥

module _ {F : Type 0} (go : GoLib F) (link : Str) where
  module _ (P : Type 0) where
    vless-Blames : Blames P (Vless.parse go link)
    unfolding Vless.parse
    vless-Blames = search calm_rules

    trojan-Blames : Blames P (Trojan.parse go link)
    unfolding Trojan.parse
    trojan-Blames = search calm_rules

    http-Blames : Blames P (Http.parse go link)
    unfolding Http.parse
    http-Blames = search calm_rules

    socks-Blames : Blames P (Socks.parse go link)
    unfolding Socks.parse
    socks-Blames = search calm_rules

    wireguard-Blames : Blames P (Wireguard.parse go link)
    unfolding Wireguard.parse
    wireguard-Blames = search calm_rules

    direct-Blames : Blames P (Direct.parse go link)
    unfolding Direct.parse
    direct-Blames = search calm_rules

    v2rayn-Blames : (d : Str) → Blames P (Vmess.parse_v2rayn go d)
    unfolding Vmess.parse_v2rayn
    v2rayn-Blames d = search calm_rules depth 12

    legacy-Blames : (l : Str) → Blames P (Shadowsocks.legacy go l)
    unfolding Shadowsocks.legacy Shadowsocks.legacy_text
    legacy-Blames l = search calm_rules depth 12

    checked-Blames : (u : Url) (s : Shadowsocks.Server) → Blames P (Shadowsocks.checked u s)
    unfolding Shadowsocks.checked
    checked-Blames u s = search calm_rules

    server_of-Blames :
        (l : Str) (u : Url) → (u.user ≡ none → P) → Blames P (Shadowsocks.server_of go l u)
    unfolding Shadowsocks.server_of
    server_of-Blames l u h = Blames-bind (not_nil u.user) _ (Blames-not_nil u.user h) (λ n.
        Blames-if (filled (go.user_string n) && filled u.host)
          (ok (Shadowsocks.sip002 go u (go.user_string n))) (Shadowsocks.legacy go l)
          (λ e. Blames-ok _) (λ e. legacy-Blames l))

  shadowsocks-Blames : Blames (LacksSsUser go link) (Shadowsocks.parse go link)
  unfolding Shadowsocks.parse
  shadowsocks-Blames = Blames-from _ (go.parse_url (ss_text link)) _ (λ u e.
      Blames-if (eq_str u.scheme (str "ss")) _ _
        (λ s.
          Blames-bind (Shadowsocks.server_of go (ss_text link) u) _
            (server_of-Blames _ (ss_text link) u (λ n. (u, e, s, n))) (λ v. checked-Blames _ u v))
        (λ s. Blames-err _))

  rocket-Blames : Blames (LacksUser go link) (Vmess.parse_shadowrocket go link)
  unfolding Vmess.parse_shadowrocket
  rocket-Blames = Blames-from _ (go.parse_url link) _ (λ u e.
      Blames-bind (not_nil u.user) _ (Blames-not_nil u.user (λ n. (u, e, n))) (λ n. Blames-ok _))

  vmess-Blames : Blames (NilUser go Parser.vmess link) (Vmess.parse go link)
  unfolding Vmess.parse
  vmess-Blames =
      let encoded = trim_prefix (trim_prefix link (str "vmess://")) (str "VMESS://") in
      let other : Outcome ProxyConfig =
        from_option not_base64 (decode_base64 go encoded) >>= λ d. Vmess.parse_v2rayn go d in
      Blames-if (is_rocket link) (Vmess.parse_shadowrocket go link) other
        (λ e. record { why = λ p. (e, rocket-Blames.why p) })
        (λ e. Blames-from _ (decode_base64 go encoded) _ (λ d h. v2rayn-Blames _ d))

  parse_with-Blames : (p : Parser) → Blames (NilUser go p link) (parse_with go p link)
  unfolding parse_with
  parse_with-Blames Parser.direct = direct-Blames _
  parse_with-Blames Parser.vmess = vmess-Blames
  parse_with-Blames Parser.vless = vless-Blames _
  parse_with-Blames Parser.trojan = trojan-Blames _
  parse_with-Blames Parser.shadowsocks = shadowsocks-Blames
  parse_with-Blames Parser.wireguard = wireguard-Blames _
  parse_with-Blames Parser.http = http-Blames _
  parse_with-Blames Parser.socks = socks-Blames _

  first_parser-Blames :
      (ps : List Parser)
      → Blames
          ((p : Parser) × (can_parse go p link ≡ true) × NilUser go p link)
          (first_parser go ps link)
  unfolding first_parser
  first_parser-Blames [] = Blames-err _
  first_parser-Blames (p ∷ ps) =
      Blames-if (can_parse go p link) (parse_with go p link) (first_parser go ps link)
        (λ e. record { why = λ h. (p, e, (parse_with-Blames p).why h) })
        (λ e. first_parser-Blames ps)

  parse_with-panic : (p : Parser) → NilUser go p link → parse_with go p link ≡ panic
  unfolding parse_with Shadowsocks.parse Shadowsocks.server_of Vmess.parse Vmess.parse_shadowrocket
  parse_with-panic Parser.shadowsocks (u, e, s, n) = rw (e, s, n) refl
  parse_with-panic Parser.vmess (r, (u, e, n)) = rw (r, e, n) refl
  parse_with-panic Parser.direct h = elim h [ ]
  parse_with-panic Parser.vless h = elim h [ ]
  parse_with-panic Parser.trojan h = elim h [ ]
  parse_with-panic Parser.wireguard h = elim h [ ]
  parse_with-panic Parser.http h = elim h [ ]
  parse_with-panic Parser.socks h = elim h [ ]

-- `ParseLink` panics exactly where the trimmed link is not empty and its parser takes the user info of
-- a URL without one: that of Shadowsocks, for every URL of the scheme ss, and that of VMess, for a
-- link in the form of Shadowrocket. No other parser panics, on any link.
pub parse_link-panic :
    {F : Type 0} (go : GoLib F) (link : Str)
    → parse_link go link ≡ panic ↔ (
        (filled (trim_space link) ≡ true)
        × ((p : Parser) × (can_parse go p (trim_space link) ≡ true)
            × NilUser go p (trim_space link)))
unfolding parse_link
parse_link-panic go link =
    let l = trim_space link in
    let causes : Blames
        ((filled l ≡ true) × ((p : Parser) × (can_parse go p l ≡ true) × NilUser go p l))
        (parse_link go link) =
      Blames-if (filled l) (first_parser go parsers l) (err empty_link)
        (λ f. record { why = λ h. (f, (first_parser-Blames go l parsers).why h) })
        (λ f. Blames-err _) in
    (
      causes.why,
      λ (f, (p, c, n)). (parse_link-parse_with go p link f c).0 ∙ parse_with-panic go l p n,
    )
