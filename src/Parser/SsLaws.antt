-- ===== src/Parser/SsLaws.antt =====
-- What a Shadowsocks link becomes.
use proxy_speedtest.Prelude.{ℕ, ◌≡◌, refl, true, false, [], ◌∷◌, ◌++◌, some, arith, ◌==◌, All}
use proxy_speedtest.GoLib.{GoLib, Url, UserInfo}
use proxy_speedtest.Text.{Str, str, eq_str, has_prefix, cut, replace_first}
use proxy_speedtest.Text.Numbers.{parse_u16}
use proxy_speedtest.Xray.Config.{ProxyConfig}
use proxy_speedtest.Xray.Stream.{filled, or_default}
use proxy_speedtest.Parser.Base64.{decode_base64_flexible}
use proxy_speedtest.Parser.Outcome.{ok}
use proxy_speedtest.Parser.Shadowsocks

-- A text without the byte `c` ends where the first `c` stands.
cut-byte :
    (m p : Str) (c : ℕ) → All (λ d. (d == c) ≡ false) m → cut (m ++ c ∷ p) (c ∷ []) ≡ some (m, p)
unfolding cut has_prefix
cut-byte [] p c h = ground arith
cut-byte (d ∷ m) p c h = ground (arith, cut-byte m p c h.1)

module _ {F : Type 0} (go : GoLib F) where
  sip002_lem :
      (u : Url) (t m p : Str)
      → decode_base64_flexible go t ≡ some (m ++ b':' ∷ p)
      → All (λ d. (d == b':') ≡ false) m
      → Shadowsocks.sip002 go u t
        ≡ record { method = m; password = p; host = u.hostname; port = parse_u16 u.port }
  unfolding Shadowsocks.sip002 str
  sip002_lem u t m p d k = ground (arith, d, cut-byte m p b':' k)

  -- A link of the SIP002 form whose user info decodes to `method:password`, with no colon in the
  -- method, is accepted with that method and password, the address and the port of the URL, and
  -- the fragment as its tag (the address if there is none), whatever the password holds.
  pub parse-sip002 :
      (link m p : Str) (u : Url) (user : UserInfo)
      → go.parse_url (replace_first link (str "shadowsocks://") (str "ss://")) ≡ some u
      → eq_str u.scheme (str "ss") ≡ true
      → u.user ≡ some user
      → filled (go.user_string user) ≡ true
      → filled u.host ≡ true
      → decode_base64_flexible go (go.user_string user) ≡ some (m ++ b':' ∷ p)
      → All (λ d. (d == b':') ≡ false) m
      → (parse_u16 u.port == 0) ≡ false
      → (c : ProxyConfig) × (Shadowsocks.parse go link ≡ ok c)
        × (c.method ≡ m)
        × (c.password ≡ p)
        × (c.address ≡ u.hostname)
        × (c.port ≡ parse_u16 u.port)
        × (c.tag ≡ or_default u.fragment u.hostname)
        × (c.protocol ≡ Shadowsocks.ss_protocol m)
  unfolding Shadowsocks.parse Shadowsocks.config_of
  parse-sip002 link m p u user e s i f g d k n = (
    Shadowsocks.config_of u
        (record { method = m; password = p; host = u.hostname; port = parse_u16 u.port }),
    rw (e, s, i, f, g, sip002_lem u (go.user_string user) m p d k, n),
    refl,
    refl,
    refl,
    refl,
    refl,
    refl,
  )
