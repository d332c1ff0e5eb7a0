-- ===== src/Parser/Wireguard.antt =====
-- internal/parser/wireguard.go
use proxy_speedtest.Prelude.{ℕ, Bool, ◌||◌, List, [], ◌∷◌, map, Option, none, some, if◌then◌else◌}
use proxy_speedtest.Prelude.Int.{pos}
use proxy_speedtest.Text.{
  Str, str, eq_str, has_prefix, to_lower, replace_first, contains, split, trim_space,
}
use proxy_speedtest.Text.Numbers.{parse_u16, atoi}
use proxy_speedtest.GoLib.{GoLib, Url, username_of, byte, std, raw_std}
use proxy_speedtest.Xray.Config
use proxy_speedtest.Xray.Config.{ProxyConfig, new_config}
use proxy_speedtest.Xray.Outbound.{int_or_default}
use proxy_speedtest.Xray.Stream.{or_default}
use proxy_speedtest.Parser.Base64.{or_else}
use proxy_speedtest.Parser.Outcome.{Outcome, ok, err, wrong_scheme, ◌>>=◌}
use proxy_speedtest.Parser.Stream.{get, port_or, url_of}

unfoldable pub can_parse : Str → Bool
can_parse link =
    has_prefix (to_lower link) (str "wireguard://") || has_prefix (to_lower link) (str "wg://")

-- `err == nil && len(decoded) > 0`
abbrev pub nonempty : Option (List ℕ) → Option (List ℕ)
nonempty none = none
nonempty (some []) = none
nonempty (some (c ∷ s)) = some (c ∷ s)

-- "1,2,3", or hex, or base64; nil is the empty list.
unfoldable pub parse_reserved : {F : Type 0} → GoLib F → Str → List ℕ
parse_reserved go s =
    if contains s (str ",")
    then map (λ p. byte (atoi (trim_space p))) (split s b',')
    else elim (or_else (nonempty (go.hex s))
        (or_else (nonempty (go.base64 std s)) (nonempty (go.base64 raw_std s)))) [
          | none ↦ []
          | some decoded ↦ decoded
        ]

unfoldable pub config_of : {F : Type 0} → GoLib F → Url → ProxyConfig
unfolding parse_reserved
config_of go u = record (new_config Config.wireguard) {
  tag = or_default u.fragment u.hostname;
  address = u.hostname;
  port = port_or (parse_u16 u.port) 51820;
  private_key = username_of u.user;
  peer_public_key = or_default (or_default (get u "publickey") (get u "public-key")) (get u "peer");
  pre_shared_key = or_default (get u "presharedkey") (get u "psk");
  local_address =
      or_default (or_default (get u "address") (get u "local-address")) (str "10.0.0.2/32");
  mtu = int_or_default (elim (get u "mtu") [ [] ↦ pos 0 | c ∷ s ↦ atoi (c ∷ s) ]) (pos 1420);
  reserved = elim (get u "reserved") [ [] ↦ [] | c ∷ s ↦ parse_reserved go (c ∷ s) ];
}

unfoldable pub parse : {F : Type 0} → GoLib F → Str → Outcome ProxyConfig
unfolding config_of
parse go link = do
  u ← url_of go (replace_first link (str "wg://") (str "wireguard://"))
  if eq_str u.scheme (str "wireguard") then ok (config_of go u) else err wrong_scheme
