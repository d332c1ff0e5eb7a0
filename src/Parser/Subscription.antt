-- ===== src/Parser/Subscription.antt =====
-- internal/parser/parser.go: subscriptions from a URL, from a file, as base64 or as plain links.
use proxy_speedtest.Prelude.{
  ℕ, Bool, false, ◌||◌, List, [], ◌∷◌, Option, none, some, if◌then◌else◌, ltb, ◌==◌, length,
}
use proxy_speedtest.GoLib.{GoLib}
use proxy_speedtest.Text.{Str, str, has_prefix, has_suffix, to_lower, trim_space, contains}
use proxy_speedtest.Xray.Config.{ProxyConfig}
use proxy_speedtest.Parser.Base64.{decode_base64}
use proxy_speedtest.Parser.Clash.{parse_yaml}
use proxy_speedtest.Parser.Link.{parse_links}
use proxy_speedtest.Parser.Outcome.{
  Outcome, err, fetch_failed, bad_status, read_failed, from_option, ◌>>=◌,
}

abbrev pub any_scheme : Str → List Str → Bool
any_scheme s [] = false
any_scheme s (p ∷ ps) = has_prefix s p || any_scheme s ps

-- `linkRegex`
unfoldable pub is_link : Str → Bool
is_link input = any_scheme (to_lower input) (
    str "vmess://"
    ∷ str "vless://"
    ∷ str "trojan://"
    ∷ str "ss://"
    ∷ str "shadowsocks://"
    ∷ str "wireguard://"
    ∷ str "wg://"
    ∷ str "http://"
    ∷ str "https://"
    ∷ str "socks://"
    ∷ str "socks5://"
    ∷ str "direct://"
    ∷ [])

unfoldable pub is_url : Str → Bool
is_url input = has_prefix input (str "http://") || has_prefix input (str "https://")

unfoldable pub is_file_path : {F : Type 0} → GoLib F → Str → Bool
is_file_path go input =
    if ltb 1024 (length input) then false else if is_link input then false else go.stat input

-- `if decoded, err := ...; err == nil { content = decoded }`
abbrev pub decoded_or : Option Str → Str → Str
decoded_or none content = content
decoded_or (some decoded) content = decoded

-- The end of both readers: base64 if it decodes, the links as they stand if not.
unfoldable pub parse_content : {F : Type 0} → GoLib F → Str → Outcome (List ProxyConfig)
parse_content go content = parse_links go (decoded_or (decode_base64 go content) content)

-- What is checked of the response, in the order of the source.
unfoldable pub parse_response : {F : Type 0} → GoLib F → ℕ × Option Str → Outcome (List ProxyConfig)
parse_response go (status, body) =
    if status == 200
    then (do
      content ← from_option read_failed body
      if contains content (str "proxies:") then parse_yaml go content else parse_content go content)
    else err bad_status

unfoldable pub parse_subscription_url : {F : Type 0} → GoLib F → Str → Outcome (List ProxyConfig)
parse_subscription_url go url = do
  response ← from_option fetch_failed (go.http_get url)
  parse_response go response

unfoldable pub parse_subscription_file : {F : Type 0} → GoLib F → Str → Outcome (List ProxyConfig)
parse_subscription_file go path = do
  content ← from_option read_failed (go.read_file path)
  if has_suffix (to_lower path) (str ".yaml")
        || (has_suffix (to_lower path) (str ".yml") || contains content (str "proxies:"))
      then parse_yaml go content
      else parse_content go content

unfoldable pub parse_subscription : {F : Type 0} → GoLib F → Str → Outcome (List ProxyConfig)
parse_subscription go input =
    let t = trim_space input in
    if is_url t
    then parse_subscription_url go t
    else if is_file_path go t
    then parse_subscription_file go t
    else parse_content go t
