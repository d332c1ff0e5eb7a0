-- ===== src/Parser/Link.antt =====
-- internal/parser/parser.go: one link goes to the first parser that takes it; a list of links is
-- read line by line.
use proxy_speedtest.Prelude.{Bool, true, List, [], ◌∷◌, if◌then◌else◌}
use proxy_speedtest.Text.{Str, str, has_prefix, split, trim_space}
use proxy_speedtest.GoLib.{GoLib}
use proxy_speedtest.Xray.Config.{ProxyConfig}
use proxy_speedtest.Xray.Stream.{filled}
use proxy_speedtest.Parser.Outcome.{
  Outcome, ok, err, panic, empty_link, unsupported_link, no_links, ◌>>=◌,
}
use proxy_speedtest.Parser.Direct
use proxy_speedtest.Parser.Http
use proxy_speedtest.Parser.Shadowsocks
use proxy_speedtest.Parser.Socks
use proxy_speedtest.Parser.Trojan
use proxy_speedtest.Parser.Vless
use proxy_speedtest.Parser.Vmess
use proxy_speedtest.Parser.Wireguard

-- The types that implement the interface `Parser`.
pub data Parser : Type 0 where
  direct vmess vless trojan shadowsocks wireguard http socks : Parser

unfoldable pub can_parse : {F : Type 0} → GoLib F → Parser → Str → Bool
can_parse go direct link = Direct.is_direct_link link
can_parse go vmess link = Vmess.can_parse link
can_parse go vless link = Vless.can_parse link
can_parse go trojan link = Trojan.can_parse link
can_parse go shadowsocks link = Shadowsocks.can_parse link
can_parse go wireguard link = Wireguard.can_parse link
can_parse go http link = Http.can_parse go link
can_parse go socks link = Socks.can_parse link

unfoldable pub parse_with : {F : Type 0} → GoLib F → Parser → Str → Outcome ProxyConfig
parse_with go direct link = Direct.parse go link
parse_with go vmess link = Vmess.parse go link
parse_with go vless link = Vless.parse go link
parse_with go trojan link = Trojan.parse go link
parse_with go shadowsocks link = Shadowsocks.parse go link
parse_with go wireguard link = Wireguard.parse go link
parse_with go http link = Http.parse go link
parse_with go socks link = Socks.parse go link

abbrev pub parsers : List Parser
parsers = direct ∷ vmess ∷ vless ∷ trojan ∷ shadowsocks ∷ wireguard ∷ http ∷ socks ∷ []

-- The loop of `ParseLink`.
unfoldable pub first_parser : {F : Type 0} → GoLib F → List Parser → Str → Outcome ProxyConfig
first_parser go [] link = err unsupported_link
first_parser go (p ∷ ps) link =
    if can_parse go p link then parse_with go p link else first_parser go ps link

unfoldable pub parse_link : {F : Type 0} → GoLib F → Str → Outcome ProxyConfig
parse_link go link =
    let l = trim_space link in if filled l then first_parser go parsers l else err empty_link

-- A line that is blank or a comment is left out.
unfoldable pub is_skipped : Str → Bool
is_skipped [] = true
is_skipped (c ∷ s) = has_prefix (c ∷ s) (str "#")

-- What one line that is not skipped adds to those below it: a link that does not parse adds nothing.
abbrev pub add_line : Outcome ProxyConfig → Outcome (List ProxyConfig) → Outcome (List ProxyConfig)
add_line (ok c) rest = do cs ← rest; ok (c ∷ cs)
add_line (err e) rest = rest
add_line panic rest = panic

-- The loop of `ParseLinks`.
unfoldable pub collect : {F : Type 0} → GoLib F → List Str → Outcome (List ProxyConfig)
collect go [] = ok []
collect go (line ∷ lines) =
    let l = trim_space line in
    let rest = collect go lines in if is_skipped l then rest else add_line (parse_link go l) rest

abbrev pub or_no_links : List ProxyConfig → Outcome (List ProxyConfig)
or_no_links [] = err no_links
or_no_links (c ∷ cs) = ok (c ∷ cs)

unfoldable pub parse_links : {F : Type 0} → GoLib F → Str → Outcome (List ProxyConfig)
parse_links go input = do configs ← collect go (split input b'\n'); or_no_links configs
