-- ===== src/Parser/Dispatch.antt =====
-- No two parsers take the same link, so the order of the list of parsers does not matter.
use proxy_speedtest.Prelude.{
  ◌≡◌, refl, Bool, true, false, ◌||◌, List, [], ◌∷◌, arith, Bool-cases, inl, inr,
}
use proxy_speedtest.GoLib.{GoLib}
use proxy_speedtest.Text.{Str, str, has_prefix, to_lower, trim_space}
use proxy_speedtest.Text.Laws.{has_prefix-both}
use proxy_speedtest.Text.Trim.{trim_space_idem}
use proxy_speedtest.Xray.Stream.{filled}
use proxy_speedtest.Parser.Direct
use proxy_speedtest.Parser.Http
use proxy_speedtest.Parser.Shadowsocks
use proxy_speedtest.Parser.Socks
use proxy_speedtest.Parser.Trojan
use proxy_speedtest.Parser.Vless
use proxy_speedtest.Parser.Vmess
use proxy_speedtest.Parser.Wireguard
use proxy_speedtest.Parser.Link.{Parser, parsers, can_parse, parse_with, first_parser, parse_link}

any_prefix : Str → List Str → Bool
any_prefix s [] = false
any_prefix s (p ∷ ps) = has_prefix s p || any_prefix s ps

-- One of the prefixes begins with `t`, or `t` begins with it.
meets : Str → List Str → Bool
meets t [] = false
meets t (p ∷ ps) = (has_prefix t p || has_prefix p t) || meets t ps

clash : List Str → List Str → Bool
unfolding meets
clash [] ps = false
clash (t ∷ ts) ps = meets t ps || clash ts ps

meets-any :
    (s t : Str) (ps : List Str) → has_prefix s t ≡ true → any_prefix s ps ≡ true → meets t ps ≡ true
unfolding any_prefix meets
meets-any s t [] h k = cc
meets-any s t (p ∷ ps) h k = ground (arith, has_prefix-both s t p, meets-any s t ps)

clash-any :
    (s : Str) (ts ps : List Str)
    → any_prefix s ts ≡ true
    → any_prefix s ps ≡ true
    → clash ts ps ≡ true
unfolding any_prefix clash
clash-any s [] ps h k = cc
clash-any s (t ∷ ts) ps h k = ground (arith, meets-any s t ps, clash-any s ts ps)

-- The schemes of each parser.
schemes : Parser → List Str
schemes Parser.direct = str "direct://" ∷ []
schemes Parser.vmess = str "vmess://" ∷ []
schemes Parser.vless = str "vless://" ∷ []
schemes Parser.trojan = str "trojan://" ∷ []
schemes Parser.shadowsocks = str "ss://" ∷ str "shadowsocks://" ∷ []
schemes Parser.wireguard = str "wireguard://" ∷ str "wg://" ∷ []
schemes Parser.http = str "http://" ∷ str "https://" ∷ []
schemes Parser.socks = str "socks://" ∷ str "socks5://" ∷ str "socks4://" ∷ str "socks4a://" ∷ []

clash-eq : (p q : Parser) → clash (schemes p) (schemes q) ≡ true → p ≡ q
unfolding clash schemes has_prefix str
clash-eq Parser.direct Parser.direct h = refl
clash-eq Parser.vmess Parser.vmess h = refl
clash-eq Parser.vless Parser.vless h = refl
clash-eq Parser.trojan Parser.trojan h = refl
clash-eq Parser.shadowsocks Parser.shadowsocks h = refl
clash-eq Parser.wireguard Parser.wireguard h = refl
clash-eq Parser.http Parser.http h = refl
clash-eq Parser.socks Parser.socks h = refl
clash-eq _ _ h = cc

module _ {F : Type 0} (go : GoLib F) where
  can_parse-scheme :
      (p : Parser) (l : Str)
      → trim_space l ≡ l
      → can_parse go p l ≡ true
      → any_prefix (to_lower l) (schemes p) ≡ true
  unfolding can_parse any_prefix schemes Direct.is_direct_link Vmess.can_parse Vless.can_parse
      Trojan.can_parse Shadowsocks.can_parse Wireguard.can_parse Http.can_parse Socks.can_parse
  can_parse-scheme Parser.direct l t h = let k = rw t at h in ground arith
  can_parse-scheme Parser.shadowsocks l t h = ground arith
  can_parse-scheme _ l t h = ground arith

  -- No trimmed link is taken by two parsers.
  pub can_parse_unique :
      (p q : Parser) (l : Str)
      → trim_space l ≡ l
      → can_parse go p l ≡ true
      → can_parse go q l ≡ true
      → p ≡ q
  can_parse_unique p q l t h k = clash-eq p q (
      clash-any (to_lower l) (schemes p) (schemes q) (can_parse-scheme p l t h)
        (can_parse-scheme q l t k))

data In (p : Parser) : List Parser → Type 0 where
  here : {ps : List Parser} → In p (p ∷ ps)
  there : {q : Parser} {ps : List Parser} → In p ps → In p (q ∷ ps)

In-parsers : (p : Parser) → In p parsers
In-parsers Parser.direct = here
In-parsers Parser.vmess = there here
In-parsers Parser.vless = there (there here)
In-parsers Parser.trojan = there (there (there here))
In-parsers Parser.shadowsocks = there (there (there (there here)))
In-parsers Parser.wireguard = there (there (there (there (there here))))
In-parsers Parser.http = there (there (there (there (there (there here)))))
In-parsers Parser.socks = there (there (there (there (there (there (there here))))))

module _ {F : Type 0} (go : GoLib F) (l : Str) (t : trim_space l ≡ l) where
  first_parser-In :
      (p : Parser) {ps : List Parser}
      → can_parse go p l ≡ true
      → In p ps
      → first_parser go ps l ≡ parse_with go p l
  unfolding first_parser
  first_parser-In p h here = rw h
  first_parser-In p h (there {q} {ps} i) = elim (Bool-cases (can_parse go q l)) [
    | inl k ↦ rw (k, can_parse_unique go q p l t k h)
    | inr k ↦ rw k (first_parser-In p h i)
  ]

-- A link whose trimmed text is not empty and is taken by a parser gets that parser's result,
-- whichever parsers stand before it in the list: no other parser takes the text.
pub parse_link-parse_with :
    {F : Type 0} (go : GoLib F) (p : Parser) (link : Str)
    → filled (trim_space link) ≡ true
    → can_parse go p (trim_space link) ≡ true
    → (parse_link go link ≡ parse_with go p (trim_space link))
      × ((q : Parser) → can_parse go q (trim_space link) ≡ true → p ≡ q)
unfolding parse_link
parse_link-parse_with go p link f h = (
  rw f (first_parser-In go (trim_space link) (trim_space_idem link) p h (In-parsers p)),
  λ q k. can_parse_unique go p q (trim_space link) (trim_space_idem link) h k,
)
