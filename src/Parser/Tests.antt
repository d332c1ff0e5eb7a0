-- ===== src/Parser/Tests.antt =====
-- Runs of the link parsers on concrete links.
use proxy_speedtest.Prelude.{
  List, ℕ, ◌<◌, ◌≡◌, ◌≢◌, ◌↔◌, refl, true, false, [], ◌∷◌, ◌++◌, none, some, arith, if◌then◌else◌,
  All, ◌==◌,
}
use proxy_speedtest.Prelude.Int.{pos}
use proxy_speedtest.Text.{Str, str, eq_str, trim_space, replace_first, split}
use proxy_speedtest.Text.Numbers.{parse_u16}
use proxy_speedtest.GoLib.{GoLib, Url, UserInfo, IsSound, Entries, Value}
use proxy_speedtest.Xray.Config
use proxy_speedtest.Xray.Config.{ProxyConfig, StreamSettings}
use proxy_speedtest.Parser.Outcome.{ok, panic}
use proxy_speedtest.Parser.Link.{Parser, can_parse, parse_with, parse_link, parse_links}
use proxy_speedtest.Parser.Trojan
use proxy_speedtest.Parser.Ports.{parse_link-HasPort}
use proxy_speedtest.Parser.Dispatch.{parse_link-parse_with}
use proxy_speedtest.Parser.Secured.{parse_link-IsSecured, JsonAgrees}
use proxy_speedtest.Parser.Panics.{NilUser, parse_link-panic}
use proxy_speedtest.Parser.Lines.{parse_links-append}
use proxy_speedtest.Parser.Shadowsocks
use proxy_speedtest.Parser.Clash
use proxy_speedtest.Parser.Feed.Dialable.{IsDialable, parse_subscription-IsDialable}
use proxy_speedtest.Parser.Feed.Secured.{parse_subscription-IsSecured}
use proxy_speedtest.Parser.Subscription.{parse_subscription, parse_subscription_url, parse_response}
use proxy_speedtest.Parser.Base64.{decode_base64_flexible}
use proxy_speedtest.Xray.Stream.{filled}

-- Libraries in which one text is a URL, and one text is base64.
abbrev library : Str → Url → Str → Str → GoLib ℕ
library link u text decoded = record {
  parse_url = λ s. if eq_str s link then some u else none;
  user_string = λ i. i.username;
  query_unescape = some;
  split_host_port = λ _. none;
  base64 = λ _ s. if eq_str s text then some decoded else none;
  hex = λ _. none;
  vmess_json = λ _. none;
  float_u16 = λ n. 0;
  float_int = pos;
  float_byte = λ n. 0;
  clash_yaml = λ _. none;
  http_get = λ _. none;
  stat = λ _. false;
  read_file = λ _. none;
}

library-IsSound :
    (link : Str) (u : Url) (text decoded : Str) → IsSound (library link u text decoded)
library-IsSound link u text decoded = record { u16_range = λ f. omega arith }

abbrev trojan_link : Str
trojan_link = str "trojan://pw@h.org:8443?security=reality&pbk=k#t"

abbrev trojan_url : Url
trojan_url = record {
  scheme = str "trojan";
  host = str "h.org:8443";
  hostname = str "h.org";
  port = str "8443";
  fragment = str "t";
  user = some (record { username = str "pw"; password = none });
  query = (str "security", str "reality") ∷ (str "pbk", str "k") ∷ [];
}

abbrev trojan_go : GoLib ℕ
trojan_go = library trojan_link trojan_url [] []

abbrev trojan_config : ProxyConfig
trojan_config = Trojan.config_of trojan_url

trojan-parses : parse_link trojan_go trojan_link ≡ ok trojan_config
unfolding parse_link trim_space proxy_speedtest.Text.trim_right proxy_speedtest.Text.trim_left str
    proxy_speedtest.Text.is_space proxy_speedtest.Parser.Link.first_parser can_parse
    proxy_speedtest.Parser.Direct.is_direct_link proxy_speedtest.Text.has_prefix
    proxy_speedtest.Text.lower_byte proxy_speedtest.Parser.Vmess.can_parse
    proxy_speedtest.Parser.Vless.can_parse Trojan.can_parse parse_with Trojan.parse eq_str
trojan-parses = refl

trojan-is_proxy : trojan_config.protocol ≢ Config.direct
unfolding Trojan.config_of
trojan-is_proxy e = cc

parse_link-HasPort_example : (0 < trojan_config.port) × (trojan_config.port < 65536)
parse_link-HasPort_example =
    parse_link-HasPort trojan_go (library-IsSound trojan_link trojan_url [] []) trojan_link
      trojan_config trojan-parses trojan-is_proxy

trojan-filled : filled (trim_space trojan_link) ≡ true
unfolding trim_space proxy_speedtest.Text.trim_right proxy_speedtest.Text.trim_left str
    proxy_speedtest.Text.is_space
trojan-filled = refl

trojan-can_parse : can_parse trojan_go Parser.trojan (trim_space trojan_link) ≡ true
unfolding trim_space can_parse Trojan.can_parse proxy_speedtest.Text.has_prefix str
    proxy_speedtest.Text.trim_right proxy_speedtest.Text.trim_left proxy_speedtest.Text.is_space
    proxy_speedtest.Text.lower_byte
trojan-can_parse = refl

parse_link-parse_with_example :
    (parse_link trojan_go trojan_link ≡ parse_with trojan_go Parser.trojan (trim_space trojan_link))
    × ((q : Parser) → can_parse trojan_go q (trim_space trojan_link) ≡ true → Parser.trojan ≡ q)
parse_link-parse_with_example =
    parse_link-parse_with trojan_go Parser.trojan trojan_link trojan-filled trojan-can_parse

parse_link-IsSecured_example : JsonAgrees trojan_config.stream
parse_link-IsSecured_example =
    parse_link-IsSecured trojan_go trojan_link trojan_config trojan-parses

trojan-lines : parse_links trojan_go trojan_link ≡ ok (trojan_config ∷ [])
unfolding parse_links parse_link trim_space proxy_speedtest.Text.trim_right
    proxy_speedtest.Text.trim_left str proxy_speedtest.Text.is_space
    proxy_speedtest.Parser.Link.first_parser can_parse proxy_speedtest.Parser.Direct.is_direct_link
    proxy_speedtest.Text.has_prefix proxy_speedtest.Text.lower_byte
    proxy_speedtest.Parser.Vmess.can_parse proxy_speedtest.Parser.Vless.can_parse Trojan.can_parse
    parse_with Trojan.parse eq_str proxy_speedtest.Parser.Link.collect
    proxy_speedtest.Parser.Link.is_skipped split proxy_speedtest.Text.split_from
trojan-lines = refl

parse_links-append_example :
    parse_links trojan_go (trojan_link ++ b'\n' ∷ trojan_link)
    ≡ ok (trojan_config ∷ trojan_config ∷ [])
parse_links-append_example =
    parse_links-append trojan_go trojan_link trojan_link (trojan_config ∷ []) (trojan_config ∷ [])
      trojan-lines trojan-lines

-- A link of the SIP002 form, with the user info `YTpi` for `a:b`.
abbrev ss_link : Str
ss_link = str "ss://YTpi@h.org:443"

abbrev ss_user : UserInfo
ss_user = record { username = str "YTpi"; password = none }

abbrev ss_url : Url
ss_url = record {
  scheme = str "ss";
  host = str "h.org:443";
  hostname = str "h.org";
  port = str "443";
  fragment = [];
  user = some ss_user;
  query = [];
}

abbrev ss_go : GoLib ℕ
ss_go = library ss_link ss_url (str "YTpi") (b'a' ∷ b':' ∷ b'b' ∷ [])

ss-url : ss_go.parse_url (replace_first ss_link (str "shadowsocks://") (str "ss://")) ≡ some ss_url
unfolding replace_first eq_str str
ss-url = refl

ss-scheme : eq_str ss_url.scheme (str "ss") ≡ true
unfolding str eq_str
ss-scheme = refl

ss-user_filled : filled (ss_go.user_string ss_user) ≡ true
unfolding str
ss-user_filled = refl

ss-host_filled : filled ss_url.host ≡ true
unfolding str
ss-host_filled = refl

ss-decodes :
    decode_base64_flexible ss_go (ss_go.user_string ss_user)
    ≡ some ((b'a' ∷ []) ++ b':' ∷ b'b' ∷ [])
unfolding decode_base64_flexible eq_str trim_space proxy_speedtest.Text.trim_right
    proxy_speedtest.Text.trim_left str proxy_speedtest.Text.is_space
ss-decodes = refl

ss-no_colon : All (λ d. (d == b':') ≡ false) (b'a' ∷ [])
ss-no_colon = (refl, tt)

ss-port : (parse_u16 ss_url.port == 0) ≡ false
unfolding parse_u16 str
ss-port = refl

-- A legacy link: all of it but the scheme is base64, and the URL has no user info.
abbrev legacy_link : Str
legacy_link = str "ss://YTpiQGg6NDQz"

abbrev legacy_url : Url
legacy_url = record {
  scheme = str "ss";
  host = str "YTpiQGg6NDQz";
  hostname = str "YTpiQGg6NDQz";
  port = [];
  fragment = [];
  user = none;
  query = [];
}

abbrev legacy_go : GoLib ℕ
legacy_go = library legacy_link legacy_url (str "YTpiQGg6NDQz") (str "a:b@h:443")

legacy-filled : filled (trim_space legacy_link) ≡ true
unfolding trim_space proxy_speedtest.Text.trim_right proxy_speedtest.Text.trim_left str
    proxy_speedtest.Text.is_space
legacy-filled = refl

legacy-can_parse : Shadowsocks.can_parse (trim_space legacy_link) ≡ true
unfolding trim_space Shadowsocks.can_parse proxy_speedtest.Text.has_prefix str
    proxy_speedtest.Text.trim_right proxy_speedtest.Text.trim_left proxy_speedtest.Text.is_space
    proxy_speedtest.Text.lower_byte
legacy-can_parse = refl

legacy-url :
    legacy_go.parse_url
      (replace_first (trim_space legacy_link) (str "shadowsocks://") (str "ss://"))
    ≡ some legacy_url
unfolding trim_space eq_str replace_first proxy_speedtest.Text.trim_right
    proxy_speedtest.Text.trim_left str proxy_speedtest.Text.is_space
legacy-url = refl

legacy-scheme : eq_str legacy_url.scheme (str "ss") ≡ true
unfolding str eq_str
legacy-scheme = refl

parse_link-panic_example : parse_link legacy_go legacy_link ≡ panic ↔ (
    (filled (trim_space legacy_link) ≡ true)
    × ((p : Parser) × (can_parse legacy_go p (trim_space legacy_link) ≡ true)
        × NilUser legacy_go p (trim_space legacy_link)))
parse_link-panic_example = parse_link-panic legacy_go legacy_link

-- A legacy link has no user info.
legacy-panics : parse_link legacy_go legacy_link ≡ panic
unfolding can_parse
legacy-panics = (parse_link-panic legacy_go legacy_link).1 (
  legacy-filled,
  (Parser.shadowsocks, legacy-can_parse, (legacy_url, legacy-url, legacy-scheme, refl)),
)

-- A URL behind which there is a Clash file with one VLESS entry.
abbrev clash_entry : Entries ℕ
clash_entry = Entries.entry (str "type") (Value.string (str "vless")) (
    Entries.entry (str "port") (Value.int (pos 443)) (
      Entries.entry (str "tls") (Value.bool true)
        (Entries.entry (str "network") (Value.string (str "ws")) Entries.end)))

abbrev clash_go : GoLib ℕ
clash_go = record trojan_go {
  http_get = λ _. some (200, some (str "proxies:"));
  clash_yaml = λ _. some (clash_entry ∷ []);
}

abbrev feed : List ProxyConfig
feed = Clash.parse_vless clash_go clash_entry ∷ []

feed-parses : parse_subscription clash_go (str "https://s.org") ≡ ok feed
unfolding parse_subscription parse_subscription_url parse_response trim_space
    proxy_speedtest.Text.trim_left proxy_speedtest.Text.trim_right proxy_speedtest.Text.is_space
    proxy_speedtest.Parser.Subscription.is_url proxy_speedtest.Text.has_prefix
    proxy_speedtest.Text.contains proxy_speedtest.Text.cut eq_str Clash.parse_yaml Clash.parse_proxy
    Clash.collect_proxies str Clash.Fields.entry_of Clash.Fields.as_string
feed-parses = refl

parse_subscription-IsDialable_example : All IsDialable feed
parse_subscription-IsDialable_example =
    parse_subscription-IsDialable clash_go (str "https://s.org") feed feed-parses

parse_subscription-IsSecured_example : All (λ c. JsonAgrees c.stream) feed
parse_subscription-IsSecured_example =
    parse_subscription-IsSecured clash_go (str "https://s.org") feed feed-parses

clash_go-IsSound : IsSound clash_go
clash_go-IsSound = record { u16_range = λ f. omega arith }
