-- ===== src/Parser/Direct.antt =====
-- internal/parser/direct.go: the link of a test that uses no proxy.
use proxy_speedtest.Prelude.{Bool, none, some, if◌then◌else◌}
use proxy_speedtest.Text.{Str, str, has_prefix, to_lower, trim_space, cut}
use proxy_speedtest.GoLib.{GoLib}
use proxy_speedtest.Xray.Config
use proxy_speedtest.Xray.Config.{ProxyConfig, new_config}
use proxy_speedtest.Xray.Stream.{or_default}
use proxy_speedtest.Parser.Outcome.{Outcome, ok, err, not_direct}

-- `(?i)^direct://` on the trimmed text
unfoldable pub is_direct_link : Str → Bool
is_direct_link link = has_prefix (to_lower (trim_space link)) (str "direct://")

-- The name after `#`, unescaped where that succeeds; `Direct` where it is blank or missing.
unfoldable pub tag_of : {F : Type 0} → GoLib F → Str → Str
tag_of go link = elim (cut link (str "#")) [
  | none ↦ str "Direct"
  | some (_, fragment) ↦
      let name : Str = elim (go.query_unescape fragment) [ none ↦ fragment | some t ↦ t ] in
      or_default (trim_space name) (str "Direct")
]

unfoldable pub parse : {F : Type 0} → GoLib F → Str → Outcome ProxyConfig
unfolding is_direct_link tag_of
parse go link =
    let l = trim_space link in
    if is_direct_link l
    then ok (record (new_config Config.direct) { tag = tag_of go l; link = l })
    else err not_direct
