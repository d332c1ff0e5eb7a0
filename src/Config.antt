-- ===== src/Config.antt =====
-- config/config.go: the simplified configuration that is shown for a link.
use proxy_speedtest.Prelude.{ℕ, [], Option, none, some}
use proxy_speedtest.GoLib.{GoLib}
use proxy_speedtest.Text.{Str}
use proxy_speedtest.Xray.Config as Xray
use proxy_speedtest.Xray.Config.{ProxyConfig, Protocol, StreamSettings, protocol_text}
use proxy_speedtest.Xray.Stream.{or_default}
use proxy_speedtest.Parser.Outcome.{Outcome, ok, ◌>>=◌}
use proxy_speedtest.Parser.Link.{parse_link}

pub record Summary : Type 0 where
  pub protocol : Str
  pub remarks : Str
  pub server : Str
  pub net : Str
  pub port : ℕ
  pub password : Str
  pub sni : Str

-- The switch on the protocol.
unfoldable pub password_of : ProxyConfig → Protocol → Str
password_of c Xray.vmess = c.uuid
password_of c Xray.vless = c.uuid
password_of c Xray.trojan = c.password
password_of c Xray.shadowsocks = c.password
password_of c Xray.ss2022 = c.password
password_of c _ = []

abbrev pub net_of : Option StreamSettings → Str
net_of none = []
net_of (some s) = s.network

-- The name of the TLS settings, replaced by that of Reality where there are both.
unfoldable pub sni_of : Option StreamSettings → Str
sni_of none = []
sni_of (some s) = elim s.reality [
  | some r ↦ r.server_name
  | none ↦ elim s.tls [ some t ↦ t.server_name | none ↦ [] ]
]

unfoldable pub summary_of : ProxyConfig → Summary
unfolding password_of sni_of
summary_of c = record {
  protocol = protocol_text c.protocol;
  remarks = or_default c.tag c.address;
  server = c.address;
  net = net_of c.stream;
  port = c.port;
  password = password_of c c.protocol;
  sni = sni_of c.stream;
}

-- `Link2Config`
unfoldable pub link_to_config : {F : Type 0} → GoLib F → Str → Outcome Summary
link_to_config go link = do c ← parse_link go link; ok (summary_of c)
