-- ===== src/Xray/Insecure.antt =====
-- The JSON never asks xray-core to skip the verification of certificates.
use Prim.Native.String.{String}
use text.Mathlib.Text.{◌==◌}
use mathlib.Core.Option.{some-injective}
use proxy_speedtest.Prelude.{
  ℕ, ◌≡◌, refl, subst, Bool, true, false, ◌&&◌, not, List, [], ◌∷◌, Option, none, some, arith,
  if◌then◌else◌,
}
use proxy_speedtest.Prelude.Int.{ℤ}
use proxy_speedtest.Text.{Str}
use proxy_speedtest.Xray.Config
use proxy_speedtest.Xray.Config.{Protocol, ProxyConfig, StreamSettings, TcpSettings, KcpSettings}
use proxy_speedtest.Xray.Json.{
  Json, string, num, int, bool, bytes, strings, arr, obj, Fields, end, field, put, one, texts,
  lacks, lacks_items, lacks_fields,
}
use proxy_speedtest.Xray.Stream.{
  put_some, put_tcp, put_transport, put_security, build_stream, stream_fields, build_stream_json,
  tls_json, reality_json, ws_json, grpc_json, h2_json, kcp_json, http_upgrade_json, split_http_json,
  tcp_json,
}
use proxy_speedtest.Xray.Outbound.{
  build_vmess, build_vless, build_trojan, build_shadowsocks, build_ss2022, build_wireguard,
  build_http, build_socks, protocol_settings, with_stream, outbound_of, config_json, build_outbound,
  build_json_config,
}

-- The map, and every map below it, lacks the key.
pub record Lacks (k : String) (m : Fields) : Type 0 where
  pub none_below : lacks_fields k m ≡ true

pub record ValueLacks (k : String) (j : Json) : Type 0 where
  pub none_below : lacks k j ≡ true

tests : (a b c : Bool) → (not a && (b && c)) ≡ true → (a ≡ false) × (b ≡ true) × (c ≡ true)
tests a b c h = ground arith

texts-lacks : (k : String) (l : List Str) → lacks_items k (texts l) ≡ true
unfolding texts lacks_items
texts-lacks k [] = refl
texts-lacks k (s ∷ l) = texts-lacks k l

module _ {k : String} where
  Lacks-end : Lacks k end
  unfolding lacks
  Lacks-end = record { none_below = refl }

  Lacks-field :
      (i : String) (v : Json) (m : Fields)
      → (i == k) ≡ false
      → ValueLacks k v
      → Lacks k m
      → Lacks k (field i v m)
  unfolding lacks_fields
  Lacks-field i v m h g l = record { none_below = ground (arith, g.none_below, l.none_below) }

  Lacks-if : (b : Bool) (x y : Fields) → Lacks k x → Lacks k y → Lacks k (if b then x else y)
  Lacks-if true x y h g = h
  Lacks-if false x y h g = g

  Lacks-put :
      (i : String) (v : Json) (m : Fields)
      → (i == k) ≡ false
      → ValueLacks k v
      → Lacks k m
      → Lacks k (put i v m)
  unfolding put lacks lacks_fields
  Lacks-put i v end h g l = Lacks-field i v end h g l
  Lacks-put i v (field j w m) h g l =
      let (other, value, rest) = tests (j == k) (lacks k w) (lacks_fields k m) l.none_below in
      Lacks-if (j == i) _ _ (Lacks-field i v m h g (record { none_below = rest })) (
        Lacks-field j w (put i v m) other (record { none_below = value })
          (Lacks-put i v m h g (record { none_below = rest })))

  ValueLacks-string : (s : Str) → ValueLacks k (string s)
  unfolding lacks
  ValueLacks-string s = record { none_below = refl }

  ValueLacks-num : (n : ℕ) → ValueLacks k (num n)
  unfolding lacks
  ValueLacks-num n = record { none_below = refl }

  ValueLacks-int : (n : ℤ) → ValueLacks k (int n)
  unfolding lacks
  ValueLacks-int n = record { none_below = refl }

  ValueLacks-bool : (b : Bool) → ValueLacks k (bool b)
  unfolding lacks
  ValueLacks-bool b = record { none_below = refl }

  ValueLacks-bytes : (b : List ℕ) → ValueLacks k (bytes b)
  unfolding lacks
  ValueLacks-bytes b = record { none_below = refl }

  ValueLacks-strings : (h : List (Str × Str)) → ValueLacks k (strings h)
  unfolding lacks
  ValueLacks-strings h = record { none_below = refl }

  ValueLacks-obj : (m : Fields) → Lacks k m → ValueLacks k (obj m)
  unfolding lacks
  ValueLacks-obj m l = record { none_below = l.none_below }

  ValueLacks-one : (j : Json) → ValueLacks k j → ValueLacks k (arr (one j))
  unfolding lacks
  ValueLacks-one j l = record { none_below = ground (arith, l.none_below) }

  ValueLacks-texts : (l : List Str) → ValueLacks k (arr (texts l))
  unfolding lacks
  ValueLacks-texts l = record { none_below = texts-lacks k l }

  Lacks-put_some {ℓ} :
      {A : Type ℓ} (o : Option A) (i : String) (f : A → Fields) (m : Fields)
      → (i == k) ≡ false
      → ((a : A) → Lacks k (f a))
      → Lacks k m
      → Lacks k (put_some o i f m)
  Lacks-put_some none i f m h g l = l
  Lacks-put_some (some a) i f m h g l = Lacks-put i _ m h (ValueLacks-obj (f a) (g a)) l

  Lacks-put_security {ℓ} :
      {A : Type ℓ} (b : Bool) (o : Option A) (i : String) (f : A → Fields) (m : Fields)
      → (i == k) ≡ false
      → ((a : A) → Lacks k (f a))
      → Lacks k m
      → Lacks k (put_security b o i f m)
  Lacks-put_security true o i f m h g l = Lacks-put_some o i f m h g l
  Lacks-put_security false o i f m h g l = l

ruleset lacks_rules = (
  refl, Lacks-end, Lacks-field, Lacks-put, Lacks-if, ValueLacks-string, ValueLacks-num,
  ValueLacks-int, ValueLacks-bool, ValueLacks-bytes, ValueLacks-strings, ValueLacks-obj,
  ValueLacks-one, ValueLacks-texts, Lacks-put_some, Lacks-put_security,
)

abbrev LacksInsecure : Fields → Type 0
LacksInsecure = Lacks "allowInsecure"

tls-Lacks : (t : Config.TlsSettings) → LacksInsecure (tls_json t)
unfolding tls_json
tls-Lacks t = search lacks_rules depth 16

reality-Lacks : (r : Config.RealitySettings) → LacksInsecure (reality_json r)
unfolding reality_json
reality-Lacks r = search lacks_rules depth 16

ws-Lacks : (w : Config.WsSettings) → LacksInsecure (ws_json w)
unfolding ws_json
ws-Lacks w = search lacks_rules depth 16

grpc-Lacks : (w : Config.GrpcSettings) → LacksInsecure (grpc_json w)
unfolding grpc_json
grpc-Lacks w = search lacks_rules depth 16

h2-Lacks : (w : Config.H2Settings) → LacksInsecure (h2_json w)
unfolding h2_json
h2-Lacks w = search lacks_rules depth 16

kcp-Lacks : (w : KcpSettings) → LacksInsecure (kcp_json w)
unfolding kcp_json
kcp-Lacks w = search lacks_rules depth 16

http_upgrade-Lacks : (w : Config.HttpUpgradeSettings) → LacksInsecure (http_upgrade_json w)
unfolding http_upgrade_json
http_upgrade-Lacks w = search lacks_rules depth 16

split_http-Lacks : (w : Config.SplitHttpSettings) → LacksInsecure (split_http_json w)
unfolding split_http_json
split_http-Lacks w = search lacks_rules depth 16

tcp-Lacks : (w : TcpSettings) → LacksInsecure (tcp_json w)
unfolding tcp_json
tcp-Lacks w = search lacks_rules depth 16

put_tcp-Lacks :
    (o : Option TcpSettings) (m : Fields) → LacksInsecure m → LacksInsecure (put_tcp o m)
put_tcp-Lacks none m l = l
put_tcp-Lacks (some t) m l = search (lacks_rules, tcp-Lacks)

ruleset transports = (
  tls-Lacks, reality-Lacks, ws-Lacks, grpc-Lacks, h2-Lacks, kcp-Lacks, http_upgrade-Lacks,
  split_http-Lacks, put_tcp-Lacks,
)

put_transport-Lacks :
    (t : Str) (s : StreamSettings) (m : Fields)
    → LacksInsecure m
    → LacksInsecure (put_transport t s m)
unfolding put_transport
put_transport-Lacks t s m l = search (lacks_rules, transports) depth 14

build_stream-Lacks : (s : StreamSettings) → LacksInsecure (build_stream s)
unfolding build_stream
build_stream-Lacks s = search (put_transport-Lacks, lacks_rules, transports) depth 10

abbrev OptionLacks : Option Fields → Type 0
OptionLacks none = Unit
OptionLacks (some m) = LacksInsecure m

abbrev SettingsLack : Option (Str × Fields) → Type 0
SettingsLack none = Unit
SettingsLack (some (name, m)) = LacksInsecure m

module _ (c : ProxyConfig) where
  vmess-Lacks : LacksInsecure (build_vmess c)
  unfolding build_vmess
  vmess-Lacks = search lacks_rules depth 24

  vless-Lacks : LacksInsecure (build_vless c)
  unfolding build_vless
  vless-Lacks = search lacks_rules depth 24

  trojan-Lacks : LacksInsecure (build_trojan c)
  unfolding build_trojan
  trojan-Lacks = search lacks_rules depth 24

  shadowsocks-Lacks : LacksInsecure (build_shadowsocks c)
  unfolding build_shadowsocks
  shadowsocks-Lacks = search lacks_rules depth 24

  ss2022-Lacks : LacksInsecure (build_ss2022 c)
  unfolding build_ss2022
  ss2022-Lacks = search lacks_rules depth 24

  wireguard-Lacks : LacksInsecure (build_wireguard c)
  unfolding build_wireguard
  wireguard-Lacks = search lacks_rules depth 24

  http-Lacks : LacksInsecure (build_http c)
  unfolding build_http
  http-Lacks = search lacks_rules depth 24

  socks-Lacks : LacksInsecure (build_socks c)
  unfolding build_socks
  socks-Lacks = search lacks_rules depth 24

  settings-Lack : (p : Protocol) → SettingsLack (protocol_settings c p)
  unfolding protocol_settings
  settings-Lack Config.vmess = vmess-Lacks
  settings-Lack Config.vless = vless-Lacks
  settings-Lack Config.trojan = trojan-Lacks
  settings-Lack Config.shadowsocks = shadowsocks-Lacks
  settings-Lack Config.ss2022 = ss2022-Lacks
  settings-Lack Config.wireguard = wireguard-Lacks
  settings-Lack Config.http = http-Lacks
  settings-Lack Config.socks = socks-Lacks
  settings-Lack Config.direct = Lacks-end
  settings-Lack (Config.other s) = tt

stream_fields-Lacks : (o : Option StreamSettings) → OptionLacks (stream_fields o)
stream_fields-Lacks none = tt
stream_fields-Lacks (some s) = build_stream-Lacks s

with_stream-Lacks :
    (o : Option Fields) (m : Fields)
    → OptionLacks o
    → LacksInsecure m
    → LacksInsecure (with_stream o m)
with_stream-Lacks none m h l = l
with_stream-Lacks (some s) m h l = Lacks-put "streamSettings" (obj s) m refl (ValueLacks-obj s h) l

outbound_of-Lacks :
    (o : Option (Str × Fields)) (s : Option Fields)
    → SettingsLack o
    → OptionLacks s
    → OptionLacks (outbound_of o s)
outbound_of-Lacks none s h g = tt
outbound_of-Lacks (some (name, m)) s h g = with_stream-Lacks s _ g (search lacks_rules depth 10)

build_outbound-Lacks : (c : ProxyConfig) → OptionLacks (build_outbound c)
unfolding build_outbound
build_outbound-Lacks c =
    outbound_of-Lacks (protocol_settings c c.protocol) (build_stream_json c)
      (settings-Lack c c.protocol) (stream_fields-Lacks c.stream)

config_json-lacks :
    (o : Option Fields) (j : Json)
    → OptionLacks o
    → config_json o ≡ some j
    → lacks "allowInsecure" j ≡ true
config_json-lacks none j l e = cc
config_json-lacks (some m) j l e =
    let found : ValueLacks "allowInsecure" j =
      subst (ValueLacks "allowInsecure") (some-injective _ _ e) (search lacks_rules depth 12) in
    found.none_below

-- For every configuration, also one that asks to skip the verification of certificates: the JSON
-- that is handed to xray-core has no key `allowInsecure` in any of its maps, but for the maps of
-- HTTP headers, which are copied from the configuration.
pub build_json_config-lacks_insecure :
    (c : ProxyConfig) (j : Json) → build_json_config c ≡ some j → lacks "allowInsecure" j ≡ true
unfolding build_json_config
build_json_config-lacks_insecure c j e =
    config_json-lacks (build_outbound c) j (build_outbound-Lacks c) e
