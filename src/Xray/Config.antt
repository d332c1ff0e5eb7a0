-- ===== src/Xray/Config.antt =====
-- internal/xray/config.go: the data that a parsed link becomes. A Go pointer is an Option; the zero
-- value of each struct is what a composite literal leaves in the fields that it does not name.
use proxy_speedtest.Prelude.{
  ℕ, ◌+◌, ◌/◌, ◌%◌, zero, suc, Bool, false, List, [], ◌∷◌, ◌++◌, Option, none, ltb, if◌then◌else◌,
}
use proxy_speedtest.Prelude.Int.{ℤ, pos}
use proxy_speedtest.Text.{Str, str, eq_str}

-- A Go string type with nine constants; `other` is any further text.
pub data Protocol : Type 0 where
  vmess vless trojan shadowsocks ss2022 wireguard http socks direct : Protocol
  other : Str → Protocol

unfoldable pub protocol_text : Protocol → Str
protocol_text vmess = str "vmess"
protocol_text vless = str "vless"
protocol_text trojan = str "trojan"
protocol_text shadowsocks = str "shadowsocks"
protocol_text ss2022 = str "shadowsocks-2022"
protocol_text wireguard = str "wireguard"
protocol_text http = str "http"
protocol_text socks = str "socks"
protocol_text direct = str "direct"
protocol_text (other s) = s

pub record TlsSettings : Type 0 where
  pub server_name : Str
  pub alpn : List Str
  pub allow_insecure : Bool
  pub fingerprint : Str
  pub disable_system_root : Bool

pub record RealitySettings : Type 0 where
  pub server_name : Str
  pub public_key : Str
  pub short_id : Str
  pub spider_x : Str
  pub fingerprint : Str

abbrev pub Headers : Type 0
Headers = List (Str × Str)

pub record TcpSettings : Type 0 where
  pub header_type : Str
  pub host : Str
  pub path : Str
  pub headers : Headers

pub record WsSettings : Type 0 where
  pub path : Str
  pub host : Str
  pub headers : Headers
  pub max_early_data : ℤ
  pub early_data_header_name : Str

pub record GrpcSettings : Type 0 where
  pub service_name : Str
  pub multi_mode : Bool
  pub idle_timeout : ℤ
  pub health_check_timeout : ℤ
  pub permit_without_stream : Bool

pub record H2Settings : Type 0 where
  pub host : List Str
  pub path : Str

pub record QuicSettings : Type 0 where
  pub security : Str
  pub key : Str
  pub header : Str

pub record KcpSettings : Type 0 where
  pub mtu : ℤ
  pub tti : ℤ
  pub uplink_capacity : ℤ
  pub downlink_capacity : ℤ
  pub congestion : Bool
  pub read_buffer_size : ℤ
  pub write_buffer_size : ℤ
  pub header_type : Str
  pub seed : Str

pub record HttpUpgradeSettings : Type 0 where
  pub host : Str
  pub path : Str
  pub headers : Headers

pub record SplitHttpSettings : Type 0 where
  pub host : Str
  pub path : Str
  pub headers : Headers
  pub mode : Str

pub record StreamSettings : Type 0 where
  pub network : Str
  pub security : Str
  pub tls : Option TlsSettings
  pub reality : Option RealitySettings
  pub tcp : Option TcpSettings
  pub ws : Option WsSettings
  pub grpc : Option GrpcSettings
  pub h2 : Option H2Settings
  pub quic : Option QuicSettings
  pub kcp : Option KcpSettings
  pub http_upgrade : Option HttpUpgradeSettings
  pub split_http : Option SplitHttpSettings

pub record ProxyConfig : Type 0 where
  pub protocol : Protocol
  pub tag : Str
  pub address : Str
  pub port : ℕ
  pub link : Str
  pub uuid : Str
  pub alter_id : ℤ
  pub security : Str
  pub flow : Str
  pub password : Str
  pub method : Str
  pub private_key : Str
  pub public_key : Str
  pub peer_public_key : Str
  pub pre_shared_key : Str
  pub reserved : List ℕ
  pub mtu : ℤ
  pub local_address : Str
  pub username : Str
  pub stream : Option StreamSettings

-- The zero values.
abbrev pub zero_tls : TlsSettings
zero_tls = record {
  server_name = [];
  alpn = [];
  allow_insecure = false;
  fingerprint = [];
  disable_system_root = false;
}

abbrev pub zero_tcp : TcpSettings
zero_tcp = record { header_type = []; host = []; path = []; headers = [] }

abbrev pub zero_ws : WsSettings
zero_ws = record {
  path = [];
  host = [];
  headers = [];
  max_early_data = pos 0;
  early_data_header_name = [];
}

abbrev pub zero_grpc : GrpcSettings
zero_grpc = record {
  service_name = [];
  multi_mode = false;
  idle_timeout = pos 0;
  health_check_timeout = pos 0;
  permit_without_stream = false;
}

abbrev pub zero_kcp : KcpSettings
zero_kcp = record {
  mtu = pos 0;
  tti = pos 0;
  uplink_capacity = pos 0;
  downlink_capacity = pos 0;
  congestion = false;
  read_buffer_size = pos 0;
  write_buffer_size = pos 0;
  header_type = [];
  seed = [];
}

-- `&StreamSettings{Network: network, Security: security}`
abbrev pub new_stream : Str → Str → StreamSettings
new_stream n s = record {
  network = n;
  security = s;
  tls = none;
  reality = none;
  tcp = none;
  ws = none;
  grpc = none;
  h2 = none;
  quic = none;
  kcp = none;
  http_upgrade = none;
  split_http = none;
}

-- `&ProxyConfig{Protocol: protocol}`
abbrev pub new_config : Protocol → ProxyConfig
new_config p = record {
  protocol = p;
  tag = [];
  address = [];
  port = 0;
  link = [];
  uuid = [];
  alter_id = pos 0;
  security = [];
  flow = [];
  password = [];
  method = [];
  private_key = [];
  public_key = [];
  peer_public_key = [];
  pre_shared_key = [];
  reserved = [];
  mtu = pos 0;
  local_address = [];
  username = [];
  stream = none;
}

unfoldable pub get_name : ProxyConfig → Str
unfolding eq_str protocol_text
get_name c = if eq_str c.tag [] then protocol_text c.protocol else c.tag

-- `itoa` of the source, on a fuel that bounds the number of digits.
unfoldable pub itoa_fuel : ℕ → ℕ → Str
itoa_fuel zero i = []
itoa_fuel (suc f) i =
    let rest = itoa_fuel f (i / 10) in
    if ltb i 10 then (48 + i) ∷ [] else rest ++ ((48 + i % 10) ∷ [])

unfoldable pub itoa : ℕ → Str
unfolding itoa_fuel
itoa i = itoa_fuel (suc i) i

unfoldable pub get_server_addr : ProxyConfig → Str
unfolding itoa
get_server_addr c = c.address ++ (b':' ∷ itoa c.port)
