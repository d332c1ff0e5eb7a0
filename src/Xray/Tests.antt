-- ===== src/Xray/Tests.antt =====
-- The JSON of a VLESS configuration, and the text of its address.
use proxy_speedtest.Prelude.{◌≡◌, refl, Option, none, some, true, false}
use proxy_speedtest.Text.{str}
use proxy_speedtest.Xray.Config
use proxy_speedtest.Xray.Config.{
  ProxyConfig, StreamSettings, new_config, new_stream, zero_tls, get_server_addr,
}
use proxy_speedtest.Xray.Json.{Json, lacks}
use proxy_speedtest.Xray.Outbound.{build_json_config}
use proxy_speedtest.Xray.Insecure.{build_json_config-lacks_insecure}

-- A stream that asks to skip the verification of certificates.
abbrev insecure_stream : StreamSettings
insecure_stream = record (new_stream (str "tcp") (str "tls")) {
  tls = some (record zero_tls { server_name = str "h.org"; allow_insecure = true });
}

abbrev insecure_config : ProxyConfig
insecure_config = record (new_config Config.vless) {
  address = str "2001:db8::1";
  port = 443;
  stream = some insecure_stream;
}

abbrev json_of : Option Json → Json
json_of none = Json.bool false
json_of (some j) = j

insecure-has_json :
    build_json_config insecure_config ≡ some (json_of (build_json_config insecure_config))
unfolding build_json_config proxy_speedtest.Xray.Outbound.build_outbound
    proxy_speedtest.Xray.Outbound.protocol_settings
insecure-has_json = refl

build_json_config-lacks_insecure_example :
    lacks "allowInsecure" (json_of (build_json_config insecure_config)) ≡ true
build_json_config-lacks_insecure_example =
    build_json_config-lacks_insecure insecure_config (json_of (build_json_config insecure_config))
      insecure-has_json
