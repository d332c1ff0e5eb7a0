-- ===== src/Parser/Base64.antt =====
-- The two lenient base64 decoders, of internal/parser/parser.go and internal/parser/shadowsocks.go.
use proxy_speedtest.Prelude.{
  ◌-◌, ◌%◌, ◌++◌, Option, none, some, length, replicate, ◌==◌, if◌then◌else◌,
}
use proxy_speedtest.Text.{Str, trim_space, trim_right_byte}
use proxy_speedtest.GoLib.{GoLib, std, url, raw_std, raw_url}

abbrev pub or_else {ℓ} : {A : Type ℓ} → Option A → Option A → Option A
or_else none b = b
or_else (some a) b = some a

-- `decodeBase64`: the four alphabets in turn.
unfoldable pub decode_base64 : {F : Type 0} → GoLib F → Str → Option Str
decode_base64 go s =
    let t = trim_space s in
    or_else (go.base64 std t)
      (or_else (go.base64 url t) (or_else (go.base64 raw_std t) (go.base64 raw_url t)))

-- Pads with `=` to a multiple of four.
unfoldable pub pad : Str → Str
pad s = let padding = length s % 4 in if padding == 0 then s else s ++ replicate (4 - padding) b'='

-- `decodeBase64Flexible`
unfoldable pub decode_base64_flexible : {F : Type 0} → GoLib F → Str → Option Str
unfolding pad
decode_base64_flexible go s =
    let t = pad (trim_space s) in
    let raw = trim_right_byte t b'=' in
    or_else (go.base64 std t)
      (or_else (go.base64 url t) (or_else (go.base64 raw_std raw) (go.base64 raw_url raw)))
