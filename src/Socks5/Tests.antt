-- ===== src/Socks5/Tests.antt =====
-- A package net that knows one IP address.
use proxy_speedtest.Prelude.{
  ◌≡◌, refl, Bool, true, false, [], ◌∷◌, ◌++◌, Option, none, some, if◌then◌else◌, drop, arith, inr,
}
use proxy_speedtest.Text.{Str, str, eq_str, cut_last}
use proxy_speedtest.Socks5.{
  Ip, v4, Net, HasLength, IsSound, split_addr, parse_addr, encode_udp_packet, read_addr, addr_text,
}
use proxy_speedtest.Socks5.RoundTrip.{split_addr-encode_udp_packet, read_addr-parse_addr}

abbrev known_ip : Str → Option Ip
known_ip s = if eq_str s (str "1.2.3.4") then some (v4 (1 ∷ 2 ∷ 3 ∷ 4 ∷ [])) else none

abbrev small_net : Net
small_net = record {
  split_host_port = λ s. cut_last s b':';
  join_host_port = λ h p. h ++ (b':' ∷ p);
  parse_ip = known_ip;
  ip_text = λ b. str "1.2.3.4";
}

HasLength-if :
    (b : Bool) (x y : Option Ip) → HasLength x → HasLength y → HasLength (if b then x else y)
HasLength-if true x y p q = p
HasLength-if false x y p q = q

small_net-IsSound : IsSound small_net
small_net-IsSound = record {
  ip_length =
      λ s. HasLength-if (eq_str s (str "1.2.3.4")) (some (v4 (1 ∷ 2 ∷ 3 ∷ 4 ∷ []))) none refl tt;
}

parsed : parse_addr small_net (str "1.2.3.4:443") ≡ some (1 ∷ 1 ∷ 2 ∷ 3 ∷ 4 ∷ 1 ∷ 187 ∷ [])
unfolding parse_addr cut_last str eq_str proxy_speedtest.Text.Numbers.parse_uint
parsed = refl

parsed_name : parse_addr small_net (str "dns:53") ≡ some (3 ∷ 3 ∷ 100 ∷ 110 ∷ 115 ∷ 0 ∷ 53 ∷ [])
unfolding parse_addr cut_last str eq_str proxy_speedtest.Text.Numbers.parse_uint
parsed_name = refl

printed : addr_text small_net (3 ∷ 3 ∷ 100 ∷ 110 ∷ 115 ∷ 0 ∷ 53 ∷ []) ≡ some (str "dns:53")
unfolding addr_text str proxy_speedtest.Xray.Config.itoa
printed = refl

split_addr-encode_udp_packet_example :
    (packet : Str) × (encode_udp_packet (some (3 ∷ 3 ∷ 100 ∷ 110 ∷ 115 ∷ 0 ∷ 53 ∷ [])) (7 ∷ [])
      ≡ some packet)
    × (split_addr (drop 3 packet) ≡ some (3 ∷ 3 ∷ 100 ∷ 110 ∷ 115 ∷ 0 ∷ 53 ∷ []))
    × (drop 7 (drop 3 packet) ≡ 7 ∷ [])
split_addr-encode_udp_packet_example =
    split_addr-encode_udp_packet small_net (str "dns:53") (3 ∷ 3 ∷ 100 ∷ 110 ∷ 115 ∷ 0 ∷ 53 ∷ [])
      (7 ∷ []) small_net-IsSound parsed_name

read_addr-parse_addr_example :
    read_addr 259 (1 ∷ 1 ∷ 2 ∷ 3 ∷ 4 ∷ 1 ∷ 187 ∷ 9 ∷ [])
    ≡ inr (1 ∷ 1 ∷ 2 ∷ 3 ∷ 4 ∷ 1 ∷ 187 ∷ [], 9 ∷ [])
read_addr-parse_addr_example =
    read_addr-parse_addr small_net (str "1.2.3.4:443") (1 ∷ 1 ∷ 2 ∷ 3 ∷ 4 ∷ 1 ∷ 187 ∷ []) (9 ∷ [])
      259 small_net-IsSound parsed (omega arith)
