-- ===== src/Socks5.antt =====
-- transport/socks5/socks5.go: SOCKS addresses as bytes.
pub mod RoundTrip
mod Tests
use proxy_speedtest.Prelude.{
  ℕ, zero, suc, ◌+◌, ◌*◌, ◌/◌, ◌%◌, ◌≡◌, Bool, true, false, List, [], ◌∷◌, ◌++◌, Option, none, some,
  if◌then◌else◌, ltb, ◌==◌, length, take, drop, All, ◌⊎◌, inl, inr,
}
use proxy_speedtest.Text.{Str}
use proxy_speedtest.Text.Numbers.{parse_uint, Parsed, value, max_u16}
use proxy_speedtest.Xray.Config.{itoa}

-- A net.IP that is not nil: `v4` where `To4` gives its four bytes, `v6` for any other.
pub data Ip : Type 0 where
  v4 : Str → Ip
  v6 : Str → Ip

-- What the code uses of package net; none is an error or nil.
pub record Net : Type 0 where
  pub split_host_port : Str → Option (Str × Str)
  pub join_host_port : Str → Str → Str
  pub parse_ip : Str → Option Ip
  pub ip_text : Str → Str

abbrev pub HasLength : Option Ip → Type 0
HasLength none = Unit
HasLength (some (v4 b)) = length b ≡ 4
HasLength (some (v6 b)) = length b ≡ 16

-- An IP address has the bytes of its kind.
pub record IsSound (net : Net) : Type 0 where
  pub ip_length : (s : Str) → HasLength (net.parse_ip s)

abbrev pub atyp_ipv4 : ℕ
atyp_ipv4 = 1

abbrev pub atyp_domain_name : ℕ
atyp_domain_name = 3

abbrev pub atyp_ipv6 : ℕ
atyp_ipv6 = 4

-- 1 + 1 + 255 + 2
abbrev pub max_addr_len : ℕ
max_addr_len = 259

-- The length that the switch of `SplitAddr` computes.
abbrev pub name_length : Str → Option ℕ
name_length [] = none
name_length (n ∷ b) = some (1 + 1 + n + 2)

abbrev pub addr_length : Str → Option ℕ
addr_length [] = none
addr_length (t ∷ b) =
    if t == atyp_domain_name
    then name_length b
    else if t == atyp_ipv4
    then some (1 + 4 + 2)
    else if t == atyp_ipv6
    then some (1 + 16 + 2)
    else none

abbrev pub cut_to : Option ℕ → Str → Option Str
cut_to none b = none
cut_to (some n) b = if ltb (length b) n then none else some (take n b)

-- `SplitAddr`
unfoldable pub split_addr : Str → Option Str
split_addr b = cut_to (addr_length b) b

-- The two bytes of a port.
abbrev pub port_bytes : ℕ → Str
port_bytes p = p / 256 % 256 ∷ p % 256 ∷ []

-- The bytes before the port.
abbrev pub host_bytes : Str → Option Ip → Option Str
host_bytes host (some (v4 b)) = some (atyp_ipv4 ∷ b)
host_bytes host (some (v6 b)) = some (atyp_ipv6 ∷ b)
host_bytes host none =
    if ltb 255 (length host) then none else some (atyp_domain_name ∷ length host ∷ host)

abbrev pub with_port : Option Str → Parsed → Option Str
with_port none p = none
with_port (some b) (value p) = some (b ++ port_bytes p)
with_port (some b) _ = none

abbrev pub addr_of : Net → Option (Str × Str) → Option Str
addr_of net none = none
addr_of net (some (host, port)) =
    with_port (host_bytes host (net.parse_ip host)) (parse_uint max_u16 port)

-- `ParseAddr`
unfoldable pub parse_addr : Net → Str → Option Str
parse_addr net s = addr_of net (net.split_host_port s)

-- A net.Addr: an address of UDP or TCP, with an IP or without, or any other by its text.
pub data NetAddr : Type 0 where
  endpoint : Option Ip → ℕ → Str → NetAddr
  unknown : Str → NetAddr

-- `ParseAddrToSocksAddr`; `To4` is nil exactly if `DefaultMask` of it is.
unfoldable pub parse_addr_to_socks_addr : Net → NetAddr → Option Str
parse_addr_to_socks_addr net (endpoint none port text) = parse_addr net text
parse_addr_to_socks_addr net (endpoint (some (v4 b)) port text) =
    some ((atyp_ipv4 ∷ b) ++ port_bytes (port % 65536))
parse_addr_to_socks_addr net (endpoint (some (v6 b)) port text) =
    some ((atyp_ipv6 ∷ b) ++ port_bytes (port % 65536))
parse_addr_to_socks_addr net (unknown text) = parse_addr net text

-- The port in the two bytes at the front.
abbrev pub port_at : Str → Option ℕ
port_at [] = none
port_at (h ∷ []) = none
port_at (h ∷ l ∷ b) = some (h * 256 + l)

-- `n` bytes of a host and a port; a panic (none) if there are less.
abbrev pub fields_at : ℕ → Str → Option (Str × ℕ)
fields_at n b = elim (port_at (drop n b)) [ none ↦ none | some p ↦ some (take n b, p) ]

-- What `String` gives to JoinHostPort. An empty address panics; an unknown type has no host and port.
abbrev pub name_fields : Str → Option (Str × ℕ)
name_fields [] = none
name_fields (n ∷ b) = fields_at n b

abbrev pub join : Net → (Str → Str) → Option (Str × ℕ) → Option Str
join net host none = none
join net host (some (h, p)) = some (net.join_host_port (host h) (itoa p))

-- `String`
unfoldable pub addr_text : Net → Str → Option Str
addr_text net [] = none
addr_text net (t ∷ b) =
    if t == atyp_domain_name
    then join net (λ h. h) (name_fields b)
    else if t == atyp_ipv4
    then join net net.ip_text (fields_at 4 b)
    else if t == atyp_ipv6
    then join net net.ip_text (fields_at 16 b)
    else some (net.join_host_port [] [])

abbrev pub found : Option (Str × ℕ) → Option (Option (Str × ℕ))
found none = none
found (some r) = some (some r)

-- `UDPAddr`: the IP and the port; the outer none is a panic, the inner one nil.
unfoldable pub udp_addr : Str → Option (Option (Str × ℕ))
udp_addr [] = some none
udp_addr (t ∷ b) =
    if t == atyp_ipv4
    then found (fields_at 4 b)
    else if t == atyp_ipv6
    then found (fields_at 16 b)
    else some none

-- `EncodeUDPPacket`; none is its error.
unfoldable pub encode_udp_packet : Option Str → Str → Option Str
encode_udp_packet none payload = none
encode_udp_packet (some a) payload = some (0 ∷ 0 ∷ 0 ∷ (a ++ payload))

pub data ReadError : Type 0 where
  short_buffer : ReadError
  end_of_file : ReadError
  address_not_supported : ReadError

-- io.ReadFull of `n` bytes from a reader that holds the bytes of the list: an error (EOF or unexpected
-- EOF) if there are less.
abbrev pub read_full : ℕ → Str → Option (Str × Str)
read_full n r = if ltb (length r) n then none else some (take n r, drop n r)

abbrev pub read_rest : Str → Option (Str × Str) → ReadError ⊎ (Str × Str)
read_rest before none = inl end_of_file
read_rest before (some (b, rest)) = inr (before ++ b, rest)

abbrev pub read_name : Option (Str × Str) → ReadError ⊎ (Str × Str)
read_name none = inl end_of_file
read_name (some ([], r)) = inl end_of_file
read_name (some (n ∷ _, r)) = read_rest (atyp_domain_name ∷ n ∷ []) (read_full (n + 2) r)

abbrev pub read_kind : Option (Str × Str) → ReadError ⊎ (Str × Str)
read_kind none = inl end_of_file
read_kind (some ([], r)) = inl end_of_file
read_kind (some (t ∷ _, r)) =
    if t == atyp_domain_name
    then read_name (read_full 1 r)
    else if t == atyp_ipv4
    then read_rest (atyp_ipv4 ∷ []) (read_full (4 + 2) r)
    else if t == atyp_ipv6
    then read_rest (atyp_ipv6 ∷ []) (read_full (16 + 2) r)
    else inl address_not_supported

-- `ReadAddr` with a buffer of a length: its error, or the address and what is left in the reader.
unfoldable pub read_addr : ℕ → Str → ReadError ⊎ (Str × Str)
read_addr size r = if ltb size max_addr_len then inl short_buffer else read_kind (read_full 1 r)
