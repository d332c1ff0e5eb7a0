-- ===== src/Socks5/RoundTrip.antt =====
-- Addresses that `ParseAddr` gives, split off or read from what follows them.
use proxy_speedtest.Prelude.{
  ℕ, ◌+◌, ◌≤◌, ◌≡◌, refl, ap, subst, false, [], ◌∷◌, ◌++◌, Option, none, some, ltb, length,
  length-append, take, drop, arith, Bool-cases, inl, inr,
}
use proxy_speedtest.Text.{Str}
use proxy_speedtest.Text.Numbers.{Parsed, value, syntax, range}
use proxy_speedtest.Socks5.{
  Ip, v4, v6, Net, HasLength, IsSound, cut_to, split_addr, host_bytes, with_port, addr_of,
  parse_addr, encode_udp_packet, read_full, read_addr, max_addr_len,
}

-- The addresses of the protocol: a type, a host of the length it needs, and two bytes.
pub data IsAddr : Str → Type 0 where
  name : (h : Str) (p q : ℕ) → length h ≤ 255 → IsAddr (3 ∷ length h ∷ (h ++ p ∷ q ∷ []))
  four : (b : Str) (p q : ℕ) → length b ≡ 4 → IsAddr (1 ∷ (b ++ p ∷ q ∷ []))
  six : (b : Str) (p q : ℕ) → length b ≡ 16 → IsAddr (4 ∷ (b ++ p ∷ q ∷ []))

abbrev OnSome : Option Str → Type 0
OnSome none = Unit
OnSome (some a) = IsAddr a

named-OnSome :
    (host : Str) (p : Parsed)
    → length host ≤ 255
    → OnSome (with_port (some (3 ∷ length host ∷ host)) p)
named-OnSome host (value p) l = name host _ _ l
named-OnSome host syntax l = tt
named-OnSome host range l = tt

with_port-OnSome :
    (host : Str) (ip : Option Ip) (p : Parsed)
    → HasLength ip
    → OnSome (with_port (host_bytes host ip) p)
with_port-OnSome host (some (v4 b)) (value p) l = four b _ _ l
with_port-OnSome host (some (v4 b)) syntax l = tt
with_port-OnSome host (some (v4 b)) range l = tt
with_port-OnSome host (some (v6 b)) (value p) l = six b _ _ l
with_port-OnSome host (some (v6 b)) syntax l = tt
with_port-OnSome host (some (v6 b)) range l = tt
with_port-OnSome host none p l = elim (Bool-cases (ltb 255 (length host))) [
  | inl e ↦ rw e tt
  | inr e ↦ rw e (named-OnSome host p (ground arith))
]

addr_of-OnSome : (net : Net) (o : Option (Str × Str)) → IsSound net → OnSome (addr_of net o)
addr_of-OnSome net none s = tt
addr_of-OnSome net (some (host, port)) s =
    with_port-OnSome host (net.parse_ip host) _ (s.ip_length host)

-- `ParseAddr` gives well-formed addresses only.
pub parse_addr-IsAddr : (net : Net) (s a : Str) → IsSound net → parse_addr net s ≡ some a → IsAddr a
unfolding parse_addr
parse_addr-IsAddr net s a h e = subst OnSome e (addr_of-OnSome net (net.split_host_port s) h)

take-append : (a b : Str) → take (length a) (a ++ b) ≡ a
take-append [] b = refl
take-append (x ∷ a) b = ap (λ t. x ∷ t) (take-append a b)

drop-append : (a b : Str) → drop (length a) (a ++ b) ≡ b
drop-append [] b = refl
drop-append (x ∷ a) b = drop-append a b

cut_to-append : (n : ℕ) (a b : Str) → n ≡ length a → cut_to (some n) (a ++ b) ≡ some a
cut_to-append n a b e = rw (e, take-append a b) (ground (arith, length-append a b))

split_addr-IsAddr : (a rest : Str) → IsAddr a → split_addr (a ++ rest) ≡ some a
unfolding split_addr
split_addr-IsAddr _ rest (name h p q l) =
    cut_to-append (1 + 1 + length h + 2) (3 ∷ length h ∷ (h ++ p ∷ q ∷ [])) rest
      (omega (arith, length-append h (p ∷ q ∷ [])))
split_addr-IsAddr _ rest (four b p q l) =
    cut_to-append 7 (1 ∷ (b ++ p ∷ q ∷ [])) rest (omega (arith, length-append b (p ∷ q ∷ [])))
split_addr-IsAddr _ rest (six b p q l) =
    cut_to-append 19 (4 ∷ (b ++ p ∷ q ∷ [])) rest (omega (arith, length-append b (p ∷ q ∷ [])))

-- Of a packet that `EncodeUDPPacket` makes for an address of `ParseAddr`, `SplitAddr` gives the address
-- behind the first three bytes, and the payload follows it.
pub split_addr-encode_udp_packet :
    (net : Net) (s a payload : Str)
    → IsSound net
    → parse_addr net s ≡ some a
    → (packet : Str) × (encode_udp_packet (some a) payload ≡ some packet)
      × (split_addr (drop 3 packet) ≡ some a)
      × (drop (length a) (drop 3 packet) ≡ payload)
unfolding encode_udp_packet
split_addr-encode_udp_packet net s a payload h e = (
  0 ∷ 0 ∷ 0 ∷ (a ++ payload),
  refl,
  split_addr-IsAddr a payload (parse_addr-IsAddr net s a h e),
  drop-append a payload,
)

read_full-append : (n : ℕ) (a b : Str) → n ≡ length a → read_full n (a ++ b) ≡ some (a, b)
read_full-append n a b e =
    rw (e, take-append a b, drop-append a b) (ground (arith, length-append a b))

read_addr-IsAddr :
    (a rest : Str) (size : ℕ)
    → IsAddr a
    → max_addr_len ≤ size
    → read_addr size (a ++ rest) ≡ inr (a, rest)
unfolding read_addr
read_addr-IsAddr _ rest size (name h p q l) big =
    let port = p ∷ q ∷ [] in
    let room : ltb size max_addr_len ≡ false = ground arith in
    rw
      (
        room,
        read_full-append 1 (3 ∷ []) (length h ∷ ((h ++ port) ++ rest)) refl,
        read_full-append 1 (length h ∷ []) ((h ++ port) ++ rest) refl,
        read_full-append (length h + 2) (h ++ port) rest (omega (arith, length-append h port)),
      )
      refl
read_addr-IsAddr _ rest size (four b p q l) big =
    let port = p ∷ q ∷ [] in
    let room : ltb size max_addr_len ≡ false = ground arith in
    rw
      (
        room,
        read_full-append 1 (1 ∷ []) ((b ++ port) ++ rest) refl,
        read_full-append 6 (b ++ port) rest (omega (arith, length-append b port)),
      )
      refl
read_addr-IsAddr _ rest size (six b p q l) big =
    let port = p ∷ q ∷ [] in
    let room : ltb size max_addr_len ≡ false = ground arith in
    rw
      (
        room,
        read_full-append 1 (4 ∷ []) ((b ++ port) ++ rest) refl,
        read_full-append 18 (b ++ port) rest (omega (arith, length-append b port)),
      )
      refl

-- `ReadAddr` with a buffer of at least 259 bytes reads an address that `ParseAddr` gave, and leaves the
-- rest in the reader.
pub read_addr-parse_addr :
    (net : Net) (s a rest : Str) (size : ℕ)
    → IsSound net
    → parse_addr net s ≡ some a
    → max_addr_len ≤ size
    → read_addr size (a ++ rest) ≡ inr (a, rest)
read_addr-parse_addr net s a rest size h e l =
    read_addr-IsAddr a rest size (parse_addr-IsAddr net s a h e) l
