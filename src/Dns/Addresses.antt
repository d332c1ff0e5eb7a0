-- ===== src/Dns/Addresses.antt =====
-- The addresses that the resolver gives.
use mathlib.Core.List.{Memᴰ}
use proxy_speedtest.Prelude.{
  ℕ, zero, suc, ◌<◌, ◌≡◌, refl, sym, subst, Bool, true, false, not, List, [], ◌∷◌, ◌++◌, Option,
  none, some, if◌then◌else◌, length, arith,
}
use proxy_speedtest.Text.{Str}
use proxy_speedtest.Dns.{
  Msg, Net, ip_version, Resolved, address, failed, type_a, type_aaaa, msg_to_ip, own_address,
  by_host, pick, chosen, from_reply, resolve_ip, or_v6, resolve,
}

abbrev addresses_of : {Ip : Type 0} → Option (Msg Ip) → List Ip
addresses_of none = []
addresses_of (some m) = msg_to_ip m

-- The addresses that may be given: the host itself if it is one, or those of both replies.
abbrev pub candidates : {Ip : Type 0} → Option Ip → Option (Msg Ip) → Option (Msg Ip) → List Ip
candidates (some ip) v4 v6 = ip ∷ []
candidates none v4 v6 = addresses_of v4 ++ addresses_of v6

-- One of the candidates, and an error where there are none.
abbrev pub IsOneOf : {Ip : Type 0} → List Ip → Resolved Ip → Type 0
IsOneOf ips (address ip) = Memᴰ ip ips
IsOneOf ips (failed e) = ips ≡ []

-- What rand.Intn promises.
abbrev pub IsBelow : (ℕ → ℕ) → Type 0
IsBelow intn = (n : ℕ) → intn (suc n) < suc n

Memᴰ-append : {A : Type 0} (xs ys : List A) (a : A) → Memᴰ a xs → Memᴰ a (xs ++ ys)
Memᴰ-append [] ys a m = elim m [ ]
Memᴰ-append (x ∷ xs) ys a (Memᴰ.head e) = Memᴰ.head e
Memᴰ-append (x ∷ xs) ys a (Memᴰ.tail m) = Memᴰ.tail (Memᴰ-append xs ys a m)

module _ {Ip : Type 0} (net : Net Ip) where
  pick-IsOneOf : (i : ℕ) (ips : List Ip) → i < length ips → IsOneOf ips (pick net i ips)
  pick-IsOneOf i [] h = refl
  pick-IsOneOf zero (ip ∷ ips) h = Memᴰ.head refl
  pick-IsOneOf (suc i) (ip ∷ ips) h =
      further ip ips (pick net i ips) (pick-IsOneOf i ips (omega arith)) (omega arith)
    where
      further :
          (ip : Ip) (ips : List Ip) (r : Resolved Ip)
          → IsOneOf ips r
          → i < length ips
          → IsOneOf (ip ∷ ips) r
      further ip ips (address x) m h = Memᴰ.tail m
      further ip ips (failed e) m h = absurd (ground (arith, m))

  chosen-IsOneOf :
      (intn : ℕ → ℕ) → IsBelow intn → (ips : List Ip) → IsOneOf ips (chosen net intn ips)
  chosen-IsOneOf intn h [] = refl
  chosen-IsOneOf intn h (ip ∷ ips) =
      pick-IsOneOf (intn (length (ip ∷ ips))) (ip ∷ ips) (h (length ips))

  from_reply-IsOneOf :
      (intn : ℕ → ℕ)
      → IsBelow intn
      → (r : Option (Msg Ip)) → IsOneOf (addresses_of r) (from_reply net intn r)
  from_reply-IsOneOf intn h none = refl
  from_reply-IsOneOf intn h (some m) = chosen-IsOneOf intn h (msg_to_ip m)

  or_v6-IsOneOf :
      (xs ys : List Ip) (r s : Resolved Ip)
      → IsOneOf xs r
      → IsOneOf ys s
      → IsOneOf (xs ++ ys) (or_v6 net r s)
  or_v6-IsOneOf xs ys (address ip) s p q = Memᴰ-append xs ys ip p
  or_v6-IsOneOf xs ys (failed e) (address ip) p q = rw p q
  or_v6-IsOneOf xs ys (failed e) (failed f) p q = rw p q

  -- An address is found in one of the families.
  by_family :
      (ip : Ip) (b : Bool)
      → or_v6 net
          (if b then address ip else failed ip_version)
          (if not b then address ip else failed ip_version)
        ≡ address ip
  by_family ip true = refl
  by_family ip false = refl

  literal :
      (ip : Ip) → or_v6 net (own_address net ip type_a) (own_address net ip type_aaaa) ≡ address ip
  literal ip = by_family ip (net.is_v4 ip)

  by_host-IsOneOf :
      (intn intn_v6 : ℕ → ℕ) (v4 v6 : Option (Msg Ip)) (o : Option Ip)
      → IsBelow intn
      → IsBelow intn_v6
      → IsOneOf
          (candidates o v4 v6)
          (or_v6 net (by_host net intn v4 type_a o) (by_host net intn_v6 v6 type_aaaa o))
  by_host-IsOneOf intn intn_v6 v4 v6 (some ip) h k =
      subst (IsOneOf (ip ∷ [])) (sym (literal ip)) (Memᴰ.head refl)
  by_host-IsOneOf intn intn_v6 v4 v6 none h k =
      or_v6-IsOneOf (addresses_of v4) (addresses_of v6) _ _ (from_reply-IsOneOf intn h v4)
        (from_reply-IsOneOf intn_v6 k v6)

  -- ResolveIP gives the host itself if it is an address, and otherwise one of the addresses in the
  -- replies to its two queries; it fails only where there is none.
  pub resolve-IsOneOf :
      (intn intn_v6 : ℕ → ℕ) (reply : Str → ℕ → Option (Msg Ip)) (host : Str)
      → IsBelow intn
      → IsBelow intn_v6
      → IsOneOf
          (candidates (net.parse_ip host) (reply host type_a) (reply host type_aaaa))
          (resolve net intn intn_v6 reply host)
  unfolding resolve resolve_ip
  resolve-IsOneOf intn intn_v6 reply host h k =
      by_host-IsOneOf intn intn_v6 (reply host type_a) (reply host type_aaaa) (net.parse_ip host) h
        k
