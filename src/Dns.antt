-- ===== src/Dns.antt =====
-- dns/util.go and dns/resolver.go: the resolver with its cache. The package miekg/dns is a parameter
-- where it prints a question and makes a query, as are net.ParseIP, the choice of a random address,
-- and what the servers reply. A time is a number of nanoseconds; the cache counts seconds.
pub mod Fresh
pub mod Addresses
mod Tests
use proxy_speedtest.Prelude.{
  ℕ, zero, suc, ◌+◌, ◌-◌, ◌*◌, ◌/◌, ◌<◌, Bool, true, false, not, ◌&&◌, ◌||◌, List, [], ◌∷◌, ◌++◌,
  Option, none, some, if◌then◌else◌, ◌==◌, ltb, leb, length, map, drop,
}
use proxy_speedtest.Prelude.Int.{ℤ, pos, negsuc}
use proxy_speedtest.Text.{Str}
use proxy_speedtest.Cache.{Keys, Entry, Cache, set_with_expire, get_with_expire}
use proxy_speedtest.Cache.New.{new_lru_cache, with_size, with_stale}

-- The data of a resource record: an address, or anything else.
pub data Data (Ip : Type 0) : Type 0 where
  a : Ip → Data Ip
  aaaa : Ip → Data Ip
  other : Data Ip

pub record Record (Ip : Type 0) : Type 0 where
  pub content : Data Ip
  pub ttl : ℕ

pub record Question : Type 0 where
  pub name : Str
  pub qtype : ℕ
  pub qclass : ℕ

-- `D.Msg`
pub record Msg (Ip : Type 0) : Type 0 where
  pub question : List Question
  pub answer : List (Record Ip)
  pub ns : List (Record Ip)
  pub extra : List (Record Ip)
  pub rcode : ℕ

abbrev pub type_a : ℕ
type_a = 1

abbrev pub type_aaaa : ℕ
type_aaaa = 28

-- `isIPRequest`
unfoldable pub is_ip_request : Question → Bool
is_ip_request q = (q.qclass == 1) && ((q.qtype == type_a) || (q.qtype == type_aaaa))

module _ {Ip : Type 0} where
  abbrev pub with_ttl : ℕ → Record Ip → Record Ip
  with_ttl ttl r = record r { ttl = ttl }

  abbrev pub set_ttl : ℕ → List (Record Ip) → List (Record Ip)
  set_ttl ttl rs = map (with_ttl ttl) rs

  -- `setMsgTTL`
  unfoldable pub set_msg_ttl : ℕ → Msg Ip → Msg Ip
  set_msg_ttl ttl m = record m {
    answer = set_ttl ttl m.answer;
    ns = set_ttl ttl m.ns;
    extra = set_ttl ttl m.extra;
  }

  -- The switch of `putMsgToCache`: the TTL of the first record, of the answers if there are any.
  abbrev pub first_ttl : List (Record Ip) → List (Record Ip) → List (Record Ip) → Option ℕ
  first_ttl (r ∷ rs) ns extra = some r.ttl
  first_ttl [] (r ∷ rs) extra = some r.ttl
  first_ttl [] [] (r ∷ rs) = some r.ttl
  first_ttl [] [] [] = none

  -- `msgToIP`
  unfoldable pub addresses : List (Record Ip) → List Ip
  addresses [] = []
  addresses (r ∷ rs) =
      let rest = addresses rs in
      elim r.content [ a ip ↦ ip ∷ rest | aaaa ip ↦ ip ∷ rest | other ↦ rest ]

  abbrev pub msg_to_ip : Msg Ip → List Ip
  msg_to_ip m = addresses m.answer

  -- `batchExchange`: the replies of the servers in the order in which they come, none for an error. The
  -- picker gives the first that is no failure (2) and no refusal (5).
  unfoldable pub batch_exchange : List (Option (Msg Ip)) → Option (Msg Ip)
  batch_exchange [] = none
  batch_exchange (none ∷ replies) = batch_exchange replies
  batch_exchange (some m ∷ replies) =
      let rest = batch_exchange replies in if (m.rcode == 2) || (m.rcode == 5) then rest else some m

  abbrev pub has_address : Option (Msg Ip) → Bool
  has_address none = false
  has_address (some m) = ltb 0 (length (msg_to_ip m))

  -- `ipExchange`, for the result of the main servers and, where there are any, of the others.
  unfoldable pub ip_exchange : Option (Msg Ip) → Option (Option (Msg Ip)) → Option (Msg Ip)
  ip_exchange main none = main
  ip_exchange main (some fallback) = if has_address main then main else fallback

-- The resolver: the replies that its servers give to a message, the fallback servers where there are
-- any.
pub record Servers (Ip : Type 0) : Type 0 where
  pub main : Msg Ip → List (Option (Msg Ip))
  pub fallback : Option (Msg Ip → List (Option (Msg Ip)))

-- `time.Unix()` of a time
abbrev pub seconds : ℕ → ℕ
seconds t = t / 1000000000

abbrev pub nanoseconds : ℕ → ℕ
nanoseconds t = t * 1000000000

-- `time.Until`, at a time
abbrev pub time_until : ℕ → ℕ → ℤ
time_until t now = if leb now t then pos (t - now) else negsuc (now - t - 1)

-- The times that `Exchange` reads: the two of the cache, and those of its own tests.
pub record Clock : Type 0 where
  pub start : ℕ
  pub now : ℕ
  pub test : ℕ
  pub until : ℕ

-- What an exchange gives: the message unless there is an error, whether it was in the cache and is
-- fetched again, and the cache.
pub record Exchanged (Ip : Type 0) : Type 0 where
  pub reply : Option (Msg Ip)
  pub hit : Bool
  pub refetched : Bool
  pub cache : Cache Str (Msg Ip)

module _ {Ip : Type 0} (keys : Keys Str) (question_text : Question → Str) where
  abbrev pub put_with_ttl : ℕ → Str → Msg Ip → Cache Str (Msg Ip) → Option ℕ → Cache Str (Msg Ip)
  put_with_ttl now key msg c none = c
  put_with_ttl now key msg c (some ttl) =
      set_with_expire keys (seconds now) key msg (seconds now + ttl) c

  -- `putMsgToCache`, with the time it reads, which is that of the cache too.
  unfoldable pub put_msg_to_cache : ℕ → Str → Msg Ip → Cache Str (Msg Ip) → Cache Str (Msg Ip)
  put_msg_to_cache now key msg c =
      put_with_ttl now key msg c (first_ttl msg.answer msg.ns msg.extra)

  abbrev pub fallback_of :
      Msg Ip → Option (Msg Ip → List (Option (Msg Ip))) → Option (Option (Msg Ip))
  fallback_of m none = none
  fallback_of m (some replies) = some (batch_exchange (replies m))

  -- The function that `exchangeWithoutCache` runs once for calls at the same time.
  unfoldable pub fetch : Servers Ip → Question → Msg Ip → Option (Msg Ip)
  fetch s q m =
      if is_ip_request q
      then ip_exchange (batch_exchange (s.main m)) (fallback_of m s.fallback)
      else batch_exchange (s.main m)

  abbrev pub stored :
      ℕ → Question → Cache Str (Msg Ip) → Option (Msg Ip) → Option (Msg Ip) × Cache Str (Msg Ip)
  stored now q c none = (none, c)
  stored now q c (some msg) = (some msg, put_msg_to_cache now (question_text q) msg c)

  -- `exchangeWithoutCache`, with the time at which the reply is put into the cache.
  unfoldable pub exchange_without_cache :
      Servers Ip → ℕ → Question → Msg Ip → Cache Str (Msg Ip) → Option (Msg Ip) × Cache Str (Msg Ip)
  exchange_without_cache s now q m c = stored now q c (fetch s q m)

  abbrev pub hit_with : Msg Ip × Bool → Cache Str (Msg Ip) → Exchanged Ip
  hit_with h c = record { reply = some h.0; hit = true; refetched = h.1; cache = c }

  -- `uint32(d.Seconds())` of a duration in nanoseconds is a parameter: Seconds is a float64, and Go leaves
  -- open what the conversion gives for one that is negative or has more than 32 bits.
  module _ (uint32_seconds : ℤ → ℕ) where
    -- The branch of a hit, with whether the message is fetched again in the background.
    abbrev pub on_hit : Clock → Msg Ip → ℕ → Msg Ip × Bool
    on_hit t msg expires =
        if ltb (nanoseconds expires) t.test
        then (set_msg_ttl 1 msg, true)
        else (set_msg_ttl (uint32_seconds (time_until (nanoseconds expires) t.until)) msg, false)

    abbrev pub exchanged :
        Servers Ip
        → Clock
        → ℕ
        → Question
        → Msg Ip
        → Option (Msg Ip × ℕ) × Cache Str (Msg Ip)
        → Exchanged Ip
    exchanged s t later q m (none, c) =
        let r = exchange_without_cache s later q m c in
        record { reply = r.0; hit = false; refetched = false; cache = r.1 }
    exchanged s t later q m (some (msg, expires), c) = hit_with (on_hit t msg expires) c

    -- `Exchange`
    unfoldable pub exchange : Servers Ip → Clock → ℕ → Msg Ip → Cache Str (Msg Ip) → Exchanged Ip
    exchange s t later m c = elim m.question [
      | [] ↦ record { reply = none; hit = false; refetched = false; cache = c }
      | q ∷ qs ↦
          exchanged s t later q m
            (get_with_expire keys (seconds t.start) (seconds t.now) (question_text q) c)
    ]

-- The cache of `NewResolver`.
abbrev pub resolver_cache : {Ip : Type 0} → (ℕ → Entry Str (Msg Ip)) → Cache Str (Msg Ip)
resolver_cache heap = new_lru_cache heap (with_size 4096 ∷ with_stale true ∷ [])

-- The addresses of package net, and rand.Intn, which gives a number below its argument.
pub record Net (Ip : Type 0) : Type 0 where
  pub parse_ip : Str → Option Ip
  pub is_v4 : Ip → Bool

pub data ResolveError : Type 0 where
  ip_version ip_not_found exchange_failed : ResolveError

pub data Resolved (Ip : Type 0) : Type 0 where
  address : Ip → Resolved Ip
  failed : ResolveError → Resolved Ip

module _ {Ip : Type 0} (net : Net Ip) where
  -- The host is an address itself.
  abbrev pub own_address : Ip → ℕ → Resolved Ip
  own_address ip dns_type =
      if (dns_type == type_aaaa) && not (net.is_v4 ip)
      then address ip
      else if (dns_type == type_a) && net.is_v4 ip
      then address ip
      else failed ip_version

  -- `ips[rand.Intn(ipLength)]`, for the index that was chosen
  abbrev pub pick : ℕ → List Ip → Resolved Ip
  pick i [] = failed ip_not_found
  pick zero (ip ∷ ips) = address ip
  pick (suc i) (ip ∷ ips) = pick i ips

  abbrev pub chosen : (ℕ → ℕ) → List Ip → Resolved Ip
  chosen intn ips = pick (intn (length ips)) ips

  abbrev pub from_reply : (ℕ → ℕ) → Option (Msg Ip) → Resolved Ip
  from_reply intn none = failed exchange_failed
  from_reply intn (some m) = chosen intn (msg_to_ip m)

  abbrev pub by_host : (ℕ → ℕ) → Option (Msg Ip) → ℕ → Option Ip → Resolved Ip
  by_host intn reply dns_type (some ip) = own_address ip dns_type
  by_host intn reply dns_type none = from_reply intn reply

  -- `resolveIP`, for what `Exchange` replies to the query of the host.
  unfoldable pub resolve_ip : (ℕ → ℕ) → (Str → ℕ → Option (Msg Ip)) → Str → ℕ → Resolved Ip
  resolve_ip intn reply host dns_type =
      by_host intn (reply host dns_type) dns_type (net.parse_ip host)

  abbrev pub or_v6 : Resolved Ip → Resolved Ip → Resolved Ip
  or_v6 (address ip) v6 = address ip
  or_v6 (failed e) (address ip) = address ip
  or_v6 (failed e) (failed f) = failed ip_not_found

  -- `ResolveIP`: the lookups of both families run at the same time. An address record has an address,
  -- so that its test on a nil one is left out.
  unfoldable pub resolve : (ℕ → ℕ) → (ℕ → ℕ) → (Str → ℕ → Option (Msg Ip)) → Str → Resolved Ip
  resolve intn intn_v6 reply host =
      or_v6 (resolve_ip intn reply host type_a) (resolve_ip intn_v6 reply host type_aaaa)
