-- ===== src/Dns/Tests.antt =====
-- A resolver with one server, which gives one address.
use proxy_speedtest.Prelude.{
  ℕ, ◌-◌, ◌/◌, ◌^◌, ◌≡◌, refl, true, [], ◌∷◌, Option, none, some, if◌then◌else◌, ◌==◌, arith,
}
use proxy_speedtest.Prelude.Int.{ℤ, pos, negsuc}
use proxy_speedtest.Text.{Str, str, eq_str}
use proxy_speedtest.Text.Laws.{eq_of_eq_str, eq_str-of_eq}
use proxy_speedtest.Cache.{Keys, Entry, Cache}
use proxy_speedtest.Cache.New.{new_lru_cache}
use proxy_speedtest.Dns.{
  Data, Record, Question, Msg, Servers, Clock, Net, Resolved, resolver_cache, fetch, exchange,
  exchange_without_cache, resolve, type_a, type_aaaa,
}
use proxy_speedtest.Dns.Addresses.{IsBelow, IsOneOf, candidates, resolve-IsOneOf}

abbrev texts : Keys Str
texts = record { same = eq_str; same_iff = λ a b. (eq_of_eq_str a b, eq_str-of_eq a b) }

abbrev name_of : Question → Str
name_of q = q.name

abbrev host : Question
host = record { name = str "h.org."; qtype = type_a; qclass = 1 }

abbrev query : Msg ℕ
query = record { question = host ∷ []; answer = []; ns = []; extra = []; rcode = 0 }

-- The address 7, for 60 seconds.
abbrev reply : Msg ℕ
reply = record query { answer = record { content = Data.a 7; ttl = 60 } ∷ [] }

abbrev servers : Servers ℕ
servers = record { main = λ m. none ∷ some reply ∷ []; fallback = none }

abbrev silent : Servers ℕ
silent = record { main = λ m. []; fallback = none }

abbrev blank : ℕ → Entry Str (Msg ℕ)
blank i = record { key = []; value = query; expires = 0 }

abbrev empty_cache : Cache Str (Msg ℕ)
empty_cache = resolver_cache blank

-- Ten seconds later.
abbrev ten_later : Clock
ten_later = record {
  start = 110000000000;
  now = 110000000000;
  test = 110000000000;
  until = 110000000000;
}

-- Whole seconds, and the greatest number for a negative duration.
abbrev go_seconds : ℤ → ℕ
go_seconds (pos d) = d / 1000000000
go_seconds (negsuc d) = 2 ^ 32 - 1

abbrev no_literals : Net ℕ
no_literals = record { parse_ip = λ s. none; is_v4 = λ n. true }

abbrev replies : Str → ℕ → Option (Msg ℕ)
replies s t = if t == type_a then some reply else none

abbrev last : ℕ → ℕ
last n = n - 1

last-IsBelow : IsBelow last
last-IsBelow n = ground arith

resolve-IsOneOf_example :
    IsOneOf
      (candidates none (replies (str "h.org") type_a) (replies (str "h.org") type_aaaa))
      (resolve no_literals last last replies (str "h.org"))
resolve-IsOneOf_example =
    resolve-IsOneOf no_literals last last replies (str "h.org") last-IsBelow last-IsBelow

-- The reply has fifty seconds left.
fifty_left :
    (exchange texts name_of go_seconds silent ten_later 0 query
      (exchange_without_cache texts name_of servers 100000000000 host query empty_cache).1).reply
    ≡ some (record query { answer = record { content = Data.a 7; ttl = 50 } ∷ [] })
unfolding exchange proxy_speedtest.Cache.get_with_expire proxy_speedtest.Cache.get
    exchange_without_cache fetch proxy_speedtest.Dns.is_ip_request proxy_speedtest.Dns.ip_exchange
    proxy_speedtest.Dns.batch_exchange proxy_speedtest.Dns.put_msg_to_cache
    proxy_speedtest.Cache.set_with_expire proxy_speedtest.Cache.maybe_delete_oldest
    proxy_speedtest.Cache.push_back proxy_speedtest.Cache.trim proxy_speedtest.Cache.refresh
    new_lru_cache proxy_speedtest.Cache.New.apply_settings proxy_speedtest.Cache.New.apply_setting
    proxy_speedtest.Dns.set_msg_ttl eq_str str
fifty_left = refl

-- A reply that expires between the two times, on a machine where the conversion wraps around.
abbrev second_past : Clock
second_past = record ten_later { test = 160000000000; until = 161000000000 }

wrapped_ttl :
    (exchange texts name_of go_seconds silent second_past 0 query
      (exchange_without_cache texts name_of servers 100000000000 host query empty_cache).1).reply
    ≡ some (record query { answer = record { content = Data.a 7; ttl = 4294967295 } ∷ [] })
unfolding exchange proxy_speedtest.Cache.get_with_expire proxy_speedtest.Cache.get
    exchange_without_cache fetch proxy_speedtest.Dns.is_ip_request proxy_speedtest.Dns.ip_exchange
    proxy_speedtest.Dns.batch_exchange proxy_speedtest.Dns.put_msg_to_cache
    proxy_speedtest.Cache.set_with_expire proxy_speedtest.Cache.maybe_delete_oldest
    proxy_speedtest.Cache.push_back proxy_speedtest.Cache.trim proxy_speedtest.Cache.refresh
    new_lru_cache proxy_speedtest.Cache.New.apply_settings proxy_speedtest.Cache.New.apply_setting
    proxy_speedtest.Dns.set_msg_ttl eq_str str
wrapped_ttl = refl
