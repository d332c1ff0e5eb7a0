-- ===== src/Dns/Fresh.antt =====
-- What the resolver has fetched, it replies again.
use proxy_speedtest.Prelude.{ℕ, ◌^◌, ◌≤◌, ◌<◌, ◌≡◌, ◌⊎◌, true, false, some}
use proxy_speedtest.Prelude.Int.{ℤ, pos}
use proxy_speedtest.Cache.{Cache}
use proxy_speedtest.Dns.{Msg, Clock, Exchanged, nanoseconds, set_msg_ttl}

-- The message with a TTL of 1, while it is fetched again, or with the rest of its TTL.
abbrev pub IsLeft : {Ip : Type 0} → Msg Ip → ℕ → Exchanged Ip → Type 0
IsLeft msg ttl x =
    (x.hit ≡ true)
    × ((n : ℕ) × ((x.reply ≡ some (set_msg_ttl n msg))
          × (((n ≡ 1) × (x.refetched ≡ true)) ⊎ ((n ≤ ttl) × (x.refetched ≡ false)))))

-- The conversion of a duration that is not negative and at most `n` seconds long, where `n` has 32 bits,
-- gives at most `n`: float64 rounds to the nearest number, and `n` is one.
abbrev pub IsSeconds : (ℤ → ℕ) → Type 0
IsSeconds f = (d n : ℕ) → d ≤ nanoseconds n → n < 2 ^ 32 → f (pos d) ≤ n

-- The reply did not expire between the two times that an exchange reads.
abbrev pub IsSteady : Clock → ℕ → Type 0
IsSteady t expires = t.test ≤ nanoseconds expires → t.until ≤ nanoseconds expires
