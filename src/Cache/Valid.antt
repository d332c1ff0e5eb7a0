-- ===== src/Cache/Valid.antt =====
-- The invariant of the cache, and what it shows of its contents.
use proxy_speedtest.Prelude.{◌<◌, ◌≡◌, map, All}
use proxy_speedtest.Cache.{Keys, Cache}
use proxy_speedtest.Cache.Recency.{Recency}
use proxy_speedtest.Cache.Index.{find, Apart}

-- The entries in the order of the list.
abbrev pub view : {K V : Type 0} → Cache K V → Recency K V
view c = record {
  max_age = c.max_age;
  max_size = c.max_size;
  update_age_on_get = c.update_age_on_get;
  stale_return = c.stale_return;
  on_evict = c.on_evict;
  entries = map c.heap c.lru;
  evicted = c.evicted;
}

-- The map has the address of the entry with the key, keys are apart, and addresses were allocated.
pub record IsValid {K V : Type 0} (q : Keys K) (c : Cache K V) : Type 0 where
  pub index : (k : K) → c.cache k ≡ find q c.heap k c.lru
  pub apart : Apart q c.heap c.lru
  pub allocated : All (λ i. i < c.next) c.lru

-- A valid cache that stands for a list of entries.
pub record Shows {K V : Type 0} (q : Keys K) (c : Cache K V) (r : Recency K V) : Type 0 where
  pub valid : IsValid q c
  pub shown : view c ≡ r
