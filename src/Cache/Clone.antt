-- ===== src/Cache/Clone.antt =====
-- `CloneTo`, which shares the entries with the target, and `Exist`.
use proxy_speedtest.Prelude.{ℕ, ◌≡◌, refl, List, [], ◌∷◌, Option, none, some, is_some, arith}
use proxy_speedtest.Cache.{Keys, Entry, Cache, index_of, clone_to, exist}
use proxy_speedtest.Cache.Recency.{entry_of}
use proxy_speedtest.Cache.Index.{find, Apart, load, entry_of-map, find-absent}
use proxy_speedtest.Cache.Valid.{view, IsValid, Shows}

module _ {K V : Type 0} (q : Keys K) where
  -- The last element of a key is the only one.
  index_of-find :
      (heap : ℕ → Entry K V) (k : K) (is : List ℕ)
      → Apart q heap is
      → index_of q heap is k ≡ find q heap k is
  unfolding index_of
  index_of-find heap k [] a = refl
  index_of-find heap k (i ∷ is) a =
      rw (index_of-find heap k is a.1) (ground (arith, find-absent q heap (heap i).key k is a.0))

  -- `CloneTo` of a valid cache gives a valid one with the same entries in their order, and the settings
  -- that the target had.
  pub clone_to-Shows :
      (c n : Cache K V)
      → IsValid q c
      → Shows q (clone_to q c n) (record (view n) { entries = (view c).entries })
  unfolding clone_to
  clone_to-Shows c n v = record {
    valid = record {
      index = λ k. index_of-find c.heap k c.lru v.apart;
      apart = v.apart;
      allocated = v.allocated;
    };
    shown = refl;
  }

  is_some-load : (heap : ℕ → Entry K V) (o : Option ℕ) → is_some o ≡ is_some (load heap o)
  is_some-load heap none = refl
  is_some-load heap (some i) = refl

  -- `Exist` tells whether there is an entry with the key.
  pub exist-entry_of :
      (k : K) (c : Cache K V) → IsValid q c → exist k c ≡ is_some (entry_of q k (view c).entries)
  unfolding exist
  exist-entry_of k c v =
      rw (v.index k, entry_of-map q c.heap k c.lru) (is_some-load c.heap (find q c.heap k c.lru))
