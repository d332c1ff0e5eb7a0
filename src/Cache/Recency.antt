-- ===== src/Cache/Recency.antt =====
-- What the cache promises: entries in the order of their last use, the oldest first, one for each
-- key, and no addresses.
use proxy_speedtest.Prelude.{
  ℕ, ◌+◌, Bool, not, ◌&&◌, List, [], ◌∷◌, ◌++◌, Option, none, some, if◌then◌else◌, ltb, leb, length,
}
use proxy_speedtest.Cache.{Keys, Entry, note}

pub record Recency (K V : Type 0) : Type 0 where
  pub max_age : ℕ
  pub max_size : ℕ
  pub update_age_on_get : Bool
  pub stale_return : Bool
  pub on_evict : Bool
  pub entries : List (Entry K V)
  pub evicted : List (K × V)

module _ {K V : Type 0} (q : Keys K) where
  -- The entry of a key, and the entries without it.
  abbrev pub entry_of : K → List (Entry K V) → Option (Entry K V)
  entry_of k [] = none
  entry_of k (e ∷ es) = if q.same e.key k then some e else entry_of k es

  abbrev pub without : K → List (Entry K V) → List (Entry K V)
  without k [] = []
  without k (e ∷ es) = if q.same e.key k then es else e ∷ without k es

  abbrev pub fresh_entry : K → V → ℕ → Entry K V
  fresh_entry k v expires = record { key = k; value = v; expires = expires }

  -- The oldest entries go as long as they are out of date.
  abbrev pub expire : Bool → ℕ → List (Entry K V) → List (K × V) → List (Entry K V) × List (K × V)
  expire on now [] log = ([], log)
  expire on now (e ∷ es) log =
      let rest = expire on now es (note on e log) in
      if leb e.expires now then rest else (e ∷ es, log)

  abbrev pub ages : Recency K V → Bool
  ages r = not r.stale_return && ltb 0 r.max_age

  abbrev pub with_list : Recency K V → List (Entry K V) × List (K × V) → Recency K V
  with_list r l = record r { entries = l.0; evicted = l.1 }

  unfoldable pub expire_all : ℕ → Recency K V → Recency K V
  expire_all now r = if ages r then with_list r (expire r.on_evict now r.entries r.evicted) else r

  -- The oldest entry goes if there is one too many.
  abbrev pub drop_front : Bool → List (Entry K V) → List (K × V) → List (Entry K V) × List (K × V)
  drop_front on [] log = ([], log)
  drop_front on (e ∷ es) log = (es, note on e log)

  unfoldable pub trim : Recency K V → Recency K V
  trim r =
      if ltb 0 r.max_size && ltb r.max_size (length r.entries)
      then with_list r (drop_front r.on_evict r.entries r.evicted)
      else r

  -- The entry with the key goes to the back; only a new key can push the oldest entry out.
  abbrev pub placed : K → V → ℕ → Recency K V → Option (Entry K V) → Recency K V
  placed k v expires r none =
      trim (record r { entries = r.entries ++ fresh_entry k v expires ∷ [] })
  placed k v expires r (some old) = record r {
    entries = without k r.entries ++ fresh_entry k v expires ∷ [];
  }

  unfoldable pub set_with_expire : ℕ → K → V → ℕ → Recency K V → Recency K V
  set_with_expire now k v expires r = expire_all now (placed k v expires r (entry_of k r.entries))

  unfoldable pub removed : K → Recency K V → Option (Entry K V) → Recency K V
  removed k r none = r
  removed k r (some e) = record r {
    entries = without k r.entries;
    evicted = note r.on_evict e r.evicted;
  }

  unfoldable pub delete : K → Recency K V → Recency K V
  delete k r = removed k r (entry_of k r.entries)

  -- The new time of an entry that is read.
  abbrev pub renewed : ℕ → Recency K V → Entry K V → Entry K V
  renewed now r e =
      if ltb 0 r.max_age && r.update_age_on_get then record e { expires = now + r.max_age } else e

  -- An entry that is out of date is not returned, and goes; any other moves to the back.
  abbrev pub found : K → ℕ → ℕ → Recency K V → Option (Entry K V) → Option (Entry K V) × Recency K V
  found k start now r none = (none, r)
  found k start now r (some e) =
      if ages r && leb e.expires start then (none, expire_all now (removed k r (some e))) else (
        some (renewed now r e),
        record r { entries = without k r.entries ++ renewed now r e ∷ [] },
      )

  unfoldable pub get : ℕ → ℕ → K → Recency K V → Option (Entry K V) × Recency K V
  get start now k r = found k start now r (entry_of k r.entries)
