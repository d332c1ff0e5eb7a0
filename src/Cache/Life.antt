-- ===== src/Cache/Life.antt =====
-- The life of a cache: `NewLRUCache`, and any sequence of calls of the methods that change it.
use proxy_speedtest.Prelude.{ℕ, ◌+◌, ◌≡◌, refl, List, [], ◌∷◌, none, if◌then◌else◌, ltb}
use proxy_speedtest.Cache.{Keys, Entry, Cache, set, get, delete, set_with_expire}
use proxy_speedtest.Cache.New.{
  Setting, with_evict, with_update_age_on_get, with_age, with_size, with_stale, apply_setting,
  apply_settings, new_lru_cache,
}
use proxy_speedtest.Cache.Recency
use proxy_speedtest.Cache.Recency.{Recency}
use proxy_speedtest.Cache.Valid.{view, IsValid, Shows}
use proxy_speedtest.Cache.Refine.{Shows-trans, set_with_expire-Shows, get-Shows, delete-Shows}

-- A call of `SetWithExpire`, `Set`, `get` or `Delete`, with the times that it reads.
pub data Call (K V : Type 0) : Type 0 where
  to_set_with_expire : ℕ → K → V → ℕ → Call K V
  to_set : ℕ → ℕ → K → V → Call K V
  to_get : ℕ → ℕ → K → Call K V
  to_delete : K → Call K V

module _ {K V : Type 0} (q : Keys K) where
  unfoldable pub call : Call K V → Cache K V → Cache K V
  call (to_set_with_expire now k x t) c = set_with_expire q now k x t c
  call (to_set start now k x) c = set q start now k x c
  call (to_get start now k) c = (get q start now k c).1
  call (to_delete k) c = delete q k c

  unfoldable pub calls : List (Call K V) → Cache K V → Cache K V
  calls [] c = c
  calls (a ∷ rest) c = calls rest (call a c)

  -- The same calls on a list of entries.
  unfoldable pub spec_call : Call K V → Recency K V → Recency K V
  spec_call (to_set_with_expire now k x t) r = Recency.set_with_expire q now k x t r
  spec_call (to_set start now k x) r =
      Recency.set_with_expire q now k x (if ltb 0 r.max_age then start + r.max_age else 0) r
  spec_call (to_get start now k) r = (Recency.get q start now k r).1
  spec_call (to_delete k) r = Recency.delete q k r

  unfoldable pub spec_calls : List (Call K V) → Recency K V → Recency K V
  spec_calls [] r = r
  spec_calls (a ∷ rest) r = spec_calls rest (spec_call a r)

  pub call-Shows :
      (a : Call K V) (c : Cache K V) → IsValid q c → Shows q (call a c) (spec_call a (view c))
  unfolding call spec_call set
  call-Shows (to_set_with_expire now k x t) c v = set_with_expire-Shows q now k x t c v
  call-Shows (to_set start now k x) c v = set_with_expire-Shows q now k x _ c v
  call-Shows (to_get start now k) c v = (get-Shows q start now k c v).1
  call-Shows (to_delete k) c v = delete-Shows q k c v

  -- From a valid cache, any calls leave a valid cache, with the entries, their order and the calls of
  -- `onEvict` that the same calls give on a list of entries.
  pub calls-Shows :
      (rest : List (Call K V)) (c : Cache K V)
      → IsValid q c
      → Shows q (calls rest c) (spec_calls rest (view c))
  unfolding calls spec_calls
  calls-Shows [] c v = record { valid = v; shown = refl }
  calls-Shows (a ∷ rest) c v =
      Shows-trans q (calls rest) (spec_calls rest) (calls-Shows rest) _ _ (call-Shows a c v)

-- A cache without entries.
abbrev pub IsEmpty : {K V : Type 0} → Cache K V → Type 0
IsEmpty c = (c.lru ≡ []) × ((k : _) → c.cache k ≡ none)

module _ {K V : Type 0} where
  apply_setting-IsEmpty : (s : Setting) (c : Cache K V) → IsEmpty c → IsEmpty (apply_setting s c)
  unfolding apply_setting
  apply_setting-IsEmpty with_evict c e = e
  apply_setting-IsEmpty with_update_age_on_get c e = e
  apply_setting-IsEmpty (with_age n) c e = e
  apply_setting-IsEmpty (with_size n) c e = e
  apply_setting-IsEmpty (with_stale b) c e = e

  apply_settings-IsEmpty :
      (ss : List Setting) (c : Cache K V) → IsEmpty c → IsEmpty (apply_settings ss c)
  unfolding apply_settings
  apply_settings-IsEmpty [] c e = e
  apply_settings-IsEmpty (s ∷ ss) c e =
      apply_settings-IsEmpty ss (apply_setting s c) (apply_setting-IsEmpty s c e)

  pub new_lru_cache-IsEmpty :
      (heap : ℕ → Entry K V) (ss : List Setting) → IsEmpty (new_lru_cache heap ss)
  unfolding new_lru_cache
  new_lru_cache-IsEmpty heap ss = apply_settings-IsEmpty ss _ (refl, λ k. refl)

  pub IsEmpty-IsValid : (q : Keys K) (c : Cache K V) → IsEmpty c → IsValid q c
  IsEmpty-IsValid q c e = record {
    index = λ k. rw e.0 (e.1 k);
    apart = rw e.0 tt;
    allocated = rw e.0 tt;
  }
