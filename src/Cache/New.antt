-- ===== src/Cache/New.antt =====
-- common/cache/lrucache.go: `NewLRUCache` and its options.
use proxy_speedtest.Prelude.{ℕ, Bool, true, false, List, [], ◌∷◌, none}
use proxy_speedtest.Cache.{Entry, Cache}

-- `Option`, a change of the new cache. Whether `onEvict` is called is all that counts of the callback.
pub data Setting : Type 0 where
  with_evict : Setting
  with_update_age_on_get : Setting
  with_age : ℕ → Setting
  with_size : ℕ → Setting
  with_stale : Bool → Setting

unfoldable pub apply_setting : {K V : Type 0} → Setting → Cache K V → Cache K V
apply_setting with_evict c = record c { on_evict = true }
apply_setting with_update_age_on_get c = record c { update_age_on_get = true }
apply_setting (with_age seconds) c = record c { max_age = seconds }
apply_setting (with_size elements) c = record c { max_size = elements }
apply_setting (with_stale stale) c = record c { stale_return = stale }

unfoldable pub apply_settings : {K V : Type 0} → List Setting → Cache K V → Cache K V
apply_settings [] c = c
apply_settings (s ∷ ss) c = apply_settings ss (apply_setting s c)

-- `NewLRUCache`, on a heap whose addresses are all free.
unfoldable pub new_lru_cache : {K V : Type 0} → (ℕ → Entry K V) → List Setting → Cache K V
new_lru_cache heap ss = apply_settings ss (record {
  max_age = 0;
  max_size = 0;
  cache = λ k. none;
  lru = [];
  update_age_on_get = false;
  stale_return = false;
  on_evict = false;
  heap = heap;
  next = 0;
  evicted = [];
})
