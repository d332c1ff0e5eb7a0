-- ===== src/Cache/Tests.antt =====
-- A cache of two entries that last for ten seconds.
use proxy_speedtest.Prelude.{
  ℕ, ◌<◌, ◌≤◌, ◌≡◌, refl, false, List, [], ◌∷◌, none, some, ◌==◌, ==_iff, length, is_some,
}
use proxy_speedtest.Cache.{
  Keys, Entry, Cache, get, set_with_expire, maybe_delete_oldest, clone_to, exist, ages,
}
use proxy_speedtest.Cache.New.{Setting, with_evict, with_age, with_size, new_lru_cache}
use proxy_speedtest.Cache.Recency.{entry_of}
use proxy_speedtest.Cache.Valid.{view, IsValid, Shows}
use proxy_speedtest.Cache.Life.{
  Call, to_set, to_get, to_delete, calls, spec_calls, calls-Shows, new_lru_cache-IsEmpty,
  IsEmpty-IsValid,
}
use proxy_speedtest.Cache.Bound.{calls-Within}
use proxy_speedtest.Cache.Oldest.{old, maybe_delete_oldest-Ends}
use proxy_speedtest.Cache.Clone.{clone_to-Shows, exist-entry_of}

abbrev numbers : Keys ℕ
numbers = record { same = λ a b. a == b; same_iff = λ a b. ==_iff a b }

abbrev blank : ℕ → Entry ℕ ℕ
blank i = record { key = 0; value = 0; expires = 0 }

abbrev settings : List Setting
settings = with_size 2 ∷ with_age 10 ∷ with_evict ∷ []

-- Two keys, a third one that pushes the first out, a read of the second, and a deletion of the third.
abbrev history : List (Call ℕ ℕ)
history =
    to_set 100 100 1 11
    ∷ to_set 101 101 2 22
    ∷ to_set 102 102 3 33
    ∷ to_get 103 103 2
    ∷ to_delete 3
    ∷ []

abbrev empty_cache : Cache ℕ ℕ
empty_cache = new_lru_cache blank settings

abbrev used : Cache ℕ ℕ
used = calls numbers (to_set 100 100 1 11 ∷ to_set 101 101 2 22 ∷ []) empty_cache

empty_cache-IsValid : IsValid numbers empty_cache
empty_cache-IsValid = IsEmpty-IsValid numbers empty_cache (new_lru_cache-IsEmpty blank settings)

used-IsValid : IsValid numbers used
used-IsValid =
    (calls-Within numbers blank settings (to_set 100 100 1 11 ∷ to_set 101 101 2 22 ∷ [])).0

evicted_keys : (calls numbers history empty_cache).evicted ≡ (1, 11) ∷ (3, 33) ∷ []
unfolding calls proxy_speedtest.Cache.Life.call proxy_speedtest.Cache.delete get
    proxy_speedtest.Cache.set set_with_expire maybe_delete_oldest new_lru_cache
    proxy_speedtest.Cache.New.apply_settings proxy_speedtest.Cache.New.apply_setting
    proxy_speedtest.Cache.trim proxy_speedtest.Cache.push_back proxy_speedtest.Cache.delete_oldest
    proxy_speedtest.Cache.delete_element proxy_speedtest.Cache.remove proxy_speedtest.Cache.refresh
evicted_keys = refl

read_in_time : (get numbers 105 105 1 used).0 ≡ some (record { key = 1; value = 11; expires = 110 })
unfolding get calls proxy_speedtest.Cache.Life.call proxy_speedtest.Cache.set set_with_expire
    maybe_delete_oldest new_lru_cache proxy_speedtest.Cache.New.apply_settings
    proxy_speedtest.Cache.New.apply_setting proxy_speedtest.Cache.trim
    proxy_speedtest.Cache.push_back proxy_speedtest.Cache.delete_oldest
    proxy_speedtest.Cache.refresh
read_in_time = refl

read_too_late : (get numbers 110 111 1 used).0 ≡ none
unfolding get calls proxy_speedtest.Cache.Life.call proxy_speedtest.Cache.set set_with_expire
    maybe_delete_oldest new_lru_cache proxy_speedtest.Cache.New.apply_settings
    proxy_speedtest.Cache.New.apply_setting proxy_speedtest.Cache.trim
    proxy_speedtest.Cache.push_back proxy_speedtest.Cache.delete_oldest
read_too_late = refl

calls-Shows_example :
    Shows numbers
      (calls numbers history empty_cache)
      (spec_calls numbers history (view empty_cache))
calls-Shows_example = calls-Shows numbers history empty_cache empty_cache-IsValid

calls-Within_example :
    IsValid numbers (calls numbers history empty_cache)
    × (0 < (calls numbers history empty_cache).max_size
        → length (calls numbers history empty_cache).lru
          ≤ (calls numbers history empty_cache).max_size)
calls-Within_example = calls-Within numbers blank settings history

maybe_delete_oldest-Ends_example : old 200 (maybe_delete_oldest numbers 200 used) ≡ false
unfolding calls proxy_speedtest.Cache.Life.call proxy_speedtest.Cache.set set_with_expire
    maybe_delete_oldest new_lru_cache proxy_speedtest.Cache.New.apply_settings
    proxy_speedtest.Cache.New.apply_setting proxy_speedtest.Cache.trim
    proxy_speedtest.Cache.push_back proxy_speedtest.Cache.delete_oldest
maybe_delete_oldest-Ends_example = maybe_delete_oldest-Ends numbers 200 used refl

clone_to-Shows_example :
    Shows numbers
      (clone_to numbers used empty_cache)
      (record (view empty_cache) { entries = (view used).entries })
clone_to-Shows_example = clone_to-Shows numbers used empty_cache used-IsValid

exist-entry_of_example : exist 2 used ≡ is_some (entry_of numbers 2 (view used).entries)
exist-entry_of_example = exist-entry_of numbers 2 used used-IsValid
