-- ===== src/Cache.antt =====
-- common/cache/lrucache.go. Entries stand in a heap, since `CloneTo` shares them between two caches;
-- an element of the list is given by the address of its entry. A time is a number of seconds since
-- 1970, without a bound, where the source adds in int64; an age below 1 is 0. The mutex makes each method one step.
pub mod Recency
mod Index
mod Heap
pub mod Valid
mod Steps
mod Touch
pub mod Refine
pub mod New
pub mod Life
pub mod Bound
pub mod Clone
pub mod Oldest
pub mod Stale
mod Tests
use proxy_speedtest.Prelude.{
  ℕ, zero, suc, ◌+◌, ◌<◌, ◌≡◌, ◌↔◌, Bool, true, false, not, ◌&&◌, List, [], ◌∷◌, ◌++◌, Option, none,
  some, if◌then◌else◌, ◌==◌, ltb, leb, length, map, is_some,
}

-- Keys are values of `interface{}` that can be compared, by `==`.
pub record Keys (K : Type 0) : Type 0 where
  pub same : K → K → Bool
  pub same_iff : (a b : K) → (same a b ≡ true) ↔ (a ≡ b)

pub record Entry (K V : Type 0) : Type 0 where
  pub key : K
  pub value : V
  pub expires : ℕ

-- The fields of `LruCache`, the heap with its next address, and the calls of `onEvict` so far.
pub record Cache (K V : Type 0) : Type 0 where
  pub max_age : ℕ
  pub max_size : ℕ
  pub cache : K → Option ℕ
  pub lru : List ℕ
  pub update_age_on_get : Bool
  pub stale_return : Bool
  pub on_evict : Bool
  pub heap : ℕ → Entry K V
  pub next : ℕ
  pub evicted : List (K × V)

-- `list.Remove` of the element at an address.
unfoldable pub remove : ℕ → List ℕ → List ℕ
remove i [] = []
remove i (j ∷ is) = if j == i then is else j ∷ remove i is

-- The calls of `onEvict` with that for one more entry, where the callback is set.
abbrev pub note : {K V : Type 0} → Bool → Entry K V → List (K × V) → List (K × V)
note on e log = if on then log ++ (e.key, e.value) ∷ [] else log

-- `deleteElement`
unfoldable pub delete_element : {K V : Type 0} → Keys K → ℕ → Cache K V → Cache K V
delete_element q i c = record c {
  lru = remove i c.lru;
  cache = λ k. if q.same (c.heap i).key k then none else c.cache k;
  evicted = note c.on_evict (c.heap i) c.evicted;
}

-- `!c.staleReturn && c.maxAge > 0`
abbrev pub ages : {K V : Type 0} → Cache K V → Bool
ages c = not c.stale_return && ltb 0 c.max_age

-- `deleteElement` of `Front()`
abbrev pub delete_front : {K V : Type 0} → Keys K → List ℕ → Cache K V → Cache K V
delete_front q [] c = c
delete_front q (i ∷ is) c = delete_element q i c

-- `le != nil && le.Value.(*entry).expires <= now`, of the list that starts at `le`
abbrev pub is_old : {K V : Type 0} → ℕ → List ℕ → Cache K V → Bool
is_old now [] c = false
is_old now (i ∷ is) c = leb (c.heap i).expires now

-- The loop of `maybeDeleteOldest`, at most as many rounds as the fuel.
unfoldable pub delete_oldest : {K V : Type 0} → Keys K → ℕ → ℕ → Cache K V → Cache K V
delete_oldest q now zero c = c
delete_oldest q now (suc f) c =
    let rest = delete_oldest q now f (delete_front q c.lru c) in
    if is_old now c.lru c then rest else c

-- `maybeDeleteOldest`: each round takes an element off the list.
unfoldable pub maybe_delete_oldest : {K V : Type 0} → Keys K → ℕ → Cache K V → Cache K V
maybe_delete_oldest q now c = if ages c then delete_oldest q now (length c.lru) c else c

abbrev pub write : {K V : Type 0} → ℕ → Entry K V → (ℕ → Entry K V) → ℕ → Entry K V
write i e heap j = if j == i then e else heap j

-- `MoveToBack`
abbrev pub move_to_back : {K V : Type 0} → ℕ → Cache K V → Cache K V
move_to_back i c = record c { lru = remove i c.lru ++ i ∷ [] }

-- A key that is there keeps its entry, with a new value and time.
unfoldable pub renew : {K V : Type 0} → ℕ → V → ℕ → Cache K V → Cache K V
renew i v expires c = record (move_to_back i c) {
  heap = write i (record (c.heap i) { value = v; expires = expires }) c.heap;
}

-- A key that is not there gets an entry at the back.
unfoldable pub push_back : {K V : Type 0} → Keys K → K → V → ℕ → Cache K V → Cache K V
push_back q k v expires c = record c {
  heap = write c.next (record { key = k; value = v; expires = expires }) c.heap;
  next = c.next + 1;
  cache = λ j. if q.same k j then some c.next else c.cache j;
  lru = c.lru ++ c.next ∷ [];
}

-- `if c.maxSize > 0 { if len := c.lru.Len(); len > c.maxSize { ... } }`
unfoldable pub trim : {K V : Type 0} → Keys K → Cache K V → Cache K V
trim q c = if ltb 0 c.max_size && ltb c.max_size (length c.lru) then delete_front q c.lru c else c

abbrev pub store : {K V : Type 0} → Keys K → K → V → ℕ → Cache K V → Option ℕ → Cache K V
store q k v expires c none = trim q (push_back q k v expires c)
store q k v expires c (some i) = renew i v expires c

-- `SetWithExpire`; `now` is read by `maybeDeleteOldest`.
unfoldable pub set_with_expire : {K V : Type 0} → Keys K → ℕ → K → V → ℕ → Cache K V → Cache K V
set_with_expire q now k v expires c = maybe_delete_oldest q now (store q k v expires c (c.cache k))

-- `Set`, with the two times that it reads.
unfoldable pub set : {K V : Type 0} → Keys K → ℕ → ℕ → K → V → Cache K V → Cache K V
set q start now k v c =
    set_with_expire q now k v (if ltb 0 c.max_age then start + c.max_age else 0) c

-- `entry.expires = time.Now().Unix() + c.maxAge`, under its test.
unfoldable pub refresh : {K V : Type 0} → ℕ → ℕ → Cache K V → Cache K V
refresh now i c =
    if ltb 0 c.max_age && c.update_age_on_get
    then record c { heap = write i (record (c.heap i) { expires = now + c.max_age }) c.heap }
    else c

-- `get` at the address that the map has for the key: the entry, and the cache after the call.
abbrev pub found :
    {K V : Type 0} → Keys K → ℕ → ℕ → Cache K V → Option ℕ → Option (Entry K V) × Cache K V
found q start now c none = (none, c)
found q start now c (some i) =
    let kept = refresh now i (move_to_back i c) in
    if ages c && leb (c.heap i).expires start
    then (none, maybe_delete_oldest q now (delete_element q i c))
    else (some (kept.heap i), kept)

-- `get`, with the time read by its test and the time read after it.
unfoldable pub get :
    {K V : Type 0} → Keys K → ℕ → ℕ → K → Cache K V → Option (Entry K V) × Cache K V
get q start now k c = found q start now c (c.cache k)

abbrev pub value_of : {K V : Type 0} → Option (Entry K V) → Option V
value_of none = none
value_of (some e) = some e.value

abbrev pub value_and_time : {K V : Type 0} → Option (Entry K V) → Option (V × ℕ)
value_and_time none = none
value_and_time (some e) = some (e.value, e.expires)

-- `Get`
unfoldable pub get_value : {K V : Type 0} → Keys K → ℕ → ℕ → K → Cache K V → Option V × Cache K V
get_value q start now k c = let r = get q start now k c in (value_of r.0, r.1)

-- `GetWithExpire`
unfoldable pub get_with_expire :
    {K V : Type 0} → Keys K → ℕ → ℕ → K → Cache K V → Option (V × ℕ) × Cache K V
get_with_expire q start now k c = let r = get q start now k c in (value_and_time r.0, r.1)

-- `Exist`
unfoldable pub exist : {K V : Type 0} → K → Cache K V → Bool
exist k c = is_some (c.cache k)

abbrev pub delete_at : {K V : Type 0} → Keys K → Cache K V → Option ℕ → Cache K V
delete_at q c none = c
delete_at q c (some i) = delete_element q i c

-- `Delete`
unfoldable pub delete : {K V : Type 0} → Keys K → K → Cache K V → Cache K V
delete q k c = delete_at q c (c.cache k)

-- The map that the loop of `CloneTo` fills: the last element of a key counts.
unfoldable pub index_of : {K V : Type 0} → Keys K → (ℕ → Entry K V) → List ℕ → K → Option ℕ
index_of q heap [] k = none
index_of q heap (i ∷ is) k = elim (index_of q heap is k) [
  | some j ↦ some j
  | none ↦ if q.same (heap i).key k then some i else none
]

-- `CloneTo`, where both caches stand in the heap of `c`: the entries are shared.
unfoldable pub clone_to : {K V : Type 0} → Keys K → Cache K V → Cache K V → Cache K V
clone_to q c n = record n {
  lru = c.lru;
  cache = index_of q c.heap c.lru;
  heap = c.heap;
  next = c.next;
}
