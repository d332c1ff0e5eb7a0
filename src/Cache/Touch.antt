-- ===== src/Cache/Touch.antt =====
-- An entry that is used moves to the back of the list.
use proxy_speedtest.Prelude.{
  ℕ, ◌<◌, ◌≡◌, refl, ◌∙◌, subst, false, [], ◌∷◌, ◌++◌, none, some, ◌==◌, map, All-append, All-map,
  arith,
}
use mathlib.Core.List.{map-append}
use proxy_speedtest.Cache.{Keys, Entry, Cache, remove, write, move_to_back}
use proxy_speedtest.Cache.Recency.{without}
use proxy_speedtest.Cache.Index.{
  find, find-remove, Apart-remove, map-remove, find-append, Apart-append, same_refl, none-other,
  find-again, find-below,
}
use proxy_speedtest.Cache.Heap.{
  find-ext, Apart-ext, map-ext, write_self, write-apart, keys-kept, All-remove,
}
use proxy_speedtest.Cache.Valid.{view, IsValid, Shows}

module _ {K V : Type 0} (q : Keys K) where
  -- An entry moves to the back, and only its value or its time may change.
  pub touch-Shows :
      (c : Cache K V) (k : K) (i : ℕ) (heap : ℕ → Entry K V)
      → IsValid q c
      → find q c.heap k c.lru ≡ some i
      → ((j : ℕ) → (j == i) ≡ false → heap j ≡ c.heap j)
      → (heap i).key ≡ (c.heap i).key
      → Shows q
          (record (move_to_back i c) { heap = heap })
          (record (view c) { entries = without q k (map c.heap c.lru) ++ heap i ∷ [] })
  touch-Shows c k i heap v e other own =
      let kept = remove i c.lru in
      let gone : find q c.heap (c.heap i).key kept ≡ none =
        rw
          (
            find-remove q c.heap k c.lru i (c.heap i).key v.apart e,
            same_refl q c.heap (c.heap i).key,
          )
          refl in
      let keys = keys-kept c.heap heap i other own in
      record {
        valid = record {
          index = λ j.
              rw
                (
                  find-append q heap j kept i,
                  own,
                  find-ext q heap c.heap j kept (keys kept),
                  find-remove q c.heap k c.lru i j v.apart e,
                )
                (ground (arith, v.index j, find-again q c.heap k j c.lru i e));
          apart =
              Apart-append q heap kept i
                (Apart-ext q heap c.heap kept (keys kept)
                  (Apart-remove q c.heap k c.lru i v.apart e))
                (rw own (find-ext q heap c.heap (c.heap i).key kept (keys kept) ∙ gone));
          allocated =
              All-append (λ j. j < c.next) kept (i ∷ [])
                (All-remove (λ j. j < c.next) i c.lru v.allocated)
                (find-below q c.heap c.next k c.lru i v.allocated e, tt);
        };
        shown =
            rw
              (
                map-append heap kept (i ∷ []),
                map-ext heap c.heap kept (All-map other kept (none-other q c.heap i kept gone)),
                map-remove q c.heap k c.lru i e,
              )
              refl;
      }

  -- The same, where the entry is written with a new value or time.
  pub touch-write-Shows :
      (c : Cache K V) (k : K) (i : ℕ) (e : Entry K V)
      → IsValid q c
      → find q c.heap k c.lru ≡ some i
      → e.key ≡ (c.heap i).key
      → Shows q
          (record (move_to_back i c) { heap = write i e c.heap })
          (record (view c) { entries = without q k (map c.heap c.lru) ++ e ∷ [] })
  touch-write-Shows c k i e v f own =
      let heap = write i e c.heap in
      let self = write_self c.heap i e in
      subst
        (λ a.
          Shows q (record (move_to_back i c) { heap = heap })
            (record (view c) { entries = without q k (map c.heap c.lru) ++ a ∷ [] }))
        self (touch-Shows c k i heap v f (write-apart c.heap i e) (rw self own))
