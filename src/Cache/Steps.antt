-- ===== src/Cache/Steps.antt =====
-- The steps that the methods of the cache are made of.
use proxy_speedtest.Prelude.{
  ℕ, zero, suc, ◌+◌, ◌<◌, ◌≤◌, ◌≡◌, refl, ap, ◌∙◌, true, false, List, [], ◌∷◌, ◌++◌, none, some,
  if◌then◌else◌, length, leb, map, All-append, All-map, arith,
}
use mathlib.Core.List.{map-append}
use proxy_speedtest.Cache.{
  Keys, Cache, remove, write, note, delete_element, delete_oldest, is_old, push_back, delete_front,
}
use proxy_speedtest.Cache.Recency
use proxy_speedtest.Cache.Recency.{Recency, without, expire, with_list, drop_front, fresh_entry}
use proxy_speedtest.Cache.Index.{
  find, find-remove, Apart-remove, map-remove, find-append, Apart-append, same_refl, find-absent,
}
use proxy_speedtest.Cache.Heap.{
  find-ext, Apart-ext, map-ext, write-other, write_self, below-other, All-remove,
}
use proxy_speedtest.Cache.Valid.{view, IsValid, Shows}

remove-front : (i : ℕ) (is : List ℕ) → remove i (i ∷ is) ≡ is
unfolding remove
remove-front i is = ground arith

module _ {K V : Type 0} (q : Keys K) where
  pub delete_element-Shows :
      (c : Cache K V) (k : K) (i : ℕ)
      → IsValid q c
      → find q c.heap k c.lru ≡ some i
      → Shows q (delete_element q i c) (Recency.removed q k (view c) (some (c.heap i)))
  unfolding delete_element Recency.removed
  delete_element-Shows c k i v e = record {
    valid = record {
      index = λ j. ground (arith, v.index j, find-remove q c.heap k c.lru i j v.apart e);
      apart = Apart-remove q c.heap k c.lru i v.apart e;
      allocated = All-remove (λ j. j < c.next) i c.lru v.allocated;
    };
    shown = rw (map-remove q c.heap k c.lru i e);
  }

  pub front-find :
      (c : Cache K V) (i : ℕ) (is : List ℕ)
      → c.lru ≡ i ∷ is
      → find q c.heap (c.heap i).key c.lru ≡ some i
  front-find c i is e = rw e (ground (arith, same_refl q c.heap (c.heap i).key))

  -- A round of the loop at a list that is known.
  pub delete_oldest-round :
      (now f : ℕ) (is : List ℕ) (c : Cache K V)
      → c.lru ≡ is
      → delete_oldest q now (suc f) c
        ≡ (if is_old now is c then delete_oldest q now f (delete_front q is c) else c)
  unfolding delete_oldest
  delete_oldest-round now f is c e =
      ap (λ l. if is_old now l c then delete_oldest q now f (delete_front q l c) else c) e

  pub delete_oldest-empty : (now f : ℕ) (c : Cache K V) → c.lru ≡ [] → delete_oldest q now f c ≡ c
  unfolding delete_oldest
  delete_oldest-empty now zero c e = refl
  delete_oldest-empty now (suc f) c e = delete_oldest-round now f [] c e

  pub delete_element-lru :
      (c : Cache K V) (i : ℕ) (is : List ℕ) → c.lru ≡ i ∷ is → (delete_element q i c).lru ≡ is
  unfolding delete_element
  delete_element-lru c i is e = ap (remove i) e ∙ remove-front i is

  pub delete_oldest-Shows :
      (now f : ℕ) (is : List ℕ) (c : Cache K V)
      → c.lru ≡ is
      → length is ≤ f
      → IsValid q c
      → Shows q
          (delete_oldest q now f c)
          (with_list q (view c) (expire q c.on_evict now (map c.heap is) c.evicted))
  unfolding delete_element
  delete_oldest-Shows now f [] c e l v =
      rw (delete_oldest-empty now f c e) (record { valid = v; shown = rw (ap (map c.heap) e) refl })
  delete_oldest-Shows now zero (i ∷ is) c e l v = absurd (omega arith)
  delete_oldest-Shows now (suc f) (i ∷ is) c e l v =
      let next = delete_element-Shows c (c.heap i).key i v (front-find c i is e) in
      let rest =
        delete_oldest-Shows now f is (delete_element q i c) (delete_element-lru c i is e)
          (omega arith) next.valid in
      rw (delete_oldest-round now f (i ∷ is) c e)
        (elim (leb (c.heap i).expires now)
          as (λ b. Shows q (if b then delete_oldest q now f (delete_element q i c) else c) (
            with_list q (view c) (
              if b
              then expire q c.on_evict now (map c.heap is) (note c.on_evict (c.heap i) c.evicted)
              else (c.heap i ∷ map c.heap is, c.evicted)))) [
                | true ↦ rest
                | false ↦ record { valid = v; shown = rw (ap (map c.heap) e) refl }
              ])

  pub delete_front-Shows :
      (is : List ℕ) (c : Cache K V)
      → c.lru ≡ is
      → IsValid q c
      → Shows q
          (delete_front q is c)
          (with_list q (view c) (drop_front q c.on_evict (map c.heap is) c.evicted))
  unfolding delete_element
  delete_front-Shows [] c e v = record { valid = v; shown = rw (ap (map c.heap) e) refl }
  delete_front-Shows (i ∷ is) c e v = record {
    valid = (delete_element-Shows c (c.heap i).key i v (front-find c i is e)).valid;
    shown = rw (ap (map c.heap) (delete_element-lru c i is e)) refl;
  }

  pub push_back-Shows :
      (c : Cache K V) (k : K) (x : V) (t : ℕ)
      → IsValid q c
      → find q c.heap k c.lru ≡ none
      → Shows q
          (push_back q k x t c)
          (record (view c) { entries = map c.heap c.lru ++ fresh_entry q k x t ∷ [] })
  unfolding push_back
  push_back-Shows c k x t v e =
      let made = fresh_entry q k x t in
      let heap = write c.next made c.heap in
      let same = write-other c.heap c.next made c.lru (below-other c.next c.lru v.allocated) in
      let keys = All-map (λ j p. ap (λ a. a.key) p) c.lru same in
      let self = write_self c.heap c.next made in
      record {
        valid = record {
          index = λ j.
              rw (find-append q heap j c.lru c.next, self, find-ext q heap c.heap j c.lru keys)
                (ground (arith, v.index j, find-absent q c.heap k j c.lru e));
          apart =
              Apart-append q heap c.lru c.next (Apart-ext q heap c.heap c.lru keys v.apart)
                (rw self (find-ext q heap c.heap k c.lru keys ∙ e));
          allocated =
              All-append (λ j. j < c.next + 1) c.lru (c.next ∷ [])
                (All-map (λ j l. omega arith) c.lru v.allocated) (omega arith, tt);
        };
        shown = rw (map-append heap c.lru (c.next ∷ []), self, map-ext heap c.heap c.lru same) refl;
      }
