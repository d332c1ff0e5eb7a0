-- ===== src/Cache/Refine.antt =====
-- The methods of the cache against what it promises.
use proxy_speedtest.Prelude.{
  ℕ, ◌≡◌, refl, ap, subst, true, false, [], ◌∷◌, ◌++◌, Option, none, some, ◌&&◌, if◌then◌else◌,
  length, leb, ltb, map, length-map, Bool-cases, inl, inr, arith,
}
use proxy_speedtest.Cache.{
  Keys, Cache, delete_front, delete_oldest, maybe_delete_oldest, ages, move_to_back, trim, store,
  renew, set_with_expire, refresh, found, get, delete_at, delete,
}
use proxy_speedtest.Cache.Recency
use proxy_speedtest.Cache.Recency.{
  Recency, entry_of, without, expire, with_list, drop_front, fresh_entry,
}
use proxy_speedtest.Cache.Index.{find, load, entry_of-map, find-same}
use proxy_speedtest.Cache.Valid.{view, IsValid, Shows}
use proxy_speedtest.Cache.Heap.{write_self}
use proxy_speedtest.Cache.Steps.{
  delete_element-Shows, delete_front-Shows, delete_oldest-Shows, push_back-Shows,
}
use proxy_speedtest.Cache.Touch.{touch-Shows, touch-write-Shows}

module _ {K V : Type 0} (q : Keys K) where
  pub Shows-trans :
      (f : Cache K V → Cache K V) (g : Recency K V → Recency K V)
      → ((c : Cache K V) → IsValid q c → Shows q (f c) (g (view c)))
      → (c : Cache K V) (r : Recency K V) → Shows q c r
      → Shows q (f c) (g r)
  Shows-trans f g step c r s = subst (λ a. Shows q (f c) (g a)) s.shown (step c s.valid)

  maybe_delete_oldest-Shows :
      (now : ℕ) (c : Cache K V)
      → IsValid q c
      → Shows q (maybe_delete_oldest q now c) (Recency.expire_all q now (view c))
  unfolding maybe_delete_oldest Recency.expire_all
  maybe_delete_oldest-Shows now c v =
      elim (ages c)
        as (λ b. Shows q (if b then delete_oldest q now (length c.lru) c else c) (
          if b
          then with_list q (view c) (expire q c.on_evict now (map c.heap c.lru) c.evicted)
          else view c)) [
            | true ↦ delete_oldest-Shows q now (length c.lru) c.lru c refl (omega arith) v
            | false ↦ record { valid = v; shown = refl }
          ]

  trim-Shows : (c : Cache K V) → IsValid q c → Shows q (trim q c) (Recency.trim q (view c))
  unfolding trim Recency.trim
  trim-Shows c v =
      rw (length-map c.heap c.lru)
        (elim (ltb 0 c.max_size && ltb c.max_size (length c.lru))
          as (λ b. Shows q (if b then delete_front q c.lru c else c) (
            if b
            then with_list q (view c) (drop_front q c.on_evict (map c.heap c.lru) c.evicted)
            else view c)) [
              | true ↦ delete_front-Shows q c.lru c refl v
              | false ↦ record { valid = v; shown = refl }
            ])

  store-Shows :
      (k : K) (x : V) (t : ℕ) (c : Cache K V) (o : Option ℕ)
      → IsValid q c
      → find q c.heap k c.lru ≡ o
      → Shows q (store q k x t c o) (Recency.placed q k x t (view c) (load c.heap o))
  unfolding renew
  store-Shows k x t c none v e =
      Shows-trans (trim q) (Recency.trim q) trim-Shows _ _ (push_back-Shows q c k x t v e)
  store-Shows k x t c (some i) v e =
      subst
        (λ a. Shows q (renew i x t c) (record (view c) {
          entries = without q k (map c.heap c.lru) ++ fresh_entry q a x t ∷ [];
        }))
        ((q.same_iff (c.heap i).key k).0 (find-same q c.heap k c.lru i e))
        (touch-write-Shows q c k i (record (c.heap i) { value = x; expires = t }) v e refl)

  pub set_with_expire-Shows :
      (now : ℕ) (k : K) (x : V) (t : ℕ) (c : Cache K V)
      → IsValid q c
      → Shows q (set_with_expire q now k x t c) (Recency.set_with_expire q now k x t (view c))
  unfolding set_with_expire Recency.set_with_expire
  set_with_expire-Shows now k x t c v =
      Shows-trans (maybe_delete_oldest q now) (Recency.expire_all q now)
        (maybe_delete_oldest-Shows now) _ _
        (rw (v.index k, entry_of-map q c.heap k c.lru) (store-Shows k x t c _ v refl))

  delete_at-Shows :
      (k : K) (c : Cache K V) (o : Option ℕ)
      → IsValid q c
      → find q c.heap k c.lru ≡ o
      → Shows q (delete_at q c o) (Recency.removed q k (view c) (load c.heap o))
  unfolding Recency.removed
  delete_at-Shows k c none v e = record { valid = v; shown = refl }
  delete_at-Shows k c (some i) v e = delete_element-Shows q c k i v e

  pub delete-Shows :
      (k : K) (c : Cache K V) → IsValid q c → Shows q (delete q k c) (Recency.delete q k (view c))
  unfolding delete Recency.delete
  delete-Shows k c v = rw (v.index k, entry_of-map q c.heap k c.lru) (delete_at-Shows k c _ v refl)

  refresh-Shows :
      (now : ℕ) (k : K) (c : Cache K V) (i : ℕ)
      → IsValid q c
      → find q c.heap k c.lru ≡ some i
      → let after = refresh now i (move_to_back i c) in
        let e = Recency.renewed q now (view c) (c.heap i) in
        (after.heap i ≡ e)
        × Shows q after (record (view c) { entries = without q k (map c.heap c.lru) ++ e ∷ [] })
  unfolding refresh
  refresh-Shows now k c i v e = elim (Bool-cases (ltb 0 c.max_age && c.update_age_on_get)) [
    | inl y ↦ rw y (write_self c.heap i _, touch-write-Shows q c k i _ v e refl)
    | inr n ↦ rw n (refl, touch-Shows q c k i c.heap v e (λ j p. refl) refl)
  ]

  found-Shows :
      (start now : ℕ) (k : K) (c : Cache K V) (o : Option ℕ)
      → IsValid q c
      → find q c.heap k c.lru ≡ o
      → ((found q start now c o).0 ≡ (Recency.found q k start now (view c) (load c.heap o)).0)
        × Shows q (found q start now c o).1 (Recency.found q k start now (view c) (load c.heap o)).1
  found-Shows start now k c none v e = (refl, record { valid = v; shown = refl })
  found-Shows start now k c (some i) v e =
      let gone =
        Shows-trans (maybe_delete_oldest q now) (Recency.expire_all q now)
          (maybe_delete_oldest-Shows now) _ _ (delete_element-Shows q c k i v e) in
      let kept = refresh-Shows now k c i v e in
      elim (Bool-cases (ages c && leb (c.heap i).expires start)) [
        | inl y ↦ rw y (refl, gone)
        | inr n ↦ rw n (ap some kept.0, kept.1)
      ]

  -- `get` of a valid cache returns what the list of entries gives for the key (an entry that is out of
  -- date is not returned, and goes), and leaves a valid cache with the entries that the list has then.
  pub get-Shows :
      (start now : ℕ) (k : K) (c : Cache K V)
      → IsValid q c
      → ((get q start now k c).0 ≡ (Recency.get q start now k (view c)).0)
        × Shows q (get q start now k c).1 (Recency.get q start now k (view c)).1
  unfolding get Recency.get
  get-Shows start now k c v =
      rw (v.index k, entry_of-map q c.heap k c.lru) (found-Shows start now k c _ v refl)
