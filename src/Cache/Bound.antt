-- ===== src/Cache/Bound.antt =====
-- The bound on the number of entries.
use proxy_speedtest.Prelude.{
  ℕ, ◌+◌, ◌<◌, ◌≤◌, ◌≡◌, refl, subst, sym, Bool, ◌&&◌, List, [], ◌∷◌, ◌++◌, Option, none, some, ltb,
  leb, length, length-append, length-map, arith, Bool-cases, inl, inr,
}
use proxy_speedtest.Cache.{Keys, Entry, note}
use proxy_speedtest.Cache.New.{Setting, new_lru_cache}
use proxy_speedtest.Cache.Recency
use proxy_speedtest.Cache.Recency.{
  Recency, entry_of, without, expire, with_list, drop_front, fresh_entry,
}
use proxy_speedtest.Cache.Valid.{view, IsValid}
use proxy_speedtest.Cache.Life.{
  Call, to_set_with_expire, to_set, to_get, to_delete, spec_call, spec_calls, calls, calls-Shows,
  new_lru_cache-IsEmpty, IsEmpty-IsValid,
}

-- A list of entries that keeps to its size, where it has one.
abbrev Within : {K V : Type 0} → Recency K V → Type 0
Within r = 0 < r.max_size → length r.entries ≤ r.max_size

module _ {K V : Type 0} (q : Keys K) where
  length-expire :
      (on : Bool) (now : ℕ) (es : List (Entry K V)) (log : List (K × V))
      → length (expire q on now es log).0 ≤ length es
  length-expire on now [] log = omega arith
  length-expire on now (e ∷ es) log = ground (arith, length-expire on now es (note on e log))

  length-without : (k : K) (es : List (Entry K V)) → length (without q k es) ≤ length es
  length-without k [] = omega arith
  length-without k (e ∷ es) = ground (arith, length-without k es)

  length-replaced :
      (k : K) (es : List (Entry K V)) (o e : Entry K V)
      → entry_of q k es ≡ some o
      → length (without q k es ++ e ∷ []) ≡ length es
  length-replaced k [] o e h = cc
  length-replaced k (x ∷ es) o e h =
      ground (arith, length-append es (e ∷ []), length-replaced k es o e)

  expire_all-Within : (now : ℕ) (r : Recency K V) → Within r → Within (Recency.expire_all q now r)
  unfolding Recency.expire_all
  expire_all-Within now r w = ground (arith, length-expire r.on_evict now r.entries r.evicted)

  length-drop_front :
      (on : Bool) (es : List (Entry K V)) (log : List (K × V)) (n : ℕ)
      → length es ≤ n + 1
      → length (drop_front q on es log).0 ≤ n
  length-drop_front on [] log n l = omega arith
  length-drop_front on (e ∷ es) log n l = omega arith

  trim-Within :
      (r : Recency K V)
      → (0 < r.max_size → length r.entries ≤ r.max_size + 1)
      → Within (Recency.trim q r)
  unfolding Recency.trim
  trim-Within r w = elim (Bool-cases (ltb 0 r.max_size && ltb r.max_size (length r.entries))) [
    | inl y ↦ rw y (λ p. length-drop_front r.on_evict r.entries r.evicted r.max_size (w p))
    | inr n ↦ rw n (λ p. ground arith)
  ]

  placed-Within :
      (k : K) (x : V) (t : ℕ) (r : Recency K V) (o : Option (Entry K V))
      → entry_of q k r.entries ≡ o
      → Within r
      → Within (Recency.placed q k x t r o)
  placed-Within k x t r none e w =
      trim-Within (record r { entries = r.entries ++ fresh_entry q k x t ∷ [] })
        (λ p. rw (length-append r.entries (fresh_entry q k x t ∷ [])) (omega (arith, w p)))
  placed-Within k x t r (some o) e w =
      λ p. rw (length-replaced k r.entries o (fresh_entry q k x t) e) (w p)

  removed-Within :
      (k : K) (r : Recency K V) (o : Option (Entry K V))
      → Within r
      → Within (Recency.removed q k r o)
  unfolding Recency.removed
  removed-Within k r none w = w
  removed-Within k r (some e) w = λ p. omega (arith, w p, length-without k r.entries)

  found-Within :
      (k : K) (start now : ℕ) (r : Recency K V) (o : Option (Entry K V))
      → entry_of q k r.entries ≡ o
      → Within r
      → Within (Recency.found q k start now r o).1
  found-Within k start now r none e w = w
  found-Within k start now r (some o) e w =
      elim (Bool-cases (Recency.ages q r && leb o.expires start)) [
        | inl y ↦ rw y (expire_all-Within now _ (removed-Within k r (some o) w))
        | inr n ↦ rw n (λ p. rw (length-replaced k r.entries o (Recency.renewed q now r o) e) (w p))
      ]

  spec_call-Within : (a : Call K V) (r : Recency K V) → Within r → Within (spec_call q a r)
  unfolding spec_call Recency.set_with_expire Recency.get Recency.delete
  spec_call-Within (to_set_with_expire now k x t) r w =
      expire_all-Within now _ (placed-Within k x t r _ refl w)
  spec_call-Within (to_set start now k x) r w =
      expire_all-Within now _ (placed-Within k x _ r _ refl w)
  spec_call-Within (to_get start now k) r w = found-Within k start now r _ refl w
  spec_call-Within (to_delete k) r w = removed-Within k r _ w

  spec_calls-Within :
      (rest : List (Call K V)) (r : Recency K V) → Within r → Within (spec_calls q rest r)
  unfolding spec_calls
  spec_calls-Within [] r w = w
  spec_calls-Within (a ∷ rest) r w =
      spec_calls-Within rest (spec_call q a r) (spec_call-Within a r w)

  -- After `NewLRUCache` with any options and any calls of SetWithExpire, Set, get and Delete, the map and
  -- the list of the cache are consistent, and the list is within the size if one is set. `CloneTo` into
  -- the cache is not among the calls: it can fill it beyond its size.
  pub calls-Within :
      (heap : ℕ → Entry K V) (ss : List Setting) (rest : List (Call K V))
      → let c = calls q rest (new_lru_cache heap ss) in
        IsValid q c × (0 < c.max_size → length c.lru ≤ c.max_size)
  calls-Within heap ss rest =
      let made = new_lru_cache heap ss in
      let empty = new_lru_cache-IsEmpty heap ss in
      let after = calls-Shows q rest made (IsEmpty-IsValid q made empty) in
      let c = calls q rest made in
      let start : Within (view made) = λ p. rw empty.0 (omega arith) in
      let bound = subst Within (sym after.shown) (spec_calls-Within rest (view made) start) in
      (after.valid, λ p. rw (sym (length-map c.heap c.lru)) (bound p))
