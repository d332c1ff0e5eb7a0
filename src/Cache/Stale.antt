-- ===== src/Cache/Stale.antt =====
-- A cache that returns entries which are out of date, as the resolver uses it: what was set is there.
use proxy_speedtest.Prelude.{
  ℕ, ◌<◌, ◌≡◌, refl, sym, ap, ◌∙◌, subst, Bool, true, false, not, ◌&&◌, List, [], ◌∷◌, ◌++◌, Option,
  none, some, if◌then◌else◌, ltb, length, All, arith,
}
use proxy_speedtest.Cache.{
  Keys, Entry, Cache, write, renew, push_back, trim, store, set_with_expire, delete_front,
  delete_element, delete_oldest, maybe_delete_oldest, ages, refresh, found, get, get_with_expire,
  value_and_time, move_to_back,
}
use proxy_speedtest.Cache.Heap.{write_self, write-apart}
use proxy_speedtest.Cache.Index.{find, same_refl}
use proxy_speedtest.Cache.Valid.{IsValid}

pub record IsStale {K V : Type 0} (c : Cache K V) : Type 0 where
  pub stale : c.stale_return ≡ true
  pub no_age : c.max_age ≡ 0

-- The cache has a value and a time for a key.
abbrev pub Holds : {K V : Type 0} → Cache K V → K → V → ℕ → Type 0
Holds c k v t =
    (i : ℕ) × ((c.cache k ≡ some i) × (((c.heap i).value ≡ v) × ((c.heap i).expires ≡ t)))

no_ages : (s : Bool) (n : ℕ) → s ≡ true → (not s && ltb 0 n) ≡ false
no_ages true n e = refl
no_ages false n e = absurd (ground arith)

first_other : (b : Bool) (i : ℕ) (o : Option ℕ) → (if b then some i else o) ≡ none → b ≡ false
first_other true i o e = cc
first_other false i o e = refl

pair_up :
    {V : Type 0} {v w : V} {s t : ℕ}
    → v ≡ w
    → s ≡ t
    → Path (Option (V × ℕ)) (some (v, s)) (some (w, t))
pair_up e f = cc

module _ {K V : Type 0} (q : Keys K) where
  pub maybe_delete_oldest-IsStale :
      (now : ℕ) (c : Cache K V) → IsStale c → maybe_delete_oldest q now c ≡ c
  unfolding maybe_delete_oldest
  maybe_delete_oldest-IsStale now c s =
      ap (λ (b : Bool). if b then delete_oldest q now (length c.lru) c else c)
        (no_ages c.stale_return c.max_age s.stale)

  abbrev hit_of : Bool → Cache K V → Cache K V → ℕ → Option (Entry K V) × Cache K V
  hit_of b d e i = if b then (none, d) else (some (e.heap i), e)

  -- A hit where neither the test for an old entry nor that for a new time holds.
  kept_entry :
      (a b x u : Bool) (d e f : Cache K V) (i : ℕ)
      → a ≡ false
      → x ≡ false
      → value_and_time (hit_of (a && b) d (if x && u then e else f) i).0
        ≡ some ((f.heap i).value, (f.heap i).expires)
  kept_entry true b x u d e f i p r = absurd (ground arith)
  kept_entry false b true u d e f i p r = absurd (ground arith)
  kept_entry false b false u d e f i p r = refl

  pub get_with_expire-Holds :
      (start now : ℕ) (c : Cache K V) (k : K) (v : V) (t : ℕ)
      → IsStale c
      → Holds c k v t
      → (get_with_expire q start now k c).0 ≡ some (v, t)
  unfolding get_with_expire get refresh
  get_with_expire-Holds start now c k v t s (i, (e, (f, g))) =
      let kept =
        kept_entry (ages c) _ (ltb 0 c.max_age) c.update_age_on_get _ _ (move_to_back i c) i
          (no_ages c.stale_return c.max_age s.stale) (ap (λ (n : ℕ). ltb 0 n) s.no_age) in
      ap (λ (o : Option ℕ). value_and_time (found q start now c o).0) e ∙ kept ∙ pair_up f g

  renew-Holds :
      (c : Cache K V) (k : K) (v : V) (t i : ℕ) → c.cache k ≡ some i → Holds (renew i v t c) k v t
  unfolding renew
  renew-Holds c k v t i e =
      let w = write_self c.heap i (record (c.heap i) { value = v; expires = t }) in
      (i, (e, (ap (λ (x : Entry K V). x.value) w, ap (λ (x : Entry K V). x.expires) w)))

  push_back-Holds : (c : Cache K V) (k : K) (v : V) (t : ℕ) → Holds (push_back q k v t c) k v t
  unfolding push_back
  push_back-Holds c k v t =
      let w = write_self c.heap c.next (record { key = k; value = v; expires = t }) in
      (
        c.next,
        (
          rw (same_refl q c.heap k) refl,
          (ap (λ (x : Entry K V). x.value) w, ap (λ (x : Entry K V). x.expires) w),
        ),
      )

  -- No entry has a key that is absent.
  not_found :
      (c : Cache K V) (k : K) (i : ℕ) (is : List ℕ)
      → c.lru ≡ i ∷ is
      → c.cache k ≡ none
      → IsValid q c
      → q.same (c.heap i).key k ≡ false
  not_found c k i is e absent valid =
      first_other (q.same (c.heap i).key k) i (find q c.heap k is)
        (sym (ap (λ (l : List ℕ). find q c.heap k l) e) ∙ sym (valid.index k) ∙ absent)

  -- The front that `trim` takes off is not the entry that was added.
  delete_front-Holds :
      (is : List ℕ) (c : Cache K V) (k : K) (v : V) (t : ℕ)
      → IsValid q c
      → c.lru ≡ is
      → c.cache k ≡ none
      → (ltb 0 c.max_size && ltb c.max_size (length (is ++ c.next ∷ []))) ≡ true
      → Holds (delete_front q (is ++ c.next ∷ []) (push_back q k v t c)) k v t
  unfolding push_back delete_element
  delete_front-Holds [] c k v t valid e absent h = absurd (ground arith)
  delete_front-Holds (i ∷ is) c k v t valid e absent h =
      let entry : Entry K V = record { key = k; value = v; expires = t } in
      let below = subst (All (λ j. j < c.next)) e valid.allocated in
      let w = write_self c.heap c.next entry in
      let same_entry = write-apart c.heap c.next entry i (ground (arith, below.0)) in
      let other : q.same (write c.next entry c.heap i).key k ≡ false =
        ap (λ (x : Entry K V). q.same x.key k) same_entry ∙ not_found c k i is e absent valid in
      (
        c.next,
        (
          rw (other, same_refl q c.heap k) refl,
          (ap (λ (x : Entry K V). x.value) w, ap (λ (x : Entry K V). x.expires) w),
        ),
      )

  -- A cache whose settings are kept.
  IsStaleHolds : Cache K V → K → V → ℕ → Type 0
  IsStaleHolds c k v t = IsStale c × Holds c k v t

  either :
      (b : Bool) (x y : Cache K V) (k : K) (v : V) (t : ℕ)
      → (b ≡ true → IsStaleHolds x k v t)
      → IsStaleHolds y k v t
      → IsStaleHolds (if b then x else y) k v t
  either true x y k v t p r = p refl
  either false x y k v t p r = r

  delete_front-IsStale : (is : List ℕ) (c : Cache K V) → IsStale c → IsStale (delete_front q is c)
  unfolding delete_element
  delete_front-IsStale [] c s = s
  delete_front-IsStale (i ∷ is) c s = record { stale = s.stale; no_age = s.no_age }

  trim-IsStaleHolds :
      (c : Cache K V) (k : K) (v : V) (t : ℕ)
      → IsValid q c
      → IsStale c
      → c.cache k ≡ none
      → IsStaleHolds (trim q (push_back q k v t c)) k v t
  unfolding trim push_back IsStaleHolds
  trim-IsStaleHolds c k v t valid s absent =
      let pushed : IsStale (push_back q k v t c) = record { stale = s.stale; no_age = s.no_age } in
      either (ltb 0 c.max_size && ltb c.max_size (length (c.lru ++ c.next ∷ [])))
        (delete_front q (c.lru ++ c.next ∷ []) (push_back q k v t c)) (push_back q k v t c) k v t
        (λ h. (
          delete_front-IsStale (c.lru ++ c.next ∷ []) (push_back q k v t c) pushed,
          delete_front-Holds c.lru c k v t valid refl absent h,
        ))
        (pushed, push_back-Holds c k v t)

  store-IsStaleHolds :
      (o : Option ℕ) (c : Cache K V) (k : K) (v : V) (t : ℕ)
      → IsValid q c
      → IsStale c
      → c.cache k ≡ o
      → IsStaleHolds (store q k v t c o) k v t
  unfolding renew IsStaleHolds
  store-IsStaleHolds none c k v t valid s e = trim-IsStaleHolds c k v t valid s e
  store-IsStaleHolds (some i) c k v t valid s e =
      (record { stale = s.stale; no_age = s.no_age }, renew-Holds c k v t i e)

  pub set_with_expire-Holds :
      (now : ℕ) (k : K) (v : V) (t : ℕ) (c : Cache K V)
      → IsValid q c
      → IsStale c
      → IsStale (set_with_expire q now k v t c) × Holds (set_with_expire q now k v t c) k v t
  unfolding set_with_expire IsStaleHolds
  set_with_expire-Holds now k v t c valid s =
      let h = store-IsStaleHolds (c.cache k) c k v t valid s refl in
      subst (λ d. IsStale d × Holds d k v t)
        (sym (maybe_delete_oldest-IsStale now (store q k v t c (c.cache k)) h.0)) h
