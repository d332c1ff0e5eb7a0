-- ===== src/Cache/Index.antt =====
-- Lookup by key in a list of addresses.
use proxy_speedtest.Prelude.{
  ℕ, ◌+◌, ◌<◌, ◌≡◌, refl, sym, ◌∙◌, subst, true, false, List, [], ◌∷◌, ◌++◌, Option, none, some,
  if◌then◌else◌, ◌==◌, length, map, All, arith,
}
use proxy_speedtest.Cache.{Keys, Entry, remove}
use proxy_speedtest.Cache.Recency.{entry_of, without}

abbrev pub or_last {ℓ} : {A : Type ℓ} → Option A → Option A → Option A
or_last none b = b
or_last (some a) b = some a

abbrev pub load : {K V : Type 0} → (ℕ → Entry K V) → Option ℕ → Option (Entry K V)
load h none = none
load h (some i) = some (h i)

module _ {K V : Type 0} (q : Keys K) (h : ℕ → Entry K V) where
  abbrev pub find : K → List ℕ → Option ℕ
  find k [] = none
  find k (i ∷ is) = if q.same (h i).key k then some i else find k is

  -- No two of the entries have the same key.
  abbrev pub Apart : List ℕ → Type 0
  Apart [] = Unit
  Apart (i ∷ is) = (find (h i).key is ≡ none) × Apart is

  -- Two keys that are the same as a third one.
  same_join :
      (a b j k : K) → q.same a j ≡ true → q.same b j ≡ true → q.same b k ≡ true → q.same a k ≡ true
  same_join a b j k x y z =
      (q.same_iff a k).1 ((q.same_iff a j).0 x ∙ sym ((q.same_iff b j).0 y) ∙ (q.same_iff b k).0 z)

  pub same_refl : (a : K) → q.same a a ≡ true
  same_refl a = (q.same_iff a a).1 refl

  same_sym : (a b : K) → q.same a b ≡ true → q.same b a ≡ true
  same_sym a b x = (q.same_iff b a).1 (sym ((q.same_iff a b).0 x))

  pub find-absent :
      (a j : K) (is : List ℕ) → find a is ≡ none → q.same a j ≡ true → find j is ≡ none
  find-absent a j is e s = subst (λ k. find k is ≡ none) ((q.same_iff a j).0 s) e

  pub find-same : (k : K) (is : List ℕ) (i : ℕ) → find k is ≡ some i → q.same (h i).key k ≡ true
  find-same k [] i e = cc
  find-same k (x ∷ is) i e = ground (arith, find-same k is i)

  -- An entry that is found is found under every key that is the same as its own.
  pub find-again :
      (k j : K) (is : List ℕ) (i : ℕ)
      → find k is ≡ some i
      → q.same (h i).key j ≡ true
      → find j is ≡ some i
  find-again k j is i e s =
      subst (λ a. find a is ≡ some i)
        (sym ((q.same_iff (h i).key k).0 (find-same k is i e)) ∙ (q.same_iff (h i).key j).0 s) e

  pub find-below :
      (n : ℕ) (k : K) (is : List ℕ) (i : ℕ) → All (λ j. j < n) is → find k is ≡ some i → i < n
  find-below n k [] i a e = cc
  find-below n k (x ∷ is) i a e = ground (arith, a.0, find-below n k is i a.1)

  -- The addresses of a list without a key are others than that of an entry with the key.
  pub none-other : (i : ℕ) (is : List ℕ) → find (h i).key is ≡ none → All (λ j. (j == i) ≡ false) is
  none-other i [] e = tt
  none-other i (x ∷ is) e = ground (arith, same_refl (h i).key, none-other i is)

  pub find-remove :
      (k : K) (is : List ℕ) (i : ℕ) (j : K)
      → Apart is
      → find k is ≡ some i
      → find j (remove i is) ≡ (if q.same (h i).key j then none else find j is)
  unfolding remove
  find-remove k [] i j a e = cc
  find-remove k (x ∷ is) i j a e = ground (
    arith,
    find-same k is i,
    find-absent (h x).key j is a.0,
    same_join (h x).key (h i).key j k,
    find-remove k is i j a.1,
  )

  pub Apart-remove :
      (k : K) (is : List ℕ) (i : ℕ) → Apart is → find k is ≡ some i → Apart (remove i is)
  unfolding remove
  Apart-remove k [] i a e = cc
  Apart-remove k (x ∷ is) i a e = ground (
    arith,
    find-remove k is i (h x).key a.1,
    same_sym (h i).key (h x).key,
    find-same k is i,
    find-absent (h x).key k is a.0,
    same_join (h x).key (h i).key (h x).key k,
    same_refl (h x).key,
    Apart-remove k is i a.1,
  )

  pub map-remove :
      (k : K) (is : List ℕ) (i : ℕ)
      → find k is ≡ some i
      → map h (remove i is) ≡ without q k (map h is)
  unfolding remove
  map-remove k [] i e = cc
  map-remove k (x ∷ is) i e = ground (arith, find-same k is i, map-remove k is i)

  pub length-remove :
      (k : K) (is : List ℕ) (i : ℕ) → find k is ≡ some i → length (remove i is) + 1 ≡ length is
  unfolding remove
  length-remove k [] i e = cc
  length-remove k (x ∷ is) i e = ground (arith, find-same k is i, length-remove k is i)

  pub entry_of-map : (k : K) (is : List ℕ) → entry_of q k (map h is) ≡ load h (find k is)
  entry_of-map k [] = refl
  entry_of-map k (i ∷ is) = ground (arith, entry_of-map k is)

  pub without-absent : (k : K) (is : List ℕ) → find k is ≡ none → without q k (map h is) ≡ map h is
  without-absent k [] e = refl
  without-absent k (i ∷ is) e = ground (arith, without-absent k is)

  pub find-append :
      (k : K) (is : List ℕ) (i : ℕ)
      → find k (is ++ i ∷ []) ≡ or_last (find k is) (if q.same (h i).key k then some i else none)
  find-append k [] i = refl
  find-append k (x ∷ is) i = ground (arith, find-append k is i)

  pub Apart-append :
      (is : List ℕ) (i : ℕ) → Apart is → find (h i).key is ≡ none → Apart (is ++ i ∷ [])
  Apart-append [] i a e = (refl, tt)
  Apart-append (x ∷ is) i a e =
      ground
        (arith, find-append (h x).key is i, Apart-append is i a.1, same_sym (h i).key (h x).key)
