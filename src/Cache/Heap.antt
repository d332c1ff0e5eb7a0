-- ===== src/Cache/Heap.antt =====
-- What a write into the heap leaves alone.
use proxy_speedtest.Prelude.{
  ℕ, ◌<◌, ◌≡◌, refl, ap, ◌∙◌, subst, sym, Bool-cases, inl, inr, ==_iff, false, List, [], ◌∷◌, ◌==◌,
  map, All, All-map, arith,
}
use proxy_speedtest.Cache.{Keys, Entry, write, remove}
use proxy_speedtest.Cache.Index.{find, Apart}

module _ {K V : Type 0} (q : Keys K) (g h : ℕ → Entry K V) where
  pub find-ext :
      (k : K) (is : List ℕ) → All (λ j. (g j).key ≡ (h j).key) is → find q g k is ≡ find q h k is
  find-ext k [] s = refl
  find-ext k (i ∷ is) s = rw (s.0, find-ext k is s.1)

  pub Apart-ext : (is : List ℕ) → All (λ j. (g j).key ≡ (h j).key) is → Apart q h is → Apart q g is
  Apart-ext [] s a = tt
  Apart-ext (i ∷ is) s a = (rw s.0 (find-ext (h i).key is s.1 ∙ a.0), Apart-ext is s.1 a.1)

module _ {K V : Type 0} (g h : ℕ → Entry K V) where
  pub map-ext : (is : List ℕ) → All (λ j. g j ≡ h j) is → map g is ≡ map h is
  map-ext [] s = refl
  map-ext (i ∷ is) s = rw (s.0, map-ext is s.1)

module _ {K V : Type 0} (h : ℕ → Entry K V) (i : ℕ) (e : Entry K V) where
  pub write-other :
      (is : List ℕ) → All (λ j. (j == i) ≡ false) is → All (λ j. write i e h j ≡ h j) is
  write-other is s = All-map (λ j n. rw n) is s

  pub write-apart : (j : ℕ) → (j == i) ≡ false → write i e h j ≡ h j
  write-apart j n = rw n refl

  pub write_self : write i e h i ≡ e
  write_self = ground arith

-- Entries that are written where another stood with the same key.
pub keys-kept :
    {K V : Type 0}
    → (h g : ℕ → Entry K V) (i : ℕ) → ((j : ℕ) → (j == i) ≡ false → g j ≡ h j)
    → (g i).key ≡ (h i).key
    → (is : List ℕ) → All (λ j. (g j).key ≡ (h j).key) is
keys-kept h g i other own [] = tt
keys-kept h g i other own (j ∷ is) = (
  (elim (Bool-cases (j == i)) [
    | inl e ↦ subst (λ l. (g l).key ≡ (h l).key) (sym ((==_iff j i).0 e)) own
    | inr e ↦ ap (λ a. a.key) (other j e)
  ]),
  keys-kept h g i other own is,
)

pub below-other : (n : ℕ) (is : List ℕ) → All (λ j. j < n) is → All (λ j. (j == n) ≡ false) is
below-other n is s = All-map (λ j l. ground arith) is s

pub All-remove : (P : ℕ → Type 0) (i : ℕ) (is : List ℕ) → All P is → All P (remove i is)
unfolding remove
All-remove P i [] h = tt
All-remove P i (j ∷ is) h = ground (arith, All-remove P i is h.1)
