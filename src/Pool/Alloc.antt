-- ===== src/Pool/Alloc.antt =====
-- What the allocator hands out, whatever was taken and put back before.
use proxy_speedtest.Prelude.{
  ℕ, ◌+◌, ◌*◌, ◌^◌, ◌≤◌, ◌<◌, ◌≡◌, refl, ap, ◌∙◌, subst, List, [], ◌∷◌, ◌++◌, some, All, arith,
  Bool-cases, inl, inr, ◌==◌,
}
use proxy_speedtest.Pool.{
  Allocator, set_pool, Takes, made, reused, Get, get, Reached, new, after_get, after_put, get_class,
  put_class, msb,
}
use proxy_speedtest.Pool.Classes.{get_class-IsClass, put_class-power, put_class-pow}

-- Every slice in the pool `k` has the capacity 2 ^ k.
abbrev Sized : Allocator → Type 0
Sized a = (k : ℕ) → All (λ capacity. capacity ≡ 2 ^ k) (a k)

All-split :
    (P : ℕ → Type 0) (before : List ℕ) (capacity : ℕ) (after : List ℕ)
    → All P (before ++ capacity ∷ after)
    → P capacity × All P (before ++ after)
All-split P [] capacity after h = h
All-split P (x ∷ before) capacity after h =
    let (p, q) = All-split P before capacity after h.1 in (p, (h.0, q))

Takes-Sized :
    (k capacity : ℕ) (caps left : List ℕ)
    → All (λ c. c ≡ 2 ^ k) caps
    → Takes (2 ^ k) caps capacity left
    → (capacity ≡ 2 ^ k) × All (λ c. c ≡ 2 ^ k) left
Takes-Sized k _ caps _ h made = (refl, h)
Takes-Sized k _ _ _ h (reused before capacity after) =
    All-split (λ c. c ≡ 2 ^ k) before capacity after h

set_pool-Sized :
    (a : Allocator) (k : ℕ) (caps : List ℕ)
    → Sized a
    → All (λ c. c ≡ 2 ^ k) caps
    → Sized (set_pool k caps a)
unfolding set_pool
set_pool-Sized a k caps s h j =
    elim (Bool-cases (j == k)) as (λ _. All (λ c. c ≡ 2 ^ j) (set_pool k caps a j)) [
      | inl e ↦
          let same : k ≡ j = ground (arith, e) in
          rw e (subst (λ (i : ℕ). All (λ c. c ≡ 2 ^ i) caps) same h)
      | inr e ↦ rw e (s j)
    ]

Reached-Sized : (a : Allocator) → Reached a → Sized a
Reached-Sized _ new = λ k. tt
Reached-Sized _ (after_get {a} size capacity r (get {k} {caps} e t)) =
    set_pool-Sized a k caps (Reached-Sized a r)
      (Takes-Sized k capacity (a k) caps (Reached-Sized a r k) t).1
Reached-Sized _ (after_put {a} capacity k r e) =
    set_pool-Sized a k (capacity ∷ a k) (Reached-Sized a r)
      (put_class-power capacity k e, Reached-Sized a r k)

-- After any calls of `Get` and `Put`, a slice that `Get` takes for a size is long enough for it, less
-- than twice as long, of a capacity that `Put` takes back, and out of one of the 17 pools.
pub get-fits :
    (a b : Allocator) (size capacity : ℕ)
    → Reached a
    → Get a size capacity b
    → (size ≤ capacity)
      × (capacity < 2 * size)
      × ((k : ℕ) × (k < 17) × (put_class capacity ≡ some k) × (capacity ≡ 2 ^ k))
get-fits a _ size capacity r (get {k} {caps} e t) =
    let c = get_class-IsClass size k e in
    let is = (Takes-Sized k capacity (a k) caps (Reached-Sized a r k) t).0 in
    (
      omega (arith, c.enough),
      omega (arith, c.waste),
      (k, c.index, ap put_class is ∙ put_class-pow k c.index, is),
    )

get_class-total : (size : ℕ) → 0 < size → size ≤ 65536 → (k : ℕ) × (get_class size ≡ some k)
unfolding get_class
get_class-total size h l = elim (Bool-cases (size == 2 ^ msb size)) [
  | inl e ↦ (msb size, ground arith)
  | inr e ↦ (msb size + 1, ground arith)
]

-- After any calls of `Get` and `Put`, `Get` returns a slice for every size from 1 to 65536, also
-- where the pools are empty, and the allocator that it leaves is one that such calls lead to.
pub get-returns :
    (a : Allocator) (size : ℕ)
    → Reached a
    → 0 < size
    → size ≤ 65536
    → (capacity : ℕ) × (b : Allocator) × Get a size capacity b × Reached b × (size ≤ capacity)
get-returns a size r h l =
    let (k, e) = get_class-total size h l in
    let t = get e made in
    (2 ^ k, set_pool k (a k) a, t, after_get size (2 ^ k) r t, (get_class-IsClass size k e).enough)
