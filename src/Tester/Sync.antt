-- ===== src/Tester/Sync.antt =====
-- `TestSync`: the results of the channel, each stored at its index.
use proxy_speedtest.Prelude.{
  ℕ, zero, suc, ◌<◌, ◌≡◌, refl, ap, ◌∙◌, true, false, List, [], ◌∷◌, Option, none, some,
  if◌then◌else◌, ◌==◌, length, replicate, map, arith, ltb,
}
use proxy_speedtest.Tester.{Result}
use proxy_speedtest.Tester.Schedule.{State, Run, count}
use proxy_speedtest.Tester.Complete.{Run-delivers}

-- `results[i] = a`, which panics (none) out of range.
unfoldable pub put : {A : Type 0} → ℕ → A → List (Option A) → Option (List (Option A))
put i a [] = none
put zero a (x ∷ xs) = some (some a ∷ xs)
put (suc i) a (x ∷ xs) = elim (put i a xs) [ none ↦ none | some ys ↦ some (x ∷ ys) ]

-- The loop over the channel.
unfoldable pub collect :
    {C E : Type 0}
    → List (Result C E)
    → List (Option (Result C E))
    → Option (List (Option (Result C E)))
collect [] slots = some slots
collect (r ∷ rs) slots = elim (put r.index r slots) [ none ↦ none | some next ↦ collect rs next ]

-- `TestSync`, from the results that the channel has when it is closed.
unfoldable pub test_sync :
    {C E : Type 0} → ℕ → List (Result C E) → Option (List (Option (Result C E)))
test_sync n rs = collect rs (replicate n none)

-- The result at an index.
abbrev pub at_index : {A : Type 0} → ℕ → List (Option A) → Option A
at_index i [] = none
at_index zero (x ∷ xs) = x
at_index (suc i) (x ∷ xs) = at_index i xs

at_index-tail :
    {A : Type 0}
    → (x : Option A) (xs out : List (Option A)) (i : ℕ) (a : A)
    → ((j : ℕ) → at_index j out ≡ (if j == i then some a else at_index j xs))
    → (j : ℕ) → at_index j (x ∷ out) ≡ (if j == suc i then some a else at_index j (x ∷ xs))
at_index-tail x xs out i a h zero = ground arith
at_index-tail x xs out i a h (suc j) = ground (arith, h j)

at_index-head :
    {A : Type 0}
    → (x : Option A) (xs : List (Option A)) (a : A) (j : ℕ)
    → at_index j (some a ∷ xs) ≡ (if j == 0 then some a else at_index j (x ∷ xs))
at_index-head x xs a zero = ground arith
at_index-head x xs a (suc j) = ground arith

at_index-blank : {A : Type 0} → (n i : ℕ) → at_index {A = A} i (replicate n none) ≡ none
at_index-blank zero i = refl
at_index-blank (suc n) zero = refl
at_index-blank (suc n) (suc i) = at_index-blank n i

length-replicate : {A : Type 0} → (n : ℕ) (a : A) → length (replicate n a) ≡ n
length-replicate zero a = refl
length-replicate (suc n) a = ap suc (length-replicate n a)

put-returns :
    {A : Type 0}
    → (i : ℕ) (a : A) (slots : List (Option A)) → i < length slots
    → (out : List (Option A)) × (put i a slots ≡ some out)
      × (length out ≡ length slots)
      × ((j : ℕ) → at_index j out ≡ (if j == i then some a else at_index j slots))
unfolding put
put-returns i a [] l = absurd (omega arith)
put-returns zero a (x ∷ xs) l = (some a ∷ xs, refl, refl, at_index-head x xs a)
put-returns (suc i) a (x ∷ xs) l =
    let r = put-returns i a xs (omega arith) in
    (x ∷ r.0, rw r.1 refl, ap suc r.2, at_index-tail x xs r.0 i a r.3)

module _ {C E : Type 0} (f : ℕ → Result C E) (own : (i : ℕ) → (f i).index ≡ i) where
  collect-returns :
      (is : List ℕ) (slots : List (Option (Result C E)))
      → ((i : ℕ) → 0 < count i is → i < length slots)
      → (out : List (Option (Result C E))) × (collect (map f is) slots ≡ some out)
        × (length out ≡ length slots)
        × ((j : ℕ) → at_index j out ≡ (if ltb 0 (count j is) then some (f j) else at_index j slots))
  unfolding collect
  collect-returns [] slots h = (slots, refl, refl, λ j. ground arith)
  collect-returns (i ∷ is) slots h =
      let here : 0 < count i (i ∷ is) = ground arith in
      let first = put-returns (f i).index (f i) slots (rw (own i) (h i here)) in
      let rest = collect-returns is first.0 (λ j l. rw first.2 (h j (ground arith))) in
      (
        rest.0,
        rw (first.1, collect) rest.1,
        rest.2 ∙ first.2,
        λ j. ground (arith, rest.3 j, first.3 j, own i, λ (e : j ≡ i). ap f e),
      )

  -- When `Test` was not cancelled and its channel is closed, `TestSync` returns the results of all
  -- configurations, each at its index, and does not panic.
  pub test_sync-Complete :
      (n k m : ℕ) (s : State)
      → Run n k m s
      → s.cancelled ≡ false
      → s.closed ≡ true
      → (out : List (Option (Result C E))) × (test_sync n (map f s.delivered) ≡ some out)
        × (length out ≡ n)
        × ((i : ℕ) → i < n → at_index i out ≡ some (f i))
  unfolding test_sync
  test_sync-Complete n k m s r c d =
      let sent = (Run-delivers n k m s r c d).0 in
      let out =
        collect-returns s.delivered (replicate n none) (λ i l.
          rw (length-replicate {A = Option (Result C E)} n none) (ground (arith, sent i))) in
      (out.0, out.1, out.2 ∙ length-replicate n none, λ i l. ground (arith, out.3 i, sent i))
