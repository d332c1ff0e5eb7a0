-- ===== src/Profile/Batches.antt =====
-- The announcement of the links in batches.
use proxy_speedtest.Prelude.{
  ℕ, zero, suc, ◌+◌, ◌-◌, ◌≤◌, ◌≡◌, refl, sym, ap, ◌∙◌, subst, List, [], ◌∷◌, ◌++◌, ltb, length,
  take, drop, arith, Bool-cases, inl, inr,
}
use proxy_speedtest.Text.{Str}
use proxy_speedtest.Profile.Run.{step_for, batch_loop, batches}

-- Batches that start at the index `i`: none is empty or longer than 50, each starts after the last
-- link of the one before, and together they are the links.
abbrev pub AreBatches : ℕ → List (ℕ × List Str) → List Str → Type 0
AreBatches i [] links = links ≡ []
AreBatches i ((j, b) ∷ bs) links =
    (j ≡ i)
    × ((1 ≤ length b)
        × ((length b ≤ 50)
            × ((rest : List Str) × ((links ≡ b ++ rest) × AreBatches (i + length b) bs rest))))

take-drop : (k : ℕ) (xs : List Str) → xs ≡ take k xs ++ drop k xs
take-drop zero xs = refl
take-drop (suc k) [] = refl
take-drop (suc k) (x ∷ xs) = ap (λ (l : List Str). x ∷ l) (take-drop k xs)

length-take : (k : ℕ) (xs : List Str) → k ≤ length xs → length (take k xs) ≡ k
length-take zero xs h = refl
length-take (suc k) [] h = absurd (omega arith)
length-take (suc k) (x ∷ xs) h = ap (λ (n : ℕ). suc n) (length-take k xs (omega arith))

length-drop : (k : ℕ) (xs : List Str) → length (drop k xs) ≡ length xs - k
length-drop zero xs = omega arith
length-drop (suc k) [] = omega arith
length-drop (suc k) (x ∷ xs) = omega (arith, length-drop k xs)

drop_all : (k : ℕ) (xs : List Str) → length xs ≤ k → drop k xs ≡ []
drop_all zero [] h = refl
drop_all zero (x ∷ xs) h = absurd (omega arith)
drop_all (suc k) [] h = refl
drop_all (suc k) (x ∷ xs) h = drop_all k xs (omega arith)

drop-drop : (j k : ℕ) (xs : List Str) → drop k (drop j xs) ≡ drop (j + k) xs
drop-drop zero k xs = let e : k ≡ zero + k = omega arith in ap (λ (n : ℕ). drop n xs) e
drop-drop (suc j) k [] = drop_all k [] (omega arith) ∙ sym (drop_all (suc j + k) [] (omega arith))
drop-drop (suc j) k (x ∷ xs) =
    let e : suc (j + k) ≡ suc j + k = omega arith in
    drop-drop j k xs ∙ ap (λ (n : ℕ). drop n (x ∷ xs)) e

module _ (step : ℕ) (low : 1 ≤ step) (high : step ≤ 50) (links : List Str) where
  batch_loop_past : (f i : ℕ) → length links ≤ i → batch_loop f step i links ≡ []
  unfolding batch_loop
  batch_loop_past zero i h = refl
  batch_loop_past (suc f) i h = ground arith

  -- One batch of `k` links, before the others, which start at `j`.
  one_batch :
      (i k j : ℕ) (bs : List (ℕ × List Str))
      → i + k ≡ j
      → 1 ≤ k
      → k ≤ 50
      → j ≤ length links
      → AreBatches j bs (drop j links)
      → AreBatches i ((i, take k (drop i links)) ∷ bs) (drop i links)
  one_batch i k j bs s l h fits rest =
      let e : length (take k (drop i links)) ≡ k =
        length-take k (drop i links) (omega (arith, length-drop i links)) in
      let starts : j ≡ i + length (take k (drop i links)) = omega arith in
      let left : drop j links ≡ drop k (drop i links) =
        ap (λ (n : ℕ). drop n links) (sym s) ∙ sym (drop-drop i k links) in
      (
        refl,
        (
          omega arith,
          (
            omega arith,
            (
              drop k (drop i links),
              (
                take-drop k (drop i links),
                subst (λ n. AreBatches n bs (drop k (drop i links))) starts
                    (subst (λ ls. AreBatches j bs ls) left rest),
              ),
            ),
          ),
        ),
      )

  batch_loop-AreBatches :
      (f i : ℕ) → length links ≤ f + i → AreBatches i (batch_loop f step i links) (drop i links)
  unfolding batch_loop
  batch_loop-AreBatches zero i h = drop_all i links (omega arith)
  batch_loop-AreBatches (suc f) i h =
      let ih = batch_loop-AreBatches f (i + step) (omega arith) in
      elim (Bool-cases (ltb i (length links)))
        as (λ _. AreBatches i (batch_loop (suc f) step i links) (drop i links)) [
          | inr t ↦ rw t (drop_all i links (ground arith))
          | inl t ↦
              elim (Bool-cases (ltb (length links) (i + step)))
                as (λ _. AreBatches i (batch_loop (suc f) step i links) (drop i links)) [
                  | inr u ↦
                      rw (t, u)
                        (one_batch i (i + step - i) (i + step) (batch_loop f step (i + step) links)
                          (omega arith) (omega arith) (omega arith) (ground arith) ih)
                  | inl u ↦
                      rw (t, u)
                        (one_batch i (length links - i) (length links)
                          (batch_loop f step (i + step) links) (ground arith) (ground arith)
                          (ground arith) (omega arith)
                          (subst (λ bs. AreBatches (length links) bs (drop (length links) links))
                            (sym (batch_loop_past f (i + step) (ground arith)))
                            (drop_all (length links) links (omega arith))))
                ]
        ]

-- The batches in which a run announces its links are, one after the other, all of the links, each batch
-- with the index of its first link; none is empty and none has more than 50 links.
pub batches-AreBatches : (links : List Str) → AreBatches 0 (batches links) links
unfolding batches step_for
batches-AreBatches links =
    batch_loop-AreBatches (step_for (length links)) (ground arith) (ground arith) links
      (length links) 0 (omega arith)
