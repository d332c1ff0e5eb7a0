-- ===== src/Tester/Ends.antt =====
-- Every run of `Test` ends, and none is stuck.
use proxy_speedtest.Prelude.{
  ℕ, ◌+◌, ◌-◌, ◌*◌, ◌<◌, ◌≤◌, ◌≡◌, ◌⊎◌, refl, Bool, true, false, List, [], ◌∷◌, length, arith,
  Bool-cases, inl, inr, ltb,
}
use proxy_speedtest.Tester.Schedule.{
  State, Step, Run, launch, cancel, stop, finish, deliver, give_up, send_closed, begin, more,
}
use proxy_speedtest.Tester.Invariant.{length-without, Run-Holds}

abbrev bit : Bool → ℕ
bit true = 0
bit false = 1

-- What is left to do.
abbrev left : ℕ → State → ℕ
left n s = 2 * (n - s.started) + length s.running + bit s.closed + bit s.cancelled + bit s.panicked

module _ (n k : ℕ) where
  step-left : (s t : State) → s.panicked ≡ false → Step n k s t → left n t + 1 ≤ left n s
  step-left s t p (launch _ c l r) = omega arith
  step-left s t p (cancel _ c) = rw c (omega arith)
  step-left s t p (stop _ c l x) = rw c (omega arith)
  step-left s t p (finish _ c e r) = rw c (omega arith)
  step-left s t p (deliver _ i m c) = omega (arith, length-without i s.running m)
  step-left s t p (give_up _ i m c) = omega (arith, length-without i s.running m)
  step-left s t p (send_closed _ i m c) = rw p (omega arith)

  Run-left : (m : ℕ) (s : State) → Run n k m s → m + left n s ≤ 2 * n + 3
  Run-left m s begin = omega arith
  Run-left m t (more {s = s} r p st) = omega (arith, Run-left _ s r, step-left s t p st)

  -- A state after which nothing is left to do: the program has panicked, or `Test` has returned and
  -- closed the channel and no goroutine runs.
  abbrev pub IsOver : State → Type 0
  IsOver s = (s.panicked ≡ true) ⊎ ((s.closed ≡ true) × (s.running ≡ []))

  -- A step other than a cancellation, which after one starts no goroutine.
  abbrev pub GoesOn : State → Type 0
  GoesOn s =
      (t : State) × Step n k s t
      × (t.cancelled ≡ s.cancelled)
      × (s.cancelled ≡ true → t.started ≡ s.started)

  open_step :
      (s : State) (xs : List ℕ)
      → 0 < k
      → s.started ≤ n
      → s.running ≡ xs
      → s.closed ≡ false
      → GoesOn s
  open_step s (x ∷ xs) h b e d = (_, deliver s x (rw e (ground arith)) d, refl, λ _. refl)
  open_step s [] h b e d = elim (Bool-cases (ltb s.started n)) [
    | inr g ↦ (_, finish s d (ground arith) e, refl, λ _. refl)
    | inl l ↦ elim (Bool-cases s.cancelled) [
      | inl c ↦ (_, stop s d (ground arith) c, refl, λ _. refl)
      | inr c ↦ (_, launch s d (ground arith) (rw e h), refl, λ g. absurd (ground (arith, c, g)))
    ]
  ]

  closed_step : (s : State) (xs : List ℕ) → s.running ≡ xs → s.closed ≡ true → IsOver s ⊎ GoesOn s
  closed_step s [] e d = inl (inr (d, e))
  closed_step s (x ∷ xs) e d = inr (_, send_closed s x (rw e (ground arith)) d, refl, λ _. refl)

  -- With room for one token at least, a run on `n` configurations has at most 2 n + 3 steps, and no run
  -- is stuck: as long as it is not over, a step other than a cancellation is possible, and one that
  -- starts no goroutine if it is cancelled. It is over when the program has panicked, or the channel is
  -- closed and no goroutine runs.
  pub Run-IsOver :
      (m : ℕ) (s : State) → 0 < k → Run n k m s → (m ≤ 2 * n + 3) × (IsOver s ⊎ GoesOn s)
  Run-IsOver m s h r = (
    omega (arith, Run-left m s r),
    elim (Bool-cases s.closed) [
      | inl d ↦ closed_step s s.running refl d
      | inr d ↦ inr (open_step s s.running h (Run-Holds n k m s r).range refl d)
    ],
  )
