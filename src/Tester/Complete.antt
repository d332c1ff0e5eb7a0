-- ===== src/Tester/Complete.antt =====
-- What a run of `Test` delivers, and what a cancellation can lead to.
use proxy_speedtest.Prelude.{
  ℕ, ◌+◌, ◌<◌, ◌≤◌, ◌≡◌, refl, subst, true, false, [], ◌∷◌, if◌then◌else◌, length, arith, ltb,
}
use proxy_speedtest.Tester.Schedule.{
  State, Run, start, count, launch, cancel, stop, send_closed, begin, more,
}
use proxy_speedtest.Tester.Invariant.{Run-Holds}

counted :
    {n : ℕ}
    → (s : State) (i : ℕ) → s.started ≡ n
    → s.running ≡ []
    → count i s.running + count i s.delivered ≡ (if ltb i s.started then 1 else 0)
    → count i s.delivered ≡ (if ltb i n then 1 else 0)
counted {n} s i e r h =
    let same : count i [] + count i s.delivered ≡ (if ltb i s.started then 1 else 0) =
      subst (λ l. count i l + count i s.delivered ≡ (if ltb i s.started then 1 else 0)) r h in
    ground (arith, same, e)

module _ (n k : ℕ) where
  -- In a run of `Test` without a cancellation, when the channel is closed it has the result of each
  -- configuration once and no other, no goroutine runs, and nothing has panicked.
  pub Run-delivers :
      (m : ℕ) (s : State)
      → Run n k m s
      → s.cancelled ≡ false
      → s.closed ≡ true
      → ((i : ℕ) → count i s.delivered ≡ (if ltb i n then 1 else 0))
        × (s.running ≡ [])
        × (s.panicked ≡ false)
  Run-delivers m s r c d =
      let h = Run-Holds n k m s r in
      let e = h.done c d in (λ i. ground (arith, counted s i e.0 e.1 (h.kept c i)), e.1, h.quiet c)

  -- In every run of `Test` at most `k` goroutines run, and no index has two results in the channel, or
  -- a result while its goroutine runs.
  pub Run-Limited :
      (m : ℕ) (s : State)
      → Run n k m s
      → (length s.running ≤ k) × ((i : ℕ) → count i s.running + count i s.delivered ≤ 1)
  Run-Limited m s r = let h = Run-Holds n k m s r in (h.tokens, λ i. ground (arith, h.once i))

  -- With two configurations or more, a cancellation can end in a panic: the loop returns and closes the
  -- channel while a goroutine runs, which then sends.
  pub cancel-panics :
      2 ≤ n
      → 1 ≤ k
      → (m : ℕ) × (s : State) × Run n k m s × (s.cancelled ≡ true) × (s.panicked ≡ true)
  cancel-panics h l =
      let one : 0 < count 0 (0 ∷ []) = omega arith in
      let two : 1 < n = omega arith in
      let some_left : 0 < n = omega arith in
      let room : 0 < k = omega arith in
      let r1 = more begin refl (launch start refl some_left room) in
      let r2 = more r1 refl (cancel _ refl) in
      let r3 = more r2 refl (stop _ refl two refl) in
      (_, _, more r3 refl (send_closed _ 0 one refl), refl, refl)
