-- ===== src/Tester/Tests.antt =====
-- One configuration and one goroutine; and a proxy whose download fails.
use proxy_speedtest.Prelude.{
  ℕ, ◌+◌, ◌*◌, ◌<◌, ◌≤◌, ◌≡◌, ◌⊎◌, refl, true, false, not, ◌&&◌, ◌||◌, List, [], ◌∷◌, Option, none,
  some, inl, inr, map, length, arith, is_some,
}
use proxy_speedtest.Prelude.Int.{pos}
use proxy_speedtest.Tester.{
  mode_all, mode_speed_only, Result, Network, speed_test, test_one, pings, downloads,
}
use proxy_speedtest.Tester.Schedule.{State, Run, start, count, launch, deliver, finish, begin, more}
use proxy_speedtest.Tester.Complete.{Run-Limited, cancel-panics}
use proxy_speedtest.Tester.Ends.{IsOver, GoesOn, Run-IsOver}
use proxy_speedtest.Tester.One.{test_one-outcome, works, passes}
use proxy_speedtest.Tester.Sync.{test_sync, test_sync-Complete, at_index}

abbrev slow : Network ℕ
slow = record { dialer = none; ping = inr (pos 80); speed = inl 7 }

half_a_test : (test_one mode_all slow 0 tt).error ≡ some (speed_test 7)
unfolding test_one
half_a_test = refl

-- A speed test alone that fails is neither a success nor an error.
silent_failure :
    ((test_one mode_speed_only slow 0 tt).success ≡ false)
    × ((test_one mode_speed_only slow 0 tt).error ≡ none)
unfolding test_one
silent_failure = (refl, refl)

test_one-outcome_example :
    ((test_one mode_all slow 0 tt).success ≡ works mode_all slow)
    × (is_some (test_one mode_all slow 0 tt).error
        ≡ (is_some slow.dialer || (pings mode_all && not (passes mode_all slow))))
    × ((passes mode_all slow && downloads mode_all) ≡ false
        → ((test_one mode_all slow 0 tt).avg_speed ≡ pos 0)
          × ((test_one mode_all slow 0 tt).max_speed ≡ pos 0)
          × ((test_one mode_all slow 0 tt).traffic ≡ pos 0))
test_one-outcome_example = test_one-outcome mode_all slow 0 tt

-- The only goroutine is started, sends its result, and the channel is closed.
abbrev s1 : State
s1 = record start { started = 1; running = 0 ∷ [] }

abbrev s2 : State
s2 = record start { started = 1; delivered = 0 ∷ [] }

abbrev s3 : State
s3 = record s2 { closed = true }

whole-Run : Run 1 1 3 s3
whole-Run =
    more
      (more (more begin refl (launch start refl (omega arith) (omega arith))) refl
        (deliver s1 0 (omega arith) refl))
      refl (finish s2 refl refl refl)

Run-Limited_example :
    (length s3.running ≤ 1) × ((i : ℕ) → count i s3.running + count i s3.delivered ≤ 1)
Run-Limited_example = Run-Limited 1 1 3 s3 whole-Run

Run-IsOver_example : (3 ≤ 2 * 1 + 3) × (IsOver 1 1 s3 ⊎ GoesOn 1 1 s3)
Run-IsOver_example = Run-IsOver 1 1 3 s3 (omega arith) whole-Run

cancel-panics_example :
    (m : ℕ) × (s : State) × Run 2 1 m s × (s.cancelled ≡ true) × (s.panicked ≡ true)
cancel-panics_example = cancel-panics 2 1 (omega arith) (omega arith)

abbrev answer : ℕ → Result ℕ ℕ
answer i = test_one mode_all slow i i

answer_index : (i : ℕ) → (answer i).index ≡ i
unfolding test_one
answer_index i = refl

test_sync-Complete_example :
    (out : List (Option (Result ℕ ℕ))) × (test_sync 1 (map answer s3.delivered) ≡ some out)
    × (length out ≡ 1)
    × ((i : ℕ) → i < 1 → at_index i out ≡ some (answer i))
test_sync-Complete_example = test_sync-Complete answer answer_index 1 1 3 s3 whole-Run refl refl
