-- ===== src/Retry.antt =====
-- utils/retry.go: a function is tried again, with a wait after each failure. What the attempts return
-- is a parameter, an error being its text; a wait is its milliseconds.
pub mod Attempts
mod Tests
use proxy_speedtest.Prelude.{
  ℕ, zero, suc, ◌+◌, ◌%◌, ◌^◌, Bool, true, false, not, ◌||◌, List, [], ◌∷◌, ◌++◌, Option, none,
  some, if◌then◌else◌, length,
}
use proxy_speedtest.Text.{Str, eq_str}

-- `retryer`: the state of `nextDelay` is a uint32. The number of attempts is not negative; `On` makes a
-- slice with room for as many, and panics at a negative number.
pub record Retryer : Type 0 where
  pub total_attempt : ℕ
  pub next_delay : ℕ → ℕ × ℕ
  pub state : ℕ

-- `Timed`
unfoldable pub timed : ℕ → ℕ → Retryer
timed attempts delay = record { total_attempt = attempts; next_delay = λ s. (delay, s); state = 0 }

-- `ExponentialBackoff`
unfoldable pub exponential_backoff : ℕ → ℕ → Retryer
exponential_backoff attempts delay = record {
  total_attempt = attempts;
  next_delay = λ s. (s, (s + delay) % 2 ^ 32);
  state = 0;
}

-- What `On` does: whether it returns no error, how often the function was called, the waits, and the
-- errors without repetitions.
pub record Tried : Type 0 where
  pub success : Bool
  pub calls : ℕ
  pub waits : List ℕ
  pub errors : List Str

-- The last of the errors so far differs from the new one, or there is none.
unfoldable pub is_new : List Str → Str → Bool
unfolding eq_str
is_new [] e = true
is_new (f ∷ []) e = not (eq_str e f)
is_new (f ∷ g ∷ fs) e = is_new (g ∷ fs) e

module _ (method : ℕ → Option Str) (next_delay : ℕ → ℕ × ℕ) where
  -- The loop of `On`, for the attempts that are left, the number of the next one, and the state of
  -- `nextDelay`.
  unfoldable pub loop : ℕ → ℕ → ℕ → Tried → Tried
  loop zero attempt s t = t
  loop (suc left) attempt s t =
      let called = record t { calls = t.calls + 1 } in
      elim (method attempt) [
        | none ↦ record called { success = true }
        | some e ↦ loop left (attempt + 1) (next_delay s).1 (record called {
          waits = t.waits ++ (next_delay s).0 ∷ [];
          errors = if is_new t.errors e then t.errors ++ e ∷ [] else t.errors;
        })
      ]

-- `On`, for what the attempts return, none for no error.
unfoldable pub on : Retryer → (ℕ → Option Str) → Tried
unfolding loop
on r method =
    loop method r.next_delay r.total_attempt 0 r.state
      (record { success = false; calls = 0; waits = []; errors = [] })
