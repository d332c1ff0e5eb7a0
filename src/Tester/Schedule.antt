-- ===== src/Tester/Schedule.antt =====
-- `Test` of internal/tester/tester.go: the loop that starts the goroutines, and the goroutines.
use proxy_speedtest.Prelude.{
  ℕ, suc, ◌+◌, ◌<◌, ◌≡◌, Bool, true, false, List, [], ◌∷◌, ◌++◌, if◌then◌else◌, ◌==◌, length,
}

abbrev pub count : ℕ → List ℕ → ℕ
count i [] = 0
count i (j ∷ js) = if i == j then suc (count i js) else count i js

abbrev pub without : ℕ → List ℕ → List ℕ
without i [] = []
without i (j ∷ js) = if i == j then js else j ∷ without i js

-- `started` is the loop's next index; the semaphore holds one token for each goroutine that runs.
-- `delivered` are the indices of the results sent to the channel, which has room for all.
pub record State : Type 0 where
  pub started : ℕ
  pub running : List ℕ
  pub delivered : List ℕ
  pub closed : Bool
  pub cancelled : Bool
  pub panicked : Bool

abbrev pub start : State
start = record {
  started = 0;
  running = [];
  delivered = [];
  closed = false;
  cancelled = false;
  panicked = false;
}

-- A step with `n` configurations and room for `k` tokens. A send to a channel that is closed panics,
-- also as a case of a select.
pub data Step (n k : ℕ) : State → State → Type 0 where
  launch :
      (s : State)
      → s.closed ≡ false
      → s.started < n
      → length s.running < k
      → Step n k s (record s { started = s.started + 1; running = s.started ∷ s.running })
  cancel : (s : State) → s.cancelled ≡ false → Step n k s (record s { cancelled = true })
  stop :
      (s : State)
      → s.closed ≡ false
      → s.started < n
      → s.cancelled ≡ true
      → Step n k s (record s { closed = true })
  finish :
      (s : State)
      → s.closed ≡ false
      → s.started ≡ n
      → s.running ≡ []
      → Step n k s (record s { closed = true })
  deliver :
      (s : State) (i : ℕ)
      → 0 < count i s.running
      → s.closed ≡ false
      → Step n k s (record s { running = without i s.running; delivered = s.delivered ++ i ∷ [] })
  give_up :
      (s : State) (i : ℕ)
      → 0 < count i s.running
      → s.cancelled ≡ true
      → Step n k s (record s { running = without i s.running })
  send_closed :
      (s : State) (i : ℕ)
      → 0 < count i s.running
      → s.closed ≡ true
      → Step n k s (record s { panicked = true })

-- Runs from the start with the number of their steps; a panic ends the program.
pub data Run (n k : ℕ) : ℕ → State → Type 0 where
  begin : Run n k 0 start
  more : {m : ℕ} {s t : State} → Run n k m s → s.panicked ≡ false → Step n k s t → Run n k (suc m) t
