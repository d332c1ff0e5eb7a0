-- ===== src/Tester/Invariant.antt =====
-- What holds in every run of `Test`.
use proxy_speedtest.Prelude.{
  ℕ, ◌+◌, ◌<◌, ◌≤◌, ◌≡◌, refl, subst, true, false, List, [], ◌∷◌, ◌++◌, if◌then◌else◌, ◌==◌, length,
  arith, ltb,
}
use proxy_speedtest.Tester.Schedule.{
  State, Step, Run, start, count, without, launch, cancel, stop, finish, deliver, give_up,
  send_closed, begin, more,
}

pub count-without :
    (i j : ℕ) (xs : List ℕ)
    → 0 < count i xs
    → count j (without i xs) + (if j == i then 1 else 0) ≡ count j xs
count-without i j [] h = absurd (omega arith)
count-without i j (x ∷ xs) h = ground (arith, count-without i j xs)

pub length-without : (i : ℕ) (xs : List ℕ) → 0 < count i xs → length (without i xs) + 1 ≡ length xs
length-without i [] h = absurd (omega arith)
length-without i (x ∷ xs) h = ground (arith, length-without i xs)

count-end :
    (j i : ℕ) (xs : List ℕ) → count j (xs ++ i ∷ []) ≡ count j xs + (if j == i then 1 else 0)
count-end j i [] = ground arith
count-end j i (x ∷ xs) = ground (arith, count-end j i xs)

-- A goroutine is started for each index once; its result is sent once, or lost after a cancellation.
pub record Holds (n k : ℕ) (s : State) : Type 0 where
  pub tokens : length s.running ≤ k
  pub range : s.started ≤ n
  pub once : (i : ℕ) → count i s.running + count i s.delivered ≤ (if ltb i s.started then 1 else 0)
  pub kept :
      s.cancelled ≡ false
      → (i : ℕ) → count i s.running + count i s.delivered ≡ (if ltb i s.started then 1 else 0)
  pub done : s.cancelled ≡ false → s.closed ≡ true → (s.started ≡ n) × (s.running ≡ [])
  pub quiet : s.cancelled ≡ false → s.panicked ≡ false

module _ (n k : ℕ) where
  start-Holds : Holds n k start
  start-Holds = record {
    tokens = omega arith;
    range = omega arith;
    once = λ i. ground arith;
    kept = λ c i. ground arith;
    done = λ c d. cc;
    quiet = λ c. refl;
  }

  step-Holds : (s t : State) → Holds n k s → Step n k s t → Holds n k t
  step-Holds s t h (launch _ c l r) = record {
    tokens = omega arith;
    range = omega arith;
    once = λ i. ground (arith, h.once i);
    kept = λ x i. ground (arith, h.kept x i);
    done = λ x d. cc;
    quiet = h.quiet;
  }
  step-Holds s t h (cancel _ c) = record {
    tokens = h.tokens;
    range = h.range;
    once = h.once;
    kept = λ x. cc;
    done = λ x. cc;
    quiet = λ x. cc;
  }
  step-Holds s t h (stop _ c l x) = record {
    tokens = h.tokens;
    range = h.range;
    once = h.once;
    kept = h.kept;
    done = λ y. cc;
    quiet = h.quiet;
  }
  step-Holds s t h (finish _ c e r) = record {
    tokens = h.tokens;
    range = h.range;
    once = h.once;
    kept = h.kept;
    done = λ x y. (e, r);
    quiet = h.quiet;
  }
  step-Holds s t h (deliver _ i m c) = record {
    tokens = omega (arith, h.tokens, length-without i s.running m);
    range = h.range;
    once = λ j. ground (arith, h.once j, count-without i j s.running m, count-end j i s.delivered);
    kept =
        λ x j. ground (arith, h.kept x j, count-without i j s.running m, count-end j i s.delivered);
    done = λ x d. cc;
    quiet = h.quiet;
  }
  step-Holds s t h (give_up _ i m c) = record {
    tokens = omega (arith, h.tokens, length-without i s.running m);
    range = h.range;
    once = λ j. ground (arith, h.once j, count-without i j s.running m);
    kept = λ x. cc;
    done = λ x. cc;
    quiet = h.quiet;
  }
  step-Holds s t h (send_closed _ i m c) = record {
    tokens = h.tokens;
    range = h.range;
    once = h.once;
    kept = h.kept;
    done = h.done;
    quiet = λ x. absurd (omega (arith, subst (λ l. 0 < count i l) (h.done x c).1 m));
  }

  -- In every run at most `k` goroutines run; no result is sent twice; and without a cancellation none
  -- is lost, the channel is closed only after all, and nothing panics.
  pub Run-Holds : (m : ℕ) (s : State) → Run n k m s → Holds n k s
  Run-Holds m s begin = start-Holds
  Run-Holds m t (more {s = s} r p st) = step-Holds s t (Run-Holds _ s r) st
