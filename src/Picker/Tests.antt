-- ===== src/Picker/Tests.antt =====
-- A picker with three goroutines: one fails, one returns 7, then one returns 8.
use proxy_speedtest.Prelude.{
  ℕ, ◌≡◌, true, ◌&&◌, List, [], ◌∷◌, some, none, is_some, if◌then◌else◌, ◌==◌, arith,
}
use proxy_speedtest.Picker.{
  Picker, value, error, Event, called, returned, cancel, finish, Step, Reached, start, next, wait,
  first_value, first_error, started, ended,
}
use proxy_speedtest.Picker.First.{wait-first_value}

abbrev race : List (Event ℕ ℕ)
race = returned (value 8) ∷ returned (value 7) ∷ returned (error 1) ∷ called ∷ called ∷ called ∷ []

abbrev raced : Picker ℕ ℕ
raced = record {
  has_cancel = true;
  cancelled = true;
  group = 0;
  once = true;
  err_once = true;
  result = some 7;
  err = some 1;
}

race-Reached : Reached true race raced
unfolding finish
race-Reached =
    next
      (next
        (next (next (next (next start Step.go) Step.go) Step.go)
          (Step.done (error 1) (omega arith)))
        (Step.done (value 7) (omega arith)))
      (Step.done (value 8) (omega arith))

wait-first_value_example :
    (wait raced
      ≡ (if ended race == started race then some (first_value race, cancel raced) else none))
    × (raced.err ≡ first_error race)
    × (raced.cancelled ≡ (is_some (first_value race) && true))
wait-first_value_example = wait-first_value true race raced race-Reached
