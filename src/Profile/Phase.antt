-- ===== src/Profile/Phase.antt =====
-- web/profile.go `runSpeedPhase`: what the consumer of one direction makes of the samples it is sent.
-- The select over the three channels is the list of what it receives, with the time in milliseconds.
use proxy_speedtest.Prelude.{ℕ, ◌-◌, List, [], ◌∷◌, ◌++◌, if◌then◌else◌, ltb}
use proxy_speedtest.Prelude.Int.{ℤ, pos, negsuc, ltb_ℤ, add_int64, mul_int64, quot}
use proxy_speedtest.Text.{Str}
use proxy_speedtest.Message.{Message, Formats, int, int64, get_msg}

-- A sample with the time it is read at, the start time, or the end of the context. The list ends
-- where the channel of samples is closed.
pub data Event : Type 0 where
  sample : ℤ → ℕ → Event
  started : ℕ → Event
  cancelled : Event

pub record Speeds : Type 0 where
  pub avg : ℤ
  pub max : ℤ
  pub sum : ℤ
  pub start : ℕ
  pub sent : List Message

-- `time.Since(start).Milliseconds()`, one at least.
abbrev pub elapsed : ℕ → ℕ → ℕ
elapsed start now = if ltb (now - start) 1 then 1 else now - start

module _ (fmt : Formats) (index : ℕ) (typ : Str) where
  -- The case of a sample that is not negative.
  unfoldable pub count_sample : ℤ → ℕ → Speeds → Speeds
  count_sample v now s =
      let sum = add_int64 s.sum v in
      let avg = quot (mul_int64 sum (pos 1000)) (elapsed s.start now) in
      let max = if ltb_ℤ s.max v then v else s.max in
      record {
        avg = avg;
        max = max;
        sum = sum;
        start = s.start;
        sent = s.sent ++ get_msg fmt (pos index) typ (int64 avg ∷ int64 max ∷ int64 v ∷ []) ∷ [];
      }

  unfoldable pub consume : List Event → Speeds → Speeds
  consume [] s = s
  consume (sample v now ∷ es) s =
      let rest = consume es (count_sample v now s) in if ltb_ℤ v (pos 0) then s else rest
  consume (started t ∷ es) s = consume es (record s { start = t })
  consume (cancelled ∷ es) s = s

  abbrev pub at_start : ℕ → Speeds
  at_start now = record { avg = pos 0; max = pos 0; sum = pos 0; start = now; sent = [] }

  -- `runSpeedPhase`, for the time it starts at, what the consumer receives, and the speed that `run`
  -- returns.
  unfoldable pub run_speed_phase : ℕ → List Event → ℤ → Speeds
  unfolding consume
  run_speed_phase now es speed =
      let s = consume es (at_start now) in
      if ltb_ℤ speed (pos 1)
      then record s {
        sent =
            s.sent
            ++ get_msg fmt (pos index) typ (int (negsuc 0) ∷ int (negsuc 0) ∷ int (pos 0) ∷ [])
              ∷ [];
      }
      else s
