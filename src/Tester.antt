-- ===== src/Tester.antt =====
-- internal/tester/tester.go: the options, and the test of one proxy.
pub mod Schedule
mod Invariant
pub mod Complete
pub mod Ends
pub mod One
pub mod Sync
mod Tests
use proxy_speedtest.Prelude.{
  ℕ, ◌*◌, ◌^◌, Bool, true, false, not, [], Option, none, some, if◌then◌else◌, ◌⊎◌, inl, inr,
}
use proxy_speedtest.Prelude.Int.{ℤ, pos, ltb_ℤ}
use proxy_speedtest.Text.{Str, str}

-- An `int` with three constants.
pub data TestMode : Type 0 where
  mode_all mode_ping_only mode_speed_only : TestMode

pub record Options : Type 0 where
  pub concurrency : ℤ
  pub timeout : ℤ
  pub download_url : Str
  pub download_size : Str
  pub mode : TestMode

-- time.Second, in nanoseconds
abbrev pub second : ℕ
second = 1000000000

abbrev pub default_options : Options
default_options = record {
  concurrency = pos 2;
  timeout = pos (15 * second);
  download_url = [];
  download_size = str "10mb";
  mode = mode_all;
}

-- `New`, with the options of the tester that it returns. The two ifs change the fields in turn.
abbrev pub or_default : Option Options → Options
or_default none = default_options
or_default (some o) = o

unfoldable pub new : Option Options → Options
new given =
    let o = or_default given in
    record o {
      concurrency = if ltb_ℤ o.concurrency (pos 1) then pos 1 else o.concurrency;
      timeout = if ltb_ℤ o.timeout (pos second) then pos (15 * second) else o.timeout;
    }

-- The errors of `testOne`, each with the error that it wraps.
pub data Failure (E : Type 0) : Type 0 where
  create_dialer : E → Failure E
  ping_test : E → Failure E
  speed_test : E → Failure E

-- `Result`, with the configuration `C`
pub record Result (C E : Type 0) : Type 0 where
  pub config : C
  pub index : ℕ
  pub ping : ℤ
  pub avg_speed : ℤ
  pub max_speed : ℤ
  pub traffic : ℤ
  pub error : Option (Failure E)
  pub success : Bool

-- What `NewDialer`, `pingTest` and `speedTest` return: an error, or their results.
pub record Network (E : Type 0) : Type 0 where
  pub dialer : Option E
  pub ping : E ⊎ ℤ
  pub speed : E ⊎ (ℤ × ℤ × ℤ)

abbrev pub pings : TestMode → Bool
pings mode_speed_only = false
pings mode_all = true
pings mode_ping_only = true

abbrev pub downloads : TestMode → Bool
downloads mode_ping_only = false
downloads mode_all = true
downloads mode_speed_only = true

module _ {C E : Type 0} where
  abbrev pub blank : ℕ → C → Result C E
  blank i c = record {
    config = c;
    index = i;
    ping = pos 0;
    avg_speed = pos 0;
    max_speed = pos 0;
    traffic = pos 0;
    error = none;
    success = false;
  }

  -- The speed test, after a ping that was not tried or succeeded.
  abbrev pub with_speed : E ⊎ (ℤ × ℤ × ℤ) → Result C E → Result C E
  with_speed (inl e) r = if r.success then record r { error = some (speed_test e) } else r
  with_speed (inr (avg, max, traffic)) r = record r {
    avg_speed = avg;
    max_speed = max;
    traffic = traffic;
    success = true;
  }

  abbrev pub speed_phase : TestMode → Network E → Result C E → Result C E
  speed_phase mode net r = if downloads mode then with_speed net.speed r else r

  abbrev pub with_ping : TestMode → Network E → E ⊎ ℤ → Result C E → Result C E
  with_ping mode net (inl e) r = record r { error = some (ping_test e); ping = pos 0 }
  with_ping mode net (inr p) r = speed_phase mode net (record r { ping = p; success = true })

  abbrev pub with_dialer : TestMode → Network E → Option E → Result C E → Result C E
  with_dialer mode net (some e) r = record r { error = some (create_dialer e) }
  with_dialer mode net none r =
      if pings mode then with_ping mode net net.ping r else speed_phase mode net r

  -- `testOne`
  unfoldable pub test_one : TestMode → Network E → ℕ → C → Result C E
  test_one mode net i c = with_dialer mode net net.dialer (blank i c)
