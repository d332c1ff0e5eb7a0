-- ===== src/Tester/One.antt =====
-- The outcome of `testOne`.
use proxy_speedtest.Prelude.{
  ℕ, ◌<◌, ◌≤◌, ◌≡◌, Bool, true, false, not, ◌&&◌, ◌||◌, Option, none, some, if◌then◌else◌, ◌⊎◌, inl,
  inr, is_some, arith,
}
use proxy_speedtest.Prelude.Int.{pos, pos_part}
use proxy_speedtest.Tester.{TestMode, Network, test_one, pings, downloads, Options, new, second}

abbrev pub answers : {E A : Type 0} → E ⊎ A → Bool
answers (inl e) = false
answers (inr a) = true

-- What makes a proxy a working one: it can be dialled and answers the first test of the mode.
abbrev pub works : {E : Type 0} → TestMode → Network E → Bool
works mode net =
    not (is_some net.dialer) && (if pings mode then answers net.ping else answers net.speed)

-- Every test of the mode was passed.
abbrev pub passes : {E : Type 0} → TestMode → Network E → Bool
passes mode net = works mode net && (if downloads mode then answers net.speed else true)

-- `testOne` reports success exactly if the proxy can be dialled and answers the first test of the mode; it
-- reports an error exactly if a test of the mode fails, but for a speed test alone, whose failure it
-- does not report; the speeds are 0 unless the speed test was run and passed.
pub test_one-outcome :
    {C E : Type 0}
    → (mode : TestMode) (net : Network E) (i : ℕ) (c : C)
    → let r = test_one mode net i c in
      (r.success ≡ works mode net)
      × (is_some r.error ≡ (is_some net.dialer || (pings mode && not (passes mode net))))
      × ((passes mode net && downloads mode) ≡ false
          → (r.avg_speed ≡ pos 0) × (r.max_speed ≡ pos 0) × (r.traffic ≡ pos 0))
unfolding test_one
test_one-outcome mode net i c = ground arith

-- The options of a new tester allow one test at least at a time, and one second at least for it.
pub new-Usable :
    (o : Option Options) → (0 < pos_part (new o).concurrency) × (second ≤ pos_part (new o).timeout)
unfolding new
new-Usable none = (omega arith, omega arith)
new-Usable (some o) = (ground arith, ground arith)
