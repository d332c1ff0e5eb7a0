-- ===== src/Retry/Tests.antt =====
-- Two failures, and then a success.
use proxy_speedtest.Prelude.{ℕ, ◌≡◌, refl, false, [], ◌∷◌, Option, none, some, if◌then◌else◌, ltb}
use proxy_speedtest.Text.{Str, str, eq_str}
use proxy_speedtest.Retry.{exponential_backoff, on, is_new}
use proxy_speedtest.Retry.Attempts.{failures, IsTried, on-exponential_backoff}

abbrev method : ℕ → Option Str
method i = if ltb i 2 then some (str "refused") else none

on-exponential_backoff_example :
    IsTried
      (failures method 5 0)
      5
      100
      0
      (record { success = false; calls = 0; waits = []; errors = [] })
      (on (exponential_backoff 5 100) method)
on-exponential_backoff_example = on-exponential_backoff 5 100 method

two_waits : (on (exponential_backoff 5 100) method).waits ≡ 0 ∷ 100 ∷ []
unfolding on exponential_backoff
two_waits = refl

one_error : (on (exponential_backoff 5 100) method).errors ≡ str "refused" ∷ []
unfolding on exponential_backoff str is_new eq_str
one_error = refl
