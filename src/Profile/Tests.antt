-- ===== src/Profile/Tests.antt =====
-- A request with two subscriptions, one of which gives no links.
use proxy_speedtest.Prelude.{◌≡◌, refl, false, List, [], ◌∷◌, Option, none, some, if◌then◌else◌}
use proxy_speedtest.Prelude.Int.{pos}
use proxy_speedtest.Text.{Str, str, eq_str}
use proxy_speedtest.Profile.{
  SubEntry, ProfileTestOptions, Parsed, failed, parsed, parse_message, with_defaults, group_for,
}

-- Lists of links known by a letter.
abbrev lists : Str → Option (List Str)
lists s = if eq_str s (str "a") then some (str "a1" ∷ str "a2" ∷ []) else none

abbrev request : ProfileTestOptions
request = record {
  group_name = [];
  subscriptions =
      record { group = str " A "; subscription = str "a" }
      ∷ record { group = str "B"; subscription = str "b" }
      ∷ [];
  concurrency = pos 0;
  test_mode = pos 2;
  timeout = pos 0;
  links = [];
  subscription = [];
  threads = pos 1000;
  upload_size = [];
  direct_mode = false;
  speed_test_mode = [];
  test_ids = [];
  download_size = [];
  download_url = [];
  upload_enable = false;
  upload_url = [];
  download_headers = [];
  upload_headers = [];
}

abbrev links_of : Parsed → List Str
links_of failed = []
links_of (parsed ls gs o) = ls

abbrev groups_of : Parsed → Option (List Str)
groups_of failed = none
groups_of (parsed ls gs o) = gs

two_links : links_of (parse_message lists (some request)) ≡ str "a1" ∷ str "a2" ∷ []
unfolding parse_message with_defaults proxy_speedtest.Profile.has_subscription_input eq_str
    proxy_speedtest.Text.trim_space proxy_speedtest.Text.trim_right proxy_speedtest.Text.trim_left
    str proxy_speedtest.Text.is_space proxy_speedtest.Profile.entries_loop
two_links = refl

two_groups : groups_of (parse_message lists (some request)) ≡ some (str "A" ∷ str "A" ∷ [])
unfolding parse_message with_defaults proxy_speedtest.Profile.has_subscription_input eq_str
    proxy_speedtest.Text.trim_space proxy_speedtest.Text.trim_right proxy_speedtest.Text.trim_left
    str proxy_speedtest.Text.is_space proxy_speedtest.Profile.entries_loop
two_groups = refl

-- A request without a timeout gets one of 8 nanoseconds.
no_timeout : (with_defaults request).timeout ≡ pos 8
unfolding with_defaults
no_timeout = refl

own_group : group_for (str "A" ∷ [] ∷ []) (str "Default") 1 ≡ str "Default"
unfolding str group_for eq_str
own_group = refl
