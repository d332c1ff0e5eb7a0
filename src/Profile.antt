-- ===== src/Profile.antt =====
-- web/profile.go: the message that asks for a test, and the run that it starts. `ParseLinks` of the same file is a parameter, as is
-- json.Unmarshal, whose result is the argument.
pub mod Message
pub mod Phase
pub mod Measure
pub mod One
pub mod Stages
pub mod Run
pub mod Batches
pub mod Collect
pub mod Numbered
pub mod Sends
pub mod Returns
pub mod Samples
mod Tests
mod RunTests
use proxy_speedtest.Prelude.{
  ℕ, zero, suc, ◌+◌, ◌≡◌, Bool, true, false, not, ◌&&◌, ◌||◌, List, [], ◌∷◌, ◌++◌, Option, none,
  some, if◌then◌else◌, ◌==◌, length, map,
}
use proxy_speedtest.Prelude.Int.{ℤ, pos, ltb_ℤ, mul_int64}
use proxy_speedtest.Text.{Str, str, eq_str, trim_space}
use proxy_speedtest.Tester.{second}
use proxy_speedtest.Command.{HeaderKv}

pub record SubEntry : Type 0 where
  pub group : Str
  pub subscription : Str

-- The fields of `ProfileTestOptions` that `parseMessage` and a run read or set; the indices in `test_ids`
-- are not negative.
pub record ProfileTestOptions : Type 0 where
  pub group_name : Str
  pub subscriptions : List SubEntry
  pub speed_test_mode : Str
  pub test_ids : List ℕ
  pub concurrency : ℤ
  pub test_mode : ℤ
  pub timeout : ℤ
  pub links : List Str
  pub subscription : Str
  pub threads : ℤ
  pub upload_size : Str
  pub direct_mode : Bool
  pub download_size : Str
  pub download_url : Str
  pub upload_enable : Bool
  pub upload_url : Str
  pub download_headers : List HeaderKv
  pub upload_headers : List HeaderKv

abbrev pub all_test : ℤ
all_test = pos 2

abbrev pub retest : ℤ
retest = pos 3

abbrev pub eq_ℤ : ℤ → ℤ → Bool
eq_ℤ a b = not (ltb_ℤ a b) && not (ltb_ℤ b a)

abbrev pub any_subscription : List SubEntry → Bool
any_subscription [] = false
any_subscription (e ∷ es) = not (eq_str (trim_space e.subscription) []) || any_subscription es

-- `hasSubscriptionInput`
unfoldable pub has_subscription_input : ProfileTestOptions → Bool
has_subscription_input o =
    any_subscription o.subscriptions || not (eq_str (trim_space o.subscription) [])

-- The tests that put in defaults.
abbrev pub at_least : ℤ → ℤ → ℤ
at_least low n = if ltb_ℤ n low then low else n

abbrev pub at_most : ℤ → ℤ → ℤ
at_most high n = if ltb_ℤ high n then high else n

unfoldable pub with_defaults : ProfileTestOptions → ProfileTestOptions
with_defaults o = record o {
  timeout = at_least (pos 8) (mul_int64 o.timeout (pos second));
  group_name =
      if eq_str o.group_name (str "?empty?") || eq_str o.group_name []
      then str "Default"
      else o.group_name;
  concurrency = at_least (pos 1) o.concurrency;
  threads = at_most (pos 256) (at_least (pos 1) o.threads);
  upload_size = if eq_str o.upload_size [] then str "cloudflare" else o.upload_size;
}

-- What `parseMessage` returns: an error, or the links, the groups (none where nil), and the options.
pub data Parsed : Type 0 where
  failed : Parsed
  parsed : List Str → Option (List Str) → ProfileTestOptions → Parsed

module _ (parse_links : Str → Option (List Str)) where
  -- The links of one entry; none where the loop goes on to the next.
  abbrev pub some_links : Option (List Str) → List Str
  some_links none = []
  some_links (some ls) = ls

  abbrev pub entry_links : SubEntry → List Str
  entry_links e =
      let sub = trim_space e.subscription in
      if eq_str sub [] then [] else some_links (parse_links sub)

  -- The loop over the subscriptions, on the links and groups so far.
  unfoldable pub entries_loop : List SubEntry → List Str → List Str → List Str × List Str
  entries_loop [] links groups = (links, groups)
  entries_loop (e ∷ es) links groups =
      let ls = entry_links e in
      entries_loop es (links ++ ls) (groups ++ map (λ l. trim_space e.group) ls)

  abbrev pub many : ProfileTestOptions → List Str × List Str → Parsed
  many o ([], groups) = failed
  many o (l ∷ ls, groups) = parsed (l ∷ ls) (some groups) o

  abbrev pub single : ProfileTestOptions → Option (List Str) → Parsed
  single o none = failed
  single o (some ls) = parsed ls none o

  -- From the test on `Subscriptions` on.
  abbrev pub from_subscriptions : ProfileTestOptions → List SubEntry → Parsed
  from_subscriptions o [] = single o (parse_links o.subscription)
  from_subscriptions o (e ∷ es) = many o (entries_loop (e ∷ es) [] [])

  -- From the test on `TestMode` on.
  abbrev pub by_mode : ProfileTestOptions → Parsed
  by_mode o =
      let all = record o { test_mode = all_test } in
      if eq_ℤ o.test_mode retest
      then parsed o.links none o
      else if o.direct_mode || not (has_subscription_input o)
      then parsed (str "direct://" ∷ []) none (record all { direct_mode = true })
      else from_subscriptions all o.subscriptions

  -- `parseMessage`
  unfoldable pub parse_message : Option ProfileTestOptions → Parsed
  parse_message none = failed
  parse_message (some o) = by_mode (with_defaults o)

-- `groupFor`, with an index that is not negative.
abbrev pub group_at : ℕ → List Str → Str
group_at i [] = []
group_at zero (g ∷ gs) = g
group_at (suc i) (g ∷ gs) = group_at i gs

unfoldable pub group_for : List Str → Str → ℕ → Str
group_for groups default i =
    if not (eq_str (group_at i groups) []) then group_at i groups else default
