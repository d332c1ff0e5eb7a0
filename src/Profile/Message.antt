-- ===== src/Profile/Message.antt =====
-- What `parseMessage` returns.
use proxy_speedtest.Prelude.{
  ◌≤◌, ◌≡◌, false, List, [], ◌∷◌, ◌++◌, Option, none, some, if◌then◌else◌, length, map, ◌⊎◌,
}
use proxy_speedtest.Prelude.Int.{pos_part}
use proxy_speedtest.Text.{Str, str, eq_str, trim_space}
use proxy_speedtest.Profile.{SubEntry, ProfileTestOptions, Parsed, failed, parsed}

-- Options within the bounds: one test at a time and one thread at least, 256 threads at most, and a group
-- and an endpoint for uploads that are not empty.
pub record AreBounded (o : ProfileTestOptions) : Type 0 where
  pub tests : 1 ≤ pos_part o.concurrency
  pub some_threads : 1 ≤ pos_part o.threads
  pub few_threads : pos_part o.threads ≤ 256
  pub group : eq_str o.group_name [] ≡ false
  pub endpoint : eq_str o.upload_size [] ≡ false

-- The links that an entry gives, each with the group of the entry; an entry without a text or links
-- gives none.
abbrev pub pairs_of : (Str → Option (List Str)) → SubEntry → List (Str × Str)
pairs_of parse_links e =
    if eq_str (trim_space e.subscription) []
    then []
    else elim (parse_links (trim_space e.subscription)) [
      | none ↦ []
      | some ls ↦ map (λ l. (l, trim_space e.group)) ls
    ]

abbrev pub paired : (Str → Option (List Str)) → List SubEntry → List (Str × Str)
paired parse_links [] = []
paired parse_links (e ∷ es) = pairs_of parse_links e ++ paired parse_links es

abbrev pub firsts : List (Str × Str) → List Str
firsts ps = map (λ p. p.0) ps

abbrev pub seconds : List (Str × Str) → List Str
seconds ps = map (λ p. p.1) ps

-- What a message with some options becomes.
abbrev pub IsMessage : (Str → Option (List Str)) → ProfileTestOptions → Parsed → Type 0
IsMessage parse_links o failed = paired parse_links o.subscriptions ≡ []
IsMessage parse_links o (parsed links none p) =
    AreBounded p
    × ((links ≡ o.links)
        ⊎ ((links ≡ str "direct://" ∷ []) ⊎ (parse_links o.subscription ≡ some links)))
IsMessage parse_links o (parsed links (some groups) p) =
    AreBounded p
    × (links ≡ firsts (paired parse_links o.subscriptions))
    × (groups ≡ seconds (paired parse_links o.subscriptions))
    × (1 ≤ length links)
