-- ===== src/Profile/Run.antt =====
-- web/profile.go `run`: the announcement of the links, the tests, and the collection of their nodes.
-- The tests run at the same time, as many as the channel `guard` has room for; the order in which their
-- nodes arrive is a parameter, as is the greatest capacity of a channel that `make` accepts. The
-- messages with the addresses of the machine are left out, as are the clock and the sort of the nodes.
use proxy_speedtest.Prelude.{
  ℕ, zero, suc, ◌+◌, ◌-◌, ◌/◌, Bool, false, List, [], ◌∷◌, Option, none, some, if◌then◌else◌, ltb,
  length, take, drop, replicate,
}
use proxy_speedtest.Prelude.Int.{ℤ, pos, negsuc, add_int64}
use proxy_speedtest.GoLib.{GoLib}
use proxy_speedtest.Text.{Str, str}
use proxy_speedtest.Parser.Outcome.{Outcome, ok, ◌>>=◌}
use proxy_speedtest.Message.{Sent, single, Formats, get_msg, gotservers_msg}
use proxy_speedtest.Profile.{ProfileTestOptions, group_for}
use proxy_speedtest.Profile.One.{Node, Network, Tested, tested, crashed, link_at, test_one}

-- The number of links that one message announces.
unfoldable pub step_for : ℕ → ℕ
step_for n = if ltb 200 n then if ltb 50 (n / 20) then 50 else n / 20 else 9

-- The loop that cuts the links into batches, on fuel, with the index of the first link of each.
unfoldable pub batch_loop : ℕ → ℕ → ℕ → List Str → List (ℕ × List Str)
batch_loop zero step i links = []
batch_loop (suc f) step i links =
    let n = length links in
    let end = if ltb n (i + step) then n else i + step in
    let rest = batch_loop f step (i + step) links in
    if ltb i n then (i, take (end - i) (drop i links)) ∷ rest else []

unfoldable pub batches : List Str → List (ℕ × List Str)
unfolding batch_loop step_for
batches links = batch_loop (length links) (step_for (length links)) 0 links

-- The groups of as many links, from an index on.
unfoldable pub groups_from : List Str → Str → ℕ → List Str → List Str
groups_from groups name i [] = []
groups_from groups name i (l ∷ ls) = group_for groups name i ∷ groups_from groups name (i + 1) ls

-- `TestSummary`, without the duration
pub record TestSummary : Type 0 where
  pub nodes : List Node
  pub traffic : ℤ
  pub success_count : ℕ
  pub links_count : ℕ

-- How a run ends: with an error for no links or for a context that has ended, with a panic, not at
-- all, or with a summary.
pub data Ended : Type 0 where
  no_profile : Ended
  cancelled : Ended
  panicked : Ended
  blocked : Ended
  returned : TestSummary → Ended

-- The nodes, the traffic and the successes so far.
pub record Collected : Type 0 where
  pub nodes : List Node
  pub traffic : ℤ
  pub successes : ℕ

abbrev pub set_at : ℕ → Node → List Node → List Node
set_at i n [] = []
set_at zero n (m ∷ ms) = n ∷ ms
set_at (suc i) n (m ∷ ms) = m ∷ set_at i n ms

abbrev pub with_link : Str → Node → Node
with_link l n = record n { link = l }

-- The body of the loop that receives the nodes.
unfoldable pub place : Str → Node → Collected → Collected
place l n c = record {
  nodes = set_at n.id (with_link l n) c.nodes;
  traffic = add_int64 c.traffic n.traffic;
  successes = if n.success then c.successes + 1 else c.successes;
}

abbrev pub finish : List Str → Collected → Ended
finish links c = returned (record {
  nodes = c.nodes;
  traffic = c.traffic;
  success_count = c.successes;
  links_count = length links;
})

-- The loop that receives the nodes: it waits for as many as there are links, and panics at an index
-- out of range.
unfoldable pub collect : List Str → ℕ → List Node → Collected → Ended
collect links zero ns c = finish links c
collect links (suc k) [] c = blocked
collect links (suc k) (n ∷ ns) c = elim (link_at n.id links) [
  | none ↦ panicked
  | some l ↦ collect links k ns (place l n c)
]

-- The zero value of a node.
abbrev pub zero_node : Node
zero_node = record {
  id = 0;
  group = [];
  remarks = [];
  protocol = [];
  ping = [];
  avg_speed = pos 0;
  max_speed = pos 0;
  upload_speed = pos 0;
  max_upload_speed = pos 0;
  success = false;
  traffic = pos 0;
  link = [];
}

abbrev pub nothing_yet : List Str → Collected
nothing_yet links = record {
  nodes = replicate (length links) zero_node;
  traffic = pos 0;
  successes = 0;
}

abbrev pub add_node : Node → Option (List Node) → Option (List Node)
add_node n none = none
add_node n (some ns) = some (n ∷ ns)

-- The nodes that the tests have sent; none where a test has panicked.
unfoldable pub sent_nodes : List Tested → Option (List Node)
sent_nodes [] = some []
sent_nodes (tested ms none ∷ ts) = sent_nodes ts
sent_nodes (tested ms (some n) ∷ ts) = add_node n (sent_nodes ts)
sent_nodes (crashed ∷ ts) = none

-- `p.Options.TestIDs[i]`
abbrev pub id_at : ℕ → List ℕ → Option ℕ
id_at i [] = none
id_at zero (k ∷ ks) = some k
id_at (suc i) (k ∷ ks) = id_at i ks

abbrev pub id_and_link : Option ℕ → Option Str → Option (ℕ × Str)
id_and_link none l = none
id_and_link (some k) none = none
id_and_link (some k) (some l) = some (k, l)

-- The index and the link of the i-th test: those of the options, where there are both.
unfoldable pub chosen : List ℕ → List Str → ℕ → Option (ℕ × Str)
chosen [] links i = some (i, [])
chosen (k ∷ ks) [] i = some (i, [])
chosen (k ∷ ks) (l ∷ ls) i = id_and_link (id_at i (k ∷ ks)) (link_at i (l ∷ ls))

module _ (fmt : Formats) (o : ProfileTestOptions) (links groups : List Str) where
  module _ {F : Type 0} (go : GoLib F) (net : ℕ → Network) where
    abbrev pub test_chosen : ℕ → Option (ℕ × Str) → Tested
    test_chosen i none = crashed
    test_chosen i (some (k, l)) = test_one fmt o groups go (net i) links k l

    unfoldable pub tests_from : ℕ → List Str → List Tested
    tests_from i [] = []
    tests_from i (l ∷ ls) = test_chosen i (chosen o.test_ids o.links i) ∷ tests_from (i + 1) ls

    abbrev pub collect_sent : (List Node → List Node) → Option (List Node) → Ended
    collect_sent order none = panicked
    collect_sent order (some ns) = collect links (length links) (order ns) (nothing_yet links)

    -- The loop that starts the tests, where `guard` has no room: the index and the link of the first
    -- are read, and nothing takes its number from the channel.
    abbrev pub first_waits : Bool → Option (ℕ × Str) → Ended
    first_waits stopped none = panicked
    first_waits stopped (some c) = if stopped then cancelled else blocked

    -- From `make` of the channel `guard` on: it panics at a capacity that is negative or greater than
    -- `most`. A goroutine takes its number out again when its test is over.
    unfoldable pub guarded : ℕ → ℤ → (List Node → List Node) → Bool → Ended
    guarded most (negsuc c) order stopped = panicked
    guarded most (pos zero) order stopped = first_waits stopped (chosen o.test_ids o.links 0)
    guarded most (pos (suc c)) order stopped =
        if ltb most (suc c)
        then panicked
        else if stopped
        then cancelled
        else collect_sent order (sent_nodes (tests_from 0 links))

    -- `run`, for the greatest capacity of a channel, the order in which nodes arrive, and whether the
    -- context has ended before all tests are started.
    unfoldable pub run : ℕ → (List Node → List Node) → Bool → Ended
    run most order stopped = elim links [
      | [] ↦ no_profile
      | l ∷ ls ↦ guarded most o.concurrency order stopped
    ]

    module _ (join_host_port : Str → Str → Str) where
      unfoldable pub announce : List (ℕ × List Str) → Outcome (List Sent)
      announce [] = ok []
      announce ((i, ls) ∷ bs) = do
        m ← gotservers_msg join_host_port go i ls (groups_from groups o.group_name i ls)
        ms ← announce bs
        ok (m ∷ ms)

      -- The messages before the tests.
      unfoldable pub opening : Outcome (List Sent)
      opening = do
        ms ← announce (batches links)
        ok (single (get_msg fmt (negsuc 0) (str "started") []) ∷ ms)
