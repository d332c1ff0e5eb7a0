-- ===== src/Profile/Returns.antt =====
-- How a run ends, for every order in which the nodes of its tests arrive.
use mathlib.Core.List.{Permᴰ, Memᴰ}
use mathlib.Core.List.Permᴰ
use proxy_speedtest.Prelude.{
  ℕ, zero, suc, ltb, ◌≤◌, ◌<◌, ◌≡◌, refl, sym, ap, ◌∙◌, subst, false, List, [], ◌∷◌, some, length,
  replicate, length-replicate, arith, All, All-map, inl,
}
use proxy_speedtest.Prelude.Int.{ℤ, pos, negsuc, pos_part}
use proxy_speedtest.GoLib.{GoLib}
use proxy_speedtest.Text.{Str}
use proxy_speedtest.Config.{link_to_config}
use proxy_speedtest.Message.{Message, Formats}
use proxy_speedtest.Profile.{ProfileTestOptions}
use proxy_speedtest.Profile.One.{Node, Network, Tested, tested, before_caret, test_one}
use proxy_speedtest.Profile.Stages.{test_one-IsTest}
use proxy_speedtest.Profile.Run.{
  panicked, blocked, returned, Collected, TestSummary, finish, nothing_yet, zero_node, sent_nodes,
  chosen, test_chosen, tests_from, collect_sent, guarded, run,
}
use proxy_speedtest.Profile.Collect.{
  place_all, InRange, collect-place_all, collect-blocked, collect-panicked, member_before,
  place_all-Permᴰ,
}
use proxy_speedtest.Profile.Numbered.{
  Permᴰ-length, Permᴰ-All, IsOk, IsErr, AreNumbered, SentFrom-InRange, SentFrom-fewer,
  SentFrom-AreNumbered, AreNumbered-AreUnique, linked, traffic_of, successes_of, place_all-linked,
  place_all-traffic, place_all-successes,
}
use proxy_speedtest.Profile.Sends.{
  given, with_config-Gives, config_of, NoPanic, tests_from-SentFrom,
}

-- The result of nodes in the order of the links.
abbrev pub summary_of : List Str → List Node → TestSummary
summary_of links ns = record {
  nodes = linked links ns;
  traffic = traffic_of (pos 0) ns;
  success_count = successes_of 0 ns;
  links_count = length links;
}

summaries :
    (links : List Str) (ms : List Node) (t : ℤ) (k : ℕ) (c : Collected)
    → c.nodes ≡ ms
    → c.traffic ≡ t
    → c.successes ≡ k
    → finish links c
      ≡ returned (record { nodes = ms; traffic = t; success_count = k; links_count = length links })
summaries links ms t k c p q r = cc

place_all-summary :
    (links : List Str) (ns : List Node)
    → AreNumbered 0 ns
    → length ns ≡ length links
    → finish links (place_all links ns (nothing_yet links)) ≡ returned (summary_of links ns)
place_all-summary links ns h e =
    summaries links _ _ _ (place_all links ns (nothing_yet links))
      (place_all-linked links ns [] (replicate (length links) zero_node) (nothing_yet links) h
        (length-replicate (length links) zero_node ∙ sym e) refl)
      (place_all-traffic links ns (nothing_yet links))
      (place_all-successes links ns (nothing_yet links))

module _ (fmt : Formats) (o : ProfileTestOptions) (groups : List Str) {F : Type 0} (go : GoLib F)
    (net : ℕ → Network) where
  guarded_starts :
      (links : List Str) (most : ℕ) (c : ℤ) (order : List Node → List Node)
      → 1 ≤ pos_part c
      → pos_part c ≤ most
      → guarded fmt o links groups go net most c order false
        ≡ collect_sent fmt o links groups go net order
            (sent_nodes (tests_from fmt o links groups go net 0 links))
  unfolding guarded
  guarded_starts links most (negsuc c) order h k = absurd (omega arith)
  guarded_starts links most (pos zero) order h k = absurd (omega arith)
  guarded_starts links most (pos (suc c)) order h k =
      let room : ltb most (suc c) ≡ false = ground arith in rw room refl

  run_starts :
      (links : List Str) (most : ℕ) (order : List Node → List Node)
      → 1 ≤ pos_part o.concurrency
      → pos_part o.concurrency ≤ most
      → 1 ≤ length links
      → run fmt o links groups go net most order false
        ≡ collect_sent fmt o links groups go net order
            (sent_nodes (tests_from fmt o links groups go net 0 links))
  unfolding run
  run_starts [] most order h k l = absurd (omega arith)
  run_starts (x ∷ xs) most order h k l = guarded_starts (x ∷ xs) most o.concurrency order h k

  -- When every link has a configuration, and the concurrency is a capacity that a channel can have, of 1
  -- at least, a run that is not cancelled returns, whatever the order in
  -- which the nodes arrive: every test sends a node with the index of its link, and the summary has
  -- these nodes in the order of the links, each with its link, the sum of their traffic modulo 2^64,
  -- and the numbers of successes and of links. The condition leaves out a run that tests chosen
  -- indices again.
  pub run-returns :
      (links : List Str) (most : ℕ) (order : List Node → List Node)
      → 1 ≤ pos_part o.concurrency
      → pos_part o.concurrency ≤ most
      → ((ns : List Node) → Permᴰ ns (order ns))
      → o.test_ids ≡ []
      → 1 ≤ length links
      → All (λ l. IsOk (link_to_config go (before_caret l))) links
      → (ns : List Node) × ((sent_nodes (tests_from fmt o links groups go net 0 links) ≡ some ns)
          × (AreNumbered 0 ns
              × ((length ns ≡ length links)
                  × (run fmt o links groups go net most order false
                      ≡ returned (summary_of links ns)))))
  run-returns links most order one room perm r some_links h =
      let (ns, (es, s)) =
        tests_from-SentFrom fmt o links groups go net 0 links r refl
          (All-map (λ l k. inl k) links h) in
      let (numbered, len) = SentFrom-AreNumbered (config_of fmt o links groups go net) s h in
      let p = perm ns in
      let range = SentFrom-InRange (config_of fmt o links groups go net) s in
      (
        ns,
        (
          es,
          (
            numbered,
            (
              len,
              run_starts links most order one room some_links
                  ∙ ap (collect_sent fmt o links groups go net order) es
                  ∙ collect-place_all links (length links) (order ns) (nothing_yet links)
                      (sym (Permᴰ-length p) ∙ len) (Permᴰ-All (InRange links) p range)
                  ∙ ap (finish links) (
                      sym (
                        place_all-Permᴰ links ns (order ns) (nothing_yet links) p
                          (AreNumbered-AreUnique 0 ns numbered)))
                  ∙ place_all-summary links ns numbered len,
            ),
          ),
        ),
      )

  -- When some link has no configuration, every link either has one or is refused with an error, and
  -- the concurrency is a capacity that a channel can have, of 1 at least, a run that is not cancelled
  -- and tests no chosen indices again does not return, whatever the order in which the nodes arrive:
  -- the test of that link sends no node, and the run waits for it.
  pub run-blocked :
      (links : List Str) (most : ℕ) (order : List Node → List Node)
      → 1 ≤ pos_part o.concurrency
      → pos_part o.concurrency ≤ most
      → ((ns : List Node) → Permᴰ ns (order ns))
      → o.test_ids ≡ []
      → All (NoPanic fmt o links groups go net) links
      → (l : Str) → Memᴰ l links
      → IsErr (link_to_config go (before_caret l))
      → run fmt o links groups go net most order false ≡ blocked
  run-blocked links most order one room perm r h l m bad =
      let (ns, (es, s)) = tests_from-SentFrom fmt o links groups go net 0 links r refl h in
      let fewer = SentFrom-fewer (config_of fmt o links groups go net) s l m bad in
      let p = perm ns in
      let range = SentFrom-InRange (config_of fmt o links groups go net) s in
      run_starts links most order one room (omega arith)
      ∙ ap (collect_sent fmt o links groups go net order) es
      ∙ collect-blocked links (length links) (order ns) (nothing_yet links)
          (subst (λ k. k < length links) (Permᴰ-length p) fewer) (Permᴰ-All (InRange links) p range)

  -- The test of a link that the options name.
  retested :
      (links : List Str) (c : ℕ) (s : Str) (k : ℕ)
      → IsOk (link_to_config go (c ∷ s))
      → (ms : List Message) × ((n : Node) × ((n.id ≡ k)
            × (test_one fmt o groups go (net 0) links k (c ∷ s) ≡ tested ms (some n))))
  unfolding test_one
  retested links c s k good = given (link_to_config go (c ∷ s)) good (
      with_config-Gives fmt o links groups go net (net 0) k (c ∷ s) (link_to_config go (c ∷ s))
        (test_one-IsTest fmt o k groups go (net 0) links (c ∷ s)))

  -- A run that tests the one link of a list again, under an index other than 0, panics, where the link
  -- has a configuration and the concurrency is a capacity that a channel can have, of 1 at least.
  pub run-panicked :
      (c : ℕ) (s : Str) (k most : ℕ) (order : List Node → List Node)
      → 1 ≤ pos_part o.concurrency
      → pos_part o.concurrency ≤ most
      → ((ns : List Node) → Permᴰ ns (order ns))
      → o.test_ids ≡ k ∷ []
      → o.links ≡ (c ∷ s) ∷ []
      → 1 ≤ k
      → IsOk (link_to_config go (c ∷ s))
      → run fmt o ((c ∷ s) ∷ []) groups go net most order false ≡ panicked
  unfolding tests_from chosen sent_nodes
  run-panicked c s k most order one room perm r q h good =
      let links = (c ∷ s) ∷ [] in
      let e : chosen o.test_ids o.links 0 ≡ some (k, c ∷ s) =
        ap (λ (ks : List ℕ). chosen ks o.links 0) r
        ∙ ap (λ (ls : List Str). chosen (k ∷ []) ls 0) q in
      let (ms, (n, (d, t))) = retested links c s k good in
      let p = perm (n ∷ []) in
      run_starts links most order one room (omega arith)
      ∙ ap (λ (t : Tested). collect_sent fmt o links groups go net order (sent_nodes (t ∷ [])))
          (ap (test_chosen fmt o links groups go net 0) e ∙ t)
      ∙ collect-panicked links 1 (order (n ∷ [])) (nothing_yet links) (sym (Permᴰ-length p)) n
          (member_before (Permᴰ.symm p) (Memᴰ.head refl)) (omega arith)
