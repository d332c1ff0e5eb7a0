-- ===== src/Result/Counts.antt =====
-- The counts of an output.
use mathlib.Core.List.{append_assoc, append-nil}
use proxy_speedtest.Prelude.{
  ℕ, suc, ◌+◌, ◌≤◌, ◌≡◌, refl, sym, List, [], ◌∷◌, ◌++◌, Option, none, some, if◌then◌else◌, length,
  length-map, arith, map,
}
use proxy_speedtest.Prelude.Int.{pos}
use proxy_speedtest.Text.{Str}
use proxy_speedtest.Xray.Config.{ProxyConfig}
use proxy_speedtest.Tester.{Result}
use proxy_speedtest.Result.{
  Node, Output, node_of, add_success, add_traffic, output_loop, results_to_output, result_to_node,
  working_links, get_working_links,
}

-- How many nodes report success.
abbrev pub successes : List Node → ℕ
successes [] = 0
successes (n ∷ ns) = if n.success then suc (successes ns) else successes ns

successes-append : (xs ys : List Node) → successes (xs ++ ys) ≡ successes xs + successes ys
successes-append [] ys = omega arith
successes-append (x ∷ xs) ys = ground (arith, successes-append xs ys)

working_links-le : (ns : List Node) → length (working_links ns) ≤ successes ns
unfolding working_links
working_links-le [] = omega arith
working_links-le (n ∷ ns) = ground (arith, working_links-le ns)

module _ {E : Type 0} where
  add_success-node_of :
      (n : ℕ) (group : Str) (r : Option (Result ProxyConfig E))
      → add_success n r ≡ n + successes (node_of group r ∷ [])
  unfolding result_to_node
  add_success-node_of n group none = ground arith
  add_success-node_of n group (some r) = ground arith

  output_loop-nodes :
      (rs : List (Option (Result ProxyConfig E))) (o : Output)
      → ((output_loop rs o).nodes ≡ o.nodes ++ map (node_of o.group_name) rs)
        × (o.success_count ≡ successes o.nodes
            → (output_loop rs o).success_count ≡ successes (output_loop rs o).nodes)
  unfolding output_loop
  output_loop-nodes [] o = (sym (append-nil o.nodes), λ e. e)
  output_loop-nodes (r ∷ rs) o =
      let next = output_loop-nodes rs (record o {
        nodes = o.nodes ++ node_of o.group_name r ∷ [];
        total_traffic = add_traffic o.total_traffic r;
        success_count = add_success o.success_count r;
      }) in
      (
        rw (next.0, append_assoc) refl,
        λ e. next.1 (
            ground (
              arith,
              e,
              add_success-node_of o.success_count o.group_name r,
              successes-append o.nodes (node_of o.group_name r ∷ []),
            )),
      )

  -- The output has a node for each result, in their order, a nil one included; its counts are those of all
  -- nodes and of the successful ones; and it has at most as many working links as successful nodes.
  pub results_to_output-counts :
      (rs : List (Option (Result ProxyConfig E))) (group duration : Str)
      → let o = results_to_output rs group duration in
        (o.nodes ≡ map (node_of group) rs)
        × (o.total_count ≡ length o.nodes)
        × (o.success_count ≡ successes o.nodes)
        × (length (get_working_links o) ≤ o.success_count)
  unfolding results_to_output
  results_to_output-counts rs group duration =
      let loop = output_loop-nodes rs (record {
        nodes = [];
        total_traffic = pos 0;
        duration = duration;
        success_count = 0;
        total_count = 0;
        group_name = group;
      }) in
      let count = loop.1 refl in
      (loop.0, rw (loop.0, length-map) refl, count, rw count (working_links-le _))
