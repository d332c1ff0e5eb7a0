-- ===== src/Profile/RunTests.antt =====
-- A run of two direct tests, one with a text that is no link, and one that tests a link again.
use mathlib.Core.List.{Permᴰ, Memᴰ, reverse}
use mathlib.Core.List.Permᴰ
use proxy_speedtest.Prelude.{◌≡◌, inl, inr, refl, false, List, [], ◌∷◌, some, length, arith}
use proxy_speedtest.Prelude.Int.{pos}
use proxy_speedtest.Text.{Str, str}
use proxy_speedtest.Config.{link_to_config}
use proxy_speedtest.Profile.Phase.{run_speed_phase}
use proxy_speedtest.Profile.Measure.{
  accepted, total, maximum_from, last_elapsed, IsMeasured, run_speed_phase-IsMeasured,
}
use proxy_speedtest.Profile.One.{Node, before_caret, test_one}
use proxy_speedtest.Profile.Stages.{IsTest, test_one-IsTest}
use proxy_speedtest.Profile.Run.{batches, blocked, panicked, returned, run, sent_nodes, tests_from}
use proxy_speedtest.Profile.Batches.{AreBatches, batches-AreBatches}
use proxy_speedtest.Profile.Numbered.{IsOk, IsErr, AreNumbered}
use proxy_speedtest.Profile.Returns.{summary_of, run-returns, run-blocked, run-panicked}
use proxy_speedtest.Profile.Samples.{go, plain_digits, options, samples, network, direct}

abbrev two : List Str
two = direct ∷ direct ∷ []

abbrev one_bad : List Str
one_bad = direct ∷ str "x" ∷ []

reverse_perm : (ns : List Node) → Permᴰ ns (reverse ns)
reverse_perm ns = Permᴰ.symm (Permᴰ.reverse ns)

direct-IsOk : IsOk (link_to_config go (before_caret direct))
unfolding link_to_config proxy_speedtest.Parser.Link.parse_link proxy_speedtest.Text.trim_space
    proxy_speedtest.Text.trim_right proxy_speedtest.Text.trim_left proxy_speedtest.Text.cut str
    proxy_speedtest.Text.is_space proxy_speedtest.Parser.Link.first_parser
    proxy_speedtest.Parser.Link.can_parse proxy_speedtest.Parser.Direct.is_direct_link
    proxy_speedtest.Text.lower_byte proxy_speedtest.Parser.Link.parse_with
    proxy_speedtest.Parser.Direct.parse
direct-IsOk = tt

bad-IsErr : IsErr (link_to_config go (before_caret (str "x")))
unfolding link_to_config proxy_speedtest.Parser.Link.parse_link proxy_speedtest.Text.trim_space
    proxy_speedtest.Text.trim_right proxy_speedtest.Text.trim_left proxy_speedtest.Text.cut str
    proxy_speedtest.Text.is_space proxy_speedtest.Parser.Link.first_parser
    proxy_speedtest.Parser.Link.can_parse proxy_speedtest.Parser.Direct.is_direct_link
    proxy_speedtest.Text.lower_byte proxy_speedtest.Parser.Vmess.can_parse
    proxy_speedtest.Parser.Vless.can_parse proxy_speedtest.Parser.Trojan.can_parse
    proxy_speedtest.Parser.Shadowsocks.can_parse proxy_speedtest.Parser.Wireguard.can_parse
    proxy_speedtest.Parser.Http.can_parse proxy_speedtest.Parser.Socks.can_parse
    proxy_speedtest.Text.has_prefix
bad-IsErr = tt

run_speed_phase-IsMeasured_example :
    IsMeasured
      (total (accepted samples))
      (maximum_from 0 (accepted samples))
      (last_elapsed 0 1 samples)
      (run_speed_phase plain_digits 0 (str "gotspeed") 0 samples (pos 80))
run_speed_phase-IsMeasured_example =
    run_speed_phase-IsMeasured plain_digits 0 (str "gotspeed") 0 samples (pos 80) (ground arith)

-- The samples are those before the negative one, and the last comes 2000 ms after the start.
two_samples : accepted samples ≡ 30 ∷ 50 ∷ []
two_samples = refl

two_seconds : last_elapsed 0 1 samples ≡ 2000
two_seconds = refl

test_one-IsTest_example :
    IsTest 1 (test_one plain_digits (options [] []) [] go (network 1) two 1 [])
test_one-IsTest_example = test_one-IsTest plain_digits (options [] []) 1 [] go (network 1) two []

batches-AreBatches_example : AreBatches 0 (batches two) two
batches-AreBatches_example = batches-AreBatches two

run-returns_example :
    (ns : List Node) × ((sent_nodes
          (tests_from plain_digits (options [] []) two [] go network 0 two)
        ≡ some ns)
      × (AreNumbered 0 ns
          × ((length ns ≡ length two)
              × (run plain_digits (options [] []) two [] go network 1000 reverse false
                  ≡ returned (summary_of two ns)))))
run-returns_example =
    run-returns plain_digits (options [] []) [] go network two 1000 reverse (ground arith)
      (ground arith) reverse_perm refl (ground arith) (direct-IsOk, (direct-IsOk, tt))

run-blocked_example :
    run plain_digits (options [] []) one_bad [] go network 1000 reverse false ≡ blocked
run-blocked_example =
    run-blocked plain_digits (options [] []) [] go network one_bad 1000 reverse (ground arith)
      (ground arith) reverse_perm refl (inl direct-IsOk, (inr bad-IsErr, tt)) (str "x")
      (Memᴰ.tail (Memᴰ.head refl)) bad-IsErr

run-panicked_example :
    run plain_digits (options (3 ∷ []) (direct ∷ [])) (direct ∷ []) [] go network 1000 reverse false
    ≡ panicked
unfolding str proxy_speedtest.Text.cut
run-panicked_example =
    run-panicked plain_digits (options (3 ∷ []) (direct ∷ [])) [] go network b'd' (str "irect://") 3
      1000 reverse (ground arith) (ground arith) reverse_perm refl refl (ground arith) direct-IsOk
