-- ===== src/Result/Ping.antt =====
-- The text of a latency, which `Sort` reads back.
use mathlib.Core.List.{append_assoc, append-nil}
use proxy_speedtest.Prelude.{
  ℕ, zero, suc, ◌+◌, ◌*◌, ◌/◌, ◌%◌, ◌^◌, ◌<◌, ◌≡◌, refl, sym, ap, ◌∙◌, [], ◌∷◌, ◌++◌, arith, ltb,
  Bool-cases, inl, inr,
}
use proxy_speedtest.Prelude.Int.{ℤ, pos, negsuc, pos_part}
use proxy_speedtest.Text.{Str, str}
use proxy_speedtest.Xray.Config.{itoa_fuel, itoa, ProxyConfig}
use proxy_speedtest.Tester.{Result}
use proxy_speedtest.Result.{parse_from, parse_int, ping_text, result_to_node}

parse_from-digit :
    (a d i : ℕ) (rest : Str)
    → d < 10
    → i < 2 ^ 63
    → i ≡ a * 10 + d
    → parse_from a ((48 + d) ∷ rest) ≡ parse_from i rest
unfolding parse_from
parse_from-digit a d i rest h k e = ground arith

parse_from-itoa :
    (f i : ℕ) (rest : Str)
    → i < f
    → i < 2 ^ 63
    → parse_from 0 (itoa_fuel f i ++ rest) ≡ parse_from i rest
unfolding itoa_fuel
parse_from-itoa zero i rest h k = absurd (omega arith)
parse_from-itoa (suc f) i rest h k = elim (Bool-cases (ltb i 10)) [
  | inl e ↦ rw e (parse_from-digit 0 i i rest (ground arith) k (omega arith))
  | inr e ↦
      rw (e, append_assoc)
        (parse_from-itoa f (i / 10) ((48 + i % 10) ∷ rest) (ground arith) (omega arith)
          ∙ parse_from-digit (i / 10) (i % 10) i rest (omega arith) k (omega arith))
]

parse_int-itoa : (n : ℕ) → n < 2 ^ 63 → parse_int (itoa n) ≡ pos n
unfolding parse_int itoa parse_from
parse_int-itoa n h =
    let r : parse_from 0 (itoa_fuel (suc n) n) ≡ n =
      ap (parse_from 0) (sym (append-nil (itoa_fuel (suc n) n)))
      ∙ parse_from-itoa (suc n) n [] (omega arith) h in
    rw r (ground arith)

parse_int-ping_text : (p : ℤ) → pos_part p < 2 ^ 63 → parse_int (ping_text p) ≡ pos (pos_part p)
unfolding parse_int parse_from str
parse_int-ping_text (pos zero) h = refl
parse_int-ping_text (pos (suc n)) h = parse_int-itoa (suc n) h
parse_int-ping_text (negsuc n) h = refl

-- The latency of a node, an int64, is read back from the text that the node has for it; one that is
-- not positive is read as 0.
pub parse_int-result_to_node :
    {E : Type 0}
    → (group : Str) (r : Result ProxyConfig E) → pos_part r.ping < 2 ^ 63
    → parse_int (result_to_node group r).ping ≡ pos (pos_part r.ping)
unfolding result_to_node
parse_int-result_to_node group r h = parse_int-ping_text r.ping h
