-- ===== src/Result.antt =====
-- internal/result/result.go: test results as nodes of an output, their order, and working links.
pub mod Order
pub mod Ping
pub mod Counts
mod Tests
use mathlib.Core.List.{Perm}
use proxy_speedtest.Prelude.{
  ℕ, zero, suc, ◌+◌, ◌-◌, ◌*◌, ◌%◌, ◌^◌, ◌≡◌, Bool, true, false, not, ◌&&◌, ◌||◌, List, [], ◌∷◌,
  ◌++◌, Option, none, some, if◌then◌else◌, ltb, leb, length, All,
}
use proxy_speedtest.Prelude.Int.{ℤ, pos, negsuc, ltb_ℤ, int64_of, add_int64}
use proxy_speedtest.Text.{Str, str, eq_str, to_lower}
use proxy_speedtest.Xray.Config.{ProxyConfig, StreamSettings, protocol_text, get_name, itoa}
use proxy_speedtest.Tester
use proxy_speedtest.Tester.{Result}

pub record Node : Type 0 where
  pub id : ℕ
  pub group : Str
  pub remarks : Str
  pub protocol : Str
  pub ping : Str
  pub avg_speed : ℤ
  pub max_speed : ℤ
  pub traffic : ℤ
  pub link : Str
  pub success : Bool

pub record Output : Type 0 where
  pub nodes : List Node
  pub total_traffic : ℤ
  pub duration : Str
  pub success_count : ℕ
  pub total_count : ℕ
  pub group_name : Str

-- `getProtocolString`
abbrev pub with_network : Str → Option StreamSettings → Str
with_network protocol none = protocol
with_network protocol (some s) =
    if not (eq_str s.network []) && not (eq_str s.network (str "tcp"))
    then protocol ++ (b'/' ∷ s.network)
    else protocol

unfoldable pub get_protocol_string : ProxyConfig → Str
get_protocol_string c = with_network (protocol_text c.protocol) c.stream

-- The text of `result.Ping`: Sprintf of a positive number, or "0".
abbrev pub ping_text : ℤ → Str
ping_text (pos zero) = str "0"
ping_text (pos (suc n)) = itoa (suc n)
ping_text (negsuc n) = str "0"

-- `ResultToNode`
unfoldable pub result_to_node : {E : Type 0} → Str → Result ProxyConfig E → Node
result_to_node group r = record {
  id = r.index;
  group = group;
  remarks = get_name r.config;
  protocol = get_protocol_string r.config;
  ping = ping_text r.ping;
  avg_speed = r.avg_speed;
  max_speed = r.max_speed;
  traffic = r.traffic;
  link = r.config.link;
  success = r.success;
}

-- The zero value, which the node of a nil result keeps.
abbrev pub zero_node : Node
zero_node = record {
  id = 0;
  group = [];
  remarks = [];
  protocol = [];
  ping = [];
  avg_speed = pos 0;
  max_speed = pos 0;
  traffic = pos 0;
  link = [];
  success = false;
}

-- The body of the loop of `ResultsToOutput`, for the node, the traffic and the count.
abbrev pub node_of : {E : Type 0} → Str → Option (Result ProxyConfig E) → Node
node_of group none = zero_node
node_of group (some r) = result_to_node group r

abbrev pub add_traffic : {E : Type 0} → ℤ → Option (Result ProxyConfig E) → ℤ
add_traffic total none = total
add_traffic total (some r) = add_int64 total r.traffic

abbrev pub add_success : {E : Type 0} → ℕ → Option (Result ProxyConfig E) → ℕ
add_success n none = n
add_success n (some r) = if r.success then n + 1 else n

unfoldable pub output_loop : {E : Type 0} → List (Option (Result ProxyConfig E)) → Output → Output
output_loop [] o = o
output_loop (r ∷ rs) o = output_loop rs (record o {
  nodes = o.nodes ++ node_of o.group_name r ∷ [];
  total_traffic = add_traffic o.total_traffic r;
  success_count = add_success o.success_count r;
})

-- `ResultsToOutput`
unfoldable pub results_to_output :
    {E : Type 0} → List (Option (Result ProxyConfig E)) → Str → Str → Output
results_to_output rs group duration =
    let o = output_loop rs (record {
      nodes = [];
      total_traffic = pos 0;
      duration = duration;
      success_count = 0;
      total_count = 0;
      group_name = group;
    }) in
    record o { total_count = length rs }

-- `parseInt`: the digits of the text, and nothing else of it.
unfoldable pub parse_from : ℕ → Str → ℕ
parse_from n [] = n
parse_from n (c ∷ s) =
    parse_from (if leb 48 c && leb c 57 then (n * 10 + (c - 48)) % 2 ^ 64 else n) s

unfoldable pub parse_int : Str → ℤ
parse_int s = int64_of (parse_from 0 s)

abbrev pub is_zero : ℤ → Bool
is_zero (pos zero) = true
is_zero (pos (suc n)) = false
is_zero (negsuc n) = false

unfoldable pub ping_less : Node → Node → Bool
ping_less a b =
    if is_zero (parse_int a.ping)
    then false
    else if is_zero (parse_int b.ping)
    then true
    else ltb_ℤ (parse_int a.ping) (parse_int b.ping)

-- The functions that `Sort` gives to sort.Slice, as functions of the two nodes.
unfoldable pub less_of : Str → Option (Node → Node → Bool)
less_of m =
    if eq_str m (str "speed") || eq_str m (str "avgspeed")
    then some (λ a b. ltb_ℤ b.avg_speed a.avg_speed)
    else if eq_str m (str "rspeed") || eq_str m (str "ravgspeed")
    then some (λ a b. ltb_ℤ a.avg_speed b.avg_speed)
    else if eq_str m (str "maxspeed")
    then some (λ a b. ltb_ℤ b.max_speed a.max_speed)
    else if eq_str m (str "rmaxspeed")
    then some (λ a b. ltb_ℤ a.max_speed b.max_speed)
    else if eq_str m (str "ping")
    then some ping_less
    else if eq_str m (str "rping")
    then some (λ a b. ltb_ℤ (parse_int b.ping) (parse_int a.ping))
    else if eq_str m (str "id")
    then some (λ a b. ltb a.id b.id)
    else none

-- Each entry of the list stands in `R` to all that follow.
abbrev pub InOrder : {A : Type 0} → (A → A → Type 0) → List A → Type 0
InOrder R [] = Unit
InOrder R (x ∷ xs) = All (R x) xs × InOrder R xs

-- What sort.Slice asks of its function, a strict weak ordering.
abbrev pub IsOrder : {A : Type 0} → (A → A → Bool) → Type 0
IsOrder {A} less =
    ((a b : A) → less a b ≡ true → less b a ≡ false)
    × ((a b c : A) → less a b ≡ false → less b c ≡ false → less a c ≡ false)

-- sort.Slice, which permutes the slice and puts it in order.
pub record SliceSort : Type 1 where
  pub slice : {A : Type 0} → (A → A → Bool) → List A → List A
  pub permutes : {A : Type 0} → (less : A → A → Bool) (xs : List A) → Perm xs (slice less xs)
  pub orders :
      {A : Type 0}
      → (less : A → A → Bool) (xs : List A) → IsOrder less
      → InOrder (λ a b. less b a ≡ false) (slice less xs)

-- `Sort`
abbrev pub sort_by : SliceSort → Option (Node → Node → Bool) → List Node → List Node
sort_by s none ns = ns
sort_by s (some less) ns = s.slice less ns

unfoldable pub sort : SliceSort → Str → List Node → List Node
sort s method ns = sort_by s (less_of (to_lower method)) ns

-- `GetWorkingLinks`
unfoldable pub working_links : List Node → List Str
working_links [] = []
working_links (n ∷ ns) =
    let rest = working_links ns in
    if n.success && not (eq_str n.link []) then n.link ∷ rest else rest

abbrev pub get_working_links : Output → List Str
get_working_links o = working_links o.nodes
