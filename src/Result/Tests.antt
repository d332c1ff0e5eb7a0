-- ===== src/Result/Tests.antt =====
-- Three proxies, one of which has failed, and a sort by insertion.
use mathlib.Core.List.{Perm}
use mathlib.Core.List.Perm
use proxy_speedtest.Prelude.{
  ℕ, ◌≡◌, refl, Bool, true, false, List, [], ◌∷◌, none, if◌then◌else◌, All, All-map, Bool-cases,
  inl, inr, map,
}
use proxy_speedtest.Prelude.Int.{pos}
use proxy_speedtest.Text.{Str, str, to_lower}
use proxy_speedtest.Result.{
  Node, Output, zero_node, sort, SliceSort, InOrder, IsOrder, less_of, results_to_output, node_of,
  get_working_links, parse_int, result_to_node,
}
use proxy_speedtest.Xray.Config.{ProxyConfig, new_config, vmess}
use proxy_speedtest.Tester.{Result}
use proxy_speedtest.Result.Order.{sort-ping, Faster}

module _ {A : Type 0} (less : A → A → Bool) where
  abbrev insert : A → List A → List A
  insert x [] = x ∷ []
  insert x (y ∷ ys) = if less y x then y ∷ insert x ys else x ∷ y ∷ ys

  abbrev insertion : List A → List A
  insertion [] = []
  insertion (x ∷ xs) = insert x (insertion xs)

  insert-Perm : (x : A) (ys : List A) → Perm (x ∷ ys) (insert x ys)
  insert-Perm x [] = Perm.refl (x ∷ [])
  insert-Perm x (y ∷ ys) =
      elim (less y x) as (λ b. Perm (x ∷ y ∷ ys) (if b then y ∷ insert x ys else x ∷ y ∷ ys)) [
        | true ↦ Perm.trans (Perm.swap y x ys) (Perm.cons y (insert-Perm x ys))
        | false ↦ Perm.refl (x ∷ y ∷ ys)
      ]

  insertion-Perm : (xs : List A) → Perm xs (insertion xs)
  insertion-Perm [] = Perm.refl []
  insertion-Perm (x ∷ xs) =
      Perm.trans (Perm.cons x (insertion-Perm xs)) (insert-Perm x (insertion xs))

  All-insert : (P : A → Type 0) (x : A) (ys : List A) → P x → All P ys → All P (insert x ys)
  All-insert P x [] p h = (p, tt)
  All-insert P x (y ∷ ys) p h =
      elim (less y x) as (λ b. All P (if b then y ∷ insert x ys else x ∷ y ∷ ys)) [
        | true ↦ (h.0, All-insert P x ys p h.1)
        | false ↦ (p, h)
      ]

  insert-InOrder :
      IsOrder less
      → (x : A) (ys : List A) → InOrder (λ a b. less b a ≡ false) ys
      → InOrder (λ a b. less b a ≡ false) (insert x ys)
  insert-InOrder o x [] h = (tt, tt)
  insert-InOrder o x (y ∷ ys) h = elim (Bool-cases (less y x)) [
    | inl e ↦
        rw e (All-insert (λ b. less b y ≡ false) x ys (o.0 y x e) h.0, insert-InOrder o x ys h.1)
    | inr e ↦ rw e ((e, All-map (λ z l. o.1 z y x l e) ys h.0), h)
  ]

  insertion-InOrder :
      (xs : List A) → IsOrder less → InOrder (λ a b. less b a ≡ false) (insertion xs)
  insertion-InOrder [] o = tt
  insertion-InOrder (x ∷ xs) o = insert-InOrder o x (insertion xs) (insertion-InOrder xs o)

abbrev by_insertion : SliceSort
by_insertion = record { slice = insertion; permutes = insertion-Perm; orders = insertion-InOrder }

abbrev node : ℕ → Str → Node
node i ping = record zero_node { id = i; ping = ping }

abbrev three : List Node
three = node 0 (str "80") ∷ node 1 (str "0") ∷ node 2 (str "9") ∷ []

by_ping : map (λ n. n.id) (sort by_insertion (str "Ping") three) ≡ 2 ∷ 0 ∷ 1 ∷ []
unfolding sort less_of proxy_speedtest.Text.eq_str str proxy_speedtest.Text.lower_byte
    proxy_speedtest.Result.ping_less parse_int proxy_speedtest.Result.parse_from
by_ping = refl

sort-ping_example :
    Perm three (sort by_insertion (str "ping") three)
    × InOrder Faster (sort by_insertion (str "ping") three)
sort-ping_example = sort-ping by_insertion three

abbrev fast : Result ProxyConfig ℕ
fast = record {
  config = new_config vmess;
  index = 0;
  ping = pos 80;
  avg_speed = pos 1000;
  max_speed = pos 2000;
  traffic = pos 5000;
  error = none;
  success = true;
}
