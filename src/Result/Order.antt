-- ===== src/Result/Order.antt =====
-- The orders of `Sort`.
use mathlib.Core.List.{Perm}
use mathlib.Core.List.Perm
use proxy_speedtest.Prelude.{
  zero, suc, ◌≡◌, ◌≢◌, refl, subst, ap, Bool, true, false, List, [], ◌∷◌, Option, none, some,
  if◌then◌else◌, ltb, All-map, arith,
}
use proxy_speedtest.Prelude.Int.{ℤ, pos, negsuc, ltb_ℤ, ◌≤ℤ◌, pos_part}
use proxy_speedtest.Text.{Str, str, eq_str, to_lower, lower_byte}
use proxy_speedtest.Result.{
  Node, less_of, ping_less, parse_int, is_zero, InOrder, IsOrder, SliceSort, sort_by, sort,
}

-- A function that gives a strict weak ordering, where there is one.
abbrev AnyOrder : Option (Node → Node → Bool) → Type 0
AnyOrder none = Unit
AnyOrder (some less) = IsOrder less

ltb_ℤ-IsOrder : {A : Type 0} → (f : A → ℤ) → IsOrder (λ a b. ltb_ℤ (f a) (f b))
ltb_ℤ-IsOrder f = (λ a b. ground arith, λ a b c. ground arith)

ltb_ℤ-IsOrder_down : {A : Type 0} → (f : A → ℤ) → IsOrder (λ a b. ltb_ℤ (f b) (f a))
ltb_ℤ-IsOrder_down f = (λ a b. ground arith, λ a b c. ground arith)

id-IsOrder : IsOrder (λ (a b : Node). ltb a.id b.id)
id-IsOrder = (λ a b. ground arith, λ a b c. ground arith)

ping_less-IsOrder : IsOrder ping_less
unfolding ping_less
ping_less-IsOrder = (λ a b. ground arith, λ a b c. ground arith)

-- A switch whose cases all give an order.
AnyOrder-switch :
    (a b c d e f g : Bool)
    → AnyOrder (
        if a
        then some (λ m n. ltb_ℤ n.avg_speed m.avg_speed)
        else if b
        then some (λ m n. ltb_ℤ m.avg_speed n.avg_speed)
        else if c
        then some (λ m n. ltb_ℤ n.max_speed m.max_speed)
        else if d
        then some (λ m n. ltb_ℤ m.max_speed n.max_speed)
        else if e
        then some ping_less
        else if f
        then some (λ m n. ltb_ℤ (parse_int n.ping) (parse_int m.ping))
        else if g
        then some (λ m n. ltb m.id n.id)
        else none)
AnyOrder-switch true b c d e f g = ltb_ℤ-IsOrder_down (λ (a : Node). a.avg_speed)
AnyOrder-switch false true c d e f g = ltb_ℤ-IsOrder (λ (a : Node). a.avg_speed)
AnyOrder-switch false false true d e f g = ltb_ℤ-IsOrder_down (λ (a : Node). a.max_speed)
AnyOrder-switch false false false true e f g = ltb_ℤ-IsOrder (λ (a : Node). a.max_speed)
AnyOrder-switch false false false false true f g = ping_less-IsOrder
AnyOrder-switch false false false false false true g =
    ltb_ℤ-IsOrder_down (λ (a : Node). parse_int a.ping)
AnyOrder-switch false false false false false false true = id-IsOrder
AnyOrder-switch false false false false false false false = tt

less_of-AnyOrder : (m : Str) → AnyOrder (less_of m)
unfolding less_of
less_of-AnyOrder m = AnyOrder-switch _ _ _ _ _ _ _

abbrev InSome : Option (Node → Node → Bool) → List Node → Type 0
InSome none ns = Unit
InSome (some less) ns = InOrder (λ a b. less b a ≡ false) ns

sort_by-InOrder :
    (s : SliceSort) (o : Option (Node → Node → Bool)) (ns : List Node)
    → AnyOrder o
    → Perm ns (sort_by s o ns)
      × ((less : Node → Node → Bool)
          → o ≡ some less
          → InOrder (λ a b. less b a ≡ false) (sort_by s o ns))
sort_by-InOrder s none ns h = (Perm.refl ns, λ less e. cc)
sort_by-InOrder s (some l) ns h =
    (s.permutes l ns, λ less e. subst (λ o. InSome o (s.slice l ns)) e (s.orders l ns h))

-- `Sort` keeps all nodes, by any method; by a method that it knows, no node stands before one that is
-- less in its order.
pub sort-InOrder :
    (s : SliceSort) (method : Str) (ns : List Node)
    → Perm ns (sort s method ns)
      × ((less : Node → Node → Bool)
          → less_of (to_lower method) ≡ some less
          → InOrder (λ a b. less b a ≡ false) (sort s method ns))
unfolding sort
sort-InOrder s method ns =
    sort_by-InOrder s (less_of (to_lower method)) ns (less_of-AnyOrder (to_lower method))

InOrder-map :
    {A : Type 0}
    → {R S : A → A → Type 0} → ((a b : A) → R a b → S a b)
    → (xs : List A) → InOrder R xs
    → InOrder S xs
InOrder-map f [] h = tt
InOrder-map f (x ∷ xs) h = (All-map (f x) xs h.0, InOrder-map f xs h.1)

-- The first of two nodes by their ping: it is the faster one, or the other one has failed.
abbrev pub Faster : Node → Node → Type 0
Faster a b =
    (parse_int a.ping ≡ pos 0 → parse_int b.ping ≡ pos 0)
    × (parse_int b.ping ≢ pos 0 → ◌≤ℤ◌ (parse_int a.ping) (parse_int b.ping))

faster :
    (p q : ℤ)
    → (if is_zero q then false else if is_zero p then true else ltb_ℤ q p) ≡ false
    → (p ≡ pos 0 → q ≡ pos 0) × (q ≢ pos 0 → ◌≤ℤ◌ p q)
faster p (pos zero) e = (λ x. refl, λ n. absurd (n refl))
faster (pos zero) (pos (suc n)) e = cc
faster (pos (suc m)) (pos (suc n)) e =
    (λ x. absurd (omega (arith, ap pos_part x)), λ h. ground arith)
faster (negsuc m) (pos (suc n)) e = (λ x. cc, λ h. ground arith)
faster (pos zero) (negsuc n) e = cc
faster (pos (suc m)) (negsuc n) e = (λ x. absurd (omega (arith, ap pos_part x)), λ h. ground arith)
faster (negsuc m) (negsuc n) e = (λ x. cc, λ h. ground arith)

ping_less-Faster : (a b : Node) → ping_less b a ≡ false → Faster a b
unfolding ping_less
ping_less-Faster a b e = faster (parse_int a.ping) (parse_int b.ping) e

-- `Sort` by ping keeps all nodes, puts those whose ping is 0 at the end, and the others before them with
-- pings that do not decrease.
pub sort-ping :
    (s : SliceSort) (ns : List Node)
    → Perm ns (sort s (str "ping") ns) × InOrder Faster (sort s (str "ping") ns)
unfolding less_of eq_str str lower_byte
sort-ping s ns =
    let r = sort-InOrder s (str "ping") ns in
    (r.0, InOrder-map ping_less-Faster (sort s (str "ping") ns) (r.1 ping_less refl))
