-- ===== src/Profile/Collect.antt =====
-- The collection of the nodes of a run, in whatever order they arrive.
use mathlib.Core.List.{Permᴰ, Memᴰ}
use proxy_speedtest.Prelude.{
  ℕ, zero, suc, ◌+◌, ◌≤◌, ◌<◌, ◌≡◌, ◌≢◌, refl, sym, ap, ◌∙◌, subst, Bool, List, [], ◌∷◌, none, some,
  ltb, if◌then◌else◌, length, arith, All, Bool-cases, ◌==◌, inl, inr,
}
use proxy_speedtest.Prelude.Int.{ℤ, add_int64_swap}
use proxy_speedtest.Text.{Str}
use proxy_speedtest.Profile.One.{Node, link_at}
use proxy_speedtest.Profile.Run.{
  panicked, blocked, Collected, set_at, with_link, place, finish, collect,
}

-- The link of a node, where its index is in range.
abbrev pub link_or_empty : ℕ → List Str → Str
link_or_empty i [] = []
link_or_empty zero (l ∷ ls) = l
link_or_empty (suc i) (l ∷ ls) = link_or_empty i ls

abbrev pub place_all : List Str → List Node → Collected → Collected
place_all links [] c = c
place_all links (n ∷ ns) c = place_all links ns (place (link_or_empty n.id links) n c)

abbrev pub InRange : List Str → Node → Type 0
InRange links n = n.id < length links

link_at_in : (i : ℕ) (ls : List Str) → i < length ls → link_at i ls ≡ some (link_or_empty i ls)
link_at_in i [] h = absurd (omega arith)
link_at_in zero (l ∷ ls) h = refl
link_at_in (suc i) (l ∷ ls) h = link_at_in i ls (omega arith)

link_at_out : (i : ℕ) (ls : List Str) → length ls ≤ i → link_at i ls ≡ none
link_at_out i [] h = refl
link_at_out zero (l ∷ ls) h = absurd (omega arith)
link_at_out (suc i) (l ∷ ls) h = link_at_out i ls (omega arith)

module _ (links : List Str) where
  -- As many nodes as links, all in range.
  pub collect-place_all :
      (k : ℕ) (ns : List Node) (c : Collected)
      → length ns ≡ k
      → All (InRange links) ns
      → collect links k ns c ≡ finish links (place_all links ns c)
  unfolding collect
  collect-place_all zero [] c e h = refl
  collect-place_all zero (n ∷ ns) c e h = absurd (omega arith)
  collect-place_all (suc k) [] c e h = absurd (omega arith)
  collect-place_all (suc k) (n ∷ ns) c e h =
      rw (link_at_in n.id links h.0, collect)
        (collect-place_all k ns (place (link_or_empty n.id links) n c) (omega arith) h.1)

  -- Fewer nodes than links.
  pub collect-blocked :
      (k : ℕ) (ns : List Node) (c : Collected)
      → length ns < k
      → All (InRange links) ns
      → collect links k ns c ≡ blocked
  unfolding collect
  collect-blocked zero ns c e h = absurd (omega arith)
  collect-blocked (suc k) [] c e h = refl
  collect-blocked (suc k) (n ∷ ns) c e h =
      rw (link_at_in n.id links h.0, collect)
        (collect-blocked k ns (place (link_or_empty n.id links) n c) (omega arith) h.1)

-- A node out of range, and no fewer nodes than links.
pub collect-panicked :
    (links : List Str) (k : ℕ) (ns : List Node) (c : Collected)
    → length ns ≡ k
    → (n : Node) → Memᴰ n ns
    → length links ≤ n.id
    → collect links k ns c ≡ panicked
unfolding collect
collect-panicked links k [] c e n h out = elim h [ ]
collect-panicked links zero (m ∷ ns) c e n h out = absurd (omega arith)
collect-panicked links (suc k) (m ∷ ns) c e n (Memᴰ.head h) out =
    rw (link_at_out m.id links (subst (λ (x : Node). length links ≤ x.id) h out), collect) refl
collect-panicked links (suc k) (m ∷ ns) c e n (Memᴰ.tail h) out =
    elim (Bool-cases (ltb m.id (length links))) [
      | inl t ↦
          rw (link_at_in m.id links (ground arith), collect)
            (collect-panicked links k ns (place (link_or_empty m.id links) m c) (omega arith) n h
              out)
      | inr t ↦ rw (link_at_out m.id links (ground arith), collect) refl
    ]

set_at_swap :
    (i j : ℕ) (m n : Node) (ns : List Node)
    → i ≢ j
    → set_at i m (set_at j n ns) ≡ set_at j n (set_at i m ns)
set_at_swap i j m n [] h = refl
set_at_swap zero zero m n (x ∷ ns) h = absurd (h refl)
set_at_swap zero (suc j) m n (x ∷ ns) h = refl
set_at_swap (suc i) zero m n (x ∷ ns) h = refl
set_at_swap (suc i) (suc j) m n (x ∷ ns) h =
    ap (λ (l : List Node). x ∷ l) (set_at_swap i j m n ns (λ e. h (ap (λ (k : ℕ). suc k) e)))

collected :
    {ms ns : List Node} {s t : ℤ} {i j : ℕ}
    → ms ≡ ns
    → s ≡ t
    → i ≡ j
    → Path Collected
        (record { nodes = ms; traffic = s; successes = i })
        (record { nodes = ns; traffic = t; successes = j })
collected p q r = cc

count_swap :
    (a b : Bool) (k : ℕ)
    → (if a then (if b then k + 1 else k) + 1 else if b then k + 1 else k)
      ≡ (if b then (if a then k + 1 else k) + 1 else if a then k + 1 else k)
count_swap a b k = ground arith

place_swap :
    (k l : Str) (m n : Node) (c : Collected)
    → m.id ≢ n.id
    → place k m (place l n c) ≡ place l n (place k m c)
unfolding place
place_swap k l m n c h =
    collected (set_at_swap m.id n.id (with_link k m) (with_link l n) c.nodes h)
      (add_int64_swap c.traffic n.traffic m.traffic) (count_swap m.success n.success c.successes)

-- Nodes with one index are one node.
abbrev pub AreUnique : List Node → Type 0
AreUnique ns = (m n : Node) → Memᴰ m ns → Memᴰ n ns → m.id ≡ n.id → m ≡ n

place_both :
    (links : List Str) (m n : Node) (c : Collected)
    → (m.id ≡ n.id → m ≡ n)
    → place (link_or_empty m.id links) m (place (link_or_empty n.id links) n c)
      ≡ place (link_or_empty n.id links) n (place (link_or_empty m.id links) m c)
place_both links m n c h = elim (Bool-cases (m.id == n.id)) [
  | inl t ↦
      let e : m ≡ n = h (ground arith) in
      subst
        (λ x.
          place (link_or_empty m.id links) m (place (link_or_empty x.id links) x c)
          ≡ place (link_or_empty x.id links) x (place (link_or_empty m.id links) m c))
        e refl
  | inr t ↦ place_swap (link_or_empty m.id links) (link_or_empty n.id links) m n c (ground arith)
]

pub member_before : {A : Type 0} {x : A} {ms ns : List A} → Permᴰ ms ns → Memᴰ x ns → Memᴰ x ms
member_before Permᴰ.nil m = m
member_before (Permᴰ.cons e p) (Memᴰ.head h) = Memᴰ.head (h ∙ sym e)
member_before (Permᴰ.cons e p) (Memᴰ.tail h) = Memᴰ.tail (member_before p h)
member_before (Permᴰ.swap e f) (Memᴰ.head h) = Memᴰ.tail (Memᴰ.head (h ∙ sym f))
member_before (Permᴰ.swap e f) (Memᴰ.tail (Memᴰ.head h)) = Memᴰ.head (h ∙ sym e)
member_before (Permᴰ.swap e f) (Memᴰ.tail (Memᴰ.tail h)) = Memᴰ.tail (Memᴰ.tail h)
member_before (Permᴰ.trans p q) h = member_before p (member_before q h)

-- Whatever the order of arrival, the same is collected.
pub place_all-Permᴰ :
    (links : List Str) (ms ns : List Node) (c : Collected)
    → Permᴰ ms ns
    → AreUnique ms
    → place_all links ms c ≡ place_all links ns c
place_all-Permᴰ links [] [] c Permᴰ.nil u = refl
place_all-Permᴰ links (m ∷ ms) (n ∷ ns) c (Permᴰ.cons e p) u =
    place_all-Permᴰ links ms ns (place (link_or_empty m.id links) m c) p
      (λ x y hx hy. u x y (Memᴰ.tail hx) (Memᴰ.tail hy))
    ∙ ap (λ (x : Node). place_all links ns (place (link_or_empty x.id links) x c)) e
place_all-Permᴰ links (a ∷ b ∷ ms) (d ∷ e ∷ ns) c (Permᴰ.swap p q) u =
    let put : Node → Collected → Collected = λ x k. place (link_or_empty x.id links) x k in
    let swapped = place_both links b a c (u b a (Memᴰ.tail (Memᴰ.head refl)) (Memᴰ.head refl)) in
    ap (place_all links ms)
      (swapped ∙ ap (λ (x : Node). put a (put x c)) q ∙ ap (λ (x : Node). put x (put d c)) p)
place_all-Permᴰ links ms ns c (Permᴰ.trans {l₂ = l} p q) u =
    place_all-Permᴰ links ms l c p u
    ∙ place_all-Permᴰ links l ns c q (λ x y hx hy. u x y (member_before p hx) (member_before p hy))
