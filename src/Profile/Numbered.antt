-- ===== src/Profile/Numbered.antt =====
-- The nodes that the tests of a run send: their indices, and what is collected of them in order.
use mathlib.Core.List.{Permᴰ, Memᴰ, append_assoc}
use proxy_speedtest.Prelude.{
  ℕ, zero, suc, ◌+◌, ◌≤◌, ◌<◌, ◌≡◌, refl, sym, ap, ◌∙◌, subst, List, [], ◌∷◌, ◌++◌, if◌then◌else◌,
  length, length-append, arith, All, All-map,
}
use proxy_speedtest.Prelude.Int.{ℤ, add_int64}
use proxy_speedtest.Text.{Str}
use proxy_speedtest.Parser.Outcome.{Outcome, ok, err, panic}
use proxy_speedtest.Config.{Summary}
use proxy_speedtest.Profile.One.{Node}
use proxy_speedtest.Profile.Run.{Collected, set_at, with_link, place}
use proxy_speedtest.Profile.Collect.{link_or_empty, place_all, InRange, AreUnique}

pub Permᴰ-length : {A : Type 0} {ms ns : List A} → Permᴰ ms ns → length ms ≡ length ns
Permᴰ-length Permᴰ.nil = refl
Permᴰ-length (Permᴰ.cons e p) = ap (λ (n : ℕ). suc n) (Permᴰ-length p)
Permᴰ-length (Permᴰ.swap e f) = refl
Permᴰ-length (Permᴰ.trans p q) = Permᴰ-length p ∙ Permᴰ-length q

pub Permᴰ-All : {A : Type 0} (P : A → Type 0) {ms ns : List A} → Permᴰ ms ns → All P ms → All P ns
Permᴰ-All P Permᴰ.nil h = h
Permᴰ-All P (Permᴰ.cons e p) h = (subst P e h.0, Permᴰ-All P p h.1)
Permᴰ-All P (Permᴰ.swap e f) h = (subst P f h.1.0, (subst P e h.0, h.1.1))
Permᴰ-All P (Permᴰ.trans p q) h = Permᴰ-All P q (Permᴰ-All P p h)

pub All-Memᴰ : {A : Type 0} (P : A → Type 0) (ns : List A) (n : A) → All P ns → Memᴰ n ns → P n
All-Memᴰ P [] n h k = elim k [ ]
All-Memᴰ P (m ∷ ns) n h (Memᴰ.head e) = subst P (sym e) h.0
All-Memᴰ P (m ∷ ns) n h (Memᴰ.tail k) = All-Memᴰ P ns n h.1 k

-- Whether `Link2Config` gives a configuration, or an error.
abbrev pub IsOk : {A : Type 0} → Outcome A → Type 0
IsOk (ok a) = Unit
IsOk (err e) = ⊥
IsOk panic = ⊥

abbrev pub IsErr : {A : Type 0} → Outcome A → Type 0
IsErr (ok a) = ⊥
IsErr (err e) = Unit
IsErr panic = ⊥

not_both : {A : Type 0} (c : Outcome A) → IsOk c → IsErr c → ⊥
not_both (ok a) p q = q
not_both (err e) p q = p
not_both panic p q = p

-- The nodes that the tests of links send, from an index on, where `Config` tells of a link whether it
-- has a configuration.
pub data SentFrom (config : Str → Outcome Summary) : ℕ → List Str → List Node → Type 0 where
  none_left : (i : ℕ) → SentFrom config i [] []
  sends :
      (i : ℕ) (l : Str) (ls : List Str) (n : Node) (ns : List Node)
      → IsOk (config l)
      → n.id ≡ i
      → SentFrom config (i + 1) ls ns
      → SentFrom config i (l ∷ ls) (n ∷ ns)
  silent :
      (i : ℕ) (l : Str) (ls : List Str) (ns : List Node)
      → IsErr (config l)
      → SentFrom config (i + 1) ls ns
      → SentFrom config i (l ∷ ls) ns

-- Nodes with the indices from `i` on.
abbrev pub AreNumbered : ℕ → List Node → Type 0
AreNumbered i [] = Unit
AreNumbered i (n ∷ ns) = (n.id ≡ i) × AreNumbered (i + 1) ns

abbrev pub AreFrom : ℕ → ℕ → List Node → Type 0
AreFrom i j ns = All (λ (n : Node). (i ≤ n.id) × (n.id < j)) ns

module _ (config : Str → Outcome Summary) where
  SentFrom-AreFrom :
      {i : ℕ} {ls : List Str} {ns : List Node}
      → SentFrom config i ls ns
      → (j : ℕ) → j ≡ i + length ls
      → AreFrom i j ns
  SentFrom-AreFrom (none_left i) j e = tt
  SentFrom-AreFrom (sends i l ls n ns k d s) j e = (
    (omega arith, omega arith),
    All-map (λ m h. (omega (arith, h.0), h.1)) ns (SentFrom-AreFrom s j (omega arith)),
  )
  SentFrom-AreFrom (silent i l ls ns k s) j e =
      All-map (λ m h. (omega (arith, h.0), h.1)) ns (SentFrom-AreFrom s j (omega arith))

  pub SentFrom-InRange :
      {ls : List Str} {ns : List Node} → SentFrom config 0 ls ns → All (InRange ls) ns
  SentFrom-InRange {ls} {ns} s =
      All-map (λ m h. h.1) ns (SentFrom-AreFrom s (length ls) (omega arith))

  SentFrom-few :
      {i : ℕ} {ls : List Str} {ns : List Node} → SentFrom config i ls ns → length ns ≤ length ls
  SentFrom-few (none_left i) = omega arith
  SentFrom-few (sends i l ls n ns k d s) = omega (arith, SentFrom-few s)
  SentFrom-few (silent i l ls ns k s) = omega (arith, SentFrom-few s)

  -- One link without a configuration.
  pub SentFrom-fewer :
      {i : ℕ} {ls : List Str} {ns : List Node}
      → SentFrom config i ls ns
      → (l : Str) → Memᴰ l ls
      → IsErr (config l)
      → length ns < length ls
  SentFrom-fewer (none_left i) l m h = elim m [ ]
  SentFrom-fewer (sends i k ls n ns p d s) l (Memᴰ.head e) h =
      absurd (not_both (config k) p (subst (λ x. IsErr (config x)) e h))
  SentFrom-fewer (sends i k ls n ns p d s) l (Memᴰ.tail m) h = omega (arith, SentFrom-fewer s l m h)
  SentFrom-fewer (silent i k ls ns p s) l m h = omega (arith, SentFrom-few s)

  pub SentFrom-AreNumbered :
      {i : ℕ} {ls : List Str} {ns : List Node}
      → SentFrom config i ls ns
      → All (λ l. IsOk (config l)) ls
      → AreNumbered i ns × (length ns ≡ length ls)
  SentFrom-AreNumbered (none_left i) h = (tt, refl)
  SentFrom-AreNumbered (sends i l ls n ns p d s) h =
      let k = SentFrom-AreNumbered s h.1 in ((d, k.0), ap (λ (n : ℕ). suc n) k.1)
  SentFrom-AreNumbered (silent i l ls ns p s) h = absurd (not_both (config l) h.0 p)

-- Nodes in order have different indices.
pub AreNumbered-AreFrom :
    (i j : ℕ) (ns : List Node) → AreNumbered i ns → j ≡ i + length ns → AreFrom i j ns
AreNumbered-AreFrom i j [] h e = tt
AreNumbered-AreFrom i j (n ∷ ns) h e = (
  (omega (arith, h.0), omega (arith, h.0)),
  All-map (λ m k. (omega (arith, k.0), k.1)) ns
      (AreNumbered-AreFrom (i + 1) j ns h.1 (omega arith)),
)

later : (i : ℕ) (ns : List Node) (n : Node) → AreNumbered (i + 1) ns → Memᴰ n ns → i < n.id
later i ns n h m =
    let k = All-Memᴰ _ ns n (AreNumbered-AreFrom (i + 1) (i + 1 + length ns) ns h refl) m in
    omega (arith, k.0)

pub AreNumbered-AreUnique : (i : ℕ) (ns : List Node) → AreNumbered i ns → AreUnique ns
AreNumbered-AreUnique i [] h m n p q e = elim p [ ]
AreNumbered-AreUnique i (k ∷ ns) h m n (Memᴰ.head p) (Memᴰ.head q) e = p ∙ sym q
AreNumbered-AreUnique i (k ∷ ns) h m n (Memᴰ.head p) (Memᴰ.tail q) e =
    absurd (omega (arith, later i ns n h.1 q, h.0, ap (λ (x : Node). x.id) p))
AreNumbered-AreUnique i (k ∷ ns) h m n (Memᴰ.tail p) (Memᴰ.head q) e =
    absurd (omega (arith, later i ns m h.1 p, h.0, ap (λ (x : Node). x.id) q))
AreNumbered-AreUnique i (k ∷ ns) h m n (Memᴰ.tail p) (Memᴰ.tail q) e =
    AreNumbered-AreUnique (i + 1) ns h.1 m n p q e

-- What is collected of nodes in order.
abbrev pub linked : List Str → List Node → List Node
linked links [] = []
linked links (n ∷ ns) = with_link (link_or_empty n.id links) n ∷ linked links ns

abbrev pub traffic_of : ℤ → List Node → ℤ
traffic_of t [] = t
traffic_of t (n ∷ ns) = traffic_of (add_int64 t n.traffic) ns

abbrev pub successes_of : ℕ → List Node → ℕ
successes_of k [] = k
successes_of k (n ∷ ns) = successes_of (if n.success then k + 1 else k) ns

set_at_end :
    (done : List Node) (i : ℕ) (n z : Node) (zs : List Node)
    → i ≡ length done
    → set_at i n (done ++ z ∷ zs) ≡ (done ++ n ∷ []) ++ zs
set_at_end [] zero n z zs e = refl
set_at_end [] (suc i) n z zs e = absurd (omega arith)
set_at_end (d ∷ done) zero n z zs e = absurd (omega arith)
set_at_end (d ∷ done) (suc i) n z zs e =
    ap (λ (l : List Node). d ∷ l) (set_at_end done i n z zs (omega arith))

module _ (links : List Str) where
  pub place_all-linked :
      (ns done zs : List Node) (c : Collected)
      → AreNumbered (length done) ns
      → length zs ≡ length ns
      → c.nodes ≡ done ++ zs
      → (place_all links ns c).nodes ≡ done ++ linked links ns
  unfolding place
  place_all-linked [] done [] c h e k = k
  place_all-linked [] done (z ∷ zs) c h e k = absurd (omega arith)
  place_all-linked (n ∷ ns) done [] c h e k = absurd (omega arith)
  place_all-linked (n ∷ ns) done (z ∷ zs) c h e k =
      let l = link_or_empty n.id links in
      place_all-linked ns (done ++ with_link l n ∷ []) zs (place l n c)
        (subst (λ i. AreNumbered i ns) (omega (arith, length-append done (with_link l n ∷ []))) h.1)
        (omega arith)
        (ap (set_at n.id (with_link l n)) k ∙ set_at_end done n.id (with_link l n) z zs h.0)
      ∙ append_assoc done (with_link l n ∷ []) (linked links ns)

  pub place_all-traffic :
      (ns : List Node) (c : Collected) → (place_all links ns c).traffic ≡ traffic_of c.traffic ns
  unfolding place
  place_all-traffic [] c = refl
  place_all-traffic (n ∷ ns) c = place_all-traffic ns (place (link_or_empty n.id links) n c)

  pub place_all-successes :
      (ns : List Node) (c : Collected)
      → (place_all links ns c).successes ≡ successes_of c.successes ns
  unfolding place
  place_all-successes [] c = refl
  place_all-successes (n ∷ ns) c = place_all-successes ns (place (link_or_empty n.id links) n c)
