-- ===== src/Profile/Sends.antt =====
-- What the tests of a run send, link by link.
use proxy_speedtest.Prelude.{
  ℕ, zero, suc, ◌+◌, ◌≡◌, ◌⊎◌, refl, sym, ap, ◌∙◌, subst, Bool, true, false, List, [], ◌∷◌, none,
  some, if◌then◌else◌, arith, All, inl, inr, drop,
}
use proxy_speedtest.GoLib.{GoLib}
use proxy_speedtest.Text.{Str}
use proxy_speedtest.Parser.Outcome.{Outcome, ok, err, panic}
use proxy_speedtest.Config.{Summary, link_to_config}
use proxy_speedtest.Message.{Message, Formats}
use proxy_speedtest.Profile.{ProfileTestOptions}
use proxy_speedtest.Profile.One.{
  Node, Network, Tested, tested, crashed, link_at, before_caret, own_link, chosen_link, test_link,
  test_one, with_config, ping_link,
}
use proxy_speedtest.Profile.Stages.{IsTest, test_one-IsTest}
use proxy_speedtest.Profile.Run.{sent_nodes, add_node, chosen, test_chosen, tests_from}
use proxy_speedtest.Profile.Numbered.{IsOk, IsErr, SentFrom, none_left, sends, silent}

drop_cons :
    (i : ℕ) (links : List Str) (l : Str) (ls : List Str)
    → drop i links ≡ l ∷ ls
    → (link_at i links ≡ some l) × (drop (suc i) links ≡ ls)
drop_cons zero [] l ls e = absurd (ground arith)
drop_cons (suc i) [] l ls e = absurd (ground arith)
drop_cons zero (m ∷ links) l ls e = (cc, cc)
drop_cons (suc i) (m ∷ links) l ls e = drop_cons i links l ls e

-- What a test gives for a configuration.
abbrev pub Gives : ℕ → Outcome Summary → Tested → Type 0
Gives i (ok c) t = (ms : List Message) × ((n : Node) × ((n.id ≡ i) × (t ≡ tested ms (some n))))
Gives i (err e) t = t ≡ tested [] none
Gives i panic t = t ≡ crashed

pub given :
    {i : ℕ} {t : Tested} (c : Outcome Summary)
    → IsOk c
    → Gives i c t
    → (ms : List Message) × ((n : Node) × ((n.id ≡ i) × (t ≡ tested ms (some n))))
given (ok c) k h = h
given (err e) k h = absurd k
given panic k h = absurd k

abbrev Sends : Tested → Type 0
Sends t = (ms : List Message) × ((n : Node) × (t ≡ tested ms (some n)))

Sends-if : (b : Bool) (x y : Tested) → Sends x → Sends y → Sends (if b then x else y)
Sends-if true x y p q = p
Sends-if false x y p q = q

module _ (fmt : Formats) (o : ProfileTestOptions) (links groups : List Str) {F : Type 0}
    (go : GoLib F) (net : ℕ → Network) where
  abbrev pub config_of : Str → Outcome Summary
  config_of l = link_to_config go (before_caret l)

  pub with_config-Gives :
      (w : Network) (i : ℕ) (l : Str) (c : Outcome Summary)
      → IsTest i (with_config fmt o groups w i l c)
      → Gives i c (with_config fmt o groups w i l c)
  with_config-Gives w i l (ok c) h =
      let p = ping_link fmt o w i l in
      let (ms, (n, e)) = Sends-if p.failed _ _ (_, (_, refl)) (_, (_, refl)) in
      (ms, (n, ((subst (IsTest i) e h).0, e)))
  with_config-Gives w i l (err e) h = refl
  with_config-Gives w i l panic h = refl

  -- A link for which `Link2Config` does not panic.
  abbrev pub NoPanic : Str → Type 0
  NoPanic l = IsOk (config_of l) ⊎ IsErr (config_of l)

  pub test_one-Gives :
      (i : ℕ) (l : Str)
      → link_at i links ≡ some l
      → Gives i (config_of l) (test_one fmt o groups go (net i) links i [])
  unfolding test_one
  test_one-Gives i l e =
      let q : chosen_link fmt o groups links i [] ≡ some (before_caret l) =
        ap (own_link fmt o groups) e in
      let eq : test_one fmt o groups go (net i) links i []
          ≡ with_config fmt o groups (net i) i (before_caret l) (config_of l) =
        ap (test_link fmt o groups go (net i) i) q in
      subst (Gives i (config_of l)) (sym eq) (
        with_config-Gives (net i) i (before_caret l) (config_of l)
          (subst (IsTest i) eq (test_one-IsTest fmt o i groups go (net i) links [])))

  sent_step :
      (i : ℕ) (l : Str) (ls : List Str) (t : Tested) (ts : List Tested) (ns : List Node)
      (c : Outcome Summary)
      → config_of l ≡ c
      → Gives i c t
      → IsOk c ⊎ IsErr c
      → sent_nodes ts ≡ some ns
      → SentFrom config_of (i + 1) ls ns
      → (ms : List Node) × ((sent_nodes (t ∷ ts) ≡ some ms) × SentFrom config_of i (l ∷ ls) ms)
  unfolding sent_nodes
  sent_step i l ls t ts ns (ok c) e (msgs, (n, (d, q))) h es s = (
    n ∷ ns,
    (
      ap (λ (x : Tested). sent_nodes (x ∷ ts)) q ∙ ap (add_node n) es,
      sends i l ls n ns (subst IsOk (sym e) tt) d s,
    ),
  )
  sent_step i l ls t ts ns (err x) e q h es s = (
    ns,
    (ap (λ (x : Tested). sent_nodes (x ∷ ts)) q ∙ es, silent i l ls ns (subst IsErr (sym e) tt) s),
  )
  sent_step i l ls t ts ns panic e q (inl h) es s = absurd h
  sent_step i l ls t ts ns panic e q (inr h) es s = absurd h

  -- The tests of the links from `i` on.
  pub tests_from-SentFrom :
      (i : ℕ) (ls : List Str)
      → o.test_ids ≡ []
      → drop i links ≡ ls
      → All NoPanic ls
      → (ns : List Node) × ((sent_nodes (tests_from fmt o links groups go net i ls) ≡ some ns)
          × SentFrom config_of i ls ns)
  unfolding tests_from sent_nodes chosen
  tests_from-SentFrom i [] r e h = ([], (refl, none_left i))
  tests_from-SentFrom i (l ∷ ls) r e h =
      let (at_i, next) = drop_cons i links l ls e in
      let k : suc i ≡ i + 1 = omega arith in
      let (ns, (es, s)) =
        tests_from-SentFrom (i + 1) ls r (ap (λ (n : ℕ). drop n links) (sym k) ∙ next) h.1 in
      let q : chosen o.test_ids o.links i ≡ some (i, []) =
        ap (λ (ks : List ℕ). chosen ks o.links i) r in
      sent_step i l ls (test_chosen fmt o links groups go net i (chosen o.test_ids o.links i))
        (tests_from fmt o links groups go net (i + 1) ls) ns (config_of l) refl
        (subst (Gives i (config_of l)) (sym (ap (test_chosen fmt o links groups go net i) q))
          (test_one-Gives i l at_i))
        h.0 es s
