-- ===== src/Progress/Announce.antt =====
-- The writer over the announcement of the links.
use proxy_speedtest.Prelude.{
  ℕ, suc, ◌+◌, ◌≡◌, ◌<◌, refl, sym, ap, ◌∙◌, subst, Bool, true, false, List, [], ◌∷◌, Option, none,
  some, if◌then◌else◌, length, length-append, All, All-map, arith,
}
use proxy_speedtest.Prelude.Int.{ℤ, pos}
use proxy_speedtest.GoLib.{GoLib}
use proxy_speedtest.Text.{Str, str, eq_str}
use proxy_speedtest.Parser.Outcome.{Outcome, ok, err, panic, ◌>>=◌}
use proxy_speedtest.Config.{Summary, link_to_config}
use proxy_speedtest.Message.{
  Message, Sent, Formats, get_msg, plain, server_msg, server_msgs, first_group, later_groups,
  gotservers_msg,
}
use proxy_speedtest.Profile.{ProfileTestOptions, eq_ℤ}
use proxy_speedtest.Profile.One.{Network}
use proxy_speedtest.Profile.Run.{batches, announce, opening, groups_from}
use proxy_speedtest.Profile.Batches.{AreBatches, batches-AreBatches}
use proxy_speedtest.Progress.{
  NodeProgress, new_progress, Writer, find, put, one_more, add_servers, write, write_all,
}

-- A writer that has counted `n` nodes, those with the indices below `n`, and `k` tests that are done.
pub record HasCounted (n k : ℕ) (w : Writer) : Type 0 where
  pub total : w.total ≡ n
  pub finished : w.finished ≡ k
  pub below : All (λ (e : ℤ × NodeProgress). (i : ℕ) × ((e.0 ≡ pos i) × (i < n))) w.nodes

-- The messages of servers with the indices from `i` on.
abbrev AreServers : ℕ → List Message → Type 0
AreServers i [] = Unit
AreServers i (m ∷ ms) = (m.id ≡ pos i) × AreServers (i + 1) ms

differs : (n i : ℕ) (j : ℤ) → j ≡ pos i → i < n → eq_ℤ (pos n) j ≡ false
differs n i j e h = subst (λ x. eq_ℤ (pos n) x ≡ false) (sym e) (ground arith)

pub if_else : {A : Type 0} (b : Bool) (x y : A) → b ≡ false → (if b then x else y) ≡ y
if_else true x y e = absurd (ground arith)
if_else false x y e = refl

find_fresh :
    (n : ℕ) (m : List (ℤ × NodeProgress))
    → All (λ (e : ℤ × NodeProgress). (i : ℕ) × ((e.0 ≡ pos i) × (i < n))) m
    → find (pos n) m ≡ none
unfolding find
find_fresh n [] h = refl
find_fresh n ((j, np) ∷ m) ((i, (e, l)), h) =
    if_else (eq_ℤ (pos n) j) (some np) (find (pos n) m) (differs n i j e l) ∙ find_fresh n m h

module _ (P : ℤ → Type 0) where
  All-if :
      (b : Bool) (x y : List (ℤ × NodeProgress))
      → All (λ (e : ℤ × NodeProgress). P e.0) x
      → All (λ (e : ℤ × NodeProgress). P e.0) y
      → All (λ (e : ℤ × NodeProgress). P e.0) (if b then x else y)
  All-if true x y p q = p
  All-if false x y p q = q

  All-put :
      (i : ℤ) (np : NodeProgress) (m : List (ℤ × NodeProgress))
      → P i
      → All (λ (e : ℤ × NodeProgress). P e.0) m
      → All (λ (e : ℤ × NodeProgress). P e.0) (put i np m)
  unfolding put
  All-put i np [] p h = (p, tt)
  All-put i np ((j, mp) ∷ m) p h = All-if (eq_ℤ i j) _ _ (h.0, h.1) (h.0, All-put i np m p h.1)

add_servers-HasCounted :
    (ms : List Message) (n k j : ℕ) (w : Writer)
    → AreServers n ms
    → j ≡ n + length ms
    → HasCounted n k w
    → HasCounted j k (add_servers ms w)
unfolding add_servers
add_servers-HasCounted [] n k j w s e h = subst (λ x. HasCounted x k w) (omega arith) h
add_servers-HasCounted (m ∷ ms) n k j w s e h =
    let fresh : find m.id w.nodes ≡ none =
      ap (λ (i : ℤ). find i w.nodes) s.0 ∙ find_fresh n w.nodes h.below in
    add_servers-HasCounted ms (n + 1) k j _ s.1 (omega arith) (record {
      total =
          ap (λ (o : Option NodeProgress). one_more o w.total) fresh
          ∙ ap (λ (x : ℕ). x + 1) h.total;
      finished = h.finished;
      below =
          All-put (λ (z : ℤ). (i : ℕ) × ((z ≡ pos i) × (i < n + 1))) m.id
            (new_progress m.remarks m.protocol) w.nodes (n, (s.0, omega arith))
            (All-map (λ x p. (p.0, (p.1.0, omega (arith, p.1.1)))) w.nodes h.below);
    })

-- What holds of the value, where there is one.
abbrev pub OnOk : {A : Type 0} → Outcome A → (A → Type 0) → Type 0
OnOk (ok a) P = P a
OnOk (err e) P = Unit
OnOk panic P = Unit

OnOk-bind :
    {A B : Type 0} (x : Outcome A) (f : A → Outcome B) (P : A → Type 0) (Q : B → Type 0)
    → OnOk x P
    → ((a : A) → P a → OnOk (f a) Q)
    → OnOk (x >>= f) Q
OnOk-bind (ok a) f P Q h k = k a h
OnOk-bind (err e) f P Q h k = tt
OnOk-bind panic f P Q h k = tt

module _ (join_host_port : Str → Str → Str) {F : Type 0} (go : GoLib F) where
  server_msg-id :
      (i : ℕ) (g l : Str) (c : Outcome Summary)
      → OnOk (server_msg join_host_port go i g l c) (λ m. m.id ≡ pos i)
  unfolding plain
  server_msg-id i g l (ok c) = refl
  server_msg-id i g l (err e) = refl
  server_msg-id i g l panic = tt

  server_msgs-AreServers :
      (i : ℕ) (ls gs : List Str)
      → OnOk
          (server_msgs join_host_port go i ls gs)
          (λ ms. AreServers i ms × (length ms ≡ length ls))
  unfolding server_msgs
  server_msgs-AreServers i [] gs = (tt, refl)
  server_msgs-AreServers i (l ∷ ls) gs =
      let g = first_group join_host_port go gs in
      let later = later_groups join_host_port go gs in
      OnOk-bind {B = List Message} (server_msg join_host_port go i g l (link_to_config go l)) _
        (λ m. m.id ≡ pos i) (λ ms. AreServers i ms × (length ms ≡ length (l ∷ ls)))
        (server_msg-id i g l (link_to_config go l))
        (λ m p.
          OnOk-bind {B = List Message} (server_msgs join_host_port go (i + 1) ls later)
            (λ ms. ok (m ∷ ms)) (λ ms. AreServers (i + 1) ms × (length ms ≡ length ls))
            (λ ms. AreServers i ms × (length ms ≡ length (l ∷ ls)))
            (server_msgs-AreServers (i + 1) ls later)
            (λ ms q. ((p, q.0), ap (λ (n : ℕ). suc n) q.1)))

-- Messages that bring a writer from `i` counted nodes to `j`, and change no count of tests.
abbrev pub Announces : ℕ → ℕ → Formats → List Sent → Type 0
Announces i j fmt ms = (k : ℕ) (w : Writer) → HasCounted i k w → HasCounted j k (write_all fmt ms w)

module _ (fmt : Formats) (o : ProfileTestOptions) (all_links groups : List Str) {F : Type 0}
    (go : GoLib F) (net : ℕ → Network) (join_host_port : Str → Str → Str) where
  gotservers_msg-Announces :
      (i j : ℕ) (ls gs : List Str)
      → j ≡ i + length ls
      → OnOk
          (gotservers_msg join_host_port go i ls gs)
          (λ m. (k : ℕ) (w : Writer) → HasCounted i k w → HasCounted j k (write fmt m w))
  unfolding gotservers_msg write plain str eq_str
  gotservers_msg-Announces i j ls gs e =
      OnOk-bind (server_msgs join_host_port go i ls gs) _
        (λ ms. AreServers i ms × (length ms ≡ length ls))
        (λ m. (k : ℕ) (w : Writer) → HasCounted i k w → HasCounted j k (write fmt m w))
        (server_msgs-AreServers join_host_port go i ls gs)
        (λ ms q k w h. add_servers-HasCounted ms i k j w q.0 (omega (arith, q.1)) h)

  announce-Announces :
      (i j : ℕ) (bs : List (ℕ × List Str)) (links : List Str)
      → AreBatches i bs links
      → j ≡ i + length links
      → OnOk (announce fmt o all_links groups go net join_host_port bs) (Announces i j fmt)
  unfolding announce write_all
  announce-Announces i j [] links h e =
      let d : i ≡ j = omega (arith, ap length h) in λ k w c. subst (λ x. HasCounted x k w) d c
  announce-Announces i j ((i', b) ∷ bs) links (p, (_, (_, (rest, (q, t))))) e =
      OnOk-bind (gotservers_msg join_host_port go i' b (groups_from groups o.group_name i' b)) _
        (λ m. (k : ℕ) (w : Writer) → HasCounted i k w → HasCounted (i + length b) k (write fmt m w))
        (Announces i j fmt)
        (subst
          (λ x.
            OnOk (gotservers_msg join_host_port go i' b (groups_from groups o.group_name i' b))
              (λ m.
                (k : ℕ) (w : Writer)
                → HasCounted x k w
                → HasCounted (i + length b) k (write fmt m w)))
          p
          (gotservers_msg-Announces i' (i + length b) b (groups_from groups o.group_name i' b)
            (omega (arith, p))))
        (λ m c.
          OnOk-bind (announce fmt o all_links groups go net join_host_port bs) _
            (Announces (i + length b) j fmt) (Announces i j fmt)
            (announce-Announces (i + length b) j bs rest t
              (omega (arith, length-append b rest, ap length q)))
            (λ ms d k w h. d k (write fmt m w) (c k w h)))

  pub opening-Announces :
      OnOk
        (opening fmt o all_links groups go net join_host_port)
        (λ ms. Announces 0 (length all_links) fmt ms)
  unfolding opening write_all write get_msg str eq_str
  opening-Announces =
      OnOk-bind (announce fmt o all_links groups go net join_host_port (batches all_links)) _
        (Announces 0 (length all_links) fmt) (λ ms. Announces 0 (length all_links) fmt ms)
        (announce-Announces 0 (length all_links) (batches all_links) all_links
          (batches-AreBatches all_links) (omega arith))
        (λ ms c. c)
