-- ===== src/Progress/Counts.antt =====
-- The counters of the writer over the messages of a run.
use proxy_speedtest.Prelude.{
  ℕ, ◌+◌, ◌≡◌, refl, sym, ap, ◌∙◌, subst, Bool, true, false, List, [], ◌∷◌, ◌++◌, Option, none,
  some, if◌then◌else◌, length, All, arith,
}
use proxy_speedtest.GoLib.{GoLib}
use proxy_speedtest.Text.{Str, str, eq_str}
use proxy_speedtest.Text.Laws.{eq_of_eq_str}
use proxy_speedtest.Parser.Outcome.{Outcome, ok}
use proxy_speedtest.Message.{Message, Sent, single, Formats}
use proxy_speedtest.Profile.{ProfileTestOptions}
use proxy_speedtest.Profile.One.{Network}
use proxy_speedtest.Profile.Run.{opening}
use proxy_speedtest.Progress.{
  NodeProgress, Writer, new_writer, find, got_ping, got_speed, got_upload, one_done, write,
  write_all,
}
use proxy_speedtest.Progress.Announce.{OnOk, Announces, opening-Announces, if_else}

-- The counters alone.
abbrev pub Shows : ℕ → ℕ → Writer → Type 0
Shows n k w = (w.total ≡ n) × (w.finished ≡ k)

-- Messages that announce nothing; of them, those that end a test.
abbrev pub IsQuiet : Message → Type 0
IsQuiet m = eq_str m.info (str "gotservers") ≡ false

abbrev pub ends : List Message → ℕ
ends [] = 0
ends (m ∷ ms) = if eq_str m.info (str "endone") then ends ms + 1 else ends ms

abbrev pub singles : List Message → List Sent
singles [] = []
singles (m ∷ ms) = single m ∷ singles ms

Shows-if :
    (n k : ℕ) (b : Bool) (x y : Writer)
    → (b ≡ true → Shows n k x)
    → (b ≡ false → Shows n k y)
    → Shows n k (if b then x else y)
Shows-if n k true x y p q = p refl
Shows-if n k false x y p q = q refl

-- A text that is `t` is no other text `u`.
not_other : (s t u : Str) → eq_str s t ≡ true → eq_str t u ≡ false → eq_str s u ≡ false
not_other s t u p q = subst (λ x. eq_str x u ≡ false) (sym (eq_of_eq_str s t p)) q

module _ (fmt : Formats) (m : Message) (n k : ℕ) where
  got_ping-Shows :
      (o : Option NodeProgress) (w : Writer) → Shows n k w → Shows n k (got_ping fmt m o w)
  got_ping-Shows none w h = h
  got_ping-Shows (some np) w h = h

  got_speed-Shows :
      (o : Option NodeProgress) (w : Writer) → Shows n k w → Shows n k (got_speed fmt m o w)
  got_speed-Shows none w h = h
  got_speed-Shows (some np) w h = h

  got_upload-Shows :
      (o : Option NodeProgress) (w : Writer) → Shows n k w → Shows n k (got_upload fmt m o w)
  got_upload-Shows none w h = h
  got_upload-Shows (some np) w h = h

  counted : Bool → ℕ
  counted b = if b then k + 1 else k

  same_count :
      (t : Str) (w : Writer)
      → eq_str m.info t ≡ true
      → eq_str t (str "endone") ≡ false
      → Shows n k w
      → Shows n (if eq_str m.info (str "endone") then k + 1 else k) w
  same_count t w e f h =
      let d =
        if_else (eq_str m.info (str "endone")) (k + 1) k (not_other m.info t (str "endone") e f) in
      subst (λ j. Shows n j w) (sym d) h

  last_case :
      (b : Bool) (w : Writer)
      → Shows n k w
      → Shows n (if b then k + 1 else k) (if b then one_done fmt m w else w)
  last_case true w h = (h.0, ap (λ (x : ℕ). x + 1) h.1)
  last_case false w h = h

  write_one-Shows :
      (w : Writer)
      → IsQuiet m
      → Shows n k w
      → Shows n (if eq_str m.info (str "endone") then k + 1 else k) (write fmt (single m) w)
  unfolding write eq_str str
  write_one-Shows w q h =
      let j = if eq_str m.info (str "endone") then k + 1 else k in
      Shows-if n j (eq_str m.info (str "gotservers")) _ _ (λ e. absurd (ground arith))
        (λ _.
          Shows-if n j (eq_str m.info (str "gotping")) _ _
            (λ e.
              same_count (str "gotping") (got_ping fmt m (find m.id w.nodes) w) e refl
                (got_ping-Shows (find m.id w.nodes) w h))
            (λ _.
              Shows-if n j (eq_str m.info (str "gotspeed")) _ _
                (λ e.
                  same_count (str "gotspeed") (got_speed fmt m (find m.id w.nodes) w) e refl
                    (got_speed-Shows (find m.id w.nodes) w h))
                (λ _.
                  Shows-if n j (eq_str m.info (str "gotupload")) _ _
                    (λ e.
                      same_count (str "gotupload") (got_upload fmt m (find m.id w.nodes) w) e refl
                        (got_upload-Shows (find m.id w.nodes) w h))
                    (λ _. last_case (eq_str m.info (str "endone")) w h))))

one_end : (b : Bool) (x k : ℕ) → x + (if b then k + 1 else k) ≡ (if b then x + 1 else x) + k
one_end true x k = omega arith
one_end false x k = omega arith

module _ (fmt : Formats) where
  write_all-Shows :
      (ms : List Message) (n k : ℕ) (w : Writer)
      → All IsQuiet ms
      → Shows n k w
      → Shows n (ends ms + k) (write_all fmt (singles ms) w)
  unfolding write_all
  write_all-Shows [] n k w q h = (h.0, omega (arith, h.1))
  write_all-Shows (m ∷ ms) n k w q h =
      let j = if eq_str m.info (str "endone") then k + 1 else k in
      let c =
        write_all-Shows ms n j (write fmt (single m) w) q.1 (write_one-Shows fmt m n k w q.0 h) in
      (c.0, c.1 ∙ one_end (eq_str m.info (str "endone")) (ends ms) k)

  write_all-append :
      (ms ns : List Sent) (w : Writer)
      → write_all fmt (ms ++ ns) w ≡ write_all fmt ns (write_all fmt ms w)
  unfolding write_all
  write_all-append [] ns w = refl
  write_all-append (m ∷ ms) ns w = write_all-append ms ns (write fmt m w)

-- The announcement of a run, and then messages that announce nothing.
counted_after :
    (fmt : Formats) (n : ℕ) (ms : List Sent) (rest : List Message)
    → Announces 0 n fmt ms
    → All IsQuiet rest
    → Shows n (ends rest) (write_all fmt (ms ++ singles rest) new_writer)
counted_after fmt n ms rest a q =
    let start = a 0 new_writer (record { total = refl; finished = refl; below = tt }) in
    let c =
      write_all-Shows fmt rest n 0 (write_all fmt ms new_writer) q (start.total, start.finished) in
    subst (λ w. Shows n (ends rest) w) (sym (write_all-append fmt ms (singles rest) new_writer))
      (c.0, c.1 ∙ omega arith)

opened : {A : Type 0} (x : Outcome A) (a : A) (P : A → Type 0) → OnOk x P → x ≡ ok a → P a
opened x a P h e = subst (λ y. OnOk y P) e h

-- After the messages with which a run announces its links, and any messages after them that announce
-- nothing, in any order, the writer shows the number of links as total, and as done the number of those
-- messages that end a test.
pub write_all-opening :
    (fmt : Formats) (o : ProfileTestOptions) (links groups : List Str) {F : Type 0} (go : GoLib F)
    (net : ℕ → Network) (join_host_port : Str → Str → Str) (ms : List Sent) (rest : List Message)
    → opening fmt o links groups go net join_host_port ≡ ok ms
    → All IsQuiet rest
    → Shows (length links) (ends rest) (write_all fmt (ms ++ singles rest) new_writer)
write_all-opening fmt o links groups go net join_host_port ms rest e q =
    counted_after fmt (length links) ms rest
      (opened (opening fmt o links groups go net join_host_port) ms
        (λ xs. Announces 0 (length links) fmt xs)
        (opening-Announces fmt o links groups go net join_host_port) e)
      q
