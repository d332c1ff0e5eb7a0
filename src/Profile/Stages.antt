-- ===== src/Profile/Stages.antt =====
-- The messages of one test: their order and their index.
use proxy_speedtest.Prelude.{
  ℕ, ◌≡◌, refl, ap, ◌∙◌, Bool, true, false, ◌&&◌, not, List, [], ◌∷◌, ◌++◌, Option, none, some,
  if◌then◌else◌, arith,
}
use proxy_speedtest.Prelude.Int.{ℤ, pos, ltb_ℤ}
use proxy_speedtest.GoLib.{GoLib}
use proxy_speedtest.Text.{Str, str, eq_str}
use proxy_speedtest.Parser.Outcome.{Outcome, ok, err, panic}
use proxy_speedtest.Parser.Direct.{is_direct_link}
use proxy_speedtest.Config.{Summary, link_to_config}
use proxy_speedtest.Message.{Message, Formats, Arg, int64, get_msg}
use proxy_speedtest.Profile.{ProfileTestOptions}
use proxy_speedtest.Profile.Phase.{
  Event, sample, started, cancelled, Speeds, count_sample, consume, at_start, run_speed_phase,
}
use proxy_speedtest.Profile.One.{
  Network, Transfer, Pinged, Tested, tested, crashed, after_ping, ping_messages, no_speed,
  ping_link, phase, upload_of, upload_phase, after_ping_link, with_config, test_link, test_one,
  chosen_link, download_of, ping_only,
}

-- What the writer knows of a test.
pub data Stage : Type 0 where
  waiting pinging pinged skipped downloading uploading : Stage

-- The stage after a message; none where the message does not belong there.
unfoldable pub after : Stage → Str → Option Stage
after waiting t =
    if eq_str t (str "startping")
    then some pinging
    else if eq_str t (str "startspeed")
    then some downloading
    else none
after pinging t = if eq_str t (str "gotping") then some pinged else none
after pinged t =
    if eq_str t (str "gotspeed")
    then some skipped
    else if eq_str t (str "startspeed")
    then some downloading
    else none
after skipped t = if eq_str t (str "startspeed") then some downloading else none
after downloading t =
    if eq_str t (str "gotspeed")
    then some downloading
    else if eq_str t (str "startupload")
    then some uploading
    else none
after uploading t = if eq_str t (str "gotupload") then some uploading else none

-- Messages of the index `i` that lead from one stage to another.
pub data Leads (i : ℕ) : Stage → List Message → Stage → Type 0 where
  stop : (s : Stage) → Leads i s [] s
  send :
      (m : Message) {s u v : Stage} {ms : List Message}
      → m.id ≡ pos i
      → after s m.info ≡ some u
      → Leads i u ms v
      → Leads i s (m ∷ ms) v

pub Leads-append :
    {i : ℕ} {s u v : Stage} {xs ys : List Message}
    → Leads i s xs u
    → Leads i u ys v
    → Leads i s (xs ++ ys) v
Leads-append (stop s) q = q
Leads-append (send m e f p) q = send m e f (Leads-append p q)

get_msg-id : (fmt : Formats) (i : ℤ) (t : Str) (option : List Arg) → (get_msg fmt i t option).id ≡ i
unfolding get_msg
get_msg-id fmt i t option = ground arith

get_msg-info :
    (fmt : Formats) (i : ℤ) (t : Str) (option : List Arg) → (get_msg fmt i t option).info ≡ t
unfolding get_msg
get_msg-info fmt i t option = ground arith

-- One message more, at the end.
then_msg :
    {i : ℕ} {s u v : Stage} {ms : List Message} (fmt : Formats) (t : Str) (option : List Arg)
    → Leads i s ms u
    → after u t ≡ some v
    → Leads i s (ms ++ get_msg fmt (pos i) t option ∷ []) v
then_msg {i} {s} {u} {v} fmt t option p e = Leads-append p (
    send (get_msg fmt (pos i) t option) (get_msg-id fmt (pos i) t option)
      (ap (after u) (get_msg-info fmt (pos i) t option) ∙ e) (stop v))

module _ (fmt : Formats) (i : ℕ) (typ : Str) (s u : Stage) (stays : after u typ ≡ some u) where
  Leads-if :
      (b : Bool) (x y : Speeds)
      → Leads i s x.sent u
      → Leads i s y.sent u
      → Leads i s ((if b then x else y).sent) u
  Leads-if true x y p q = p
  Leads-if false x y p q = q

  consume-Leads :
      (es : List Event) (a : Speeds)
      → Leads i s a.sent u
      → Leads i s (consume fmt i typ es a).sent u
  unfolding consume count_sample
  consume-Leads [] a p = p
  consume-Leads (sample v now ∷ es) a p =
      Leads-if (ltb_ℤ v (pos 0)) a (consume fmt i typ es (count_sample fmt i typ v now a)) p
        (consume-Leads es (count_sample fmt i typ v now a) (then_msg fmt typ _ p stays))
  consume-Leads (started t ∷ es) a p = consume-Leads es (record a { start = t }) p
  consume-Leads (cancelled ∷ es) a p = p

module _ (fmt : Formats) (i : ℕ) (typ : Str) (u : Stage) (stays : after u typ ≡ some u) where
  run_speed_phase-Leads :
      (now : ℕ) (es : List Event) (speed : ℤ)
      → Leads i u (run_speed_phase fmt i typ now es speed).sent u
  unfolding run_speed_phase
  run_speed_phase-Leads now es speed =
      let p = consume-Leads fmt i typ u u stays es (at_start fmt i typ now) (stop u) in
      Leads-if fmt i typ u u stays (ltb_ℤ speed (pos 1)) _ _ (then_msg fmt typ _ p stays) p

-- A ping ends where a download may start.
data Ready : Stage → Type 0 where
  at_waiting : Ready waiting
  at_pinged : Ready pinged
  at_skipped : Ready skipped

starts : {s : Stage} → Ready s → after s (str "startspeed") ≡ some downloading
unfolding after eq_str str
starts at_waiting = refl
starts at_pinged = refl
starts at_skipped = refl

-- The messages of a ping.
abbrev Answers : ℕ → List Message → Type 0
Answers i ms = (s : Stage) × (Ready s × Leads i waiting ms s)

abbrev IsPing : ℕ → Pinged → Type 0
IsPing i p = Answers i p.sent

-- What a test sends and returns: messages in order, and a node of its index, if the link has a
-- configuration; nothing where it has none.
abbrev pub IsTest : ℕ → Tested → Type 0
IsTest i (tested ms none) = ms ≡ []
IsTest i (tested ms (some n)) = (n.id ≡ i) × ((s : Stage) × Leads i waiting ms s)
IsTest i crashed = Unit

IsPing-if :
    (i : ℕ) (b : Bool) (x y : Pinged) → IsPing i x → IsPing i y → IsPing i (if b then x else y)
IsPing-if i true x y p q = p
IsPing-if i false x y p q = q

IsTest-if :
    (i : ℕ) (b : Bool) (x y : Tested) → IsTest i x → IsTest i y → IsTest i (if b then x else y)
IsTest-if i true x y p q = p
IsTest-if i false x y p q = q

module _ (fmt : Formats) (o : ProfileTestOptions) (i : ℕ) where
  answered : (e : ℤ) → Leads i waiting (ping_messages fmt o i e) pinged
  unfolding after eq_str str
  answered e =
      then_msg fmt (str "gotping") (int64 e ∷ [])
        (then_msg fmt (str "startping") [] (stop waiting) refl) refl

  unanswered :
      (e : ℤ)
      → Leads i waiting (ping_messages fmt o i e ++ no_speed fmt o i (str "gotspeed") ∷ []) skipped
  unfolding after eq_str str
  unanswered e = then_msg fmt (str "gotspeed") _ (answered e) refl

  after_ping-IsPing : (link : Str) (r : ℤ × Bool) → IsPing i (after_ping fmt o i link r)
  after_ping-IsPing link (e, failed) =
      let yes : Answers i (ping_messages fmt o i e) = (pinged, (at_pinged, answered e)) in
      let no : Answers i (ping_messages fmt o i e ++ no_speed fmt o i (str "gotspeed") ∷ []) =
        (skipped, (at_skipped, unanswered e)) in
      IsPing-if i (ltb_ℤ e (pos 1)) _ _
        (IsPing-if i (is_direct_link link && not (ping_only fmt o)) _ _ yes no)
        (IsPing-if i (ping_only fmt o) _ _ no yes)

  ping_link-IsPing : (net : Network) (link : Str) → IsPing i (ping_link fmt o net i link)
  unfolding ping_link
  ping_link-IsPing net link =
      IsPing-if i (eq_str o.speed_test_mode (str "speedonly")) _ _
        (waiting, (at_waiting, stop waiting)) (after_ping-IsPing link (net.probe _))

  download-Leads :
      (t : Transfer) → Leads i downloading (phase fmt o i (str "gotspeed") t).sent downloading
  unfolding after eq_str str
  download-Leads t =
      run_speed_phase-Leads fmt i (str "gotspeed") downloading refl t.start t.events t.speed

  upload-Leads :
      (t : Transfer) → Leads i uploading (phase fmt o i (str "gotupload") t).sent uploading
  unfolding after eq_str str
  upload-Leads t =
      run_speed_phase-Leads fmt i (str "gotupload") uploading refl t.start t.events t.speed

  abbrev Uploads : Speeds → Type 0
  Uploads u = (s : Stage) × Leads i downloading u.sent s

  Uploads-if : (b : Bool) (x y : Speeds) → Uploads x → Uploads y → Uploads (if b then x else y)
  Uploads-if true x y p q = p
  Uploads-if false x y p q = q

  upload_phase-Uploads : (net : Network) (link : Str) → Uploads (upload_phase fmt o net i link)
  unfolding after eq_str str
  upload_phase-Uploads net link =
      Uploads-if (o.upload_enable && not net.stopped) _ _
        (
          uploading,
          Leads-append (then_msg fmt (str "startupload") [] (stop downloading) refl)
              (upload-Leads (net.transfer (upload_of fmt o link))),
        )
        (downloading, stop downloading)

  module _ (groups : List Str) where
    after_ping_link-IsTest :
        (net : Network) (link : Str) (c : Summary) (p : Pinged)
        → IsPing i p
        → IsTest i (after_ping_link fmt o groups net i link c p)
    after_ping_link-IsTest net link c p (s, (ready, k)) =
        let u = upload_phase-Uploads net link in
        let begins = then_msg fmt (str "startspeed") [] (stop s) (starts ready) in
        let ends = Leads-append (download-Leads (net.transfer (download_of fmt o link))) u.1 in
        IsTest-if i p.failed _ _ (refl, (s, k))
          (refl, (u.0, Leads-append k (Leads-append begins ends)))

    with_config-IsTest :
        (net : Network) (link : Str) (c : Outcome Summary)
        → IsTest i (with_config fmt o groups net i link c)
    with_config-IsTest net link (ok c) =
        after_ping_link-IsTest net link c _ (ping_link-IsPing net link)
    with_config-IsTest net link (err e) = refl
    with_config-IsTest net link panic = tt

    module _ {F : Type 0} (go : GoLib F) where
      test_link-IsTest :
          (net : Network) (l : Option Str) → IsTest i (test_link fmt o groups go net i l)
      test_link-IsTest net none = tt
      test_link-IsTest net (some l) = with_config-IsTest net l (link_to_config go l)

      -- When a test sends a node, the node has the index of the test, and all messages of the test carry
      -- that index and come in order: a ping and its answer (left out in the mode "speedonly"), then the
      -- download (which a ping without answer may announce as not available first), then the upload. A
      -- test that sends no node sends no message.
      pub test_one-IsTest :
          (net : Network) (links : List Str) (link : Str)
          → IsTest i (test_one fmt o groups go net links i link)
      unfolding test_one
      test_one-IsTest net links link = test_link-IsTest net (chosen_link fmt o groups links i link)
