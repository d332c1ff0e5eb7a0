-- ===== src/Profile/One.antt =====
-- web/profile.go `testOne` with `pingLink`, `ping` and `requestHeaders`: the test of one link, its
-- messages and its node. What the network answers is a parameter.
use proxy_speedtest.Prelude.{
  ℕ, zero, suc, Bool, true, false, not, ◌&&◌, List, [], ◌∷◌, ◌++◌, Option, none, some,
  if◌then◌else◌,
}
use proxy_speedtest.Prelude.Int.{ℤ, pos, negsuc, ltb_ℤ}
use proxy_speedtest.GoLib.{GoLib}
use proxy_speedtest.Text.{Str, str, eq_str, cut, trim_space}
use proxy_speedtest.Xray.Config.{itoa}
use proxy_speedtest.Parser.Outcome.{Outcome, ok, err, panic}
use proxy_speedtest.Parser.Direct.{is_direct_link}
use proxy_speedtest.Config.{Summary, link_to_config}
use proxy_speedtest.Command.{HeaderKv}
use proxy_speedtest.Download.Endpoint.{
  UploadProfile, get_upload_profile, get_download_url, get_upload_url,
}
use proxy_speedtest.Message.{Message, Formats, int, int64, get_msg, shown_protocol}
use proxy_speedtest.Profile.{ProfileTestOptions, group_for}
use proxy_speedtest.Profile.Phase.{Event, Speeds, run_speed_phase}

-- `render.Node`
pub record Node : Type 0 where
  pub id : ℕ
  pub group : Str
  pub remarks : Str
  pub protocol : Str
  pub ping : Str
  pub avg_speed : ℤ
  pub max_speed : ℤ
  pub upload_speed : ℤ
  pub max_upload_speed : ℤ
  pub success : Bool
  pub traffic : ℤ
  pub link : Str

-- A map of headers as its pairs: `h[name] = value`.
unfoldable pub set_header : Str → Str → List (Str × Str) → List (Str × Str)
set_header k v [] = (k, v) ∷ []
set_header k v ((j, w) ∷ h) = if eq_str j k then (k, v) ∷ h else (j, w) ∷ set_header k v h

unfoldable pub set_headers : List HeaderKv → List (Str × Str) → List (Str × Str)
set_headers [] h = h
set_headers (kv ∷ kvs) h =
    let name = trim_space kv.name in
    set_headers kvs (if eq_str name [] then h else set_header name kv.value h)

-- `requestHeaders`; a map without entries is the nil map.
unfoldable pub request_headers : ProfileTestOptions → Str → Bool → List (Str × Str)
request_headers o size_key is_download =
    let h = set_headers (if is_download then o.download_headers else o.upload_headers) [] in
    if eq_str size_key (str "worker") && is_download
    then set_header (str "Accept-Encoding") (str "identity") h
    else h

-- What `ping` calls: `request.PingLinkEndpoint`, or `request.PingLink` with two attempts.
pub data Probe : Type 0 where
  endpoint : Str → Str → List (Str × Str) → Probe
  site : Str → ℕ → Probe

unfoldable pub probe_of : ProfileTestOptions → Str → Probe
probe_of o link =
    if is_direct_link link
    then endpoint link (get_download_url o.download_size o.download_url)
        (request_headers o o.download_size true)
    else site link 2

-- `download.DownloadWithURLThreads` and `download.UploadWithURLThreads`.
pub data Request : Type 0 where
  download : Str → Str → List (Str × Str) → Request
  upload : Str → Str → List (Str × Str) → UploadProfile → Request

-- A transfer: the time it starts at, what its consumer receives, and the speed it returns.
pub record Transfer : Type 0 where
  pub start : ℕ
  pub events : List Event
  pub speed : ℤ

-- What one test meets: an elapsed time with whether there is an error, the transfers, and whether the
-- context has ended before the upload.
pub record Network : Type 0 where
  pub probe : Probe → ℤ × Bool
  pub transfer : Request → Transfer
  pub stopped : Bool

-- `p.Links[index]`; none where the index is out of range.
abbrev pub link_at : ℕ → List Str → Option Str
link_at i [] = none
link_at zero (l ∷ ls) = some l
link_at (suc i) (l ∷ ls) = link_at i ls

-- `strings.SplitN(link, "^", 2)[0]`
abbrev pub before_caret : Str → Str
before_caret l = elim (cut l (str "^")) [ none ↦ l | some (a, b) ↦ a ]

-- `fmt.Sprintf("%d", n)`
abbrev pub decimal : ℤ → Str
decimal (pos n) = itoa n
decimal (negsuc n) = b'-' ∷ itoa (suc n)

-- What `pingLink` sends and returns: the elapsed time, and whether there is an error.
pub record Pinged : Type 0 where
  pub sent : List Message
  pub elapse : ℤ
  pub failed : Bool

-- What `testOne` does: its messages, with a node or without, or a panic.
pub data Tested : Type 0 where
  tested : List Message → Option Node → Tested
  crashed : Tested

module _ (fmt : Formats) (o : ProfileTestOptions) where
  abbrev pub no_speed : ℕ → Str → Message
  no_speed index typ =
      get_msg fmt (pos index) typ (int (negsuc 0) ∷ int (negsuc 0) ∷ int (pos 0) ∷ [])

  abbrev pub ping_messages : ℕ → ℤ → List Message
  ping_messages index elapse =
      get_msg fmt (pos index) (str "startping") []
      ∷ get_msg fmt (pos index) (str "gotping") (int64 elapse ∷ [])
      ∷ []

  abbrev pub ping_only : Bool
  ping_only = eq_str o.speed_test_mode (str "pingonly")

  -- `pingLink` after `ping` has returned.
  abbrev pub after_ping : ℕ → Str → ℤ × Bool → Pinged
  after_ping index link (elapse, failed) =
      let sent = ping_messages index elapse in
      let last = sent ++ no_speed index (str "gotspeed") ∷ [] in
      if ltb_ℤ elapse (pos 1)
      then if is_direct_link link && not ping_only
        then record { sent = sent; elapse = pos 0; failed = false }
        else record { sent = last; elapse = pos 0; failed = failed }
      else if ping_only
      then record { sent = last; elapse = elapse; failed = true }
      else record { sent = sent; elapse = elapse; failed = failed }

  -- `pingLink`, for a link that is not empty
  unfoldable pub ping_link : Network → ℕ → Str → Pinged
  ping_link net index link =
      if eq_str o.speed_test_mode (str "speedonly")
      then record { sent = []; elapse = pos 0; failed = false }
      else after_ping index link (net.probe (probe_of o link))

  abbrev pub shown_remarks : ℕ → Summary → Str
  shown_remarks index c = if eq_str c.remarks [] then str "Profile " ++ itoa index else c.remarks

  abbrev pub download_of : Str → Request
  download_of link =
      download link (get_download_url o.download_size o.download_url)
        (request_headers o o.download_size true)

  abbrev pub upload_of : Str → Request
  upload_of link =
      upload link (get_upload_url o.upload_size o.upload_url)
        (request_headers o o.upload_size false) (get_upload_profile o.upload_size)

  abbrev pub phase : ℕ → Str → Transfer → Speeds
  phase index typ t = run_speed_phase fmt index typ t.start t.events t.speed

  -- The speeds of an upload that is left out.
  abbrev pub no_phase : Speeds
  no_phase = record { avg = pos 0; max = pos 0; sum = pos 0; start = 0; sent = [] }

  -- The upload, with the message that starts it.
  abbrev pub upload_phase : Network → ℕ → Str → Speeds
  upload_phase net index link =
      let u = phase index (str "gotupload") (net.transfer (upload_of link)) in
      if o.upload_enable && not net.stopped
      then record u { sent = get_msg fmt (pos index) (str "startupload") [] ∷ u.sent }
      else no_phase

  module _ (groups : List Str) where
    -- The node of a test whose ping has failed, or that only pings.
    abbrev pub unmeasured : ℕ → Summary → Pinged → Node
    unmeasured index c p = record {
      id = index;
      group = group_for groups o.group_name index;
      remarks = shown_remarks index c;
      protocol = shown_protocol c;
      ping = decimal p.elapse;
      avg_speed = pos 0;
      max_speed = pos 0;
      upload_speed = pos 0;
      max_upload_speed = pos 0;
      success = ltb_ℤ (pos 0) p.elapse;
      traffic = pos 0;
      link = [];
    }

    abbrev pub measured : ℕ → Summary → Pinged → Speeds → Speeds → Node
    measured index c p d u = record {
      id = index;
      group = group_for groups o.group_name index;
      remarks = shown_remarks index c;
      protocol = shown_protocol c;
      ping = decimal p.elapse;
      avg_speed = d.avg;
      max_speed = d.max;
      upload_speed = u.avg;
      max_upload_speed = u.max;
      success = true;
      traffic = d.sum;
      link = [];
    }

    -- `testOne` after the ping.
    abbrev pub after_ping_link : Network → ℕ → Str → Summary → Pinged → Tested
    after_ping_link net index link c p =
        let d = phase index (str "gotspeed") (net.transfer (download_of link)) in
        let u = upload_phase net index link in
        if p.failed
        then tested p.sent (some (unmeasured index c p))
        else tested (p.sent ++ (get_msg fmt (pos index) (str "startspeed") [] ∷ (d.sent ++ u.sent)))
            (some (measured index c p d u))

    -- `testOne` after `Link2Config`.
    abbrev pub with_config : Network → ℕ → Str → Outcome Summary → Tested
    with_config net index link (ok c) = after_ping_link net index link c (ping_link net index link)
    with_config net index link (err e) = tested [] none
    with_config net index link panic = crashed

    abbrev pub own_link : Option Str → Option Str
    own_link none = none
    own_link (some l) = some (before_caret l)

    abbrev pub chosen_link : List Str → ℕ → Str → Option Str
    chosen_link links index [] = own_link (link_at index links)
    chosen_link links index (c ∷ s) = some (c ∷ s)

    module _ {F : Type 0} (go : GoLib F) where
      abbrev pub test_link : Network → ℕ → Option Str → Tested
      test_link net index none = crashed
      test_link net index (some l) = with_config net index l (link_to_config go l)

      -- `testOne`, for a link or "", which stands for that of the index.
      unfoldable pub test_one : Network → List Str → ℕ → Str → Tested
      test_one net links index link = test_link net index (chosen_link links index link)
