-- ===== src/Message.antt =====
-- web/msg.go: the messages that a run sends to its writer, as values (json.Marshal and Unmarshal, with
-- the fields that it leaves out where empty, give back the value). The digits that fmt prints of a
-- float are a parameter.
use proxy_speedtest.Prelude.{
  ℕ, ◌+◌, Bool, true, false, not, ◌&&◌, ◌||◌, List, [], ◌∷◌, ◌++◌, if◌then◌else◌, ◌==◌,
}
use proxy_speedtest.Prelude.Int.{ℤ, pos, negsuc, ltb_ℤ}
use proxy_speedtest.GoLib.{GoLib}
use proxy_speedtest.Text.{Str, str, eq_str}
use proxy_speedtest.Xray.Config.{itoa}
use proxy_speedtest.Parser.Outcome.{Outcome, ok, err, panic, ◌>>=◌}
use proxy_speedtest.Config.{Summary, link_to_config}
use proxy_speedtest.Download.Speed.{Shown, bytes, scaled, byte_count}

-- `Message`, without `Servers` and without the addresses of "ipinfo".
pub record Message : Type 0 where
  pub id : ℤ
  pub info : Str
  pub remarks : Str
  pub server : Str
  pub group : Str
  pub ping : ℤ
  pub lost : Str
  pub speed : Str
  pub max_speed : Str
  pub upload_speed : Str
  pub max_upload_speed : Str
  pub traffic : ℤ
  pub link : Str
  pub protocol : Str
  pub pic_data : Str

-- What is written: the text for no nodes, a message without servers, or one with the servers.
pub data Sent : Type 0 where
  no_nodes : Sent
  single : Message → Sent
  with_servers : Message → List Message → Sent

-- `Message{ID: id, Info: info}`
unfoldable pub plain : ℤ → Str → Message
plain i info = record {
  id = i;
  info = info;
  remarks = [];
  server = [];
  group = [];
  ping = pos 0;
  lost = [];
  speed = [];
  max_speed = [];
  upload_speed = [];
  max_upload_speed = [];
  traffic = pos 0;
  link = [];
  protocol = [];
  pic_data = [];
}

-- An argument of the variadic `getMsgByte` with its dynamic type.
pub data Arg : Type 0 where
  int64 : ℤ → Arg
  int : ℤ → Arg
  string : Str → Arg

-- The type assertions: the value, or zero where the dynamic type is another.
abbrev pub as_int64 : List Arg → ℤ
as_int64 (int64 n ∷ rest) = n
as_int64 _ = pos 0

abbrev pub as_string : List Arg → Str
as_string (string s ∷ rest) = s
as_string _ = []

-- The three numbers of a speed message, which are read when there are two at least.
abbrev pub speeds_of : List Arg → ℤ × (ℤ × ℤ)
speeds_of (a ∷ b ∷ rest) = (as_int64 (a ∷ []), (as_int64 (b ∷ []), as_int64 rest))
speeds_of _ = (pos 0, (pos 0, pos 0))

-- strings.TrimRight
unfoldable pub trim_right : Str → Str → Str
trim_right [] set = []
trim_right (c ∷ s) set =
    let rest = trim_right s set in if in_set c set && empty rest then [] else c ∷ rest
  where
    in_set : ℕ → Str → Bool
    in_set c [] = false
    in_set c (d ∷ set) = (c == d) || in_set c set

    empty : Str → Bool
    empty [] = true
    empty (c ∷ s) = false

-- `fmt.Sprintf` with the formats "%d B/s" and "%.1f%cB/s", the second on the quotient of two numbers.
pub record Formats : Type 0 where
  pub small : ℤ → Str
  pub large : ℕ → ℕ → ℕ → Str

module _ (fmt : Formats) where
  abbrev pub print_shown : Shown → Str
  print_shown (bytes n) = fmt.small (pos n)
  print_shown (scaled b div exp) = fmt.large b div exp

  -- `ByteCountIEC`
  unfoldable pub byte_count_iec : ℤ → Str
  byte_count_iec (pos n) = print_shown (byte_count n)
  byte_count_iec (negsuc n) = fmt.small (negsuc n)

  -- The text of a speed in a message.
  unfoldable pub speed_text : ℤ → Str
  unfolding trim_right byte_count_iec str
  speed_text n = if ltb_ℤ n (pos 1) then str "N/A" else trim_right (byte_count_iec n) (str "/s")

  -- `getMsgByte`
  unfoldable pub get_msg : ℤ → Str → List Arg → Message
  unfolding plain speed_text eq_str str
  get_msg i typ option =
      let msg = plain i typ in
      let (speed, (max_speed, traffic)) = speeds_of option in
      if eq_str typ (str "gotping")
      then record msg { lost = str "0.00%"; ping = as_int64 option }
      else if eq_str typ (str "gotspeed")
      then record msg {
        speed = speed_text speed;
        max_speed = speed_text max_speed;
        traffic = traffic;
      }
      else if eq_str typ (str "gotupload")
      then record msg {
        upload_speed = speed_text speed;
        max_upload_speed = speed_text max_speed;
        traffic = traffic;
      }
      else if eq_str typ (str "picdata")
      then record msg { pic_data = as_string option }
      else msg

-- The protocol that is shown for a link, with the network of vmess and trojan.
unfoldable pub shown_protocol : Summary → Str
unfolding eq_str str
shown_protocol c =
    if (eq_str c.protocol (str "vmess") || eq_str c.protocol (str "trojan"))
      && not (eq_str c.net [])
    then c.protocol ++ (b'/' ∷ c.net)
    else c.protocol

module _ (join_host_port : Str → Str → Str) {F : Type 0} (go : GoLib F) where
  abbrev pub server_of : Summary → Str
  server_of c = if eq_str c.server [] then [] else join_host_port c.server (itoa c.port)

  -- The message of one link, whose group is "" where there are fewer groups than links.
  abbrev pub server_msg : ℕ → Str → Str → Outcome Summary → Outcome Message
  server_msg i group link (ok c) = ok (record (plain (pos i) (str "gotserver")) {
    group = group;
    remarks = c.remarks;
    server = server_of c;
    protocol = shown_protocol c;
    link = link;
  })
  server_msg i group link (err e) = ok (plain (pos i) (str "gotserver"))
  server_msg i group link panic = panic

  abbrev pub first_group : List Str → Str
  first_group [] = []
  first_group (g ∷ gs) = g

  abbrev pub later_groups : List Str → List Str
  later_groups [] = []
  later_groups (g ∷ gs) = gs

  unfoldable pub server_msgs : ℕ → List Str → List Str → Outcome (List Message)
  server_msgs i [] groups = ok []
  server_msgs i (l ∷ ls) groups = do
    m ← server_msg i (first_group groups) l (link_to_config go l)
    ms ← server_msgs (i + 1) ls (later_groups groups)
    ok (m ∷ ms)

  -- `gotserversMsg`
  unfoldable pub gotservers_msg : ℕ → List Str → List Str → Outcome Sent
  unfolding server_msgs
  gotservers_msg start links groups = do
    ms ← server_msgs start links groups
    ok (with_servers (plain (pos start) (str "gotservers")) ms)
