-- ===== src/Progress.antt =====
-- web/cmdprogress.go: the writer that shows the progress of a run on the command line.
pub mod Announce
pub mod Counts
mod Tests
use proxy_speedtest.Prelude.{
  ℕ, zero, suc, ◌+◌, Bool, true, false, not, ◌&&◌, ◌||◌, List, [], ◌∷◌, ◌++◌, Option, none, some,
  if◌then◌else◌,
}
use proxy_speedtest.Prelude.Int.{ℤ, pos, negsuc, ltb_ℤ}
use proxy_speedtest.Text.{Str, str, eq_str}
use proxy_speedtest.Xray.Config.{itoa}
use proxy_speedtest.Message.{Message, Sent, no_nodes, single, with_servers, Formats, byte_count_iec}
use proxy_speedtest.Profile.{eq_ℤ}
use proxy_speedtest.Profile.One.{decimal}

-- `nodeProgress`
pub record NodeProgress : Type 0 where
  pub remarks : Str
  pub protocol : Str
  pub down : Str
  pub up : Str
  pub ping : ℤ
  pub ping_set : Bool

unfoldable pub new_progress : Str → Str → NodeProgress
new_progress remarks protocol = record {
  remarks = remarks;
  protocol = protocol;
  down = [];
  up = [];
  ping = pos 0;
  ping_set = false;
}

-- The signs of the source in UTF-8: a check mark, a cross, the arrows down and up, and an ellipsis.
abbrev pub tick : Str
tick = 226 ∷ 156 ∷ 147 ∷ []

abbrev pub cross : Str
cross = 226 ∷ 156 ∷ 151 ∷ []

abbrev pub arrow_down : Str
arrow_down = 226 ∷ 134 ∷ 147 ∷ []

abbrev pub arrow_up : Str
arrow_up = 226 ∷ 134 ∷ 145 ∷ []

abbrev pub ellipsis : Str
ellipsis = 226 ∷ 128 ∷ 166 ∷ []

-- A speed that is known.
unfoldable pub is_shown : Str → Bool
is_shown s = not (eq_str s []) && not (eq_str s (str "N/A"))

abbrev pub has_ping : NodeProgress → Bool
has_ping np = np.ping_set && ltb_ℤ (pos 0) np.ping

-- strings.Join
unfoldable pub join : List Str → Str → Str
join [] sep = []
join (s ∷ []) sep = s
join (s ∷ t ∷ ss) sep = s ++ (sep ++ join (t ∷ ss) sep)

abbrev pub part : Bool → Str → List Str
part b s = if b then s ∷ [] else []

-- `parts`, before it is found to be empty.
unfoldable pub parts_of : NodeProgress → List Str
parts_of np =
    part (has_ping np) (str "ping " ++ (decimal np.ping ++ str "ms"))
    ++ (part (is_shown np.down) (arrow_down ++ (str " " ++ np.down))
        ++ part (is_shown np.up) (arrow_up ++ (str " " ++ np.up)))

abbrev pub or_ok : List Str → List Str
or_ok [] = str "ok" ∷ []
or_ok (p ∷ ps) = p ∷ ps

abbrev pub counter : ℕ → ℕ → Str
counter n total = str "[" ++ (itoa n ++ (str "/" ++ (itoa total ++ str "] ")))

-- `formatProgressLine`
unfoldable pub format_progress_line : ℕ → ℕ → NodeProgress → Str
format_progress_line n total np =
    let good = has_ping np || is_shown np.down in
    let status = if good then tick else cross in
    let metrics = if good then join (or_ok (parts_of np)) (str "  ") else str "failed" in
    counter n total ++ (status ++ (str " " ++ (np.remarks ++ (str "  " ++ metrics))))

-- `formatLiveProgressLine`, for the direction "up" or another.
unfoldable pub format_live_progress_line :
    Formats → ℕ → ℕ → NodeProgress → Bool → Str → Str → ℤ → Str
format_live_progress_line fmt n total np up average maximum current =
    let arrow = if up then arrow_up else arrow_down in
    let avg = if eq_str average [] then str "N/A" else average in
    let max = if eq_str maximum [] then str "N/A" else maximum in
    counter n total
    ++ (ellipsis
        ++ (str " "
            ++ (np.remarks
                ++ (str "  "
                    ++ (arrow
                        ++ (str " "
                            ++ (byte_count_iec fmt current
                                ++ (str "  avg " ++ (avg ++ (str "  max " ++ max))))))))))

-- `CMDProgressWriter`: the map as its entries, and the lines that are printed.
pub record Writer : Type 0 where
  pub nodes : List (ℤ × NodeProgress)
  pub total : ℕ
  pub finished : ℕ
  pub out : List Str

-- `NewCMDProgressWriter`
abbrev pub new_writer : Writer
new_writer = record { nodes = []; total = 0; finished = 0; out = [] }

unfoldable pub find : ℤ → List (ℤ × NodeProgress) → Option NodeProgress
find i [] = none
find i ((j, np) ∷ m) = let rest = find i m in if eq_ℤ i j then some np else rest

unfoldable pub put : ℤ → NodeProgress → List (ℤ × NodeProgress) → List (ℤ × NodeProgress)
put i np [] = (i, np) ∷ []
put i np ((j, mp) ∷ m) = let rest = put i np m in if eq_ℤ i j then (j, np) ∷ m else (j, mp) ∷ rest

abbrev pub one_more : Option NodeProgress → ℕ → ℕ
one_more none n = n + 1
one_more (some np) n = n

unfoldable pub add_servers : List Message → Writer → Writer
add_servers [] w = w
add_servers (s ∷ ss) w = add_servers ss (record w {
  total = one_more (find s.id w.nodes) w.total;
  nodes = put s.id (new_progress s.remarks s.protocol) w.nodes;
})

module _ (fmt : Formats) where
  -- The cases of the switch that look for a node.
  abbrev pub got_ping : Message → Option NodeProgress → Writer → Writer
  got_ping m none w = w
  got_ping m (some np) w = record w {
    nodes = put m.id (record np { ping = m.ping; ping_set = true }) w.nodes;
  }

  abbrev pub got_speed : Message → Option NodeProgress → Writer → Writer
  got_speed m none w = w
  got_speed m (some np) w =
      let mp = record np { down = m.speed } in
      record w {
        nodes = put m.id mp w.nodes;
        out =
            w.out
            ++ format_live_progress_line fmt w.finished w.total mp false m.speed m.max_speed
                m.traffic
              ∷ [];
      }

  abbrev pub got_upload : Message → Option NodeProgress → Writer → Writer
  got_upload m none w = w
  got_upload m (some np) w =
      let mp = record np { up = m.upload_speed } in
      record w {
        nodes = put m.id mp w.nodes;
        out =
            w.out
            ++ format_live_progress_line fmt w.finished w.total mp true m.upload_speed
                m.max_upload_speed m.traffic
              ∷ [];
      }

  abbrev pub or_profile : ℤ → Option NodeProgress → NodeProgress
  or_profile i none = new_progress (str "Profile " ++ decimal i) []
  or_profile i (some np) = np

  abbrev pub one_done : Message → Writer → Writer
  one_done m w =
      let n = w.finished + 1 in
      record w {
        finished = n;
        out = w.out ++ format_progress_line n w.total (or_profile m.id (find m.id w.nodes)) ∷ [];
      }

  -- The switch on `Info`, with the servers of the message.
  unfoldable pub write_message : Message → List Message → Writer → Writer
  write_message m servers w =
      if eq_str m.info (str "gotservers")
      then add_servers servers w
      else if eq_str m.info (str "gotping")
      then got_ping m (find m.id w.nodes) w
      else if eq_str m.info (str "gotspeed")
      then got_speed m (find m.id w.nodes) w
      else if eq_str m.info (str "gotupload")
      then got_upload m (find m.id w.nodes) w
      else if eq_str m.info (str "endone")
      then one_done m w
      else w

  -- `WriteMessage`; the text for no nodes has another `info`.
  unfoldable pub write : Sent → Writer → Writer
  unfolding write_message
  write no_nodes w = w
  write (single m) w = write_message m [] w
  write (with_servers m ms) w = write_message m ms w

  unfoldable pub write_all : List Sent → Writer → Writer
  write_all [] w = w
  write_all (m ∷ ms) w = write_all ms (write m w)
