-- ===== src/Progress/Tests.antt =====
-- The progress of a run with one direct test.
use proxy_speedtest.Prelude.{◌≡◌, refl, List, [], ◌∷◌, ◌++◌, length}
use proxy_speedtest.Prelude.Int.{pos, negsuc}
use proxy_speedtest.Text.{Str, str}
use proxy_speedtest.Message.{Message, Sent, single, with_servers, get_msg, plain}
use proxy_speedtest.Parser.Outcome.{ok}
use proxy_speedtest.Profile.Run.{opening}
use proxy_speedtest.Profile.Samples.{go, plain_digits, options, network, direct}
use proxy_speedtest.Progress.{new_writer, write_all}
use proxy_speedtest.Progress.Counts.{Shows, ends, singles, write_all-opening}

abbrev host_port : Str → Str → Str
host_port h p = h

-- What the run announces.
abbrev announced : List Sent
announced =
    single (get_msg plain_digits (negsuc 0) (str "started") [])
    ∷ with_servers (plain (pos 0) (str "gotservers")) (
        record (plain (pos 0) (str "gotserver")) {
          group = str "Default";
          remarks = str "Direct";
          protocol = str "direct";
          link = direct;
        }
        ∷ [])
    ∷ []

abbrev after_it : List Message
after_it =
    get_msg plain_digits (pos 0) (str "startping") []
    ∷ get_msg plain_digits (pos 0) (str "endone") []
    ∷ get_msg plain_digits (negsuc 0) (str "eof") []
    ∷ []

opening-announced :
    opening plain_digits (options [] []) (direct ∷ []) [] go network host_port ≡ ok announced
unfolding opening proxy_speedtest.Profile.Run.announce proxy_speedtest.Profile.Run.batches
    proxy_speedtest.Profile.Run.batch_loop proxy_speedtest.Profile.Run.step_for
    proxy_speedtest.Profile.Run.groups_from proxy_speedtest.Profile.group_for
    proxy_speedtest.Message.gotservers_msg proxy_speedtest.Message.server_msgs
    proxy_speedtest.Message.shown_protocol proxy_speedtest.Config.link_to_config
    proxy_speedtest.Config.summary_of proxy_speedtest.Parser.Link.parse_link
    proxy_speedtest.Text.trim_space proxy_speedtest.Text.trim_right proxy_speedtest.Text.trim_left
    proxy_speedtest.Text.cut proxy_speedtest.Text.eq_str str proxy_speedtest.Text.is_space
    proxy_speedtest.Parser.Link.first_parser proxy_speedtest.Parser.Link.can_parse
    proxy_speedtest.Parser.Direct.is_direct_link proxy_speedtest.Text.has_prefix
    proxy_speedtest.Text.lower_byte proxy_speedtest.Parser.Link.parse_with
    proxy_speedtest.Parser.Direct.parse proxy_speedtest.Parser.Direct.tag_of
    proxy_speedtest.Xray.Config.protocol_text plain get_msg
opening-announced = refl

write_all-opening_example :
    Shows
      (length (direct ∷ []))
      (ends after_it)
      (write_all plain_digits (announced ++ singles after_it) new_writer)
unfolding proxy_speedtest.Text.eq_str get_msg
write_all-opening_example =
    write_all-opening plain_digits (options [] []) (direct ∷ []) [] go network host_port announced
      after_it opening-announced (refl, (refl, (refl, tt)))

one_done : ends after_it ≡ 1
unfolding proxy_speedtest.Text.eq_str get_msg
one_done = refl
