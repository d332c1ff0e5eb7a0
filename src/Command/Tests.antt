-- ===== src/Command/Tests.antt =====
-- Headers in two lists, and plans with one format, several and a wrong one.
use proxy_speedtest.Prelude.{◌≤◌, ◌≡◌, refl, List, [], ◌∷◌, none, some, map}
use proxy_speedtest.Text.{Str, str, eq_str}
use proxy_speedtest.Command.{HeaderKv, merge_header_lists, OutputTarget, parse_output_plan}
use proxy_speedtest.Command.Headers.{get, last_named, get-merge_header_lists, Distinct}
use proxy_speedtest.Command.Plan.{parse_output_plan-ArePlanned, ArePlanned, to_stdout}

abbrev low : List (List HeaderKv)
low =
    (record { name = str " Accept "; value = str "a" }
      ∷ record { name = str " "; value = str "b" }
      ∷ [])
    ∷ (record { name = str "ACCEPT"; value = str "c" } ∷ [])
    ∷ []

overridden : merge_header_lists low ≡ record { name = str "ACCEPT"; value = str "c" } ∷ []
unfolding proxy_speedtest.Command.add_groups proxy_speedtest.Command.add_headers
    proxy_speedtest.Command.add_header eq_str proxy_speedtest.Text.trim_space
    proxy_speedtest.Text.trim_right proxy_speedtest.Text.trim_left str proxy_speedtest.Text.is_space
    proxy_speedtest.Command.replace_or_add proxy_speedtest.Text.lower_byte
overridden = refl

get-merge_header_lists_example :
    Distinct (merge_header_lists low)
    × (get (str "accept") (merge_header_lists low) ≡ last_named (str "accept") low)
get-merge_header_lists_example = get-merge_header_lists (str "accept") low

abbrev noon : Str
noon = str "noon"

one_format :
    parse_output_plan noon (str "text") [] []
    ≡ some (record { format = str "text"; path = [] } ∷ [])
unfolding parse_output_plan proxy_speedtest.Command.read_formats proxy_speedtest.Text.split str
    eq_str proxy_speedtest.Text.trim_space proxy_speedtest.Text.trim_right
    proxy_speedtest.Text.trim_left proxy_speedtest.Text.is_space
    proxy_speedtest.Command.valid_format proxy_speedtest.Text.lower_byte
    proxy_speedtest.Command.make_targets
one_format = refl

wrong_format : parse_output_plan noon (str "json,xml") [] [] ≡ none
unfolding parse_output_plan proxy_speedtest.Command.read_formats proxy_speedtest.Text.split str
    eq_str proxy_speedtest.Text.trim_space proxy_speedtest.Text.trim_right
    proxy_speedtest.Text.trim_left proxy_speedtest.Text.is_space
    proxy_speedtest.Command.valid_format proxy_speedtest.Text.lower_byte
wrong_format = refl

csv_and_file :
    parse_output_plan noon (str "CSV, pic,none") (str "out") []
    ≡ some (
        record { format = str "csv"; path = str "out" }
        ∷ record { format = str "pic"; path = str "speedtest-noon.png" }
        ∷ [])
unfolding parse_output_plan proxy_speedtest.Command.read_formats proxy_speedtest.Text.split str
    eq_str proxy_speedtest.Text.trim_space proxy_speedtest.Text.trim_right
    proxy_speedtest.Text.trim_left proxy_speedtest.Text.is_space
    proxy_speedtest.Command.valid_format proxy_speedtest.Text.lower_byte
    proxy_speedtest.Command.make_targets proxy_speedtest.Command.timestamp_name
csv_and_file = refl

abbrev file_and_pic : List OutputTarget
file_and_pic =
    record { format = str "csv"; path = str "out" }
    ∷ record { format = str "pic"; path = str "speedtest-noon.png" }
    ∷ []

parse_output_plan-ArePlanned_example :
    ArePlanned (map (λ t. t.format) file_and_pic) × (to_stdout file_and_pic ≤ 1)
parse_output_plan-ArePlanned_example =
    parse_output_plan-ArePlanned noon (str "CSV, pic,none") (str "out") [] file_and_pic csv_and_file

-- A text and a table in one run have the same file.
one_file_for_two :
    parse_output_plan noon (str "text,table") [] []
    ≡ some (
        record { format = str "text"; path = str "speedtest-noon.txt" }
        ∷ record { format = str "table"; path = str "speedtest-noon.txt" }
        ∷ [])
unfolding parse_output_plan proxy_speedtest.Command.read_formats proxy_speedtest.Text.split str
    eq_str proxy_speedtest.Text.trim_space proxy_speedtest.Text.trim_right
    proxy_speedtest.Text.trim_left proxy_speedtest.Text.is_space
    proxy_speedtest.Command.valid_format proxy_speedtest.Text.lower_byte
    proxy_speedtest.Command.make_targets proxy_speedtest.Command.timestamp_name
    proxy_speedtest.Command.ext_for
one_file_for_two = refl
